-- ===== src/Tests/Blank.antt =====
-- Fields of new objects, as if their memory were zero.
use native.Mathlib.Nat.{pow-le-pow_right}
use roastery.Prelude.{ℕ, ◌<◌, ◌^◌, some, List, [], ◌∷◌, arith}
use roastery.Tags
use roastery.Tags.{JdwpTag}
use roastery.Value
use roastery.Fields.{
  FieldType, Field, Tuple, numeric, id, tagged_object_id, location, string, value, array_region,
}
use roastery.Fields.Valid.{IsClear, IsClearTuple}
use roastery.Ids
use roastery.Ids.{get_size}
use roastery.Con.{Con}

abbrev blank_field : (t : FieldType) → Field t
blank_field (numeric n) = 0
blank_field (id t) = 0
blank_field tagged_object_id = record { tag = JdwpTag.object; obj_id = 0 }
blank_field location = record {
  type_tag = Tags.JdwpTypeTag.class;
  class_value = 0;
  method_value = 0;
  index = 0;
}
blank_field string = []
blank_field value = record { tag = JdwpTag.void; value = Value.JdwpVal.void_value }
blank_field array_region = record { tag = JdwpTag.void; values = some [] }

abbrev pub blank_tuple : (ts : List FieldType) → Tuple ts
blank_tuple [] = tt
blank_tuple (t ∷ ts) = (blank_field t, blank_tuple ts)

power_positive : (n : ℕ) → 0 < 256 ^ n
power_positive n =
    omega (arith, pow-le-pow_right {n = 256} (omega arith) {i = 0} {j = n} (omega arith))

-- Zero is an ID of any size.
module _ (con : Con) where
  blank_field-IsClear : (t : FieldType) → IsClear con t (blank_field t)
  blank_field-IsClear (id t) = power_positive (get_size t con)
  blank_field-IsClear tagged_object_id = power_positive (get_size Ids.obj_id con)
  blank_field-IsClear location =
      (power_positive (get_size Ids.class_id con), power_positive (get_size Ids.method_id con))
  blank_field-IsClear _ = tt

  pub blank_tuple-IsClear : (ts : List FieldType) → IsClearTuple con ts (blank_tuple ts)
  blank_tuple-IsClear [] = tt
  blank_tuple-IsClear (t ∷ ts) = (blank_field-IsClear t, blank_tuple-IsClear ts)
