-- ===== src/Fields/Valid.antt =====
-- The values of a field that it can be sent with and read back, and the fields that a value can be
-- read into.
use roastery.Prelude.{◌<◌, ◌^◌, ◌≡◌, List, [], ◌∷◌, All, length}
use roastery.Bytes.{big_endian}
use roastery.Con.{Con}
use roastery.Tags.{IsNamed, IsNamedType}
use roastery.Numeric.{value_size}
use roastery.Ids.{class_id, method_id, obj_id}
use roastery.Ids.RoundTrip.{Fits}
use roastery.Location.RoundTrip.{IsValid as IsLocation}
use roastery.Value.{JdwpValue}
use roastery.Value.Payload.{IsValid as IsValue}
use roastery.Region.Items.{IsRegion}
use roastery.Region.RoundTrip.{region}
use roastery.Fields.{
  FieldType, Field, Tuple, numeric, id, tagged_object_id, location, string, value, array_region,
}

-- Numbers and IDs fit their types, tags have names, lengths fit 32 bits, and no byte of a tagged
-- object ID is zero.
abbrev pub IsValid : Con → (t : FieldType) → Field t → Type 0
IsValid con (numeric n) v = v < 256 ^ value_size n
IsValid con (id t) v = Fits t con v
IsValid con tagged_object_id v =
    IsNamed v.tag
    × Fits obj_id con v.obj_id
    × All (λ b. 0 < b) (big_endian con.get_obj_id_size v.obj_id)
IsValid con location v = IsLocation con v × IsNamedType v.type_tag
IsValid con string v = length v < 2 ^ 32
IsValid con value v = IsValue con v.tag v.value
IsValid con array_region v =
    (values : List JdwpValue) × (v ≡ region v.tag values)
    × (length values < 2 ^ 32)
    × IsRegion con v.tag values

-- The IDs of the field have clear bytes above those that travel, as zeroed memory has.
abbrev pub IsClear : Con → (t : FieldType) → Field t → Type 0
IsClear con (id t) old = Fits t con old
IsClear con tagged_object_id old = Fits obj_id con old.obj_id
IsClear con location old = Fits class_id con old.class_value × Fits method_id con old.method_value
IsClear con _ old = Unit {0}

abbrev pub IsValidTuple : Con → (ts : List FieldType) → Tuple ts → Type 0
IsValidTuple con [] tuple = Unit {0}
IsValidTuple con (t ∷ ts) (v, tuple) = IsValid con t v × IsValidTuple con ts tuple

abbrev pub IsClearTuple : Con → (ts : List FieldType) → Tuple ts → Type 0
IsClearTuple con [] tuple = Unit {0}
IsClearTuple con (t ∷ ts) (v, tuple) = IsClear con t v × IsClearTuple con ts tuple
