-- ===== src/Tests/FieldTypes.antt =====
-- The field types.
use roastery.Prelude.{
  ◌+◌, ◌*◌, ◌/◌, ◌^◌, ◌≡◌, refl, none, some, [], ◌∷◌, ◌++◌, replicate, length, arith,
}
use roastery.Outcome.{ok, undefined, Ends}
use roastery.Bytes.{Bytes, memory_of}
use roastery.Con.{Con}
use roastery.Tags
use roastery.Tags.{JdwpTag}
use roastery.Numeric
use roastery.Numeric.{int, short, byte}
use roastery.Ids
use roastery.Ids.RoundTrip.{from_encoded-serialize_id, from_encoded_overflow}
use roastery.Tagged
use roastery.Tagged.RoundTrip.{from_encoded_zero_byte}
use roastery.Location
use roastery.Location.RoundTrip.{from_encoded-serialize_location}
use roastery.Value
use roastery.Value.Payload.{payload}
use roastery.Region
use roastery.Region.RoundTrip.{region, from_encoded-serialize_array_region}
use roastery.Region.Items.{IsRegion, primitives}
use roastery.Region.Constructor.{owned, serialize-construct}
use roastery.Region.Termination.{from_encoded-Ends}
use roastery.Tests.{con}

-- A `JdwpInt` of 0x12345678, as in test/src/jdwp_type_test.cpp.
int_bytes : Numeric.serialize int 0x12345678 ≡ 0x12 ∷ 0x34 ∷ 0x56 ∷ 0x78 ∷ []
unfolding Numeric.serialize Numeric.write_back memory_of
int_bytes = refl

abbrev wide : Con
wide = record {
  get_obj_id_size = 9;
  get_method_id_size = 4;
  get_field_id_size = 4;
  get_frame_id_size = 4;
}

abbrev narrow : Con
narrow = record {
  get_obj_id_size = 2;
  get_method_id_size = 2;
  get_field_id_size = 2;
  get_frame_id_size = 2;
}

from_encoded_overflow_example :
    Ids.from_encoded Ids.obj_id wide 0 ((1 ∷ 2 ∷ 3 ∷ 4 ∷ 5 ∷ 6 ∷ 7 ∷ 8 ∷ 9 ∷ []) ++ []) ≡ undefined
from_encoded_overflow_example =
    from_encoded_overflow Ids.obj_id wide 0 (1 ∷ 2 ∷ 3 ∷ 4 ∷ 5 ∷ 6 ∷ 7 ∷ 8 ∷ 9 ∷ []) [] refl
      (omega arith)

from_encoded-serialize_id_example :
    (bs : Bytes) × (Ids.serialize Ids.obj_id narrow 0x1234 ≡ ok bs)
    × (Ids.from_encoded Ids.obj_id narrow 0xAABBCC (bs ++ (5 ∷ []))
        ≡ ok (2, 0x1234 + 256 ^ 2 * (0xAABBCC / 256 ^ 2)))
from_encoded-serialize_id_example =
    from_encoded-serialize_id Ids.obj_id narrow 0x1234 0xAABBCC (5 ∷ []) (omega arith) (omega arith)
      (omega arith)

abbrev object : Tagged.JdwpTaggedObjectId
object = record { tag = JdwpTag.string; obj_id = 0x1234 }

abbrev no_object : Tagged.JdwpTaggedObjectId
no_object = record { tag = JdwpTag.object; obj_id = 0 }

from_encoded_zero_byte_example :
    Tagged.from_encoded no_object con (76 ∷ ((1 ∷ 2 ∷ []) ++ (0 ∷ 3 ∷ 4 ∷ 5 ∷ 6 ∷ 7 ∷ [])))
    ≡ undefined
from_encoded_zero_byte_example =
    from_encoded_zero_byte no_object con 76 (1 ∷ 2 ∷ []) (3 ∷ 4 ∷ 5 ∷ 6 ∷ 7 ∷ [])
      (omega arith, (omega arith, tt)) (omega arith)

abbrev here : Location.JdwpLocation
here = record {
  type_tag = Tags.JdwpTypeTag.class;
  class_value = 0x1234;
  method_value = 7;
  index = 0x123456789ABCDEFF;
}

abbrev nowhere : Location.JdwpLocation
nowhere = record { type_tag = Tags.JdwpTypeTag.class; class_value = 0; method_value = 0; index = 0 }

here-IsValid : Location.RoundTrip.IsValid narrow here
here-IsValid = record {
  class_size = omega arith;
  method_size = omega arith;
  class_fits = omega arith;
  method_fits = omega arith;
  index_fits = omega arith;
}

abbrev number : Value.JdwpValue
number = record { tag = JdwpTag.int; value = Value.JdwpVal.int 0x12345678 }

number-IsValid : Value.Payload.IsValid con JdwpTag.int (Value.JdwpVal.int 0x12345678)
number-IsValid = Value.Payload.is_int (omega arith)

serialize-construct_example :
    (r : Region.JdwpArrayRegion) × (Region.construct JdwpTag.int (owned (number ∷ [])) ≡ ok r)
    × (r.values ≡ some (replicate (length (owned (number ∷ []))) none ++ owned (number ∷ [])))
    × (Region.serialize r con ≡ undefined)
serialize-construct_example = serialize-construct JdwpTag.int con number []

from_encoded-Ends_example : Ends (Region.from_encoded con (76 ∷ 255 ∷ 255 ∷ 255 ∷ 255 ∷ []))
from_encoded-Ends_example = from_encoded-Ends con (76 ∷ 255 ∷ 255 ∷ 255 ∷ 255 ∷ [])

numbers-IsRegion : IsRegion con JdwpTag.int (number ∷ number ∷ [])
unfolding Value.get_size_by_tag Value.tag_is_obj_type
numbers-IsRegion =
    primitives 4 refl refl (omega arith) ((refl, number-IsValid), ((refl, number-IsValid), tt))

from_encoded-serialize_array_region_example :
    (bs : Bytes) × (Region.serialize (region JdwpTag.int (number ∷ number ∷ [])) con ≡ ok bs)
    × (Region.from_encoded con (bs ++ [])
        ≡ ok (length bs, region JdwpTag.int (number ∷ number ∷ [])))
from_encoded-serialize_array_region_example =
    from_encoded-serialize_array_region con JdwpTag.int (number ∷ number ∷ []) [] (omega arith)
      (omega arith) numbers-IsRegion
