-- ===== src/Packet/SetValues/Layout.antt =====
-- The bytes that the commands send.
use roastery.Prelude.{ℕ, ◌≤◌, ◌≡◌, refl, List, [], ◌∷◌, ◌++◌, length, length-append, arith}
use roastery.Outcome.{ok}
use roastery.Bytes.{Bytes, big_endian}
use roastery.Bytes.Words.{length-big_endian}
use roastery.Con.{Con, IsSupported}
use roastery.Ids
use roastery.Ids.{get_size, class_id, obj_id, array_id, field_id}
use roastery.Numeric
use roastery.Numeric.{int}
use roastery.Value
use roastery.Value.Payload.{payload}
use roastery.Fields.{Tuple, id, value}
use roastery.Command.ClassType
use roastery.Command.ObjectReference
use roastery.Command.ArrayReference
use roastery.Command.{Command}
use roastery.Packet.{CommandPacket}
use roastery.Packet.SetValues.{
  serialize_field_values, serialize_class_values, serialize_object_values, serialize_array_values,
  serialize_array_region,
}

-- The values, each behind the ID of its field.
abbrev pub field_values : Con → List (Tuple (id field_id ∷ value ∷ [])) → Bytes
field_values con [] = []
field_values con ((field, (v, _)) ∷ values) =
    big_endian (get_size field_id con) field ++ (payload con v.value ++ field_values con values)

abbrev pub array_values : Con → List (Tuple (value ∷ [])) → Bytes
array_values con [] = []
array_values con ((v, _) ∷ values) = payload con v.value ++ array_values con values

module _ (con : Con) (supported : IsSupported con) where
  pub serialize_field_values_lem :
      (values : List (Tuple (id field_id ∷ value ∷ [])))
      → serialize_field_values values con ≡ ok (field_values con values)
  unfolding serialize_field_values
  serialize_field_values_lem [] = refl
  serialize_field_values_lem ((field, (v, _)) ∷ values) = rw (
    Ids.RoundTrip.serialize-big_endian field_id con field supported.field_id,
    Value.Payload.serialize_as_untagged_lem con v.value supported.obj_id,
    serialize_field_values_lem values,
  )

  pub serialize_array_values_lem :
      (values : List (Tuple (value ∷ [])))
      → serialize_array_values values con ≡ ok (array_values con values)
  unfolding serialize_array_values
  serialize_array_values_lem [] = refl
  serialize_array_values_lem ((v, _) ∷ values) = rw (
    Value.Payload.serialize_as_untagged_lem con v.value supported.obj_id,
    serialize_array_values_lem values,
  )

-- Each of the three commands, over a connection with IDs of at most 8 bytes, sends the ID of the
-- class, object or array, for an array the index, and the values without tags, each with the ID of
-- its field before it for a class or an object. There is no header, and no count before the values.
pub set_values_layout :
    (con : Con) (class : CommandPacket (Command.class_type ClassType.set_values))
    (object : CommandPacket (Command.object_reference ObjectReference.set_values))
    (array : CommandPacket (Command.array_reference ArrayReference.set_values))
    → IsSupported con
    → (serialize_class_values class con
        ≡ ok (
            big_endian (get_size class_id con) class.fields.0 ++ field_values con class.fields.1.0))
      × (serialize_object_values object con
          ≡ ok (
              big_endian (get_size obj_id con) object.fields.0
              ++ field_values con object.fields.1.0))
      × (serialize_array_region array con
          ≡ ok (
              big_endian (get_size array_id con) array.fields.0
              ++ (big_endian 4 array.fields.1.0 ++ array_values con array.fields.1.1.0)))
unfolding serialize_class_values serialize_object_values serialize_array_region
set_values_layout con class object array supported = (
  rw (
    Ids.RoundTrip.serialize-big_endian class_id con class.fields.0 supported.obj_id,
    serialize_field_values_lem con supported class.fields.1.0,
  ),
  rw (
    Ids.RoundTrip.serialize-big_endian obj_id con object.fields.0 supported.obj_id,
    serialize_field_values_lem con supported object.fields.1.0,
  ),
  rw (
    Ids.RoundTrip.serialize-big_endian array_id con array.fields.0 supported.obj_id,
    serialize_array_values_lem con supported array.fields.1.1.0,
    Numeric.RoundTrip.serialize-big_endian int array.fields.1.0,
  ),
)

-- A command that sets no fields of a class, over a connection whose ID sizes are at most 8 bytes,
-- sends at most 8 bytes, fewer than the 11 of a header.
pub serialize_class_values_headless :
    (con : Con) (class : ℕ) (packet_id : ℕ)
    → IsSupported con
    → (sent : Bytes) × (serialize_class_values
          (record { id = packet_id; fields = (class, ([], tt)) })
          con
        ≡ ok sent)
      × (length sent ≤ 8)
unfolding serialize_class_values serialize_field_values
serialize_class_values_headless con class packet_id supported = (
  big_endian (get_size class_id con) class ++ [],
  rw (Ids.RoundTrip.serialize-big_endian class_id con class supported.obj_id),
  omega (
    arith,
    length-append (big_endian (get_size class_id con) class) [],
    length-big_endian (get_size class_id con) class,
    supported.obj_id,
  ),
)
