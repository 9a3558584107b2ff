-- ===== src/Packet/SetValues.antt =====
-- src/jdwp_packet.cpp: the three `SetValuesCommand::SerializeImpl` that replace that of
-- `CommandPacketBase`.
pub mod Layout
use roastery.Prelude.{ℕ, List, [], ◌∷◌, ◌++◌}
use roastery.Outcome.{Outcome, ok, ◌>>=◌}
use roastery.Bytes.{Bytes}
use roastery.Con.{Con}
use roastery.Ids
use roastery.Ids.{class_id, obj_id, array_id, field_id}
use roastery.Numeric
use roastery.Numeric.{int}
use roastery.Value
use roastery.Fields.{Tuple, id, value}
use roastery.Command.ClassType
use roastery.Command.ObjectReference
use roastery.Command.ArrayReference
use roastery.Command.{Command}
use roastery.Packet.{CommandPacket}

-- The loop over the IDs of fields and their values, in the two commands that have it.
unfoldable pub serialize_field_values :
    List (Tuple (id field_id ∷ value ∷ [])) → Con → Outcome Bytes
serialize_field_values [] con = ok []
serialize_field_values ((field, (v, _)) ∷ values) con = do
  field_bytes ← Ids.serialize field_id con field
  value_bytes ← Value.serialize_as_untagged v.value con
  rest ← serialize_field_values values con
  ok (field_bytes ++ (value_bytes ++ rest))

-- The loop over the values of an array.
unfoldable pub serialize_array_values : List (Tuple (value ∷ [])) → Con → Outcome Bytes
serialize_array_values [] con = ok []
serialize_array_values ((v, _) ∷ values) con = do
  value_bytes ← Value.serialize_as_untagged v.value con
  rest ← serialize_array_values values con
  ok (value_bytes ++ rest)

unfoldable pub serialize_class_values :
    CommandPacket (Command.class_type ClassType.set_values) → Con → Outcome Bytes
unfolding serialize_field_values
serialize_class_values packet con =
    let (class, (values, _)) = packet.fields in
    do
      class_bytes ← Ids.serialize class_id con class
      rest ← serialize_field_values values con
      ok (class_bytes ++ rest)

unfoldable pub serialize_object_values :
    CommandPacket (Command.object_reference ObjectReference.set_values) → Con → Outcome Bytes
unfolding serialize_field_values
serialize_object_values packet con =
    let (object, (values, _)) = packet.fields in
    do
      object_bytes ← Ids.serialize obj_id con object
      rest ← serialize_field_values values con
      ok (object_bytes ++ rest)

unfoldable pub serialize_array_region :
    CommandPacket (Command.array_reference ArrayReference.set_values) → Con → Outcome Bytes
unfolding serialize_array_values
serialize_array_region packet con =
    let (array, (first_index, (values, _))) = packet.fields in
    do
      array_bytes ← Ids.serialize array_id con array
      rest ← serialize_array_values values con
      ok (array_bytes ++ (Numeric.serialize int first_index ++ rest))
