-- ===== src/Packet/SetCommand.antt =====
-- src/jdwp_packet.cpp and src/include/jdwp_packet.hpp: `event_request::SetCommand`, which writes
-- its own body.
pub mod RoundTrip
pub mod Framing
use roastery.Prelude.{ℕ, ◌+◌, List, [], ◌∷◌, ◌++◌, length}
use roastery.Outcome.{Outcome, ok, ◌>>=◌}
use roastery.Bytes.{Bytes}
use roastery.Con.{Con}
use roastery.Numeric
use roastery.Numeric.{byte, bool, int, assign}
use roastery.Ids.{thread_id, reference_type_id, field_id, obj_id}
use roastery.Fields.{FieldType, Tuple, numeric, id, string, location, serialize_tuple}
use roastery.Packet.{produce_header}

-- The alternatives of the variant `Modifier`, by their indexes.
pub data Alternative : Type 0 where
  alternative_0 alternative_1 alternative_2 alternative_3 alternative_4 alternative_5 : Alternative
  alternative_6 alternative_7 alternative_8 alternative_9 alternative_10 : Alternative
  alternative_11 : Alternative

-- `modifier.index()`.
unfoldable pub index : Alternative → ℕ
index alternative_0 = 0
index alternative_1 = 1
index alternative_2 = 2
index alternative_3 = 3
index alternative_4 = 4
index alternative_5 = 5
index alternative_6 = 6
index alternative_7 = 7
index alternative_8 = 8
index alternative_9 = 9
index alternative_10 = 10
index alternative_11 = 11

abbrev pub modifier_fields : Alternative → List FieldType
modifier_fields alternative_0 = numeric int ∷ []
modifier_fields alternative_1 = numeric int ∷ []
modifier_fields alternative_2 = id thread_id ∷ []
modifier_fields alternative_3 = id reference_type_id ∷ []
modifier_fields alternative_4 = string ∷ []
modifier_fields alternative_5 = string ∷ []
modifier_fields alternative_6 = location ∷ []
modifier_fields alternative_7 = id reference_type_id ∷ numeric bool ∷ numeric bool ∷ []
modifier_fields alternative_8 = id reference_type_id ∷ id field_id ∷ []
modifier_fields alternative_9 = id thread_id ∷ numeric int ∷ numeric int ∷ []
modifier_fields alternative_10 = id obj_id ∷ []
modifier_fields alternative_11 = string ∷ []

pub record Modifier : Type 0 where
  pub alternative : Alternative
  pub values : Tuple (modifier_fields alternative)

pub record SetCommand : Type 0 where
  pub packet_id : ℕ
  pub event_kind : ℕ
  pub suspend_policy : ℕ
  pub modifiers : List Modifier

-- The loop over the modifiers: `modKind`, then the fields of the tuple.
unfoldable pub serialize_modifiers : List Modifier → Con → Outcome Bytes
unfolding index serialize_tuple
serialize_modifiers [] con = ok []
serialize_modifiers (modifier ∷ modifiers) con = do
  let mod_kind = assign byte (index modifier.alternative + 1)
  values ← serialize_tuple (modifier_fields modifier.alternative) modifier.values con
  rest ← serialize_modifiers modifiers con
  ok (Numeric.serialize byte mod_kind ++ (values ++ rest))

unfoldable pub serialize_body : SetCommand → Con → Outcome Bytes
unfolding serialize_modifiers
serialize_body command con = do
  let mod_len = assign int (length command.modifiers)
  modifiers ← serialize_modifiers command.modifiers con
  ok (
      Numeric.serialize byte command.event_kind
      ++ (Numeric.serialize byte command.suspend_policy
          ++ (Numeric.serialize int mod_len ++ modifiers)))

-- `SetCommand::SerializeImpl`: the command set is `kEventRequest` and the command `kSet`.
unfoldable pub serialize_impl : SetCommand → Con → Outcome Bytes
unfolding serialize_body produce_header
serialize_impl command con = do
  body ← serialize_body command con
  header ← produce_header 15 1 (length body) command.packet_id
  ok (header ++ body)
