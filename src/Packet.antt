-- ===== src/Packet.antt =====
-- src/jdwp_packet.cpp and src/include/jdwp_packet.hpp: packet IDs, the header of a command packet,
-- and the serialization of the classes that `CommandPacketBase` implements.
pub mod Framing
pub mod RoundTrip
pub mod PacketId
pub mod Sent
pub mod SetValues
pub mod SetCommand
use roastery.Prelude.{ℕ, ◌+◌, ◌-◌, ◌%◌, ◌^◌, List, [], ◌∷◌, ◌++◌, length, ltb, not}
use roastery.Outcome.{Outcome, ok, raised, jdwp_exception, ◌>>=◌, ◌>>◌, guard}
use roastery.Bytes.{Bytes, memory_of}
use roastery.HostOrder.{htonl}
use roastery.Con.{Con}
use roastery.Fields.{Elements, serialize_elements}
use roastery.Command.{Command, command_set, command, request}

-- `kHeaderLen`.
abbrev pub header_len : ℕ
header_len = 11

-- `UINT32_MAX`.
abbrev pub uint32_max : ℕ
uint32_max = 2 ^ 32 - 1

-- `JdwpFlags::kNone`.
abbrev pub no_flags : ℕ
no_flags = 0

-- The result, and `next_id` after the call. The lock makes the call one step.
unfoldable pub get_next_id : ℕ → ℕ × ℕ
get_next_id next_id = (next_id, (next_id + 1) % 2 ^ 32)

unfoldable pub produce_header : ℕ → ℕ → ℕ → ℕ → Outcome Bytes
produce_header command_set command body_len id = do
  guard (not (ltb (uint32_max - 11) body_len)) (jdwp_exception "Body too long")
  let len_nbo = htonl ((body_len % 2 ^ 32 + header_len) % 2 ^ 32)
  let id_nbo = htonl id
  ok (memory_of 4 len_nbo ++ (memory_of 4 id_nbo ++ (no_flags ∷ command_set ∷ command ∷ [])))

-- An object of one of the classes: its ID and its fields.
pub record CommandPacket (c : Command) : Type 0 where
  pub id : ℕ
  pub fields : Elements (request c)

-- The constructor: the ID is the next one. Also `next_id` after it.
unfoldable pub new_packet : (c : Command) → Elements (request c) → ℕ → CommandPacket c × ℕ
unfolding get_next_id
new_packet c fields next_id =
    let (id, later) = get_next_id next_id in (record { id = id; fields = fields }, later)

-- `CommandPacketBase::SerializeImpl`, which three of these classes inherit and override.
unfoldable pub serialize_impl : (c : Command) → CommandPacket c → Con → Outcome Bytes
unfolding serialize_elements produce_header
serialize_impl c packet con = do
  body ← serialize_elements (request c) packet.fields con
  header ← produce_header (command_set c) (command c) (length body) packet.id
  ok (header ++ body)
