-- ===== src/Packet/Sent.antt =====
-- src/jdwp_packet.cpp: what is sent for a packet of a class that keeps the `SerializeImpl` of
-- `CommandPacketBase`.
use roastery.Prelude.{◌-◌, ◌^◌, ◌≤◌, ◌<◌, ◌≡◌, refl, sym, ◌∙◌, length}
use roastery.Outcome.{ok}
use roastery.Bytes.{Bytes}
use roastery.Con.{Con, IsSupported}
use roastery.Fields.{serialize_elements}
use roastery.Fields.Body.{Blanks, AreValid, AreClear}
use roastery.Command.{Command, command_set, command, request}
use roastery.Command.ClassType
use roastery.Command.ObjectReference
use roastery.Command.ArrayReference
use roastery.Packet.{CommandPacket, serialize_impl}
use roastery.Packet.Framing.{IsFramed, IsFramed-serialize_impl}
use roastery.Packet.RoundTrip.{IsReadAs, serialize_impl-IsReadAs}
use roastery.Connection.Outgoing.{command_packet, serialize}

-- The class does not override `SerializeImpl`.
abbrev pub Inherits : Command → Type 0
Inherits (Command.class_type ClassType.set_values) = ⊥
Inherits (Command.object_reference ObjectReference.set_values) = ⊥
Inherits (Command.array_reference ArrayReference.set_values) = ⊥
Inherits c = Unit

serialize-inherited :
    (c : Command) (packet : CommandPacket c) (con : Con)
    → Inherits c
    → serialize (command_packet c packet) con ≡ serialize_impl c packet con
unfolding serialize
serialize-inherited (Command.class_type ClassType.set_values) packet con h = absurd h
serialize-inherited (Command.object_reference ObjectReference.set_values) packet con h = absurd h
serialize-inherited (Command.array_reference ArrayReference.set_values) packet con h = absurd h
serialize-inherited c packet con h = refl

-- A command of a class that does not override `SerializeImpl`, so not one of the three
-- `SetValuesCommand`s, over a connection whose ID sizes are at most 8 bytes, with an ID below 2 ^ 32
-- and a body of at most 2 ^ 32 - 12 bytes, is sent as a packet from which a reader gets the packet's
-- length, its ID, that it is no event, its class, and, into fields whose IDs are clear, all of its
-- fields, if these are valid: numbers and IDs fit their types, tags have names, lengths fit 32 bits, and
-- no byte of a tagged object ID is zero.
pub serialize-IsReadAs :
    (c : Command) (packet : CommandPacket c) (con : Con) (blanks : Blanks (request c))
    (body : Bytes)
    → Inherits c
    → IsSupported con
    → AreValid con (request c) packet.fields
    → AreClear con (request c) blanks
    → serialize_elements (request c) packet.fields con ≡ ok body
    → length body ≤ 2 ^ 32 - 12
    → packet.id < 2 ^ 32
    → (sent : Bytes) × (serialize (command_packet c packet) con ≡ ok sent)
      × IsReadAs con blanks packet sent
serialize-IsReadAs c packet con blanks body base supported valid clear fields short id =
    let (sent, produced, read) =
      serialize_impl-IsReadAs c packet con blanks body supported valid clear fields short id in
    (sent, serialize-inherited c packet con base ∙ produced, read)

-- Whatever the fields of a command are, with an ID below 2 ^ 32 and of a class that does not override
-- `SerializeImpl`, so not one of the three `SetValuesCommand`s: a packet that is returned for them
-- is shorter than 2 ^ 32 bytes, and a reader finds in it the packet's length, its ID, no flags, the
-- command set and the command of its class, and behind the header the bytes of the fields.
pub IsFramed-serialize :
    (c : Command) (packet : CommandPacket c) (con : Con) (sent : Bytes)
    → Inherits c
    → packet.id < 2 ^ 32
    → serialize (command_packet c packet) con ≡ ok sent
    → (length sent < 2 ^ 32)
      × (body : Bytes) × (serialize_elements (request c) packet.fields con ≡ ok body)
      × IsFramed sent (command_set c) (command c) packet.id body
IsFramed-serialize c packet con sent base id returned =
    IsFramed-serialize_impl c packet con sent id
      (sym (serialize-inherited c packet con base) ∙ returned)
