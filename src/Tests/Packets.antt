-- ===== src/Tests/Packets.antt =====
-- Errors, tuples of fields, command packets and events.
use roastery.Prelude.{◌-◌, ◌^◌, ◌<◌, ◌≡◌, ◌≢◌, refl, [], ◌∷◌, length, get_elem?, arith}
use roastery.Outcome.{ok}
use roastery.Bytes.{Bytes, memory_of, value_of}
use roastery.HostOrder.{htonl}
use roastery.Numeric
use roastery.Numeric.{int, byte}
use roastery.Ids
use roastery.Ids.{class_id, obj_id, array_id, thread_id, get_size}
use roastery.Fields.{serialize_elements}
use roastery.Fields.Body.{AreValid, AreClear}
use roastery.Command
use roastery.Command.VirtualMachine
use roastery.Packet.{CommandPacket, produce_header, serialize_impl}
use roastery.Packet.Framing.{IsFramed}
use roastery.Packet.RoundTrip.{IsReadAs}
use roastery.Packet.Sent.{serialize-IsReadAs, IsFramed-serialize}
use roastery.Connection.Outgoing.{command_packet, serialize}
use roastery.Packet.PacketId.{get_next_ids, get_next_ids-distinct}
use roastery.Tests.{con, con-IsSupported}

get_next_ids-distinct_example :
    get_elem? (get_next_ids 3 (2 ^ 32 - 1)) 0 ≢ get_elem? (get_next_ids 3 (2 ^ 32 - 1)) 2
get_next_ids-distinct_example =
    get_next_ids-distinct 3 (2 ^ 32 - 1) 0 2 (omega arith) (omega arith) (omega arith) (omega arith)

-- One vector with one pair of an ID and a number.
abbrev objects_bytes : Bytes
objects_bytes = 0 ∷ 0 ∷ 0 ∷ 1 ∷ 0 ∷ 0 ∷ 0 ∷ 0 ∷ 0 ∷ 0 ∷ 0 ∷ 7 ∷ 0 ∷ 0 ∷ 0 ∷ 2 ∷ []

objects_sent :
    serialize_elements
      (Command.request (Command.virtual_machine VirtualMachine.dispose_objects))
      ((7, (2, tt)) ∷ [], tt)
      con
    ≡ ok objects_bytes
unfolding serialize_elements Ids.serialize Numeric.serialize Numeric.write_back memory_of
objects_sent = refl

objects_valid :
    AreValid con
      (Command.request (Command.virtual_machine VirtualMachine.dispose_objects))
      ((7, (2, tt)) ∷ [], tt)
objects_valid = ((((omega arith, (omega arith, tt)), tt), omega arith), tt)

abbrev objects : CommandPacket (Command.virtual_machine VirtualMachine.dispose_objects)
objects = record { id = 5; fields = ((7, (2, tt)) ∷ [], tt) }

objects_clear :
    AreClear con
      (Command.request (Command.virtual_machine VirtualMachine.dispose_objects))
      ((0, (0, tt)), tt)
objects_clear = ((omega arith, (tt, tt)), tt)

serialize-IsReadAs_example :
    (sent : Bytes) × (serialize
        (command_packet (Command.virtual_machine VirtualMachine.dispose_objects) objects)
        con
      ≡ ok sent)
    × IsReadAs con ((0, (0, tt)), tt) objects sent
serialize-IsReadAs_example =
    serialize-IsReadAs (Command.virtual_machine VirtualMachine.dispose_objects) objects con
      ((0, (0, tt)), tt) objects_bytes tt con-IsSupported objects_valid objects_clear objects_sent
      (omega arith) (omega arith)

-- The packet of a command without fields, as in test/src/jdwp_packet_test.cpp.
abbrev version : CommandPacket (Command.virtual_machine VirtualMachine.version)
version = record { id = 5; fields = tt }

abbrev version_bytes : Bytes
version_bytes = 0 ∷ 0 ∷ 0 ∷ 11 ∷ 0 ∷ 0 ∷ 0 ∷ 5 ∷ 0 ∷ 1 ∷ 1 ∷ []

version_sent :
    serialize (command_packet (Command.virtual_machine VirtualMachine.version) version) con
    ≡ ok version_bytes
unfolding serialize serialize_impl produce_header htonl value_of memory_of Command.command_set
    Command.command VirtualMachine.command
version_sent = refl

IsFramed-serialize_example :
    (length version_bytes < 2 ^ 32)
    × (body : Bytes) × (serialize_elements [] tt con ≡ ok body)
    × IsFramed version_bytes 1 1 5 body
unfolding Command.command_set Command.command VirtualMachine.command
IsFramed-serialize_example =
    IsFramed-serialize (Command.virtual_machine VirtualMachine.version) version con version_bytes tt
      (omega arith) version_sent
