-- ===== src/Connection/Outgoing.antt =====
-- src/include/jdwp_packet.hpp: `IJdwpCommandPacket`, an object of any class of command packets, and
-- its virtual `Serialize`.
use roastery.Outcome.{Outcome}
use roastery.Bytes.{Bytes}
use roastery.Con.{Con}
use roastery.Command.{Command}
use roastery.Command.ClassType
use roastery.Command.ObjectReference
use roastery.Command.ArrayReference
use roastery.Packet
use roastery.Packet.{CommandPacket}
use roastery.Packet.SetCommand
use roastery.Packet.SetCommand.{SetCommand}
use roastery.Packet.SetValues.{
  serialize_class_values, serialize_object_values, serialize_array_region,
}

pub data IJdwpCommandPacket : Type 0 where
  command_packet : (c : Command) → CommandPacket c → IJdwpCommandPacket
  set_command : SetCommand → IJdwpCommandPacket

-- Four classes replace the `SerializeImpl` of `CommandPacketBase`.
unfoldable pub serialize : IJdwpCommandPacket → Con → Outcome Bytes
serialize (set_command packet) con = SetCommand.serialize_impl packet con
serialize (command_packet (Command.class_type ClassType.set_values) packet) con =
    serialize_class_values packet con
serialize (command_packet (Command.object_reference ObjectReference.set_values) packet) con =
    serialize_object_values packet con
serialize (command_packet (Command.array_reference ArrayReference.set_values) packet) con =
    serialize_array_region packet con
serialize (command_packet c packet) con = Packet.serialize_impl c packet con
