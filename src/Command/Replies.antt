-- ===== src/Command/Replies.antt =====
-- src/include/jdwp_packet.hpp: `RespFields` of every class that `CommandPacketBase` implements, and its
-- `DeserializeImpl`.
mod VirtualMachine
mod Types
mod Objects
mod Threads
use roastery.Prelude.{List}
use roastery.Outcome.{Outcome, ok}
use roastery.Bytes.{Bytes}
use roastery.Con.{Con}
use roastery.Command.{Command}
use roastery.Command.RespFields.{RespField, RespFields}
use VirtualMachine.{virtual_machine_reply}
use Types.{reference_type_reply, class_type_reply, array_type_reply, method_reply}
use Objects.{
  object_reference_reply, string_reference_reply, array_reference_reply,
  class_loader_reference_reply, class_object_reference_reply,
}
use Threads.{
  thread_reference_reply, thread_group_reference_reply, event_request_reply, stack_frame_reply,
}

-- The last argument of the template.
abbrev pub reply_fields : Command → List RespField
reply_fields (Command.virtual_machine c) = virtual_machine_reply c
reply_fields (Command.reference_type c) = reference_type_reply c
reply_fields (Command.class_type c) = class_type_reply c
reply_fields (Command.array_type c) = array_type_reply c
reply_fields (Command.method c) = method_reply c
reply_fields (Command.object_reference c) = object_reference_reply c
reply_fields (Command.string_reference c) = string_reference_reply c
reply_fields (Command.thread_reference c) = thread_reference_reply c
reply_fields (Command.thread_group_reference c) = thread_group_reference_reply c
reply_fields (Command.array_reference c) = array_reference_reply c
reply_fields (Command.class_loader_reference c) = class_loader_reference_reply c
reply_fields (Command.event_request c) = event_request_reply c
reply_fields (Command.stack_frame c) = stack_frame_reply c
reply_fields (Command.class_object_reference c) = class_object_reference_reply c

-- `DeserializeImpl`, which is unfinished: it returns new fields, whose value is `initial`, whatever
-- the message is.
unfoldable pub deserialize_impl :
    (c : Command)
    → RespFields (reply_fields c)
    → Bytes
    → Con
    → Outcome (RespFields (reply_fields c))
deserialize_impl c initial msg con = ok initial
