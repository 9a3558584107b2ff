-- ===== src/Command.antt =====
-- src/include/jdwp_packet.hpp: the classes of command packets that `CommandPacketBase` implements,
-- with the command set and command of each, and src/include/jdwp_type.hpp: `CommandSet`.
pub mod VirtualMachine
pub mod ReferenceType
pub mod ClassType
pub mod ArrayType
pub mod Method
pub mod ObjectReference
pub mod StringReference
pub mod ThreadReference
pub mod ThreadGroupReference
pub mod ArrayReference
pub mod ClassLoaderReference
pub mod EventRequest
pub mod StackFrame
pub mod ClassObjectReference
pub mod Codes
pub mod Bounds
pub mod RespFields
pub mod Replies
use roastery.Prelude.{ℕ, List}
use roastery.Fields.{Element}

pub data Command : Type 0 where
  virtual_machine : VirtualMachine.VirtualMachine → Command
  reference_type : ReferenceType.ReferenceType → Command
  class_type : ClassType.ClassType → Command
  array_type : ArrayType.ArrayType → Command
  method : Method.Method → Command
  object_reference : ObjectReference.ObjectReference → Command
  string_reference : StringReference.StringReference → Command
  thread_reference : ThreadReference.ThreadReference → Command
  thread_group_reference : ThreadGroupReference.ThreadGroupReference → Command
  array_reference : ArrayReference.ArrayReference → Command
  class_loader_reference : ClassLoaderReference.ClassLoaderReference → Command
  event_request : EventRequest.EventRequest → Command
  stack_frame : StackFrame.StackFrame → Command
  class_object_reference : ClassObjectReference.ClassObjectReference → Command

-- The first argument of the template.
unfoldable pub command_set : Command → ℕ
command_set (virtual_machine c) = 1
command_set (reference_type c) = 2
command_set (class_type c) = 3
command_set (array_type c) = 4
command_set (method c) = 6
command_set (object_reference c) = 9
command_set (string_reference c) = 10
command_set (thread_reference c) = 11
command_set (thread_group_reference c) = 12
command_set (array_reference c) = 13
command_set (class_loader_reference c) = 14
command_set (event_request c) = 15
command_set (stack_frame c) = 16
command_set (class_object_reference c) = 17

-- The second.
unfoldable pub command : Command → ℕ
command (virtual_machine c) = VirtualMachine.command c
command (reference_type c) = ReferenceType.command c
command (class_type c) = ClassType.command c
command (array_type c) = ArrayType.command c
command (method c) = Method.command c
command (object_reference c) = ObjectReference.command c
command (string_reference c) = StringReference.command c
command (thread_reference c) = ThreadReference.command c
command (thread_group_reference c) = ThreadGroupReference.command c
command (array_reference c) = ArrayReference.command c
command (class_loader_reference c) = ClassLoaderReference.command c
command (event_request c) = EventRequest.command c
command (stack_frame c) = StackFrame.command c
command (class_object_reference c) = ClassObjectReference.command c

abbrev pub request : Command → List Element
request (virtual_machine c) = VirtualMachine.request c
request (reference_type c) = ReferenceType.request c
request (class_type c) = ClassType.request c
request (array_type c) = ArrayType.request c
request (method c) = Method.request c
request (object_reference c) = ObjectReference.request c
request (string_reference c) = StringReference.request c
request (thread_reference c) = ThreadReference.request c
request (thread_group_reference c) = ThreadGroupReference.request c
request (array_reference c) = ArrayReference.request c
request (class_loader_reference c) = ClassLoaderReference.request c
request (event_request c) = EventRequest.request c
request (stack_frame c) = StackFrame.request c
request (class_object_reference c) = ClassObjectReference.request c
