-- ===== src/Command/Bounds.antt =====
-- src/include/jdwp_packet.hpp: the codes of commands fit a byte.
use roastery.Prelude.{◌≤◌, arith}
use roastery.Command.{Command, command}
use roastery.Command.VirtualMachine
use roastery.Command.ReferenceType
use roastery.Command.ClassType
use roastery.Command.ArrayType
use roastery.Command.Method
use roastery.Command.ObjectReference
use roastery.Command.StringReference
use roastery.Command.ThreadReference
use roastery.Command.ThreadGroupReference
use roastery.Command.ArrayReference
use roastery.Command.ClassLoaderReference
use roastery.Command.EventRequest
use roastery.Command.StackFrame
use roastery.Command.ClassObjectReference

virtual_machine_le : (c : VirtualMachine.VirtualMachine) → VirtualMachine.command c ≤ 255
unfolding VirtualMachine.command
virtual_machine_le VirtualMachine.version = omega arith
virtual_machine_le _ = omega arith

reference_type_le : (c : ReferenceType.ReferenceType) → ReferenceType.command c ≤ 255
unfolding ReferenceType.command
reference_type_le ReferenceType.signature = omega arith
reference_type_le _ = omega arith

class_type_le : (c : ClassType.ClassType) → ClassType.command c ≤ 255
unfolding ClassType.command
class_type_le ClassType.superclass = omega arith
class_type_le _ = omega arith

array_type_le : (c : ArrayType.ArrayType) → ArrayType.command c ≤ 255
unfolding ArrayType.command
array_type_le ArrayType.new_instance = omega arith

method_le : (c : Method.Method) → Method.command c ≤ 255
unfolding Method.command
method_le Method.line_table = omega arith
method_le _ = omega arith

object_reference_le : (c : ObjectReference.ObjectReference) → ObjectReference.command c ≤ 255
unfolding ObjectReference.command
object_reference_le ObjectReference.reference_type = omega arith
object_reference_le _ = omega arith

string_reference_le : (c : StringReference.StringReference) → StringReference.command c ≤ 255
unfolding StringReference.command
string_reference_le StringReference.value = omega arith

thread_reference_le : (c : ThreadReference.ThreadReference) → ThreadReference.command c ≤ 255
unfolding ThreadReference.command
thread_reference_le ThreadReference.name = omega arith
thread_reference_le _ = omega arith

thread_group_reference_le :
    (c : ThreadGroupReference.ThreadGroupReference) → ThreadGroupReference.command c ≤ 255
unfolding ThreadGroupReference.command
thread_group_reference_le ThreadGroupReference.name = omega arith
thread_group_reference_le _ = omega arith

array_reference_le : (c : ArrayReference.ArrayReference) → ArrayReference.command c ≤ 255
unfolding ArrayReference.command
array_reference_le ArrayReference.length = omega arith
array_reference_le _ = omega arith

class_loader_reference_le :
    (c : ClassLoaderReference.ClassLoaderReference) → ClassLoaderReference.command c ≤ 255
unfolding ClassLoaderReference.command
class_loader_reference_le ClassLoaderReference.visible_classes = omega arith

event_request_le : (c : EventRequest.EventRequest) → EventRequest.command c ≤ 255
unfolding EventRequest.command
event_request_le EventRequest.clear = omega arith
event_request_le _ = omega arith

stack_frame_le : (c : StackFrame.StackFrame) → StackFrame.command c ≤ 255
unfolding StackFrame.command
stack_frame_le StackFrame.get_values = omega arith
stack_frame_le _ = omega arith

class_object_reference_le :
    (c : ClassObjectReference.ClassObjectReference) → ClassObjectReference.command c ≤ 255
unfolding ClassObjectReference.command
class_object_reference_le ClassObjectReference.reflected_type = omega arith

pub command-le : (c : Command) → command c ≤ 255
unfolding command
command-le (Command.virtual_machine c) = virtual_machine_le c
command-le (Command.reference_type c) = reference_type_le c
command-le (Command.class_type c) = class_type_le c
command-le (Command.array_type c) = array_type_le c
command-le (Command.method c) = method_le c
command-le (Command.object_reference c) = object_reference_le c
command-le (Command.string_reference c) = string_reference_le c
command-le (Command.thread_reference c) = thread_reference_le c
command-le (Command.thread_group_reference c) = thread_group_reference_le c
command-le (Command.array_reference c) = array_reference_le c
command-le (Command.class_loader_reference c) = class_loader_reference_le c
command-le (Command.event_request c) = event_request_le c
command-le (Command.stack_frame c) = stack_frame_le c
command-le (Command.class_object_reference c) = class_object_reference_le c
