-- ===== src/Command/Codes.antt =====
-- The codes of the commands.
use roastery.Prelude.{ℕ, ◌≤◌, ◌≡◌, ap, ◌==◌, if◌then◌else◌, Option, none, some, arith}
use roastery.Command.{Command, command_set, command}
use roastery.Command.VirtualMachine
use roastery.Command.ReferenceType
use roastery.Command.ClassType
use roastery.Command.ArrayType
use roastery.Command.Method
use roastery.Command.ObjectReference
use roastery.Command.StringReference
use roastery.Command.ThreadReference
use roastery.Command.ThreadGroupReference
use roastery.Command.ArrayReference
use roastery.Command.ClassLoaderReference
use roastery.Command.EventRequest
use roastery.Command.StackFrame
use roastery.Command.ClassObjectReference
use mathlib.Core.Option

option_map-some :
    {A B : Type 0} (f : A → B) {m : Option A} {a : A} → m ≡ some a → Option.map f m ≡ some (f a)
option_map-some f e = ap (Option.map f) e

-- The class that a command set and a command stand for.
unfoldable pub of_codes : ℕ → ℕ → Option Command
of_codes set code =
    if set == 1
    then Option.map Command.virtual_machine (VirtualMachine.of_code code)
    else if set == 2
    then Option.map Command.reference_type (ReferenceType.of_code code)
    else if set == 3
    then Option.map Command.class_type (ClassType.of_code code)
    else if set == 4
    then Option.map Command.array_type (ArrayType.of_code code)
    else if set == 6
    then Option.map Command.method (Method.of_code code)
    else if set == 9
    then Option.map Command.object_reference (ObjectReference.of_code code)
    else if set == 10
    then Option.map Command.string_reference (StringReference.of_code code)
    else if set == 11
    then Option.map Command.thread_reference (ThreadReference.of_code code)
    else if set == 12
    then Option.map Command.thread_group_reference (ThreadGroupReference.of_code code)
    else if set == 13
    then Option.map Command.array_reference (ArrayReference.of_code code)
    else if set == 14
    then Option.map Command.class_loader_reference (ClassLoaderReference.of_code code)
    else if set == 15
    then Option.map Command.event_request (EventRequest.of_code code)
    else if set == 16
    then Option.map Command.stack_frame (StackFrame.of_code code)
    else if set == 17
    then Option.map Command.class_object_reference (ClassObjectReference.of_code code)
    else none

-- No two classes of commands have the same command set and the same command: a class is found by its two.
pub of_codes-command : (c : Command) → of_codes (command_set c) (command c) ≡ some c
unfolding of_codes command_set command
of_codes-command (Command.virtual_machine c) =
    option_map-some Command.virtual_machine (VirtualMachine.of_code-command c)
of_codes-command (Command.reference_type c) =
    option_map-some Command.reference_type (ReferenceType.of_code-command c)
of_codes-command (Command.class_type c) =
    option_map-some Command.class_type (ClassType.of_code-command c)
of_codes-command (Command.array_type c) =
    option_map-some Command.array_type (ArrayType.of_code-command c)
of_codes-command (Command.method c) = option_map-some Command.method (Method.of_code-command c)
of_codes-command (Command.object_reference c) =
    option_map-some Command.object_reference (ObjectReference.of_code-command c)
of_codes-command (Command.string_reference c) =
    option_map-some Command.string_reference (StringReference.of_code-command c)
of_codes-command (Command.thread_reference c) =
    option_map-some Command.thread_reference (ThreadReference.of_code-command c)
of_codes-command (Command.thread_group_reference c) =
    option_map-some Command.thread_group_reference (ThreadGroupReference.of_code-command c)
of_codes-command (Command.array_reference c) =
    option_map-some Command.array_reference (ArrayReference.of_code-command c)
of_codes-command (Command.class_loader_reference c) =
    option_map-some Command.class_loader_reference (ClassLoaderReference.of_code-command c)
of_codes-command (Command.event_request c) =
    option_map-some Command.event_request (EventRequest.of_code-command c)
of_codes-command (Command.stack_frame c) =
    option_map-some Command.stack_frame (StackFrame.of_code-command c)
of_codes-command (Command.class_object_reference c) =
    option_map-some Command.class_object_reference (ClassObjectReference.of_code-command c)

-- No class of commands is in the command set of events.
pub command_set-le : (c : Command) → command_set c ≤ 17
unfolding command_set
command_set-le (Command.virtual_machine c) = omega arith
command_set-le _ = omega arith
