-- ===== src/Command/Replies/Threads.antt =====
-- src/include/jdwp_packet.hpp: `RespFields`, the fields of a reply, of the classes of
-- `thread_reference`, `thread_group_reference`, `event_request` and `stack_frame`.
use roastery.Prelude.{List, [], ◌∷◌}
use roastery.Numeric.{int}
use roastery.Ids.{frame_id, thread_group_id, thread_id}
use roastery.Fields.{id, location, numeric, string, tagged_object_id, value}
use roastery.Command.ThreadReference
use roastery.Command.ThreadGroupReference
use roastery.Command.EventRequest
use roastery.Command.StackFrame
use roastery.Command.RespFields.{RespField, single, vector}

abbrev pub thread_reference_reply : ThreadReference.ThreadReference → List RespField
thread_reference_reply ThreadReference.name = single string ∷ []
thread_reference_reply ThreadReference.suspend = []
thread_reference_reply ThreadReference.resume = []
thread_reference_reply ThreadReference.status = single (numeric int) ∷ single (numeric int) ∷ []
thread_reference_reply ThreadReference.thread_group = single (id thread_group_id) ∷ []
thread_reference_reply ThreadReference.frames = vector (id frame_id ∷ location ∷ []) ∷ []
thread_reference_reply ThreadReference.frame_count = single (numeric int) ∷ []
thread_reference_reply ThreadReference.owned_monitors = vector (tagged_object_id ∷ []) ∷ []
thread_reference_reply ThreadReference.current_contended_monitor = single tagged_object_id ∷ []
thread_reference_reply ThreadReference.stop = []
thread_reference_reply ThreadReference.interrupt = []
thread_reference_reply ThreadReference.suspend_count = single (numeric int) ∷ []
thread_reference_reply ThreadReference.owned_monitors_stack_depth_info =
    vector (tagged_object_id ∷ numeric int ∷ []) ∷ []
thread_reference_reply ThreadReference.force_early_return = []

abbrev pub thread_group_reference_reply : ThreadGroupReference.ThreadGroupReference → List RespField
thread_group_reference_reply ThreadGroupReference.name = single string ∷ []
thread_group_reference_reply ThreadGroupReference.parent = single (id thread_group_id) ∷ []
thread_group_reference_reply ThreadGroupReference.children =
    vector (id thread_id ∷ []) ∷ vector (id thread_group_id ∷ []) ∷ []

abbrev pub event_request_reply : EventRequest.EventRequest → List RespField
event_request_reply EventRequest.clear = []
event_request_reply EventRequest.clear_all_breakpoints = []

abbrev pub stack_frame_reply : StackFrame.StackFrame → List RespField
stack_frame_reply StackFrame.get_values = vector (value ∷ []) ∷ []
stack_frame_reply StackFrame.set_values = []
stack_frame_reply StackFrame.this_object = single tagged_object_id ∷ []
stack_frame_reply StackFrame.pop_frames = []
