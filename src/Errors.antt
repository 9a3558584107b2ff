-- ===== src/Errors.antt =====
-- src/include/jdwp_type.hpp and src/jdwp_type.cpp: the error codes of the protocol, and their
-- descriptions. `JdwpError` is an enum over `uint16_t`; `other` is a code with no name.
mod Texts
pub mod Distinct
use roastery.Prelude.{ℕ, String}
use Texts.{
  none_text, invalid_thread_text, invalid_thread_group_text, invalid_priority_text,
  thread_not_suspended_text, thread_suspended_text, thread_not_alive_text, invalid_object_text,
  invalid_class_text, class_not_prepared_text, invalid_method_id_text, invalid_location_text,
  invalid_field_id_text, invalid_frame_id_text, no_more_frames_text, opaque_frame_text,
  not_current_frame_text, type_mismatch_text, invalid_slot_text, duplicate_text, not_found_text,
  invalid_monitor_text, not_monitor_owner_text, interrupt_text, invalid_class_format_text,
  circular_class_definition_text, fails_verification_text, add_method_not_implemented_text,
  schema_change_not_implemented_text, invalid_typestate_text, hierarchy_change_not_implemented_text,
  delete_method_not_implemented_text, unsupported_version_text, names_dont_match_text,
  class_modifiers_change_not_implemented_text, method_modifiers_change_not_implemented_text,
  not_implemented_text, null_pointer_text, absent_information_text, invalid_event_type_text,
  illegal_argument_text, out_of_memory_text, access_denied_text, vm_dead_text, internal_text,
  unattached_thread_text, invalid_tag_text, already_invoking_text, invalid_index_text,
  invalid_length_text, invalid_string_text, invalid_class_loader_text, invalid_array_text,
  transport_load_text, transport_init_text, native_method_text, invalid_count_text, default_text,
}

pub data JdwpError : Type 0 where
  none_error invalid_thread invalid_thread_group invalid_priority : JdwpError
  thread_not_suspended thread_suspended thread_not_alive invalid_object : JdwpError
  invalid_class class_not_prepared invalid_method_id invalid_location : JdwpError
  invalid_field_id invalid_frame_id no_more_frames opaque_frame not_current_frame : JdwpError
  type_mismatch invalid_slot duplicate not_found invalid_monitor not_monitor_owner : JdwpError
  interrupt invalid_class_format circular_class_definition fails_verification : JdwpError
  add_method_not_implemented schema_change_not_implemented invalid_typestate : JdwpError
  hierarchy_change_not_implemented delete_method_not_implemented : JdwpError
  unsupported_version names_dont_match class_modifiers_change_not_implemented : JdwpError
  method_modifiers_change_not_implemented not_implemented null_pointer : JdwpError
  absent_information invalid_event_type illegal_argument out_of_memory : JdwpError
  access_denied vm_dead internal unattached_thread invalid_tag already_invoking : JdwpError
  invalid_index invalid_length invalid_string invalid_class_loader invalid_array : JdwpError
  transport_load transport_init native_method invalid_count : JdwpError
  other : ℕ → JdwpError

-- The codes of the enum.
unfoldable pub error_code : JdwpError → ℕ
error_code none_error = 0
error_code invalid_thread = 10
error_code invalid_thread_group = 11
error_code invalid_priority = 12
error_code thread_not_suspended = 13
error_code thread_suspended = 14
error_code thread_not_alive = 15
error_code invalid_object = 20
error_code invalid_class = 21
error_code class_not_prepared = 22
error_code invalid_method_id = 23
error_code invalid_location = 24
error_code invalid_field_id = 25
error_code invalid_frame_id = 30
error_code no_more_frames = 31
error_code opaque_frame = 32
error_code not_current_frame = 33
error_code type_mismatch = 34
error_code invalid_slot = 35
error_code duplicate = 40
error_code not_found = 41
error_code invalid_monitor = 50
error_code not_monitor_owner = 51
error_code interrupt = 52
error_code invalid_class_format = 60
error_code circular_class_definition = 61
error_code fails_verification = 62
error_code add_method_not_implemented = 63
error_code schema_change_not_implemented = 64
error_code invalid_typestate = 65
error_code hierarchy_change_not_implemented = 66
error_code delete_method_not_implemented = 67
error_code unsupported_version = 68
error_code names_dont_match = 69
error_code class_modifiers_change_not_implemented = 70
error_code method_modifiers_change_not_implemented = 71
error_code not_implemented = 99
error_code null_pointer = 100
error_code absent_information = 101
error_code invalid_event_type = 102
error_code illegal_argument = 103
error_code out_of_memory = 110
error_code access_denied = 111
error_code vm_dead = 112
error_code internal = 113
error_code unattached_thread = 115
error_code invalid_tag = 500
error_code already_invoking = 502
error_code invalid_index = 503
error_code invalid_length = 504
error_code invalid_string = 506
error_code invalid_class_loader = 507
error_code invalid_array = 508
error_code transport_load = 509
error_code transport_init = 510
error_code native_method = 511
error_code invalid_count = 512
error_code (other code) = code

-- The switch of `jdwp_strerror`.
unfoldable pub jdwp_strerror : JdwpError → String
jdwp_strerror none_error = none_text
jdwp_strerror invalid_thread = invalid_thread_text
jdwp_strerror invalid_thread_group = invalid_thread_group_text
jdwp_strerror invalid_priority = invalid_priority_text
jdwp_strerror thread_not_suspended = thread_not_suspended_text
jdwp_strerror thread_suspended = thread_suspended_text
jdwp_strerror thread_not_alive = thread_not_alive_text
jdwp_strerror invalid_object = invalid_object_text
jdwp_strerror invalid_class = invalid_class_text
jdwp_strerror class_not_prepared = class_not_prepared_text
jdwp_strerror invalid_method_id = invalid_method_id_text
jdwp_strerror invalid_location = invalid_location_text
jdwp_strerror invalid_field_id = invalid_field_id_text
jdwp_strerror invalid_frame_id = invalid_frame_id_text
jdwp_strerror no_more_frames = no_more_frames_text
jdwp_strerror opaque_frame = opaque_frame_text
jdwp_strerror not_current_frame = not_current_frame_text
jdwp_strerror type_mismatch = type_mismatch_text
jdwp_strerror invalid_slot = invalid_slot_text
jdwp_strerror duplicate = duplicate_text
jdwp_strerror not_found = not_found_text
jdwp_strerror invalid_monitor = invalid_monitor_text
jdwp_strerror not_monitor_owner = not_monitor_owner_text
jdwp_strerror interrupt = interrupt_text
jdwp_strerror invalid_class_format = invalid_class_format_text
jdwp_strerror circular_class_definition = circular_class_definition_text
jdwp_strerror fails_verification = fails_verification_text
jdwp_strerror add_method_not_implemented = add_method_not_implemented_text
jdwp_strerror schema_change_not_implemented = schema_change_not_implemented_text
jdwp_strerror invalid_typestate = invalid_typestate_text
jdwp_strerror hierarchy_change_not_implemented = hierarchy_change_not_implemented_text
jdwp_strerror delete_method_not_implemented = delete_method_not_implemented_text
jdwp_strerror unsupported_version = unsupported_version_text
jdwp_strerror names_dont_match = names_dont_match_text
jdwp_strerror class_modifiers_change_not_implemented = class_modifiers_change_not_implemented_text
jdwp_strerror method_modifiers_change_not_implemented = method_modifiers_change_not_implemented_text
jdwp_strerror not_implemented = not_implemented_text
jdwp_strerror null_pointer = null_pointer_text
jdwp_strerror absent_information = absent_information_text
jdwp_strerror invalid_event_type = invalid_event_type_text
jdwp_strerror illegal_argument = illegal_argument_text
jdwp_strerror out_of_memory = out_of_memory_text
jdwp_strerror access_denied = access_denied_text
jdwp_strerror vm_dead = vm_dead_text
jdwp_strerror internal = internal_text
jdwp_strerror unattached_thread = unattached_thread_text
jdwp_strerror invalid_tag = invalid_tag_text
jdwp_strerror already_invoking = already_invoking_text
jdwp_strerror invalid_index = invalid_index_text
jdwp_strerror invalid_length = invalid_length_text
jdwp_strerror invalid_string = invalid_string_text
jdwp_strerror invalid_class_loader = invalid_class_loader_text
jdwp_strerror invalid_array = invalid_array_text
jdwp_strerror transport_load = transport_load_text
jdwp_strerror transport_init = transport_init_text
jdwp_strerror native_method = native_method_text
jdwp_strerror invalid_count = invalid_count_text
jdwp_strerror (other code) = default_text
