-- ===== src/Errors/Texts.antt =====
-- src/jdwp_type.cpp: the descriptions of the errors, a constant for each.
use roastery.Prelude.{String}

abbrev pub none_text : String
none_text = "No error has occurred."

abbrev pub invalid_thread_text : String
invalid_thread_text = "Passed thread is null, is not a valid thread or has exited."

abbrev pub invalid_thread_group_text : String
invalid_thread_group_text = "Thread group invalid."

abbrev pub invalid_priority_text : String
invalid_priority_text = "Invalid priority."

abbrev pub thread_not_suspended_text : String
thread_not_suspended_text = "If the specified thread has not been suspended by an event."

abbrev pub thread_suspended_text : String
thread_suspended_text = "Thread already suspended."

abbrev pub thread_not_alive_text : String
thread_not_alive_text = "Thread has not been started or is now dead."

abbrev pub invalid_object_text : String
invalid_object_text = "If this reference type has been unloaded and garbage collected."

abbrev pub invalid_class_text : String
invalid_class_text = "Invalid class."

abbrev pub class_not_prepared_text : String
class_not_prepared_text = "Class has been loaded but not yet prepared."

abbrev pub invalid_method_id_text : String
invalid_method_id_text = "Invalid method."

abbrev pub invalid_location_text : String
invalid_location_text = "Invalid location."

abbrev pub invalid_field_id_text : String
invalid_field_id_text = "Invalid field."

abbrev pub invalid_frame_id_text : String
invalid_frame_id_text = "Invalid jframeID."

abbrev pub no_more_frames_text : String
no_more_frames_text = "There are no more Java or JNI frames on the call stack."

abbrev pub opaque_frame_text : String
opaque_frame_text = "Information about the frame is not available."

abbrev pub not_current_frame_text : String
not_current_frame_text = "Operation can only be performed on current frame."

abbrev pub type_mismatch_text : String
type_mismatch_text = "The variable is not an appropriate type for the function used."

abbrev pub invalid_slot_text : String
invalid_slot_text = "Invalid slot."

abbrev pub duplicate_text : String
duplicate_text = "Item already set."

abbrev pub not_found_text : String
not_found_text = "Desired element not found."

abbrev pub invalid_monitor_text : String
invalid_monitor_text = "Invalid monitor."

abbrev pub not_monitor_owner_text : String
not_monitor_owner_text = "This thread doesn't own the monitor."

abbrev pub interrupt_text : String
interrupt_text = "The call has been interrupted before completion."

abbrev pub invalid_class_format_text : String
invalid_class_format_text =
    "The virtual machine attempted to read a class file and determined that the file is malformed or otherwise cannot be interpreted as a class file."

abbrev pub circular_class_definition_text : String
circular_class_definition_text = "A circularity has been detected while initializing a class."

abbrev pub fails_verification_text : String
fails_verification_text =
    "The verifier detected that a class file, though well formed, contained some sort of internal inconsistency or security problem."

abbrev pub add_method_not_implemented_text : String
add_method_not_implemented_text = "Adding methods has not been implemented."

abbrev pub schema_change_not_implemented_text : String
schema_change_not_implemented_text = "Schema change has not been implemented."

abbrev pub invalid_typestate_text : String
invalid_typestate_text = "The state of the thread has been modified, and is now inconsistent."

abbrev pub hierarchy_change_not_implemented_text : String
hierarchy_change_not_implemented_text =
    "A direct superclass is different for the new class version, or the set of directly implemented interfaces is different and canUnrestrictedlyRedefineClasses is false."

abbrev pub delete_method_not_implemented_text : String
delete_method_not_implemented_text =
    "The new class version does not declare a method declared in the old class version and canUnrestrictedlyRedefineClasses is false."

abbrev pub unsupported_version_text : String
unsupported_version_text = "A class file has a version number not supported by this VM."

abbrev pub names_dont_match_text : String
names_dont_match_text =
    "The class name defined in the new class file is different from the name in the old class object."

abbrev pub class_modifiers_change_not_implemented_text : String
class_modifiers_change_not_implemented_text =
    "The new class version has different modifiers and and canUnrestrictedlyRedefineClasses is false."

abbrev pub method_modifiers_change_not_implemented_text : String
method_modifiers_change_not_implemented_text =
    "A method in the new class version has different modifiers than its counterpart in the old class version and and canUnrestrictedlyRedefineClasses is false."

abbrev pub not_implemented_text : String
not_implemented_text = "The functionality is not implemented in this virtual machine."

abbrev pub null_pointer_text : String
null_pointer_text = "Invalid pointer."

abbrev pub absent_information_text : String
absent_information_text = "Desired information is not available."

abbrev pub invalid_event_type_text : String
invalid_event_type_text = "The specified event type id is not recognized."

abbrev pub illegal_argument_text : String
illegal_argument_text = "Illegal argument."

abbrev pub out_of_memory_text : String
out_of_memory_text =
    "The function needed to allocate memory and no more memory was available for allocation."

abbrev pub access_denied_text : String
access_denied_text = "Debugging has not been enabled in this virtual machine. JVMTI cannot be used."

abbrev pub vm_dead_text : String
vm_dead_text = "The virtual machine is not running."

abbrev pub internal_text : String
internal_text = "An unexpected internal error has occurred."

abbrev pub unattached_thread_text : String
unattached_thread_text =
    "The thread being used to call this function is not attached to the virtual machine. Calls must be made from attached threads."

abbrev pub invalid_tag_text : String
invalid_tag_text = "object type id or class tag."

abbrev pub already_invoking_text : String
already_invoking_text = "Previous invoke not complete."

abbrev pub invalid_index_text : String
invalid_index_text = "Index is invalid."

abbrev pub invalid_length_text : String
invalid_length_text = "The length is invalid."

abbrev pub invalid_string_text : String
invalid_string_text = "The string is invalid."

abbrev pub invalid_class_loader_text : String
invalid_class_loader_text = "The class loader is invalid."

abbrev pub invalid_array_text : String
invalid_array_text = "The array is invalid."

abbrev pub transport_load_text : String
transport_load_text = "Unable to load the transport."

abbrev pub transport_init_text : String
transport_init_text = "Unable to initialize the transport."

abbrev pub native_method_text : String
native_method_text = "NATIVE_METHOD error."

abbrev pub invalid_count_text : String
invalid_count_text = "The count is invalid."

abbrev pub default_text : String
default_text = "Unknown error."
