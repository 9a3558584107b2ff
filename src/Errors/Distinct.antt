-- ===== src/Errors/Distinct.antt =====
-- The codes and the descriptions of the errors are different.
use roastery.Prelude.{
  ℕ, String, ◌≡◌, ◌≢◌, refl, sym, ap, ◌∙◌, Option, none, some, List, [], ◌∷◌, first_with,
  if◌then◌else◌,
}
use roastery.Errors.{
  JdwpError, error_code, jdwp_strerror, none_error, invalid_thread, invalid_thread_group,
  invalid_priority, thread_not_suspended, thread_suspended, thread_not_alive, invalid_object,
  invalid_class, class_not_prepared, invalid_method_id, invalid_location, invalid_field_id,
  invalid_frame_id, no_more_frames, opaque_frame, not_current_frame, type_mismatch, invalid_slot,
  duplicate, not_found, invalid_monitor, not_monitor_owner, interrupt, invalid_class_format,
  circular_class_definition, fails_verification, add_method_not_implemented,
  schema_change_not_implemented, invalid_typestate, hierarchy_change_not_implemented,
  delete_method_not_implemented, unsupported_version, names_dont_match,
  class_modifiers_change_not_implemented, method_modifiers_change_not_implemented, not_implemented,
  null_pointer, absent_information, invalid_event_type, illegal_argument, out_of_memory,
  access_denied, vm_dead, internal, unattached_thread, invalid_tag, already_invoking, invalid_index,
  invalid_length, invalid_string, invalid_class_loader, invalid_array, transport_load,
  transport_init, native_method, invalid_count, other,
}
use text.Mathlib.Text.{◌==◌}

abbrev pub IsNamed : JdwpError → Type 0
IsNamed (other code) = ⊥
IsNamed _ = Unit {0}

named : List JdwpError
named =
    none_error ∷ invalid_thread ∷ invalid_thread_group ∷ invalid_priority ∷ thread_not_suspended
    ∷ thread_suspended ∷ thread_not_alive ∷ invalid_object ∷ invalid_class ∷ class_not_prepared
    ∷ invalid_method_id ∷ invalid_location ∷ invalid_field_id ∷ invalid_frame_id ∷ no_more_frames
    ∷ opaque_frame ∷ not_current_frame ∷ type_mismatch ∷ invalid_slot ∷ duplicate ∷ not_found
    ∷ invalid_monitor ∷ not_monitor_owner ∷ interrupt ∷ invalid_class_format
    ∷ circular_class_definition ∷ fails_verification ∷ add_method_not_implemented
    ∷ schema_change_not_implemented ∷ invalid_typestate ∷ hierarchy_change_not_implemented
    ∷ delete_method_not_implemented ∷ unsupported_version ∷ names_dont_match
    ∷ class_modifiers_change_not_implemented ∷ method_modifiers_change_not_implemented
    ∷ not_implemented ∷ null_pointer ∷ absent_information ∷ invalid_event_type ∷ illegal_argument
    ∷ out_of_memory ∷ access_denied ∷ vm_dead ∷ internal ∷ unattached_thread ∷ invalid_tag
    ∷ already_invoking ∷ invalid_index ∷ invalid_length ∷ invalid_string ∷ invalid_class_loader
    ∷ invalid_array ∷ transport_load ∷ transport_init ∷ native_method ∷ invalid_count ∷ []

first_described : String → List JdwpError → Option JdwpError
first_described text [] = none
first_described text (e ∷ es) = if jdwp_strerror e == text then some e else first_described text es

-- The named error with a code.
unfoldable of_code : ℕ → Option JdwpError
unfolding error_code named
of_code code = first_with error_code code named

-- The named error with a description.
unfoldable of_text : String → Option JdwpError
unfolding jdwp_strerror named first_described
of_text text = first_described text named

of_code-error_code : (e : JdwpError) → IsNamed e → of_code (error_code e) ≡ some e
unfolding of_code error_code
of_code-error_code (other code) h = absurd h
of_code-error_code none_error h = refl
of_code-error_code _ h = refl

of_text-jdwp_strerror : (e : JdwpError) → IsNamed e → of_text (jdwp_strerror e) ≡ some e
unfolding of_text jdwp_strerror
of_text-jdwp_strerror (other code) h = absurd h
of_text-jdwp_strerror none_error h = refl
of_text-jdwp_strerror _ h = refl

unknown : of_text "Unknown error." ≡ none
unfolding of_text jdwp_strerror
unknown = refl

none-some : {e : JdwpError} → none ≢ some e
none-some h = cc

some-injective : {e e' : JdwpError} → some e ≡ some e' → e ≡ e'
some-injective h = cc

-- Two different named errors have different codes and different descriptions, and the first is not
-- described by the text for an unknown error.
pub jdwp_strerror-distinct :
    (e e' : JdwpError)
    → IsNamed e
    → IsNamed e'
    → e ≢ e'
    → (error_code e ≢ error_code e')
      × (jdwp_strerror e ≢ jdwp_strerror e')
      × (jdwp_strerror e ≢ "Unknown error.")
jdwp_strerror-distinct e e' h h' different = (
  λ same.
      different (
        some-injective (sym (of_code-error_code e h) ∙ ap of_code same ∙ of_code-error_code e' h')),
  λ same. different (
      some-injective
        (sym (of_text-jdwp_strerror e h) ∙ ap of_text same ∙ of_text-jdwp_strerror e' h')),
  λ same. none-some (sym unknown ∙ ap of_text (sym same) ∙ of_text-jdwp_strerror e h),
)
