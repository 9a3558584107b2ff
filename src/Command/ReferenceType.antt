-- ===== src/Command/ReferenceType.antt =====
-- src/include/jdwp_packet.hpp: the classes of `reference_type` that `CommandPacketBase` implements.
use roastery.Prelude.{ℕ, ◌≡◌, refl, Option, some, List, [], ◌∷◌, first_with}
use roastery.Numeric.{int}
use roastery.Ids.{field_id, reference_type_id}
use roastery.Fields.{Element, single, vector, numeric, id}

pub data ReferenceType : Type 0 where
  signature class_loader modifiers fields methods get_values source_file nested_types :
      ReferenceType
  status interfaces class_object source_debug_extension signature_with_generic : ReferenceType
  fields_with_generic methods_with_generic instances class_file_version constant_pool :
      ReferenceType

-- The codes of the enum `ReferenceType`.
unfoldable pub command : ReferenceType → ℕ
command signature = 1
command class_loader = 2
command modifiers = 3
command fields = 4
command methods = 5
command get_values = 6
command source_file = 7
command nested_types = 8
command status = 9
command interfaces = 10
command class_object = 11
command source_debug_extension = 12
command signature_with_generic = 13
command fields_with_generic = 14
command methods_with_generic = 15
command instances = 16
command class_file_version = 17
command constant_pool = 18

-- `Fields` of each class.
abbrev pub request : ReferenceType → List Element
request signature = single (id reference_type_id) ∷ []
request class_loader = single (id reference_type_id) ∷ []
request modifiers = single (id reference_type_id) ∷ []
request fields = single (id reference_type_id) ∷ []
request methods = single (id reference_type_id) ∷ []
request get_values = single (id reference_type_id) ∷ vector (id field_id ∷ []) ∷ []
request source_file = single (id reference_type_id) ∷ []
request nested_types = single (id reference_type_id) ∷ []
request status = single (id reference_type_id) ∷ []
request interfaces = single (id reference_type_id) ∷ []
request class_object = single (id reference_type_id) ∷ []
request source_debug_extension = single (id reference_type_id) ∷ []
request signature_with_generic = single (id reference_type_id) ∷ []
request fields_with_generic = single (id reference_type_id) ∷ []
request methods_with_generic = single (id reference_type_id) ∷ []
request instances = single (id reference_type_id) ∷ single (numeric int) ∷ []
request class_file_version = single (id reference_type_id) ∷ []
request constant_pool = single (id reference_type_id) ∷ []

-- The class with a given code.
unfoldable pub of_code : ℕ → Option ReferenceType
unfolding command
of_code code = first_with command code (
    signature ∷ class_loader ∷ modifiers ∷ fields ∷ methods ∷ get_values ∷ source_file
    ∷ nested_types ∷ status ∷ interfaces ∷ class_object ∷ source_debug_extension
    ∷ signature_with_generic ∷ fields_with_generic ∷ methods_with_generic ∷ instances
    ∷ class_file_version ∷ constant_pool ∷ [])

pub of_code-command : (c : ReferenceType) → of_code (command c) ≡ some c
unfolding of_code command
of_code-command signature = refl
of_code-command _ = refl
