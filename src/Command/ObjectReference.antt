-- ===== src/Command/ObjectReference.antt =====
-- src/include/jdwp_packet.hpp: the classes of `object_reference` that `CommandPacketBase` implements.
use roastery.Prelude.{ℕ, ◌≡◌, refl, Option, some, List, [], ◌∷◌, first_with}
use roastery.Numeric.{int}
use roastery.Ids.{class_id, field_id, method_id, obj_id, thread_id}
use roastery.Fields.{Element, single, vector, numeric, id, value}

pub data ObjectReference : Type 0 where
  reference_type get_values set_values monitor_info invoke_method disable_collection :
      ObjectReference
  enable_collection is_collected referring_objects : ObjectReference

-- The codes of the enum `ObjectReference`.
unfoldable pub command : ObjectReference → ℕ
command reference_type = 1
command get_values = 2
command set_values = 3
command monitor_info = 5
command invoke_method = 6
command disable_collection = 7
command enable_collection = 8
command is_collected = 9
command referring_objects = 10

-- `Fields` of each class.
abbrev pub request : ObjectReference → List Element
request reference_type = single (id obj_id) ∷ []
request get_values = single (id obj_id) ∷ vector (id field_id ∷ []) ∷ []
request set_values = single (id obj_id) ∷ vector (id field_id ∷ value ∷ []) ∷ []
request monitor_info = single (id obj_id) ∷ []
request invoke_method =
    single (id obj_id)
    ∷ single (id thread_id)
    ∷ single (id class_id)
    ∷ single (id method_id)
    ∷ vector (value ∷ [])
    ∷ single (numeric int)
    ∷ []
request disable_collection = single (id obj_id) ∷ []
request enable_collection = single (id obj_id) ∷ []
request is_collected = single (id obj_id) ∷ []
request referring_objects = single (id obj_id) ∷ single (numeric int) ∷ []

-- The class with a given code.
unfoldable pub of_code : ℕ → Option ObjectReference
unfolding command
of_code code = first_with command code (
    reference_type ∷ get_values ∷ set_values ∷ monitor_info ∷ invoke_method ∷ disable_collection
    ∷ enable_collection ∷ is_collected ∷ referring_objects ∷ [])

pub of_code-command : (c : ObjectReference) → of_code (command c) ≡ some c
unfolding of_code command
of_code-command reference_type = refl
of_code-command _ = refl
