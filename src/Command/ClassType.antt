-- ===== src/Command/ClassType.antt =====
-- src/include/jdwp_packet.hpp: the classes of `class_type` that `CommandPacketBase` implements.
use roastery.Prelude.{ℕ, ◌≡◌, refl, Option, some, List, [], ◌∷◌, first_with}
use roastery.Numeric.{int}
use roastery.Ids.{class_id, field_id, method_id, thread_id}
use roastery.Fields.{Element, single, vector, numeric, id, value}

pub data ClassType : Type 0 where
  superclass set_values invoke_method new_instance : ClassType

-- The codes of the enum `ClassType`.
unfoldable pub command : ClassType → ℕ
command superclass = 1
command set_values = 2
command invoke_method = 3
command new_instance = 4

-- `Fields` of each class.
abbrev pub request : ClassType → List Element
request superclass = single (id class_id) ∷ []
request set_values = single (id class_id) ∷ vector (id field_id ∷ value ∷ []) ∷ []
request invoke_method =
    single (id class_id)
    ∷ single (id thread_id)
    ∷ single (id method_id)
    ∷ vector (value ∷ [])
    ∷ single (numeric int)
    ∷ []
request new_instance =
    single (id class_id)
    ∷ single (id thread_id)
    ∷ single (id method_id)
    ∷ vector (value ∷ [])
    ∷ single (numeric int)
    ∷ []

-- The class with a given code.
unfoldable pub of_code : ℕ → Option ClassType
unfolding command
of_code code = first_with command code (superclass ∷ set_values ∷ invoke_method ∷ new_instance ∷ [])

pub of_code-command : (c : ClassType) → of_code (command c) ≡ some c
unfolding of_code command
of_code-command superclass = refl
of_code-command _ = refl
