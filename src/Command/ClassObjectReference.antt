-- ===== src/Command/ClassObjectReference.antt =====
-- src/include/jdwp_packet.hpp: the classes of `class_object_reference` that `CommandPacketBase` implements.
use roastery.Prelude.{ℕ, ◌≡◌, refl, Option, some, List, [], ◌∷◌, first_with}
use roastery.Ids.{class_object_id}
use roastery.Fields.{Element, single, id}

pub data ClassObjectReference : Type 0 where
  reflected_type : ClassObjectReference

-- The codes of the enum `ClassObjectReference`.
unfoldable pub command : ClassObjectReference → ℕ
command reflected_type = 1

-- `Fields` of each class.
abbrev pub request : ClassObjectReference → List Element
request reflected_type = single (id class_object_id) ∷ []

-- The class with a given code.
unfoldable pub of_code : ℕ → Option ClassObjectReference
unfolding command
of_code code = first_with command code (reflected_type ∷ [])

pub of_code-command : (c : ClassObjectReference) → of_code (command c) ≡ some c
unfolding of_code command
of_code-command reflected_type = refl
