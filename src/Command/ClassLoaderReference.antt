-- ===== src/Command/ClassLoaderReference.antt =====
-- src/include/jdwp_packet.hpp: the classes of `class_loader_reference` that `CommandPacketBase` implements.
use roastery.Prelude.{ℕ, ◌≡◌, refl, Option, some, List, [], ◌∷◌, first_with}
use roastery.Ids.{class_loader_id}
use roastery.Fields.{Element, single, id}

pub data ClassLoaderReference : Type 0 where
  visible_classes : ClassLoaderReference

-- The codes of the enum `ClassLoaderReference`.
unfoldable pub command : ClassLoaderReference → ℕ
command visible_classes = 1

-- `Fields` of each class.
abbrev pub request : ClassLoaderReference → List Element
request visible_classes = single (id class_loader_id) ∷ []

-- The class with a given code.
unfoldable pub of_code : ℕ → Option ClassLoaderReference
unfolding command
of_code code = first_with command code (visible_classes ∷ [])

pub of_code-command : (c : ClassLoaderReference) → of_code (command c) ≡ some c
unfolding of_code command
of_code-command visible_classes = refl
