-- ===== src/Command/StringReference.antt =====
-- src/include/jdwp_packet.hpp: the classes of `string_reference` that `CommandPacketBase` implements.
use roastery.Prelude.{ℕ, ◌≡◌, refl, Option, some, List, [], ◌∷◌, first_with}
use roastery.Ids.{obj_id}
use roastery.Fields.{Element, single, id}

pub data StringReference : Type 0 where
  value : StringReference

-- The codes of the enum `StringReference`.
unfoldable pub command : StringReference → ℕ
command value = 1

-- `Fields` of each class.
abbrev pub request : StringReference → List Element
request value = single (id obj_id) ∷ []

-- The class with a given code.
unfoldable pub of_code : ℕ → Option StringReference
unfolding command
of_code code = first_with command code (value ∷ [])

pub of_code-command : (c : StringReference) → of_code (command c) ≡ some c
unfolding of_code command
of_code-command value = refl
