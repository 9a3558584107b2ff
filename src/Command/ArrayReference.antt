-- ===== src/Command/ArrayReference.antt =====
-- src/include/jdwp_packet.hpp: the classes of `array_reference` that `CommandPacketBase` implements.
use roastery.Prelude.{ℕ, ◌≡◌, refl, Option, some, List, [], ◌∷◌, first_with}
use roastery.Numeric.{int}
use roastery.Ids.{array_id}
use roastery.Fields.{Element, single, vector, numeric, id, value}

pub data ArrayReference : Type 0 where
  length get_values set_values : ArrayReference

-- The codes of the enum `ArrayReference`.
unfoldable pub command : ArrayReference → ℕ
command length = 1
command get_values = 2
command set_values = 3

-- `Fields` of each class.
abbrev pub request : ArrayReference → List Element
request length = single (id array_id) ∷ []
request get_values = single (id array_id) ∷ single (numeric int) ∷ single (numeric int) ∷ []
request set_values = single (id array_id) ∷ single (numeric int) ∷ vector (value ∷ []) ∷ []

-- The class with a given code.
unfoldable pub of_code : ℕ → Option ArrayReference
unfolding command
of_code code = first_with command code (length ∷ get_values ∷ set_values ∷ [])

pub of_code-command : (c : ArrayReference) → of_code (command c) ≡ some c
unfolding of_code command
of_code-command length = refl
of_code-command _ = refl
