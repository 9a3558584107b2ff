-- ===== src/Command/ArrayType.antt =====
-- src/include/jdwp_packet.hpp: the classes of `array_type` that `CommandPacketBase` implements.
use roastery.Prelude.{ℕ, ◌≡◌, refl, Option, some, List, [], ◌∷◌, first_with}
use roastery.Numeric.{int}
use roastery.Ids.{array_type_id}
use roastery.Fields.{Element, single, numeric, id}

pub data ArrayType : Type 0 where
  new_instance : ArrayType

-- The codes of the enum `ArrayType`.
unfoldable pub command : ArrayType → ℕ
command new_instance = 1

-- `Fields` of each class.
abbrev pub request : ArrayType → List Element
request new_instance = single (id array_type_id) ∷ single (numeric int) ∷ []

-- The class with a given code.
unfoldable pub of_code : ℕ → Option ArrayType
unfolding command
of_code code = first_with command code (new_instance ∷ [])

pub of_code-command : (c : ArrayType) → of_code (command c) ≡ some c
unfolding of_code command
of_code-command new_instance = refl
