-- ===== src/Command/Method.antt =====
-- src/include/jdwp_packet.hpp: the classes of `method` that `CommandPacketBase` implements.
use roastery.Prelude.{ℕ, ◌≡◌, refl, Option, some, List, [], ◌∷◌, first_with}
use roastery.Ids.{method_id, reference_type_id}
use roastery.Fields.{Element, single, id}

pub data Method : Type 0 where
  line_table variable_table bytecodes is_obsolete variable_table_with_generic : Method

-- The codes of the enum `Method`.
unfoldable pub command : Method → ℕ
command line_table = 1
command variable_table = 2
command bytecodes = 3
command is_obsolete = 4
command variable_table_with_generic = 5

-- `Fields` of each class.
abbrev pub request : Method → List Element
request line_table = single (id reference_type_id) ∷ single (id method_id) ∷ []
request variable_table = single (id reference_type_id) ∷ single (id method_id) ∷ []
request bytecodes = single (id reference_type_id) ∷ single (id method_id) ∷ []
request is_obsolete = single (id reference_type_id) ∷ single (id method_id) ∷ []
request variable_table_with_generic = single (id reference_type_id) ∷ single (id method_id) ∷ []

-- The class with a given code.
unfoldable pub of_code : ℕ → Option Method
unfolding command
of_code code =
    first_with command code
      (line_table ∷ variable_table ∷ bytecodes ∷ is_obsolete ∷ variable_table_with_generic ∷ [])

pub of_code-command : (c : Method) → of_code (command c) ≡ some c
unfolding of_code command
of_code-command line_table = refl
of_code-command _ = refl
