-- ===== src/Command/ThreadGroupReference.antt =====
-- src/include/jdwp_packet.hpp: the classes of `thread_group_reference` that `CommandPacketBase` implements.
use roastery.Prelude.{ℕ, ◌≡◌, refl, Option, some, List, [], ◌∷◌, first_with}
use roastery.Ids.{thread_group_id}
use roastery.Fields.{Element, single, id}

pub data ThreadGroupReference : Type 0 where
  name parent children : ThreadGroupReference

-- The codes of the enum `ThreadGroupReference`.
unfoldable pub command : ThreadGroupReference → ℕ
command name = 1
command parent = 2
command children = 3

-- `Fields` of each class.
abbrev pub request : ThreadGroupReference → List Element
request name = single (id thread_group_id) ∷ []
request parent = single (id thread_group_id) ∷ []
request children = single (id thread_group_id) ∷ []

-- The class with a given code.
unfoldable pub of_code : ℕ → Option ThreadGroupReference
unfolding command
of_code code = first_with command code (name ∷ parent ∷ children ∷ [])

pub of_code-command : (c : ThreadGroupReference) → of_code (command c) ≡ some c
unfolding of_code command
of_code-command name = refl
of_code-command _ = refl
