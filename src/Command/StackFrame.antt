-- ===== src/Command/StackFrame.antt =====
-- src/include/jdwp_packet.hpp: the classes of `stack_frame` that `CommandPacketBase` implements.
use roastery.Prelude.{ℕ, ◌≡◌, refl, Option, some, List, [], ◌∷◌, first_with}
use roastery.Numeric.{byte, int}
use roastery.Ids.{frame_id, thread_id}
use roastery.Fields.{Element, single, vector, numeric, id, value}

pub data StackFrame : Type 0 where
  get_values set_values this_object pop_frames : StackFrame

-- The codes of the enum `StackFrame`.
unfoldable pub command : StackFrame → ℕ
command get_values = 1
command set_values = 2
command this_object = 3
command pop_frames = 4

-- `Fields` of each class.
abbrev pub request : StackFrame → List Element
request get_values =
    single (id thread_id) ∷ single (id frame_id) ∷ vector (numeric int ∷ numeric byte ∷ []) ∷ []
request set_values =
    single (id thread_id) ∷ single (id frame_id) ∷ vector (numeric int ∷ value ∷ []) ∷ []
request this_object = single (id thread_id) ∷ single (id frame_id) ∷ []
request pop_frames = single (id thread_id) ∷ single (id frame_id) ∷ []

-- The class with a given code.
unfoldable pub of_code : ℕ → Option StackFrame
unfolding command
of_code code = first_with command code (get_values ∷ set_values ∷ this_object ∷ pop_frames ∷ [])

pub of_code-command : (c : StackFrame) → of_code (command c) ≡ some c
unfolding of_code command
of_code-command get_values = refl
of_code-command _ = refl
