-- ===== src/Command/ThreadReference.antt =====
-- src/include/jdwp_packet.hpp: the classes of `thread_reference` that `CommandPacketBase` implements.
use roastery.Prelude.{ℕ, ◌≡◌, refl, Option, some, List, [], ◌∷◌, first_with}
use roastery.Numeric.{int}
use roastery.Ids.{obj_id, thread_id}
use roastery.Fields.{Element, single, numeric, id, value}

pub data ThreadReference : Type 0 where
  name suspend resume status thread_group frames frame_count owned_monitors : ThreadReference
  current_contended_monitor stop interrupt suspend_count owned_monitors_stack_depth_info :
      ThreadReference
  force_early_return : ThreadReference

-- The codes of the enum `ThreadReference`.
unfoldable pub command : ThreadReference → ℕ
command name = 1
command suspend = 2
command resume = 3
command status = 4
command thread_group = 5
command frames = 6
command frame_count = 7
command owned_monitors = 8
command current_contended_monitor = 9
command stop = 10
command interrupt = 11
command suspend_count = 12
command owned_monitors_stack_depth_info = 13
command force_early_return = 14

-- `Fields` of each class.
abbrev pub request : ThreadReference → List Element
request name = single (id thread_id) ∷ []
request suspend = single (id thread_id) ∷ []
request resume = single (id thread_id) ∷ []
request status = single (id thread_id) ∷ []
request thread_group = single (id thread_id) ∷ []
request frames = single (id thread_id) ∷ single (numeric int) ∷ single (numeric int) ∷ []
request frame_count = single (id thread_id) ∷ []
request owned_monitors = single (id thread_id) ∷ []
request current_contended_monitor = single (id thread_id) ∷ []
request stop = single (id thread_id) ∷ single (id obj_id) ∷ []
request interrupt = single (id thread_id) ∷ []
request suspend_count = single (id thread_id) ∷ []
request owned_monitors_stack_depth_info = single (id thread_id) ∷ []
request force_early_return = single (id thread_id) ∷ single value ∷ []

-- The class with a given code.
unfoldable pub of_code : ℕ → Option ThreadReference
unfolding command
of_code code = first_with command code (
    name ∷ suspend ∷ resume ∷ status ∷ thread_group ∷ frames ∷ frame_count ∷ owned_monitors
    ∷ current_contended_monitor ∷ stop ∷ interrupt ∷ suspend_count ∷ owned_monitors_stack_depth_info
    ∷ force_early_return ∷ [])

pub of_code-command : (c : ThreadReference) → of_code (command c) ≡ some c
unfolding of_code command
of_code-command name = refl
of_code-command _ = refl
