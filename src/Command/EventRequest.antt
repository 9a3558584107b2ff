-- ===== src/Command/EventRequest.antt =====
-- src/include/jdwp_packet.hpp: the classes of `event_request` that `CommandPacketBase` implements.
-- `SetCommand`, which has an implementation of its own, is in Packet/SetCommand.antt.
use roastery.Prelude.{ℕ, ◌≡◌, refl, Option, some, List, [], ◌∷◌, first_with}
use roastery.Numeric.{byte, int}
use roastery.Fields.{Element, single, numeric}

pub data EventRequest : Type 0 where
  clear clear_all_breakpoints : EventRequest

-- The codes of the enum `EventRequest`.
unfoldable pub command : EventRequest → ℕ
command clear = 2
command clear_all_breakpoints = 3

-- `Fields` of each class.
abbrev pub request : EventRequest → List Element
request clear = single (numeric byte) ∷ single (numeric int) ∷ []
request clear_all_breakpoints = []

-- The class with a given code.
unfoldable pub of_code : ℕ → Option EventRequest
unfolding command
of_code code = first_with command code (clear ∷ clear_all_breakpoints ∷ [])

pub of_code-command : (c : EventRequest) → of_code (command c) ≡ some c
unfolding of_code command
of_code-command clear = refl
of_code-command _ = refl
