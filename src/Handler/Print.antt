-- ===== src/Handler/Print.antt =====
-- src/roast.cpp: `PrintHandler`, which writes to `std::cout`; what is shared is the text written.
use roastery.Prelude.{none, some, [], ◌∷◌, ◌++◌}
use roastery.Outcome.{ok}
use roastery.Bytes.{Bytes}
use roastery.Action.{Action}
use roastery.EventClass.{JdwpEvent, kind_to_byte, get_kind}
use roastery.Handler.{Handler}

-- The characters of "Event kind: ".
abbrev pub label : Bytes
label = b'E' ∷ b'v' ∷ b'e' ∷ b'n' ∷ b't' ∷ 32 ∷ b'k' ∷ b'i' ∷ b'n' ∷ b'd' ∷ b':' ∷ 32 ∷ []

-- A `uint8_t` is written as the character with that code, with or without `std::hex`; `std::endl`
-- writes a line feed.
unfoldable pub print_event : JdwpEvent → Action Bytes (Unit {0})
unfolding kind_to_byte get_kind
print_event event cout = (ok tt, cout ++ (label ++ (kind_to_byte (get_kind event.class) ∷ 10 ∷ [])))

abbrev pub print_handler : Handler Bytes
print_handler = record { handle = λ class. none; handle_interface = some print_event }
