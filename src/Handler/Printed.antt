-- ===== src/Handler/Printed.antt =====
-- src/roast.cpp: what `PrintHandler` writes for the events that are dispatched to it.
use roastery.Prelude.{◌≡◌, sym, ap, ◌∙◌, List, [], ◌∷◌, ◌++◌, append_assoc, append-nil}
use roastery.Outcome.{ok}
use roastery.Bytes.{Bytes}
use roastery.EventClass.{JdwpEvent, kind_to_byte, get_kind}
use roastery.Handler.{dispatch_events}
use roastery.Handler.Print.{label, print_event, print_handler}

-- A line for each event: "Event kind: " and the byte of its kind.
abbrev pub line : JdwpEvent → Bytes
line event = label ++ (kind_to_byte (get_kind event.class) ∷ 10 ∷ [])

abbrev pub lines : List JdwpEvent → Bytes
lines [] = []
lines (event ∷ events) = line event ++ lines events

pub dispatch_events-lines :
    (events : List JdwpEvent) (cout : Bytes)
    → dispatch_events events (print_handler ∷ []) cout ≡ (ok tt, cout ++ lines events)
unfolding dispatch_events print_event
dispatch_events-lines [] cout = ap (λ out. (ok tt, out)) (sym (append-nil cout))
dispatch_events-lines (event ∷ events) cout =
    dispatch_events-lines events (cout ++ line event)
    ∙ ap (λ out. (ok tt, out)) (append_assoc cout (line event) (lines events))
