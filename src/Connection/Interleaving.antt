-- ===== src/Connection/Interleaving.antt =====
-- src/jdwp_con.cpp: what the reading thread does with the stream of packets, whatever the writing
-- thread and the callers do between its rounds.
use roastery.Prelude.{
  ◌<◌, ◌≤◌, ◌≡◌, refl, sym, ap, ap₂, ◌∙◌, subst, List, [], ◌∷◌, ◌++◌, length, All, append_assoc,
  arith,
}
use roastery.Outcome.{ok}
use roastery.Bytes.{Bytes}
use roastery.Action.{continue}
use roastery.Fields.{Tuple}
use roastery.Fields.Valid.{IsClearTuple}
use roastery.EventClass.{EventClass, event_fields}
use roastery.Socket.{Platform}
use roastery.Handler.{dispatch_events}
use roastery.Connection.{
  Connection, Round, impl_con, send_message, register_event_handler, cancel, incoming_round,
}
use roastery.Connection.Packets.{Incoming, body, header, events_of, wire, IsIncoming}
use roastery.Connection.Incoming.{IsReady, with_inbox, incoming_round-dispatch}
use roastery.Connection.Steps.{
  Label, receives, Run, step_send, step_register, step_cancel, step_take, step_test_write,
  step_yield, step_test_read, step_write, step_receive, ended, then_step,
}
use roastery.Connection.Observing.{
  observe, rounds_of, IsReadyFor, IsReading, IsQuiet, later-IsReadyFor, take_next-IsQuiet,
  write_next-IsQuiet,
}

module _ {W : Type 0} (p : Platform) (initial : (c : EventClass) → Tuple (event_fields c))
    (rest : Bytes) where
  -- What a run from `c` has come to.
  abbrev Observes : List (Label W) → List Incoming → Connection W → Connection W → Type 0
  Observes ls packets c d =
      (left : List Incoming) × (observe ls packets c.event_handlers c.world ≡ (ok left, d.world))
      × IsReading left rest d

  quiet-Observes :
      (ls : List (Label W)) (packets : List Incoming) (c between d : Connection W)
      → IsQuiet rest packets c between
      → Observes ls packets between d
      → Observes ls packets c d
  quiet-Observes ls packets c between d (handlers, world, _) (left, e, h) =
      (left, sym (ap₂ (λ hs w. observe ls packets hs w) handlers world) ∙ e, h)

  module _ (room : 0 < p.bufsiz)
      (clear : (c : EventClass) → IsClearTuple impl_con (event_fields c) (initial c)) where
    -- One round of the reading thread, and what follows it.
    round-Observes :
        (round : Round) (packet : Incoming) (packets : List Incoming) (ls : List (Label W))
        (c between d : Connection W)
        → IsReady p round (length (body packet))
        → IsIncoming packet
        → IsReading (packet ∷ packets) rest c
        → incoming_round p initial round c ≡ (ok tt, between)
        → (IsReading packets rest between → Observes ls packets between d)
        → Observes (receives round ∷ ls) (packet ∷ packets) c d
    unfolding observe
    round-Observes round packet packets ls c between d ready fits ((fd, is_open), stream) e later =
        let tail = wire packets ++ rest in
        let regrouped =
          stream
          ∙ append_assoc (header packet) (body packet ++ wire packets) rest
          ∙ ap (λ r. header packet ++ r) (append_assoc (body packet) (wire packets) rest) in
        let handled = dispatch_events (events_of packet) c.event_handlers c.world in
        let step =
          sym (
            incoming_round-dispatch p initial room clear round packet tail c ready fits is_open
              regrouped)
          ∙ e in
        let same : record (with_inbox tail c) { world = handled.1 } ≡ between =
          ap (λ r. r.1) step in
        let (left, rest_observed, h) =
          later (subst (λ d. IsReading packets rest d) same ((fd, is_open), refl)) in
        (
          left,
          ap (λ r. continue r (λ u. observe ls packets c.event_handlers) handled.1)
                (ap (λ r. r.0) step)
              ∙ subst (λ b. observe ls packets b.event_handlers b.world ≡ (ok left, d.world))
                  (sym same) rest_observed,
          h,
        )

    steps-Observes :
        {ls : List (Label W)} {c d : Connection W} (packets : List Incoming)
        → Run p initial c ls d
        → All (IsReadyFor p packets) ls
        → rounds_of ls ≤ length packets
        → All IsIncoming packets
        → IsReading packets rest c
        → Observes ls packets c d
    unfolding observe send_message register_event_handler cancel
    steps-Observes packets ended ready enough fits h = (packets, refl, h)
    steps-Observes packets (then_step (step_send message) run) ready enough fits h =
        steps-Observes packets run ready.1 enough fits h
    steps-Observes packets (then_step (step_register handler) run) ready enough fits h =
        steps-Observes packets run ready.1 enough fits h
    steps-Observes packets (then_step (step_test_write running out) run) ready enough fits h =
        steps-Observes packets run ready.1 enough fits h
    steps-Observes packets (then_step (step_yield within free empty) run) ready enough fits h =
        steps-Observes packets run ready.1 enough fits h
    steps-Observes packets (then_step (step_test_read running out) run) ready enough fits h =
        steps-Observes packets run ready.1 enough fits h
    steps-Observes packets (then_step step_cancel run) ready enough fits h =
        steps-Observes packets run ready.1 enough fits h
    steps-Observes {c = c} {d = last} packets
          (then_step {d = d} {ls = ls} (step_take running free e) run) ready enough fits h =
        let quiet = take_next-IsQuiet rest c.outgoing_messages packets c e h in
        quiet-Observes ls packets c d last quiet
          (steps-Observes packets run ready.1 enough fits quiet.2)
    steps-Observes {c = c} {d = last} packets
          (then_step {ls = ls}
            (step_write {d = d} {message = message} {answers = answers} within held e)
            run)
          ready enough fits h =
        let quiet = write_next-IsQuiet rest p answers message packets c e h in
        quiet-Observes ls packets c d last quiet
          (steps-Observes packets run ready.1 enough fits quiet.2)
    steps-Observes [] (then_step (step_receive running e) run) ready enough fits h =
        absurd (omega (arith, enough))
    steps-Observes {c = c} {d = last} (packet ∷ packets)
          (then_step {ls = ls} (step_receive {d = d} {round = round} running e) run) ready enough
          fits h =
        round-Observes round packet packets ls c d last ready.0.0 fits.0 h e λ h'.
          steps-Observes packets run (later-IsReadyFor p packet packets ls ready.1)
            (omega (arith, enough)) fits.1 h'

-- The reading thread among the others: in whatever order the callers and the two threads of a
-- connection take their steps, let the socket be open, BUFSIZ not be 0, the stream begin with
-- replies and composite event packets of fewer than 2 ^ 32 bytes as the protocol lays them out, with
-- fewer than 2 ^ 31 events in a packet, these valid (each field fits its type, and no byte of a
-- tagged object ID is zero), IDs of no bytes as the connection has them, and IDs of
-- new events that are clear, and let the reading thread do at most as many rounds as there are
-- packets, in each of which `poll` reports input and no error and `read` moves bytes, with an answer
-- for each byte of any of the packets. Then each round has taken one packet, in the order of the
-- stream, and has handed its events to the handlers registered by then, the handlers act on what
-- those before them left, and what the run leaves unread is the packets behind these, with the
-- socket still open.
pub Run-observe :
    {W : Type 0} (p : Platform) (initial : (c : EventClass) → Tuple (event_fields c))
    (packets : List Incoming) (rest : Bytes) {ls : List (Label W)} {c d : Connection W}
    → Run p initial c ls d
    → 0 < p.bufsiz
    → ((c : EventClass) → IsClearTuple impl_con (event_fields c) (initial c))
    → All (IsReadyFor p packets) ls
    → rounds_of ls ≤ length packets
    → All IsIncoming packets
    → IsReading packets rest c
    → (left : List Incoming) × (observe ls packets c.event_handlers c.world ≡ (ok left, d.world))
      × IsReading left rest d
unfolding observe
Run-observe p initial packets rest run room clear ready enough fits h =
    steps-Observes p initial rest room clear packets run ready enough fits h
