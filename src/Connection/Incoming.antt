-- ===== src/Connection/Incoming.antt =====
-- src/jdwp_con.cpp: what the reading thread does with the stream of packets that the peer sends.
use Prim.Native.Nat.{bit_and}
use roastery.Prelude.{
  ℕ, ◌+◌, ◌-◌, ◌%◌, ◌^◌, ◌<◌, ◌≤◌, ◌≡◌, refl, ap, ap₂, ◌∙◌, subst, true, false, some, List, [], ◌∷◌,
  ◌++◌, length, ◌==◌, All, append_assoc, arith,
}
use roastery.Outcome.{ok}
use roastery.Bytes.{Bytes}
use roastery.Action.{continue, continue-eq-ok}
use roastery.Fields.{Tuple}
use roastery.EventClass.{EventClass, JdwpEvent, event_fields}
use roastery.Socket.{Platform, Socket, can_read, connected_open}
use roastery.Socket.Writes.{IsMoving}
use roastery.Socket.Streams.{read_front}
use roastery.Handler.{Handler, dispatch_events, dispatch_to_all}
use roastery.Connection.{Connection, Round, impl_con, handle_packet, read_packet, incoming_round}
use roastery.Connection.Packets.{
  Incoming, reply, composite, header, body, events_of, wire, all_events, IsWhole, IsIncoming,
  packet-IsWhole, header_is_event-reply, header_is_event-composite, from_composite-packet,
}
use roastery.Fields.Valid.{IsClearTuple}
use roastery.Connection.Steps.{
  Label, reader_tests, step_test_read, receives, Run, step_receive, ended, then_step,
}

-- `poll` says that there is input and no error, every `read` moves bytes, and there are enough of them
-- for a packet whose body has `n` bytes.
abbrev pub IsReady : Platform → Round → ℕ → Type 0
IsReady p round n =
    (events : ℕ) × (round.revents ≡ some events)
    × ((bit_and events p.pollerr == 0) ≡ true)
    × ((bit_and events p.pollin == 0) ≡ false)
    × All IsMoving round.header_reads
    × (11 ≤ length round.header_reads)
    × All IsMoving round.body_reads
    × (n ≤ length round.body_reads)

-- The stream goes on behind what was read.
abbrev pub with_inbox : {W : Type 0} → Bytes → Connection W → Connection W
with_inbox rest c = record c { socket = record c.socket { inbox = rest } }

pub poll-ready :
    (p : Platform) (round : Round) (n : ℕ) (s : Socket) {fd : ℕ}
    → IsReady p round n
    → s.sock_fd ≡ some fd
    → can_read p round.revents round.errno s ≡ (ok true, s)
unfolding can_read
poll-ready p round n s ready e =
    let (events, set, no_error, input, _, _, _, _) = ready in
    connected_open "Cannot poll while not connected" _ s e ∙ rw (set, no_error, input) refl

module _ {W : Type 0} (p : Platform) (initial : (c : EventClass) → Tuple (event_fields c))
    (room : 0 < p.bufsiz)
    (clear : (c : EventClass) → IsClearTuple impl_con (event_fields c) (initial c)) where
  read_packet-lem :
      (round : Round) (h b rest : Bytes) (c : Connection W) {fd : ℕ}
      → IsReady p round (length b)
      → IsWhole h b
      → c.socket.sock_fd ≡ some fd
      → c.socket.inbox ≡ h ++ (b ++ rest)
      → read_packet p initial round c ≡ handle_packet p initial h (h ++ b) (with_inbox rest c)
  unfolding read_packet
  read_packet-lem round h b rest c ready whole e stream =
      let (_, _, _, _, hr, hn, br, bn) = ready in
      let (size, total, small) = whole in
      let left : (length b + 11 + (2 ^ 32 - 11)) % 2 ^ 32 ≡ length b = omega arith in
      let behind = record c.socket { inbox = b ++ rest } in
      rw
        (
          read_front p round.header_reads 11 c.socket h (b ++ rest) room (omega arith) e hr hn size
              stream,
          total,
          left,
          read_front p round.body_reads (length b) behind b rest room (omega arith) e br bn refl
              refl,
        )
        refl

  pub incoming_round-lem :
      (round : Round) (h b rest : Bytes) (c : Connection W) {fd : ℕ}
      → IsReady p round (length b)
      → IsWhole h b
      → c.socket.sock_fd ≡ some fd
      → c.socket.inbox ≡ h ++ (b ++ rest)
      → incoming_round p initial round c ≡ handle_packet p initial h (h ++ b) (with_inbox rest c)
  unfolding incoming_round
  incoming_round-lem round h b rest c ready whole e stream =
      rw (poll-ready p round (length b) c.socket ready e)
        (read_packet-lem round h b rest c ready whole e stream)

  -- A round that takes one packet: its events go to the handlers, whatever these return.
  pub incoming_round-dispatch :
      (round : Round) (packet : Incoming) (rest : Bytes) (c : Connection W) {fd : ℕ}
      → IsReady p round (length (body packet))
      → IsIncoming packet
      → c.socket.sock_fd ≡ some fd
      → c.socket.inbox ≡ header packet ++ (body packet ++ rest)
      → let (r, later) = dispatch_events (events_of packet) c.event_handlers c.world in
        (incoming_round p initial round c ≡ (r, record (with_inbox rest c) { world = later }))
  unfolding handle_packet dispatch_events
  incoming_round-dispatch round (reply id error text) rest c ready fits e stream =
      let packet = reply id error text in
      incoming_round-lem round (header packet) text rest c ready (packet-IsWhole packet fits) e
        stream
      ∙ rw (header_is_event-reply id error text) refl
  incoming_round-dispatch round (composite id policy events text) rest c ready fits e stream =
      let packet = composite id policy events text in
      incoming_round-lem round (header packet) (body packet) rest c ready
        (packet-IsWhole packet fits) e stream
      ∙ rw
          (
            header_is_event-composite id policy events text,
            from_composite-packet initial id policy events text clear fits,
          )
          refl

-- Handling two lists of events, one behind the other.
dispatch_events-append :
    {W : Type 0} (front back : List JdwpEvent) (handlers : List (Handler W)) (w : W) {later : W}
    → dispatch_events (front ++ back) handlers w ≡ (ok tt, later)
    → (between : W) × (dispatch_events front handlers w ≡ (ok tt, between))
      × (dispatch_events back handlers between ≡ (ok tt, later))
unfolding dispatch_events
dispatch_events-append [] back handlers w e = (w, refl, e)
dispatch_events-append (event ∷ front) back handlers w e =
    let first = dispatch_to_all event handlers w in
    let (_, returned, e') = continue-eq-ok first.0 _ first.1 e in
    let (between, e'', rest) = dispatch_events-append front back handlers first.1 e' in
    (
      between,
      ap (λ r. continue r (λ _. dispatch_events front handlers) first.1) returned ∙ e'',
      rest,
    )

-- Each packet has a round of its own, in which it can be read.
abbrev pub AreReady : Platform → List Round → List Incoming → Type 0
AreReady p [] [] = Unit
AreReady p (round ∷ rounds) (packet ∷ packets) =
    IsReady p round (length (body packet)) × AreReady p rounds packets
AreReady p _ _ = ⊥

abbrev pub reader_rounds : {W : Type 0} → List Round → List (Label W)
reader_rounds [] = []
reader_rounds (round ∷ rounds) = reader_tests ∷ receives round ∷ reader_rounds rounds

-- The reading thread and the stream of packets: the socket is open, the connection is not
-- cancelled, the thread is at the head of its loop, BUFSIZ is not 0, the stream begins with replies and composite event packets of fewer
-- than 2 ^ 32 bytes as the protocol lays them out, with fewer than 2 ^ 31 events in a packet, these
-- valid: each field fits its type, and no byte of a tagged object ID is zero. IDs have no bytes, as the
-- connection has them, IDs of new events are clear, and the handlers, called with each event of each
-- packet, each handler in the order of registration, all return. For each packet there is a round, in
-- which `poll` reports input and no error and `read` moves bytes, with an answer for each byte of the
-- packet; the rounds need not be alike. Then these rounds, one after another, can take exactly these
-- packets from the stream and leave what the handlers have made of these events in this order: the
-- division into packets and the replies are not seen by the handlers.
pub receives-Run :
    {W : Type 0} (p : Platform) (initial : (c : EventClass) → Tuple (event_fields c))
    (rounds : List Round) (packets : List Incoming) (rest : Bytes) (c : Connection W) {fd : ℕ}
    {later : W}
    → 0 < p.bufsiz
    → ((c : EventClass) → IsClearTuple impl_con (event_fields c) (initial c))
    → c.should_cancel ≡ false
    → c.reader_in_loop ≡ false
    → c.socket.sock_fd ≡ some fd
    → All IsIncoming packets
    → AreReady p rounds packets
    → c.socket.inbox ≡ wire packets ++ rest
    → dispatch_events (all_events packets) c.event_handlers c.world ≡ (ok tt, later)
    → Run p initial c
        (reader_rounds rounds)
        (record (with_inbox rest c) { reader_in_loop = false; world = later })
unfolding dispatch_events
receives-Run p initial [] [] rest c room clear running out e fits ready stream handled =
    subst (λ d. Run p initial c [] d)
      (ap (λ within. record c { reader_in_loop = within }) out
        ∙ ap₂
            (λ inbox r. record c {
              reader_in_loop = false;
              socket = record c.socket { inbox = inbox };
              world = r.1;
            })
            stream handled)
      ended
receives-Run p initial [] (packet ∷ packets) rest c room clear running out e fits ready stream
      handled =
    absurd ready
receives-Run p initial (round ∷ rounds) [] rest c room clear running out e fits ready stream
      handled =
    absurd ready
receives-Run p initial (round ∷ rounds) (packet ∷ packets) rest c room clear running out e fits
      ready stream handled =
    let (between, first, others) =
      dispatch_events-append (events_of packet) (all_events packets) c.event_handlers c.world
        handled in
    let tail = wire packets ++ rest in
    let regrouped =
      stream
      ∙ append_assoc (header packet) (body packet ++ wire packets) rest
      ∙ ap (λ r. header packet ++ r) (append_assoc (body packet) (wire packets) rest) in
    then_step (step_test_read running out) (
      then_step
        (step_receive refl (
          incoming_round-dispatch p initial room clear round packet tail
            (record c { reader_in_loop = true }) ready.0 fits.0 e regrouped
          ∙ ap (λ r. (r.0, record (with_inbox tail c) { reader_in_loop = true; world = r.1 }))
              first))
        (receives-Run p initial rounds packets rest
          (record (with_inbox tail c) { reader_in_loop = false; world = between }) room clear
          running refl e fits.1 ready.1 refl others))
