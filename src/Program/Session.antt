-- ===== src/Program/Session.antt =====
-- src/roast.cpp: a whole session of `main` with a virtual machine, while the threads of its connection
-- are running.
use roastery.Prelude.{
  ℕ, ◌<◌, ◌≤◌, ◌≡◌, refl, sym, ap, ◌∙◌, subst, List, [], ◌∷◌, ◌++◌, length, take, drop, All,
  append_assoc, append-nil, arith,
}
use roastery.Outcome.{ok, ok-injective}
use roastery.Bytes.{Bytes}
use roastery.Action.{continue}
use roastery.Fields.{Tuple}
use roastery.Fields.Valid.{IsClearTuple}
use roastery.EventClass.{EventClass, JdwpEvent, event_fields}
use roastery.Handler.{Handler, dispatch_events}
use roastery.Handler.Print.{print_handler}
use roastery.Handler.Printed.{line, lines, dispatch_events-lines}
use roastery.Socket.{Platform, Answer}
use roastery.Socket.Connect.{Network, SockaddrIn6, connect}
use roastery.Socket.Writes.{IsMoving}
use roastery.Socket.Constructor.{jdwp_handshake}
use roastery.Connection.{Connection, impl_con}
use roastery.Connection.History.{IsOrdered, IsShort, IsUninterrupted}
use roastery.Connection.Order.{Run-IsOrdered}
use roastery.Connection.Observing.{observe, rounds_of, IsReadyFor, IsReading}
use roastery.Connection.Interleaving.{Run-observe}
use roastery.Connection.Steps.{
  Label, Run, sends, registers, cancels, writer_tests, yields, takes, writes, reader_tests,
  receives, messages,
}
use roastery.Connection.Packets.{Incoming, events_of, wire, all_events, IsIncoming}
use roastery.Program.{address, version_command, main_calls, main_connection}
use roastery.Program.Version.{greeted, main_connection-greeted, version-IsShort}

-- The steps of the callers among those of a run.
abbrev pub callers : {W : Type 0} → List (Label W) → List (Label W)
callers [] = []
callers (sends message ∷ ls) = sends message ∷ callers ls
callers (registers handler ∷ ls) = registers handler ∷ callers ls
callers (cancels ∷ ls) = cancels ∷ callers ls
callers (l ∷ ls) = callers ls

abbrev registered : {W : Type 0} → List (Label W) → List (Handler W)
registered [] = []
registered (registers handler ∷ ls) = handler ∷ registered ls
registered (l ∷ ls) = registered ls

messages-callers : {W : Type 0} (ls : List (Label W)) → messages (callers ls) ≡ messages ls
messages-callers [] = refl
messages-callers (sends message ∷ ls) = ap (λ r. message ∷ r) (messages-callers ls)
messages-callers (registers handler ∷ ls) = messages-callers ls
messages-callers (cancels ∷ ls) = messages-callers ls
messages-callers (writer_tests ∷ ls) = messages-callers ls
messages-callers (yields ∷ ls) = messages-callers ls
messages-callers (takes ∷ ls) = messages-callers ls
messages-callers (writes answers ∷ ls) = messages-callers ls
messages-callers (reader_tests ∷ ls) = messages-callers ls
messages-callers (receives round ∷ ls) = messages-callers ls

registered-callers : {W : Type 0} (ls : List (Label W)) → registered (callers ls) ≡ registered ls
registered-callers [] = refl
registered-callers (registers handler ∷ ls) = ap (λ r. handler ∷ r) (registered-callers ls)
registered-callers (cancels ∷ ls) = registered-callers ls
registered-callers (writer_tests ∷ ls) = registered-callers ls
registered-callers (yields ∷ ls) = registered-callers ls
registered-callers (takes ∷ ls) = registered-callers ls
registered-callers (writes answers ∷ ls) = registered-callers ls
registered-callers (reader_tests ∷ ls) = registered-callers ls
registered-callers (receives round ∷ ls) = registered-callers ls
registered-callers (sends message ∷ ls) = registered-callers ls

-- The packets that are read behind the registration of a handler.
abbrev pub read_behind : {W : Type 0} → List (Label W) → List Incoming → List Incoming
read_behind [] packets = []
read_behind (registers handler ∷ ls) packets = take (rounds_of ls) packets
read_behind (receives round ∷ ls) (packet ∷ packets) = read_behind ls packets
read_behind (l ∷ ls) packets = read_behind ls packets

-- Handlers that are none, and handlers that print.
unheard : {W : Type 0} (events : List JdwpEvent) (w : W) → dispatch_events events [] w ≡ (ok tt, w)
unfolding dispatch_events
unheard [] w = refl
unheard (event ∷ events) w = unheard events w

lines-append :
    (events later : List JdwpEvent) → lines (events ++ later) ≡ lines events ++ lines later
lines-append [] later = refl
lines-append (event ∷ events) later =
    ap (λ r. line event ++ r) (lines-append events later)
    ∙ sym (append_assoc (line event) (lines events) (lines later))

all_events-cons :
    (cout : Bytes) (packet : Incoming) (packets : List Incoming)
    → (cout ++ lines (events_of packet)) ++ lines (all_events packets)
      ≡ cout ++ lines (all_events (packet ∷ packets))
all_events-cons cout packet packets =
    append_assoc cout (lines (events_of packet)) (lines (all_events packets))
    ∙ ap (λ out. cout ++ out) (sym (lines-append (events_of packet) (all_events packets)))

observe-prints :
    (ls : List (Label Bytes)) (packets : List Incoming) (cout : Bytes)
    → registered ls ≡ []
    → rounds_of ls ≤ length packets
    → observe ls packets (print_handler ∷ []) cout
      ≡ (ok (drop (rounds_of ls) packets), cout ++ lines (all_events (take (rounds_of ls) packets)))
unfolding observe
observe-prints [] packets cout none_more enough =
    ap (λ out. (ok packets, out)) (sym (append-nil cout))
observe-prints (registers handler ∷ ls) packets cout none_more enough = cc
observe-prints (receives round ∷ ls) [] cout none_more enough = absurd (omega (arith, enough))
observe-prints (receives round ∷ ls) (packet ∷ packets) cout none_more enough =
    ap (λ q. continue q.0 (λ u. observe ls packets (print_handler ∷ [])) q.1)
      (dispatch_events-lines (events_of packet) cout)
    ∙ observe-prints ls packets (cout ++ lines (events_of packet)) none_more (omega (arith, enough))
    ∙ ap (λ out. (ok (drop (rounds_of ls) packets), out))
        (all_events-cons cout packet (take (rounds_of ls) packets))
observe-prints (cancels ∷ ls) packets cout none_more enough =
    observe-prints ls packets cout none_more enough
observe-prints (writer_tests ∷ ls) packets cout none_more enough =
    observe-prints ls packets cout none_more enough
observe-prints (yields ∷ ls) packets cout none_more enough =
    observe-prints ls packets cout none_more enough
observe-prints (takes ∷ ls) packets cout none_more enough =
    observe-prints ls packets cout none_more enough
observe-prints (writes answers ∷ ls) packets cout none_more enough =
    observe-prints ls packets cout none_more enough
observe-prints (reader_tests ∷ ls) packets cout none_more enough =
    observe-prints ls packets cout none_more enough
observe-prints (sends message ∷ ls) packets cout none_more enough =
    observe-prints ls packets cout none_more enough

observe-callers :
    (ls : List (Label Bytes)) (packets : List Incoming)
    → registered ls ≡ print_handler ∷ []
    → rounds_of ls ≤ length packets
    → observe ls packets [] []
      ≡ (ok (drop (rounds_of ls) packets), lines (all_events (read_behind ls packets)))
unfolding observe
observe-callers [] packets one enough = cc
observe-callers (registers handler ∷ ls) packets one enough =
    let same : handler ≡ print_handler = cc in
    let no_more : registered ls ≡ [] = cc in
    subst
      (λ handler.
        observe ls packets (handler ∷ []) []
        ≡ (ok (drop (rounds_of ls) packets), lines (all_events (take (rounds_of ls) packets))))
      (sym same) (observe-prints ls packets [] no_more enough)
observe-callers (receives round ∷ ls) [] one enough = absurd (omega (arith, enough))
observe-callers (receives round ∷ ls) (packet ∷ packets) one enough =
    ap (λ q. continue q.0 (λ u. observe ls packets []) q.1) (unheard (events_of packet) [])
    ∙ observe-callers ls packets one (omega (arith, enough))
observe-callers (cancels ∷ ls) packets one enough = observe-callers ls packets one enough
observe-callers (writer_tests ∷ ls) packets one enough = observe-callers ls packets one enough
observe-callers (yields ∷ ls) packets one enough = observe-callers ls packets one enough
observe-callers (takes ∷ ls) packets one enough = observe-callers ls packets one enough
observe-callers (writes answers ∷ ls) packets one enough = observe-callers ls packets one enough
observe-callers (reader_tests ∷ ls) packets one enough = observe-callers ls packets one enough
observe-callers (sends message ∷ ls) packets one enough = observe-callers ls packets one enough

-- A session of `main`, whose thread runs among those of its connection: `Connect` finds an address,
-- BUFSIZ is not 0, the peer there sends "JDWP-Handshake" and then replies and composite event packets
-- as the protocol lays them out, each of fewer than 2 ^ 32 bytes, with fewer than 2 ^ 31 events, these
-- valid (each field fits its type, and no byte of a tagged object ID is zero), IDs of no bytes as the
-- connection has them, and IDs of new events that are clear; in the handshake every `send` and `read`
-- moves bytes, with at least 14 answers for each call. Then the connection is made. From there, let
-- `main` register its handler and send the version command, and the two threads go on, in any order;
-- no `send` fails with an errno that `Write` means to retry; the reading thread does at most as many
-- rounds as there are packets, in each of which `poll` reports input and no error and `read` moves
-- bytes, with an answer for each byte of any of the packets. When `main` has made its two calls, its
-- handler has printed a line "Event kind: " with the kind's byte for each event of each packet that was
-- read since it was registered, in their order, and nothing for those read before; the version
-- command was written whole behind "JDWP-Handshake", or is pending; and what is unread are the other
-- packets and what follows them.
pub main-prints_events :
    (p : Platform) (network : Network) (initial : (c : EventClass) → Tuple (event_fields c))
    (answers reads : List Answer) (next_id : ℕ) (packets : List Incoming) (rest : Bytes) {fd : ℕ}
    {addr : SockaddrIn6} {ls : List (Label Bytes)} {d : Connection Bytes}
    → connect p network address 3262 ≡ ok (fd, addr)
    → 0 < p.bufsiz
    → All IsMoving answers
    → All IsMoving reads
    → 14 ≤ length answers
    → 14 ≤ length reads
    → network.peer addr ≡ jdwp_handshake ++ (wire packets ++ rest)
    → ((c : EventClass) → IsClearTuple impl_con (event_fields c) (initial c))
    → All IsIncoming packets
    → Run p initial (main_connection p network answers reads).1 ls d
    → callers ls ≡ main_calls next_id
    → All (IsUninterrupted p) ls
    → All (IsReadyFor p packets) ls
    → rounds_of ls ≤ length packets
    → ((main_connection p network answers reads).0 ≡ ok tt)
      × (d.world ≡ lines (all_events (read_behind ls packets)))
      × IsOrdered jdwp_handshake (version_command next_id ∷ []) d
      × IsReading (drop (rounds_of ls) packets) rest d
main-prints_events p network initial answers reads next_id packets rest {fd} {ls = ls} {d = d} e
      room ha hr ma mr greets clear fits run made_calls unbroken ready enough =
    let made =
      main_connection-greeted p network answers reads (wire packets ++ rest) e room ha hr ma mr
        greets in
    let from_greeted : Run p initial (greeted fd (wire packets ++ rest)) ls d =
      subst (λ q. Run p initial q.1 ls d) made run in
    let sent : messages ls ≡ version_command next_id ∷ [] =
      sym (messages-callers ls) ∙ ap messages made_calls in
    let heard : registered ls ≡ print_handler ∷ [] =
      sym (registered-callers ls) ∙ ap registered made_calls in
    let (left, observed, reading) =
      Run-observe p initial packets rest from_greeted room clear ready enough fits
        ((fd, refl), refl) in
    let outcome = sym observed ∙ observe-callers ls packets heard enough in
    (
      ap (λ q. q.0) made,
      ap (λ q. q.1) outcome,
      subst (λ all. IsOrdered jdwp_handshake all d) sent
          (Run-IsOrdered p initial from_greeted unbroken
            (subst (λ all. All IsShort all) (sym sent) (version-IsShort next_id))),
      subst (λ left. IsReading left rest d) (ok-injective (ap (λ q. q.0) outcome)) reading,
    )
