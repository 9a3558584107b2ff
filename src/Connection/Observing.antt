-- ===== src/Connection/Observing.antt =====
-- src/jdwp_con.cpp: what the handlers should see of a run, and the steps that have no part in it.
use roastery.Prelude.{ℕ, suc, ◌≡◌, refl, ap, ◌∙◌, subst, some, List, [], ◌∷◌, ◌++◌, length, All}
use roastery.Outcome.{ok, out_of_fuel}
use roastery.Bytes.{Bytes}
use roastery.Action.{Action, continue-eq-ok, ◌>>◌}
use roastery.Socket.{Platform, Answer, write}
use roastery.Socket.Keeps.{write-inbox}
use roastery.Socket.Open.{write-sock_fd}
use roastery.Handler.{Handler, dispatch_events}
use roastery.Connection.{Connection, impl_con, take_next, write_next}
use roastery.Connection.Outgoing.{IJdwpCommandPacket, serialize}
use roastery.Connection.Packets.{Incoming, body, events_of, wire}
use roastery.Connection.Incoming.{IsReady}
use roastery.Connection.Steps.{
  Label, sends, registers, cancels, writer_tests, yields, takes, writes, reader_tests, receives,
}

-- What a run should do with the packets of the peer: each round of the reading thread takes the next
-- packet, and hands its events to the handlers that are registered by then. What is left is
-- returned.
unfoldable pub observe :
    {W : Type 0} → List (Label W) → List Incoming → List (Handler W) → Action W (List Incoming)
unfolding dispatch_events
observe [] packets handlers = λ w. (ok packets, w)
observe (registers handler ∷ ls) packets handlers = observe ls packets (handlers ++ (handler ∷ []))
observe (receives round ∷ ls) [] handlers = λ w. (out_of_fuel, w)
observe (receives round ∷ ls) (packet ∷ packets) handlers = do
  dispatch_events (events_of packet) handlers
  observe ls packets handlers
observe (sends message ∷ ls) packets handlers = observe ls packets handlers
observe (cancels ∷ ls) packets handlers = observe ls packets handlers
observe (writer_tests ∷ ls) packets handlers = observe ls packets handlers
observe (yields ∷ ls) packets handlers = observe ls packets handlers
observe (takes ∷ ls) packets handlers = observe ls packets handlers
observe (reader_tests ∷ ls) packets handlers = observe ls packets handlers
observe (writes answers ∷ ls) packets handlers = observe ls packets handlers

-- The number of rounds of the reading thread.
abbrev pub rounds_of : {W : Type 0} → List (Label W) → ℕ
rounds_of [] = 0
rounds_of (receives round ∷ ls) = suc (rounds_of ls)
rounds_of (l ∷ ls) = rounds_of ls

-- A round of the reading thread is ready for any of the packets.
abbrev pub IsReadyFor : {W : Type 0} → Platform → List Incoming → Label W → Type 0
IsReadyFor p packets (receives round) =
    All (λ packet. IsReady p round (length (body packet))) packets
IsReadyFor p packets l = Unit

-- The stream of packets that is left, behind an open socket.
abbrev pub IsReading : {W : Type 0} → List Incoming → Bytes → Connection W → Type 0
IsReading packets rest c =
    ((fd : ℕ) × (c.socket.sock_fd ≡ some fd)) × (c.socket.inbox ≡ wire packets ++ rest)

module _ {W : Type 0} (p : Platform) where
  pub later-IsReadyFor :
      (packet : Incoming) (packets : List Incoming) (ls : List (Label W))
      → All (IsReadyFor p (packet ∷ packets)) ls
      → All (IsReadyFor p packets) ls
  later-IsReadyFor packet packets [] h = tt
  later-IsReadyFor packet packets (receives round ∷ ls) (ready, h) =
      (ready.1, later-IsReadyFor packet packets ls h)
  later-IsReadyFor packet packets (sends message ∷ ls) (_, h) =
      (tt, later-IsReadyFor packet packets ls h)
  later-IsReadyFor packet packets (registers handler ∷ ls) (_, h) =
      (tt, later-IsReadyFor packet packets ls h)
  later-IsReadyFor packet packets (cancels ∷ ls) (_, h) = (tt, later-IsReadyFor packet packets ls h)
  later-IsReadyFor packet packets (writer_tests ∷ ls) (_, h) =
      (tt, later-IsReadyFor packet packets ls h)
  later-IsReadyFor packet packets (yields ∷ ls) (_, h) = (tt, later-IsReadyFor packet packets ls h)
  later-IsReadyFor packet packets (takes ∷ ls) (_, h) = (tt, later-IsReadyFor packet packets ls h)
  later-IsReadyFor packet packets (reader_tests ∷ ls) (_, h) =
      (tt, later-IsReadyFor packet packets ls h)
  later-IsReadyFor packet packets (writes answers ∷ ls) (_, h) =
      (tt, later-IsReadyFor packet packets ls h)

module _ {W : Type 0} (rest : Bytes) where
  -- A step that leaves handlers, stream and what the handlers act on as they are.
  abbrev pub IsQuiet : List Incoming → Connection W → Connection W → Type 0
  IsQuiet packets c d =
      (d.event_handlers ≡ c.event_handlers) × (d.world ≡ c.world) × IsReading packets rest d

  pub take_next-IsQuiet :
      (queue : List IJdwpCommandPacket) (packets : List Incoming) (c : Connection W)
      {d : Connection W}
      → take_next queue c ≡ (ok tt, d)
      → IsReading packets rest c
      → IsQuiet packets c d
  unfolding take_next
  take_next-IsQuiet [] packets c e h = cc
  take_next-IsQuiet (message ∷ queue) packets c e h =
      subst (λ d. IsQuiet packets c d) (ap (λ r. r.1) e) (refl, refl, h)

  pub write_next-IsQuiet :
      (p : Platform) (answers : List Answer) (message : IJdwpCommandPacket)
      (packets : List Incoming) (c : Connection W) {d : Connection W}
      → write_next p answers message c ≡ (ok tt, d)
      → IsReading packets rest c
      → IsQuiet packets c d
  unfolding write_next
  write_next-IsQuiet p answers message packets c e ((fd, is_open), stream) =
      let (text, bytes, e') = continue-eq-ok (serialize message impl_con) _ c e in
      let call = write p answers text c.socket in
      let (_, returned, e'') = continue-eq-ok call.0 _ (record c { socket = call.1 }) e' in
      subst (λ d. IsQuiet packets c d) (ap (λ r. r.1) e'')
        (
          refl,
          refl,
          (
            (fd, write-sock_fd p answers text c.socket is_open returned),
            write-inbox p answers text c.socket ∙ stream,
          ),
        )
