-- ===== src/Connection/Shutdown.antt =====
-- src/jdwp_con.cpp: what is still done behind `should_cancel = true` of the destructor, until the
-- two threads have ended.
use roastery.Prelude.{
  suc, subst, ℕ, ◌+◌, ◌≤◌, ◌≡◌, refl, sym, ap, ◌∙◌, Bool, Option, true, false, none, List, [], ◌∷◌,
  ◌++◌, drop, append_assoc, append-nil, arith,
}
use roastery.Outcome.{ok}
use roastery.Action.{continue-eq-ok}
use roastery.Fields.{Tuple}
use roastery.EventClass.{EventClass, event_fields}
use roastery.Socket.{Platform, Answer, write}
use roastery.Connection.{
  Connection, Round, impl_con, incoming_round, send_message, register_event_handler, cancel,
  take_next, write_next,
}
use roastery.Connection.Outgoing.{IJdwpCommandPacket, serialize}
use roastery.Connection.Reading.{writing_side, incoming_round-Keeps}
use roastery.Connection.Steps.{
  Label, sends, takes, writes, receives, Run, step_send, step_register, step_cancel,
  step_test_write, step_yield, step_take, step_write, step_test_read, step_receive, ended,
  then_step, messages,
}
use roastery.Connection.Observing.{rounds_of}

-- The packets that are taken from the queue in a run, and those that are written.
abbrev pub takes_of : {W : Type 0} → List (Label W) → ℕ
takes_of [] = 0
takes_of (takes ∷ ls) = suc (takes_of ls)
takes_of (l ∷ ls) = takes_of ls

abbrev pub writes_of : {W : Type 0} → List (Label W) → ℕ
writes_of [] = 0
writes_of (writes answers ∷ ls) = 1 + writes_of ls
writes_of (l ∷ ls) = writes_of ls

-- A thread in its loop may go on to its end, and the writing thread without a packet may take one.
abbrev pub rest_of_loop : Bool → ℕ
rest_of_loop true = 1
rest_of_loop false = 0

abbrev pub may_take : Bool → Option IJdwpCommandPacket → ℕ
may_take true none = 1
may_take _ _ = 0

-- What the steps `ls` from a cancelled connection may be, and the queue then.
abbrev pub IsFinishing : {W : Type 0} → Connection W → List (Label W) → Connection W → Type 0
IsFinishing c ls d =
    (d.should_cancel ≡ true)
    × (d.outgoing_messages ≡ drop (takes_of ls) (c.outgoing_messages ++ messages ls))
    × (takes_of ls + may_take d.writer_in_loop d.next_packet
        ≤ may_take c.writer_in_loop c.next_packet)
    × (writes_of ls + rest_of_loop d.writer_in_loop ≤ rest_of_loop c.writer_in_loop)
    × (rounds_of ls + rest_of_loop d.reader_in_loop ≤ rest_of_loop c.reader_in_loop)

-- `Write` has no part in the queue.
write_next-queue :
    {W : Type 0} (p : Platform) (answers : List Answer) (message : IJdwpCommandPacket)
    (c : Connection W) {d : Connection W}
    → write_next p answers message c ≡ (ok tt, d)
    → (d.outgoing_messages ≡ c.outgoing_messages)
      × (d.should_cancel ≡ c.should_cancel)
      × (d.next_packet ≡ none)
      × (d.reader_in_loop ≡ c.reader_in_loop)
unfolding write_next
write_next-queue p answers message c e =
    let (text, bytes, e') = continue-eq-ok (serialize message impl_con) _ c e in
    let call = write p answers text c.socket in
    let (_, returned, e'') = continue-eq-ok call.0 _ (record c { socket = call.1 }) e' in
    let same = sym (ap (λ r. r.1) e'') in
    (
      ap (λ d. d.outgoing_messages) same,
      ap (λ d. d.should_cancel) same,
      ap (λ d. d.next_packet) same,
      ap (λ d. d.reader_in_loop) same,
    )

module _ {W : Type 0} (p : Platform) (initial : (c : EventClass) → Tuple (event_fields c)) where
  send-IsFinishing :
      (message : IJdwpCommandPacket) (ls : List (Label W)) (c d : Connection W)
      → IsFinishing (send_message message c) ls d
      → IsFinishing c (sends message ∷ ls) d
  unfolding send_message
  send-IsFinishing message ls c d (off, queue, taken, written, read) = (
    off,
    queue
        ∙ ap (λ all. drop (takes_of ls) all)
            (append_assoc c.outgoing_messages (message ∷ []) (messages ls)),
    taken,
    written,
    read,
  )

  take-IsFinishing :
      (queue : List IJdwpCommandPacket) (ls : List (Label W)) (c d : Connection W)
      {between : Connection W}
      → c.outgoing_messages ≡ queue
      → c.writer_in_loop ≡ true
      → c.next_packet ≡ none
      → take_next queue c ≡ (ok tt, between)
      → (between.should_cancel ≡ c.should_cancel)
        × (IsFinishing between ls d → IsFinishing c (takes ∷ ls) d)
  unfolding take_next
  take-IsFinishing [] ls c d full within free e = cc
  take-IsFinishing (message ∷ queue) ls c d full within free e =
      let same = ap (λ q. q.1) e in
      (
        ap (λ k. k.should_cancel) (sym same),
        λ h.
            let (off, left, taken, written, read) = subst (λ k. IsFinishing k ls d) (sym same) h in
            (
              off,
              left ∙ ap (λ all. drop (suc (takes_of ls)) (all ++ messages ls)) (sym full),
              rw (within, free) (omega (arith, rw within at taken)),
              written,
              read,
            ),
      )

  write-IsFinishing :
      (answers : List Answer) (message : IJdwpCommandPacket) (ls : List (Label W))
      (c between d : Connection W)
      → c.writer_in_loop ≡ true
      → write_next p answers message c ≡ (ok tt, between)
      → IsFinishing (record between { writer_in_loop = false }) ls d
      → IsFinishing c (writes answers ∷ ls) d
  write-IsFinishing answers message ls c between d within e (off, left, taken, written, read) =
      let (queue, _, _, reader) = write_next-queue p answers message c e in
      (
        off,
        left ∙ ap (λ all. drop (takes_of ls) (all ++ messages ls)) queue,
        omega (arith, taken),
        rw within (omega (arith, written)),
        rw reader at read,
      )

  round-IsFinishing :
      (round : Round) (ls : List (Label W)) (c between d : Connection W)
      → c.reader_in_loop ≡ true
      → incoming_round p initial round c ≡ (ok tt, between)
      → (between.should_cancel ≡ c.should_cancel)
        × (IsFinishing (record between { reader_in_loop = false }) ls d
            → IsFinishing c (receives round ∷ ls) d)
  round-IsFinishing round ls c between d within e =
      let kept =
        ap (λ r. writing_side p initial r.1) (sym e) ∙ incoming_round-Keeps p initial round c in
      (
        ap (λ side. side.3) kept,
        λ (off, left, taken, written, read). (
          off,
          left ∙ ap (λ side. drop (takes_of ls) (side.1 ++ messages ls)) kept,
          subst
              (λ side.
                takes_of ls + may_take d.writer_in_loop d.next_packet ≤ may_take side.4 side.0)
              kept taken,
          subst (λ side. writes_of ls + rest_of_loop d.writer_in_loop ≤ rest_of_loop side.4) kept
              written,
          rw within (omega (arith, read)),
        ),
      )

  steps-IsFinishing :
      {ls : List (Label W)} {c d : Connection W}
      → Run p initial c ls d
      → c.should_cancel ≡ true
      → IsFinishing c ls d
  unfolding register_event_handler cancel send_message
  steps-IsFinishing {c = c} ended off =
      (off, sym (append-nil c.outgoing_messages), omega arith, omega arith, omega arith)
  steps-IsFinishing {c = c} {d = d} (then_step {ls = ls} (step_send message) run) off =
      send-IsFinishing message ls c d (steps-IsFinishing run off)
  steps-IsFinishing (then_step (step_register handler) run) off = steps-IsFinishing run off
  steps-IsFinishing (then_step step_cancel run) off = steps-IsFinishing run refl
  steps-IsFinishing (then_step (step_test_write running out) run) off = cc
  steps-IsFinishing (then_step (step_test_read running out) run) off = cc
  steps-IsFinishing (then_step (step_yield within free empty) run) off =
      let (off', left, taken, written, read) = steps-IsFinishing run off in
      (off', left, omega (arith, taken), omega (arith, written), read)
  steps-IsFinishing {c = c} {d = last} (then_step {d = d} {ls = ls} (step_take within free e) run)
        off =
      let (same, front) = take-IsFinishing c.outgoing_messages ls c last refl within free e in
      front (steps-IsFinishing run (same ∙ off))
  steps-IsFinishing {c = c} {d = last}
        (then_step {ls = ls}
          (step_write {d = d} {message = message} {answers = answers} within held e)
          run)
        off =
      write-IsFinishing answers message ls c d last within e
        (steps-IsFinishing run ((write_next-queue p answers message c e).1 ∙ off))
  steps-IsFinishing {c = c} {d = last}
        (then_step {ls = ls} (step_receive {d = d} {round = round} within e) run) off =
      let (same, front) = round-IsFinishing round ls c d last within e in
      front (steps-IsFinishing run (same ∙ off))

-- Once a connection is cancelled, whatever its threads and callers still do, in any order: it stays
-- cancelled. The writing thread takes at most one more packet, and only if it was in its loop without
-- one, and writes at most one more, and only if it was in its loop; the reading thread does at most one
-- more round, and only if it was in its loop. The queue keeps its order: what is queued at the end are
-- the packets that were queued, followed by those sent since, without as many at the front as were
-- taken. In its loop is a thread that has found `should_cancel` false and not come back to that test.
pub Run-IsFinishing :
    {W : Type 0} (p : Platform) (initial : (c : EventClass) → Tuple (event_fields c))
    {ls : List (Label W)} {c d : Connection W}
    → Run p initial c ls d
    → c.should_cancel ≡ true
    → IsFinishing c ls d
Run-IsFinishing p initial run off = steps-IsFinishing p initial run off
