-- ===== src/Connection/Drain.antt =====
-- src/jdwp_con.cpp: the writing thread on its own, until the queue is empty.
use roastery.Prelude.{
  ℕ, ◌^◌, ◌<◌, ◌≤◌, ◌≡◌, refl, sym, ap, ap₂, ◌∙◌, subst, false, none, some, List, [], ◌∷◌, ◌++◌,
  length, All, append_assoc, append-nil, length-append, arith,
}
use roastery.Outcome.{ok, ok-injective, >>=-eq-ok}
use roastery.Bytes.{Bytes}
use roastery.Fields.{Tuple}
use roastery.EventClass.{EventClass, event_fields}
use roastery.Socket.{Platform, Answer}
use roastery.Socket.Writes.{IsMoving, write-delivers}
use roastery.Connection.{Connection, impl_con, take_next, write_next}
use roastery.Connection.Outgoing.{IJdwpCommandPacket, serialize}
use roastery.Connection.Steps.{
  Label, writer_tests, step_test_write, takes, writes, Run, step_take, step_write, ended, then_step,
}
use roastery.Connection.History.{stream}

-- One packet after another is taken and written, each with answers of its own.
abbrev pub writer_rounds : {W : Type 0} → List (List Answer) → List (Label W)
writer_rounds [] = []
writer_rounds (answers ∷ others) = writer_tests ∷ takes ∷ writes answers ∷ writer_rounds others

-- Every answer moves bytes, and there are at least `n`.
abbrev pub AreEnough : ℕ → List Answer → Type 0
AreEnough n answers = All IsMoving answers × (n ≤ length answers)

fewer :
    (n m : ℕ) (rounds : List (List Answer))
    → m ≤ n
    → All (AreEnough n) rounds
    → All (AreEnough m) rounds
fewer n m [] h all = tt
fewer n m (answers ∷ others) h ((moving, enough), all) =
    ((moving, omega arith), fewer n m others h all)

-- Nothing is queued or held any more, and `text` was written.
abbrev pub drained : {W : Type 0} → Bytes → Connection W → Connection W
drained text c = record c {
  outgoing_messages = [];
  next_packet = none;
  writer_in_loop = false;
  socket = record c.socket { outbox = c.socket.outbox ++ text };
}

module _ {W : Type 0} (p : Platform) (initial : (c : EventClass) → Tuple (event_fields c)) where
  write_next-delivers :
      (answers : List Answer) (message : IJdwpCommandPacket) (text : Bytes) (c : Connection W)
      {fd : ℕ}
      → c.socket.sock_fd ≡ some fd
      → serialize message impl_con ≡ ok text
      → AreEnough (length text) answers
      → length text < 2 ^ 64
      → write_next p answers message c ≡ (
        ok tt,
        record c {
          next_packet = none;
          socket = record c.socket { outbox = c.socket.outbox ++ text };
        },
      )
  unfolding write_next
  write_next-delivers answers message text c e bytes (moving, enough) small =
      rw (bytes, write-delivers p answers text c.socket e moving enough small) refl

  drain :
      (rounds : List (List Answer)) (queue : List IJdwpCommandPacket) (text : Bytes)
      (c : Connection W) {fd : ℕ}
      → c.should_cancel ≡ false
      → c.writer_in_loop ≡ false
      → c.next_packet ≡ none
      → c.socket.sock_fd ≡ some fd
      → stream queue ≡ ok text
      → length rounds ≡ length queue
      → All (AreEnough (length text)) rounds
      → length text < 2 ^ 64
      → Run p initial
          (record c { outgoing_messages = queue })
          (writer_rounds rounds)
          (drained text c)
  unfolding stream take_next
  drain [] (message ∷ queue) text c running out free e bytes count enough small =
      absurd (omega arith)
  drain (answers ∷ others) [] text c running out free e bytes count enough small =
      absurd (omega arith)
  drain [] [] text c running out free e bytes count enough small =
      subst (λ d. Run p initial (record c { outgoing_messages = [] }) [] d)
        (ap (λ within. record c { outgoing_messages = []; writer_in_loop = within }) out
          ∙ ap₂
              (λ next outbox. record c {
                outgoing_messages = [];
                next_packet = next;
                writer_in_loop = false;
                socket = record c.socket { outbox = outbox };
              })
              free
              (sym (append-nil c.socket.outbox)
                ∙ ap (λ all. c.socket.outbox ++ all) (ok-injective bytes)))
        ended
  drain (answers ∷ others) (message ∷ queue) text c running out free e bytes count (now, enough)
        small =
      let (first, first_bytes, bytes') = >>=-eq-ok (serialize message impl_con) _ bytes in
      let (later, later_bytes, bytes'') = >>=-eq-ok (stream queue) _ bytes' in
      let size = ap length (sym (ok-injective bytes'')) ∙ length-append first later in
      let written : Connection W = record c {
        next_packet = none;
        writer_in_loop = false;
        socket = record c.socket { outbox = c.socket.outbox ++ first };
      } in
      then_step (step_test_write running out) (
        then_step (step_take refl free refl) (
          then_step
            (step_write refl refl (
              write_next-delivers answers message first _ e first_bytes
                (now.0, omega (arith, size, now.1)) (omega (arith, size))))
            (subst
              (λ outbox.
                Run p initial (record written { outgoing_messages = queue }) (writer_rounds others)
                  (record (drained [] c) { socket = record c.socket { outbox = outbox } }))
              (append_assoc c.socket.outbox first later
                ∙ ap (λ all. c.socket.outbox ++ all) (ok-injective bytes''))
              (drain others queue later written running refl refl e later_bytes
                (omega (arith, count))
                (fewer (length text) (length later) others (omega (arith, size)) enough)
                (omega (arith, size))))))

-- The writing thread drains the queue: if the socket is open, the connection is not cancelled, the
-- thread is at the head of its loop and holds no packet, the packets of the queue can be serialized, and for the `Write` of each
-- packet there are answers of its own, every `send` moves bytes, and there are as many answers as all
-- these packets have bytes, fewer than 2 ^ 64, then the thread can take and write one packet after
-- another until the queue is empty, and the kernel has then accepted the packets' bytes in their
-- order.
pub drain-Run :
    {W : Type 0} (p : Platform) (initial : (c : EventClass) → Tuple (event_fields c))
    (rounds : List (List Answer)) (c : Connection W) {text : Bytes} {fd : ℕ}
    → c.should_cancel ≡ false
    → c.writer_in_loop ≡ false
    → c.next_packet ≡ none
    → c.socket.sock_fd ≡ some fd
    → stream c.outgoing_messages ≡ ok text
    → length rounds ≡ length c.outgoing_messages
    → All (AreEnough (length text)) rounds
    → length text < 2 ^ 64
    → Run p initial c (writer_rounds rounds) (drained text c)
drain-Run p initial rounds c {text} running out free e bytes count enough small =
    drain p initial rounds c.outgoing_messages text c running out free e bytes count enough small
