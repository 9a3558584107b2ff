-- ===== src/Connection/Order.antt =====
-- src/jdwp_con.cpp: what a connection has written, over any run of its threads and callers.
use roastery.Prelude.{
  true, false, ◌≡◌, refl, sym, ap, ap₂, ◌∙◌, subst, none, some, List, [], ◌∷◌, ◌++◌, All,
  All-append_left, All-append_right, take_all, append_assoc, append-nil, arith,
}
use roastery.Outcome.{ok}
use roastery.Bytes.{Bytes}
use roastery.Action.{continue-eq-ok}
use roastery.Fields.{Tuple}
use roastery.EventClass.{EventClass, event_fields}
use roastery.Socket.{Platform, Answer, write}
use roastery.Socket.Writes.{IsFinal, write-SendsFront}
use roastery.Connection.{
  Connection, Round, impl_con, send_message, register_event_handler, cancel, take_next, write_next,
  incoming_round,
}
use roastery.Connection.Outgoing.{IJdwpCommandPacket, serialize}
use roastery.Connection.Reading.{incoming_round-Keeps}
use roastery.Connection.Steps.{
  Label, sends, registers, cancels, writer_tests, yields, takes, reader_tests, writes, receives,
  Step, Run, step_send, step_register, step_cancel, step_take, step_test_write, step_yield,
  step_test_read, step_write, step_receive, ended, then_step, messages,
}
use roastery.Connection.History.{
  stream, in_flight, pending, IsOrdered, IsShort, IsUninterrupted, stream-append,
}

pub held-IsShort :
    (history delivered queue : List IJdwpCommandPacket) (message : IJdwpCommandPacket)
    → All IsShort history
    → history ≡ delivered ++ (message ∷ queue)
    → IsShort message
held-IsShort history delivered queue message small e =
    (All-append_right IsShort delivered (message ∷ queue) (subst (λ h. All IsShort h) e small)).0

pub messages-cons :
    {W : Type 0} (l : Label W) (ls : List (Label W))
    → messages (l ∷ []) ++ messages ls ≡ messages (l ∷ ls)
messages-cons (sends message) ls = refl
messages-cons (registers handler) ls = refl
messages-cons cancels ls = refl
messages-cons writer_tests ls = refl
messages-cons yields ls = refl
messages-cons takes ls = refl
messages-cons reader_tests ls = refl
messages-cons (writes answers) ls = refl
messages-cons (receives round) ls = refl

module _ {W : Type 0} (p : Platform) (initial : (c : EventClass) → Tuple (event_fields c))
    (old : Bytes) where
  nothing_sent :
      (history : List IJdwpCommandPacket) (c : Connection W)
      → IsOrdered old history c
      → IsOrdered old (history ++ []) c
  nothing_sent history c h = subst (λ all. IsOrdered old all c) (sym (append-nil history)) h

  send_message-IsOrdered :
      (message : IJdwpCommandPacket) (history : List IJdwpCommandPacket) (c : Connection W)
      → IsOrdered old history c
      → IsOrdered old (history ++ (message ∷ [])) (send_message message c)
  unfolding send_message
  send_message-IsOrdered message history c (delivered, text, parts, bytes, out) = (
    delivered,
    text,
    ap (λ r. r ++ (message ∷ [])) parts
        ∙ append_assoc delivered (pending c) (message ∷ [])
        ∙ ap (λ r. delivered ++ r)
            (append_assoc (in_flight c.next_packet) c.outgoing_messages (message ∷ [])),
    bytes,
    out,
  )

  take_next-IsOrdered :
      (queue : List IJdwpCommandPacket) (history : List IJdwpCommandPacket) (c : Connection W)
      {d : Connection W}
      → c.outgoing_messages ≡ queue
      → c.next_packet ≡ none
      → take_next queue c ≡ (ok tt, d)
      → IsOrdered old history c
      → IsOrdered old history d
  unfolding take_next
  take_next-IsOrdered [] history c full free e h = cc
  take_next-IsOrdered (message ∷ queue) history c full free e (delivered, text, parts, bytes, out) =
      subst (λ d. IsOrdered old history d) (ap (λ r. r.1) e)
        (
          delivered,
          text,
          parts ∙ ap₂ (λ next queue. delivered ++ (in_flight next ++ queue)) free full,
          bytes,
          out,
        )

  write_next-IsOrdered :
      (answers : List Answer) (message : IJdwpCommandPacket) (history : List IJdwpCommandPacket)
      (c : Connection W) {d : Connection W}
      → c.next_packet ≡ some message
      → All (IsFinal p) answers
      → IsShort message
      → write_next p answers message c ≡ (ok tt, d)
      → IsOrdered old history c
      → IsOrdered old history d
  unfolding write_next
  write_next-IsOrdered answers message history c held final small e
        (delivered, text, parts, bytes, out) =
      let (more, written, e') = continue-eq-ok (serialize message impl_con) _ c e in
      let call = write p answers more c.socket in
      let (_, returned, e'') = continue-eq-ok call.0 _ (record c { socket = call.1 }) e' in
      let (k, _, front, whole) =
        write-SendsFront p answers more c.socket final (small more written) in
      subst (λ d. IsOrdered old history d) (ap (λ r. r.1) e'')
        (
          delivered ++ (message ∷ []),
          text ++ more,
          parts
              ∙ ap (λ next. delivered ++ (in_flight next ++ c.outgoing_messages)) held
              ∙ sym (append_assoc delivered (message ∷ []) c.outgoing_messages),
          stream-append delivered message bytes written,
          front
              ∙ ap₂ (λ a b. a ++ b) out (take_all k more (omega (arith, whole returned)))
              ∙ append_assoc old text more,
        )

  incoming_round-IsOrdered :
      (round : Round) (history : List IJdwpCommandPacket) (c : Connection W) {d : Connection W}
      → incoming_round p initial round c ≡ (ok tt, d)
      → IsOrdered old history c
      → IsOrdered old history d
  incoming_round-IsOrdered round history c e (delivered, text, parts, bytes, out) =
      let kept = incoming_round-Keeps p initial round c in
      subst (λ d. IsOrdered old history d) (ap (λ r. r.1) e)
        (
          delivered,
          text,
          parts ∙ ap (λ side. delivered ++ (in_flight side.0 ++ side.1)) (sym kept),
          bytes,
          ap (λ side. side.2) kept ∙ out,
        )

  Step-IsOrdered :
      {l : Label W} {c d : Connection W} (history : List IJdwpCommandPacket)
      → Step p initial l c d
      → IsUninterrupted p l
      → All IsShort history
      → IsOrdered old history c
      → IsOrdered old (history ++ messages (l ∷ [])) d
  unfolding register_event_handler cancel
  Step-IsOrdered {c = c} history (step_send message) final small h =
      send_message-IsOrdered message history c h
  Step-IsOrdered {c = c} history (step_register handler) final small h =
      nothing_sent history (register_event_handler handler c) h
  Step-IsOrdered {c = c} history step_cancel final small h = nothing_sent history (cancel c) h
  Step-IsOrdered {c = c} history (step_test_write running out) final small h =
      nothing_sent history (record c { writer_in_loop = true }) h
  Step-IsOrdered {c = c} history (step_yield within free empty) final small h =
      nothing_sent history (record c { writer_in_loop = false }) h
  Step-IsOrdered {c = c} history (step_test_read running out) final small h =
      nothing_sent history (record c { reader_in_loop = true }) h
  Step-IsOrdered {c = c} {d = d} history (step_take running free e) final small h =
      nothing_sent history d (take_next-IsOrdered c.outgoing_messages history c refl free e h)
  Step-IsOrdered {c = c} history
        (step_write {d = d} {message = message} {answers = answers} within held e) final small h =
      let (delivered, _, parts, _, _) = h in
      let in_order =
        parts ∙ ap (λ next. delivered ++ (in_flight next ++ c.outgoing_messages)) held in
      nothing_sent history (record d { writer_in_loop = false })
        (write_next-IsOrdered answers message history c held final
          (held-IsShort history delivered c.outgoing_messages message small in_order) e h)
  Step-IsOrdered {c = c} history (step_receive {d = d} {round = round} running e) final small h =
      nothing_sent history (record d { reader_in_loop = false })
        (incoming_round-IsOrdered round history c e h)

  steps-IsOrdered :
      {ls : List (Label W)} {c d : Connection W} (history : List IJdwpCommandPacket)
      → Run p initial c ls d
      → All (IsUninterrupted p) ls
      → All IsShort (history ++ messages ls)
      → IsOrdered old history c
      → IsOrdered old (history ++ messages ls) d
  steps-IsOrdered {c = c} history ended final small h = nothing_sent history c h
  steps-IsOrdered {d = last} history (then_step {l = l} {ls = ls} first rest) final small h =
      let split =
        append_assoc history (messages (l ∷ [])) (messages ls)
        ∙ ap (λ r. history ++ r) (messages-cons l ls) in
      subst (λ all. IsOrdered old all last) split
        (steps-IsOrdered (history ++ messages (l ∷ [])) rest final.1
          (subst (λ all. All IsShort all) (sym split) small)
          (Step-IsOrdered history first final.0 (All-append_left IsShort history _ small) h))

-- Whatever the order in which the callers and the two threads of a connection take their steps, if
-- no `send` fails with an errno that `Write` means to retry, and no packet has 2 ^ 64 bytes: of the
-- packets that were pending when the run began, followed by those given to `SendMessage` in its
-- course, the first ones have been written, each whole and in this order, behind what was written
-- before, and the others are still pending, in this order. So no packet is lost, doubled, cut or
-- overtaken.
pub Run-IsOrdered :
    {W : Type 0} (p : Platform) (initial : (c : EventClass) → Tuple (event_fields c))
    {ls : List (Label W)} {c d : Connection W}
    → Run p initial c ls d
    → All (IsUninterrupted p) ls
    → All IsShort (pending c ++ messages ls)
    → IsOrdered c.socket.outbox (pending c ++ messages ls) d
unfolding stream
Run-IsOrdered p initial {c = c} run final small =
    steps-IsOrdered p initial c.socket.outbox (pending c) run final small
      ([], [], refl, refl, sym (append-nil c.socket.outbox))
