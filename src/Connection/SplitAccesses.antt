-- ===== src/Connection/SplitAccesses.antt =====
-- src/jdwp_con.cpp: the steps of the callers, and those at the queue, while calls are in progress.
use roastery.Prelude.{
  ℕ, ◌≡◌, refl, sym, ap, ◌∙◌, subst, Bool, true, false, none, some, List, [], ◌∷◌,
}
use roastery.Outcome.{ok}
use roastery.Bytes.{Bytes}
use roastery.Fields.{Tuple}
use roastery.EventClass.{EventClass, event_fields}
use roastery.Socket.{Platform, Answer}
use roastery.Connection.{Connection, take_next, send_message, register_event_handler, cancel}
use roastery.Connection.Outgoing.{IJdwpCommandPacket}
use roastery.Connection.Steps.{
  Label, Step, step_send, step_register, step_cancel, step_test_write, step_yield, step_test_read,
  AllSends, step_take, step_write, step_receive, messages,
}
use roastery.Connection.Calls.{
  Writer, not_writing, writing, Reader, not_reading, reading_header, reading_body, threads,
  IsAccess,
}
use roastery.Connection.Simulation.{
  mixed, Writes, Reads, Simulates, Follows, steps_once, kept-Writes, kept-Reads,
}

module _ {W : Type 0} (p : Platform) (initial : (c : EventClass) → Tuple (event_fields c))
    (IsOne : Answer → Type 0) where
  -- Nothing is held between two packets, and outside its loop a thread is in no call.
  free-Writes :
      (a : Connection W) (sent : Bytes) (w : Writer)
      → a.next_packet ≡ none
      → Writes p initial IsOne a sent w
      → (w ≡ not_writing) × (sent ≡ [])
  free-Writes a sent not_writing free h = (refl, h)
  free-Writes a sent (writing text n) free (message, answers, held, bytes, h, final, within) = cc

  outside-Writes :
      (a : Connection W) (sent : Bytes) (w : Writer)
      → a.writer_in_loop ≡ false
      → Writes p initial IsOne a sent w
      → (w ≡ not_writing) × (sent ≡ [])
  outside-Writes a sent not_writing out h = (refl, h)
  outside-Writes a sent (writing text n) out (message, answers, held, bytes, h, final, within) = cc

  outside-Reads :
      (fd : ℕ) (a : Connection W) (inbox : Bytes) (r : Reader)
      → a.reader_in_loop ≡ false
      → Reads p initial IsOne fd a inbox r
      → (r ≡ not_reading) × (inbox ≡ a.socket.inbox)
  outside-Reads fd a inbox not_reading out h = (refl, h)
  outside-Reads fd a inbox (reading_header r from) out (_, _, _, within, _, _) = cc
  outside-Reads fd a inbox (reading_body header len r from) out (_, _, _, within, _, _, _, _, _) =
      cc

  -- The writing thread at the head and at the end of its loop, in no `Write`.
  idle-Follows :
      (fd : ℕ) (a c : Connection W) (sent inbox : Bytes) (w : Writer) (r : Reader) (within : Bool)
      {l : Label W}
      → Step p initial l a (record a { writer_in_loop = within })
      → AllSends IsOne l
      → c ≡ mixed a sent inbox
      → a.socket.sock_fd ≡ some fd
      → (w ≡ not_writing) × (sent ≡ [])
      → Reads p initial IsOne fd a inbox r
      → Follows p initial IsOne fd
          (messages (l ∷ []))
          a
          (threads (record c { writer_in_loop = within }) w r)
  idle-Follows fd a c sent inbox w r within {l} step one same opened (idle, none_sent) hr =
      let later : Connection W = record a { writer_in_loop = within } in
      subst
        (λ w.
          Follows p initial IsOne fd (messages (l ∷ [])) a
            (threads (record c { writer_in_loop = within }) w r))
        (sym idle)
        (steps_once p initial IsOne (threads (record c { writer_in_loop = within }) not_writing r) a
          later step one
          (
            sent,
            inbox,
            ap (λ (k : Connection W). record k { writer_in_loop = within }) same,
            opened,
            none_sent,
            kept-Reads p initial IsOne fd a later inbox r refl refl hr,
          ))

  take-Follows :
      (fd : ℕ) (queue : List IJdwpCommandPacket) (a d : Connection W) (sent inbox : Bytes)
      (r : Reader)
      → a.outgoing_messages ≡ queue
      → a.writer_in_loop ≡ true
      → a.next_packet ≡ none
      → take_next queue (mixed a sent inbox) ≡ (ok tt, d)
      → a.socket.sock_fd ≡ some fd
      → sent ≡ []
      → Reads p initial IsOne fd a inbox r
      → Follows p initial IsOne fd [] a (threads d not_writing r)
  unfolding take_next
  take-Follows fd [] a d sent inbox r full running free e opened none_sent hr = cc
  take-Follows fd (message ∷ queue) a d sent inbox r full running free e opened none_sent hr =
      let later : Connection W = record a {
        next_packet = some message;
        outgoing_messages = queue;
      } in
      steps_once p initial IsOne (threads d not_writing r) a later
        (step_take running free (ap (λ q. take_next q a) full)) tt
        (
          sent,
          inbox,
          sym (ap (λ q. q.1) e),
          opened,
          none_sent,
          kept-Reads p initial IsOne fd a later inbox r refl refl hr,
        )

  pub access-Follows :
      (fd : ℕ) {l : Label W} {c d : Connection W} (a : Connection W) (w : Writer) (r : Reader)
      → IsAccess l
      → Step p initial l c d
      → Simulates p initial IsOne fd a (threads c w r)
      → Follows p initial IsOne fd (messages (l ∷ [])) a (threads d w r)
  unfolding send_message register_event_handler cancel
  access-Follows fd {c = c} a w r h (step_send message) (sent, inbox, same, e, hw, hr) =
      let later = send_message message a in
      steps_once p initial IsOne (threads (send_message message c) w r) a later (step_send message)
        tt
        (
          sent,
          inbox,
          ap (send_message message) same,
          e,
          kept-Writes p initial IsOne a later sent w refl refl hw,
          kept-Reads p initial IsOne fd a later inbox r refl refl hr,
        )
  access-Follows fd {c = c} a w r h (step_register handler) (sent, inbox, same, e, hw, hr) =
      let later = register_event_handler handler a in
      steps_once p initial IsOne (threads (register_event_handler handler c) w r) a later
        (step_register handler) tt
        (
          sent,
          inbox,
          ap (register_event_handler handler) same,
          e,
          kept-Writes p initial IsOne a later sent w refl refl hw,
          kept-Reads p initial IsOne fd a later inbox r refl refl hr,
        )
  access-Follows fd {c = c} a w r h step_cancel (sent, inbox, same, e, hw, hr) =
      let later = cancel a in
      steps_once p initial IsOne (threads (cancel c) w r) a later step_cancel tt (
        sent,
        inbox,
        ap cancel same,
        e,
        kept-Writes p initial IsOne a later sent w refl refl hw,
        kept-Reads p initial IsOne fd a later inbox r refl refl hr,
      )
  access-Follows fd {c = c} a w r h (step_test_write running out) (sent, inbox, same, e, hw, hr) =
      let out' = ap (λ k. k.writer_in_loop) (sym same) ∙ out in
      idle-Follows fd a c sent inbox w r true
        (step_test_write (ap (λ k. k.should_cancel) (sym same) ∙ running) out') tt same e
        (outside-Writes a sent w out' hw) hr
  access-Follows fd {c = c} a w r h (step_yield within free empty) (sent, inbox, same, e, hw, hr) =
      let free' = ap (λ k. k.next_packet) (sym same) ∙ free in
      idle-Follows fd a c sent inbox w r false
        (step_yield (ap (λ k. k.writer_in_loop) (sym same) ∙ within) free'
          (ap (λ k. k.outgoing_messages) (sym same) ∙ empty))
        tt same e (free-Writes a sent w free' hw) hr
  access-Follows fd {c = c} a w r h (step_test_read running out) (sent, inbox, same, e, hw, hr) =
      let out' = ap (λ k. k.reader_in_loop) (sym same) ∙ out in
      let (idle, stream) = outside-Reads fd a inbox r out' hr in
      let later : Connection W = record a { reader_in_loop = true } in
      subst
        (λ r. Follows p initial IsOne fd [] a (threads (record c { reader_in_loop = true }) w r))
        (sym idle)
        (steps_once p initial IsOne (threads (record c { reader_in_loop = true }) w not_reading) a
          later (step_test_read (ap (λ k. k.should_cancel) (sym same) ∙ running) out') tt
          (
            sent,
            inbox,
            ap (λ (k : Connection W). record k { reader_in_loop = true }) same,
            e,
            kept-Writes p initial IsOne a later sent w refl refl hw,
            stream,
          ))
  access-Follows fd {c = c} {d = d} a w r h (step_take within free e)
        (sent, inbox, same, opened, hw, hr) =
      let unheld = ap (λ k. k.next_packet) (sym same) ∙ free in
      let (idle, none_sent) = free-Writes a sent w unheld hw in
      subst (λ w. Follows p initial IsOne fd [] a (threads d w r)) (sym idle)
        (take-Follows fd a.outgoing_messages a d sent inbox r refl
          (ap (λ k. k.writer_in_loop) (sym same) ∙ within) unheld
          (ap (λ k. take_next k.outgoing_messages k) (sym same) ∙ e) opened none_sent hr)
  access-Follows fd a w r h (step_write within held e) sim = absurd h
  access-Follows fd a w r h (step_receive within e) sim = absurd h
