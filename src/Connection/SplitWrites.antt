-- ===== src/Connection/SplitWrites.antt =====
-- src/jdwp_con.cpp: the steps of the writing thread within `Write`.
use roastery.Prelude.{
  ℕ, ◌≡◌, refl, sym, ap, ◌∙◌, subst, true, false, none, some, All-append, [], ◌∷◌, ◌++◌, length,
  ltb, append_assoc, append-nil,
}
use roastery.Outcome.{ok}
use roastery.Bytes.{Bytes}
use roastery.Fields.{Tuple}
use roastery.EventClass.{EventClass, event_fields}
use roastery.Socket.{Platform, Answer, Socket}
use roastery.Socket.Iterations.{send_once, send_once-ok}
use roastery.Connection.{Connection, impl_con, write_next}
use roastery.Connection.Outgoing.{IJdwpCommandPacket, serialize}
use roastery.Connection.Steps.{step_write}
use roastery.Connection.Progress.{HasSent, no_sends, one_more_send, all_sent}
use roastery.Connection.Calls.{not_writing, writing, Reader, threads, with_socket}
use roastery.Connection.Simulation.{Simulates, Follows, stays, steps_once, kept-Reads}

module _ {W : Type 0} (p : Platform) (initial : (c : EventClass) → Tuple (event_fields c))
    (IsOne : Answer → Type 0) where
  -- The writing thread.
  pub begin-Follows :
      (fd : ℕ) {text : Bytes} (a c : Connection W) (r : Reader) (message : IJdwpCommandPacket)
      → c.writer_in_loop ≡ true
      → c.next_packet ≡ some message
      → serialize message impl_con ≡ ok text
      → Simulates p initial IsOne fd a (threads c not_writing r)
      → Follows p initial IsOne fd [] a (threads c (writing text 0) r)
  begin-Follows fd {text} a c r message within held bytes (sent, inbox, same, e, none_sent, hr) =
      stays p initial IsOne (threads c (writing text 0) r) a (
        sent,
        inbox,
        same,
        e,
        (
          message,
          [],
          ap (λ k. k.next_packet) (sym same) ∙ held,
          bytes,
          subst (λ sent. HasSent p text 0 [] sent) (sym none_sent) (no_sends p text),
          tt,
          ap (λ k. k.writer_in_loop) (sym same) ∙ within,
        ),
        hr,
      )

  pub send-Follows :
      (fd : ℕ) (a c : Connection W) (r : Reader) (text : Bytes) (w later : ℕ) (s : Socket)
      (answer : Answer)
      → ltb w (length text) ≡ true
      → send_once p answer text w c.socket ≡ (ok later, s)
      → IsOne answer
      → Simulates p initial IsOne fd a (threads c (writing text w) r)
      → Follows p initial IsOne fd [] a (threads (with_socket s c) (writing text later) r)
  send-Follows fd a c r text w later s answer going_on e one
        (sent, inbox, same, opened, (message, answers, held, bytes, h, final, within), hr) =
      let (new, sends_new) = send_once-ok p answer text w c.socket e in
      let now = ap (λ q. q.1) (sym e ∙ sends_new c.socket) in
      stays p initial IsOne (threads (with_socket s c) (writing text later) r) a (
        sent ++ new,
        inbox,
        ap (λ s. with_socket s c) now
            ∙ ap
                (λ (k : Connection W).
                  with_socket (record k.socket { outbox = k.socket.outbox ++ new }) k)
                same
            ∙ ap
                (λ outbox. record a { socket = record a.socket { outbox = outbox; inbox = inbox } })
                (append_assoc a.socket.outbox sent new),
        opened,
        (
          message,
          answers ++ (answer ∷ []),
          held,
          bytes,
          one_more_send p answer text w answers sent new going_on sends_new h,
          All-append IsOne answers (answer ∷ []) final (one, tt),
          within,
        ),
        hr,
      )

  pub end-Follows :
      (fd : ℕ) (a c : Connection W) (r : Reader) (text : Bytes) (w : ℕ)
      → ltb w (length text) ≡ false
      → Simulates p initial IsOne fd a (threads c (writing text w) r)
      → Follows p initial IsOne fd [] a
          (threads (record c { next_packet = none; writer_in_loop = false }) not_writing r)
  unfolding write_next
  end-Follows fd a c r text w done
        (sent, inbox, same, opened, (message, answers, held, bytes, h, final, within), hr) =
      let later : Connection W = record a {
        next_packet = none;
        writer_in_loop = false;
        socket = record a.socket { outbox = a.socket.outbox ++ sent };
      } in
      steps_once p initial IsOne
        (threads (record c { next_packet = none; writer_in_loop = false }) not_writing r) a later
        (step_write
          {d = record a {
            next_packet = none;
            socket = record a.socket { outbox = a.socket.outbox ++ sent };
          }}
          {answers = answers} within held
          (rw (bytes, all_sent p text w answers sent a.socket done h opened) refl))
        final
        (
          [],
          inbox,
          ap (λ (k : Connection W). record k { next_packet = none; writer_in_loop = false }) same
              ∙ ap
                  (λ outbox. record a {
                    next_packet = none;
                    writer_in_loop = false;
                    socket = record a.socket { outbox = outbox; inbox = inbox };
                  })
                  (sym (append-nil (a.socket.outbox ++ sent))),
          opened,
          refl,
          kept-Reads p initial IsOne fd a later inbox r refl refl hr,
        )
