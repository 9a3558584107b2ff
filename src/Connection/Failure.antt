-- ===== src/Connection/Failure.antt =====
-- src/jdwp_con.cpp: what the peer has been sent when a `Write` of the writing thread throws, which
-- ends the process.
use roastery.Prelude.{
  ℕ, ◌^◌, ◌<◌, ◌≡◌, refl, sym, ap, ◌∙◌, some, List, [], ◌∷◌, ◌++◌, length, take, All, append-nil,
  arith,
}
use roastery.Outcome.{Outcome, ok, raised, undefined, out_of_fuel}
use roastery.Bytes.{Bytes}
use roastery.Action.{continue, ◌>>=◌, ◌>>◌, lift}
use roastery.Fields.{Tuple}
use roastery.EventClass.{EventClass, event_fields}
use roastery.Socket.{Platform, Answer, write}
use roastery.Socket.Writes.{IsFinal, IsSent, write-IsSent}
use roastery.Connection.{Connection, impl_con, on_socket, destroy_next, write_next}
use roastery.Connection.Outgoing.{IJdwpCommandPacket, serialize}
use roastery.Connection.Steps.{Label, Run, messages}
use roastery.Connection.History.{stream, in_flight, pending, IsShort, IsUninterrupted}
use roastery.Connection.Order.{Run-IsOrdered, held-IsShort}

-- The bytes of a packet; none, if `Serialize` throws.
abbrev pub text_of : Outcome Bytes → Bytes
text_of (ok text) = text
text_of (raised fault) = []
text_of undefined = []
text_of out_of_fuel = []

-- Of a call that was to send some bytes, the outcome and the number that tells how many it has
-- sent, which are all of them if it returned, and these bytes behind `old`.
abbrev pub Sends : {W : Type 0} → Bytes → Bytes → ℕ → Outcome (Unit {0}) × Connection W → Type 0
Sends old text k result =
    IsSent result.0 (length text) k × (result.1.socket.outbox ≡ old ++ take k text)

module _ {W : Type 0} (p : Platform) (answers : List Answer) (final : All (IsFinal p) answers) where
  destroy_next-Sends :
      (old text : Bytes) (k : ℕ) (r : Outcome (Unit {0})) (c : Connection W)
      → Sends old text k (r, c)
      → Sends old text k (continue r (λ u. destroy_next) c)
  destroy_next-Sends old text k (ok u) c h = h
  destroy_next-Sends old text k (raised fault) c h = h
  destroy_next-Sends old text k undefined c h = h
  destroy_next-Sends old text k out_of_fuel c h = h

  outcome-Sends :
      (r : Outcome Bytes) (c : Connection W)
      → ((text : Bytes) → r ≡ ok text → length text < 2 ^ 64)
      → (k : ℕ) × Sends c.socket.outbox
          (text_of r)
          k
          ((lift r >>= λ text. on_socket (write p answers text) >> destroy_next) c)
  outcome-Sends (ok text) c small =
      let call = write p answers text c.socket in
      let (k, sent, front) = write-IsSent p answers text c.socket final (small text refl) in
      (
        k,
        destroy_next-Sends c.socket.outbox text k call.0 (record c { socket = call.1 })
            (sent, front),
      )
  outcome-Sends (raised fault) c small = (0, (omega arith, sym (append-nil c.socket.outbox)))
  outcome-Sends undefined c small = (0, (omega arith, sym (append-nil c.socket.outbox)))
  outcome-Sends out_of_fuel c small = (0, (omega arith, sym (append-nil c.socket.outbox)))

  pub write_next-Sends :
      (message : IJdwpCommandPacket) (c : Connection W)
      → IsShort message
      → (k : ℕ) × Sends c.socket.outbox
          (text_of (serialize message impl_con))
          k
          (write_next p answers message c)
  unfolding write_next
  write_next-Sends message c small = outcome-Sends (serialize message impl_con) c small

-- After any run of a connection's threads and callers, let the writing thread write the packet that
-- it holds, and let the `Write` return, throw or wait for ever; no `send` fails with an errno that
-- `Write` means to retry, and no packet has 2 ^ 64 bytes. Then what was written since the run began
-- are some of the packets that were pending then or were sent since, the first of them, each whole
-- and in their order, followed by a front of the packet that is held, which is the next one in that
-- order; the front is the whole packet if the `Write` has returned, and behind it nothing of the
-- packets that are queued was written.
pub Run-write_next :
    {W : Type 0} (p : Platform) (initial : (c : EventClass) → Tuple (event_fields c))
    {ls : List (Label W)} {c d : Connection W} (answers : List Answer)
    (message : IJdwpCommandPacket)
    → Run p initial c ls d
    → All (IsUninterrupted p) ls
    → All IsShort (pending c ++ messages ls)
    → d.next_packet ≡ some message
    → All (IsFinal p) answers
    → (delivered : List IJdwpCommandPacket) × (text : Bytes) × (k : ℕ) × (pending c ++ messages ls
        ≡ delivered ++ (message ∷ d.outgoing_messages))
      × (stream delivered ≡ ok text)
      × Sends
          (c.socket.outbox ++ text)
          (text_of (serialize message impl_con))
          k
          (write_next p answers message d)
unfolding stream
Run-write_next p initial {c = c} {d = d} answers message run unbroken small held final =
    let (delivered, text, parts, bytes, out) = Run-IsOrdered p initial run unbroken small in
    let in_order = parts ∙ ap (λ next. delivered ++ (in_flight next ++ d.outgoing_messages)) held in
    let (k, (sent, front)) =
      write_next-Sends p answers final message d
        (held-IsShort _ delivered d.outgoing_messages message small in_order) in
    (
      delivered,
      text,
      k,
      in_order,
      bytes,
      (sent, front ∙ ap (λ old. old ++ take k (text_of (serialize message impl_con))) out),
    )
