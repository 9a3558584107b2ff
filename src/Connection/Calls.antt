-- ===== src/Connection/Calls.antt =====
-- src/jdwp_con.cpp: the threads of a connection in smaller steps than those of Connection/Steps.antt:
-- each `send` and each `read` is a step of its own, between which the other thread and the callers
-- take theirs. Again only calls that return, and iterations that go on, are steps.
use roastery.Prelude.{
  ℕ, ◌+◌, ◌-◌, ◌%◌, ◌^◌, ◌≡◌, true, false, Option, none, some, List, ◌∷◌, [], ◌++◌, length, ltb,
}
use roastery.Outcome.{ok}
use roastery.Bytes.{Bytes}
use roastery.HostOrder.{read_ntohl}
use roastery.Fields.{Tuple}
use roastery.EventClass.{EventClass, event_fields}
use roastery.Packet.{header_len}
use roastery.Socket.{Platform, Answer, Socket, can_read}
use roastery.Socket.Iterations.{send_once, read_once}
use roastery.Connection.{Connection, impl_con, handle_packet}
use roastery.Connection.Outgoing.{IJdwpCommandPacket, serialize}
use roastery.Connection.Steps.{Label, writes, receives, Step, messages, AllSends}

-- The writing thread within `Write`: the text and `bytes_written`.
pub data Writer : Type 0 where
  not_writing : Writer
  writing : Bytes → ℕ → Writer

-- The reading thread within the first `Read` of a round, or within the second, with the header and
-- the length of the body; `bytes_read` and `out`.
pub data Reader : Type 0 where
  not_reading : Reader
  reading_header : ℕ → Bytes → Reader
  reading_body : Bytes → ℕ → ℕ → Bytes → Reader

pub record Threads (W : Type 0) : Type 0 where
  pub shared : Connection W
  pub writer : Writer
  pub reader : Reader

abbrev pub threads : {W : Type 0} → Connection W → Writer → Reader → Threads W
threads c w r = record { shared = c; writer = w; reader = r }

-- The steps that stay as they are: those of the callers, the tests at the heads of the loops, and the
-- front of the queue.
abbrev pub IsAccess : {W : Type 0} → Label W → Type 0
IsAccess (writes answers) = ⊥
IsAccess (receives round) = ⊥
IsAccess l = Unit

abbrev pub with_socket : {W : Type 0} → Socket → Connection W → Connection W
with_socket s c = record c { socket = s }

module _ {W : Type 0} (p : Platform) (initial : (c : EventClass) → Tuple (event_fields c)) where
  -- The label is that of the step of Connection/Steps.antt, if it is one; a single `send` has the label
  -- of a `Write` that makes this one call.
  pub data Call : Option (Label W) → Threads W → Threads W → Type 0 where
    accesses :
        {l : Label W} {c d : Connection W} {w : Writer} {r : Reader}
        → IsAccess l
        → Step p initial l c d
        → Call (some l) (threads c w r) (threads d w r)
    begins_write :
        {c : Connection W} {r : Reader} {text : Bytes} {fd : ℕ} (message : IJdwpCommandPacket)
        → c.socket.sock_fd ≡ some fd
        → c.writer_in_loop ≡ true
        → c.next_packet ≡ some message
        → serialize message impl_con ≡ ok text
        → Call none (threads c not_writing r) (threads c (writing text 0) r)
    calls_send :
        {c : Connection W} {r : Reader} {text : Bytes} {bytes_written later : ℕ} {s : Socket}
        (answer : Answer)
        → ltb bytes_written (length text) ≡ true
        → send_once p answer text bytes_written c.socket ≡ (ok later, s)
        → Call
            (some (writes (answer ∷ [])))
            (threads c (writing text bytes_written) r)
            (threads (with_socket s c) (writing text later) r)
    ends_write :
        {c : Connection W} {r : Reader} {text : Bytes} {bytes_written : ℕ}
        → ltb bytes_written (length text) ≡ false
        → Call none
            (threads c (writing text bytes_written) r)
            (threads (record c { next_packet = none; writer_in_loop = false }) not_writing r)
    begins_round :
        {c : Connection W} {w : Writer} (revents : Option ℕ) (errno : ℕ)
        → c.reader_in_loop ≡ true
        → can_read p revents errno c.socket ≡ (ok true, c.socket)
        → Call none (threads c w not_reading) (threads c w (reading_header 0 []))
    finds_nothing :
        {c : Connection W} {w : Writer} (revents : Option ℕ) (errno : ℕ)
        → c.reader_in_loop ≡ true
        → can_read p revents errno c.socket ≡ (ok false, c.socket)
        → Call none
            (threads c w not_reading)
            (threads (record c { reader_in_loop = false }) w not_reading)
    calls_read_header :
        {c : Connection W} {w : Writer} {bytes_read : ℕ} {out : Bytes} {later : ℕ × Bytes}
        {s : Socket} (answer : Answer)
        → ltb bytes_read header_len ≡ true
        → read_once p answer header_len bytes_read out c.socket ≡ (ok later, s)
        → Call none
            (threads c w (reading_header bytes_read out))
            (threads (with_socket s c) w (reading_header later.0 later.1))
    ends_header :
        {c : Connection W} {w : Writer} {bytes_read total_len : ℕ} {out : Bytes}
        → ltb bytes_read header_len ≡ false
        → read_ntohl 0 out ≡ ok total_len
        → Call none
            (threads c w (reading_header bytes_read out))
            (threads c w (reading_body out ((total_len + (2 ^ 32 - header_len)) % 2 ^ 32) 0 []))
    calls_read_body :
        {c : Connection W} {w : Writer} {len bytes_read : ℕ} {header out : Bytes}
        {later : ℕ × Bytes} {s : Socket} (answer : Answer)
        → ltb bytes_read len ≡ true
        → read_once p answer len bytes_read out c.socket ≡ (ok later, s)
        → Call none
            (threads c w (reading_body header len bytes_read out))
            (threads (with_socket s c) w (reading_body header len later.0 later.1))
    ends_round :
        {c d : Connection W} {w : Writer} {len bytes_read : ℕ} {header out : Bytes}
        → ltb bytes_read len ≡ false
        → handle_packet p initial header (header ++ out) c ≡ (ok tt, d)
        → Call none
            (threads c w (reading_body header len bytes_read out))
            (threads (record d { reader_in_loop = false }) w not_reading)

  -- A run of such steps, the first step first, with the steps of the callers and of the queue.
  pub data Calls : List (Option (Label W)) → Threads W → Threads W → Type 0 where
    no_calls : {f : Threads W} → Calls [] f f
    then_call :
        {o : Option (Label W)} {os : List (Option (Label W))} {f g h : Threads W}
        → Call o f g
        → Calls os g h
        → Calls (o ∷ os) f h

-- Every answer to a `send` in such a step is one of these.
abbrev pub AllSendsAt : {W : Type 0} → (Answer → Type 0) → Option (Label W) → Type 0
AllSendsAt IsOne none = Unit
AllSendsAt IsOne (some l) = AllSends IsOne l

-- What was given to `SendMessage` in such a step, and in a run of them.
abbrev pub given_by : {W : Type 0} → Option (Label W) → List IJdwpCommandPacket
given_by none = []
given_by (some l) = messages (l ∷ [])

abbrev pub given : {W : Type 0} → List (Option (Label W)) → List IJdwpCommandPacket
given [] = []
given (o ∷ os) = given_by o ++ given os
