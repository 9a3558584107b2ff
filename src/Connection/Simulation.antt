-- ===== src/Connection/Simulation.antt =====
-- src/jdwp_con.cpp: the state of the two threads within their calls, against that of a connection
-- whose steps are whole calls.
use roastery.Prelude.{
  true, ℕ, ◌+◌, ◌-◌, ◌%◌, ◌^◌, ◌≡◌, refl, sym, ◌∙◌, subst, Option, some, List, All, [], ◌∷◌, ◌++◌,
}
use roastery.Outcome.{ok}
use roastery.Bytes.{Bytes}
use roastery.HostOrder.{read_ntohl}
use roastery.Fields.{Tuple}
use roastery.EventClass.{EventClass, event_fields}
use roastery.Packet.{header_len}
use roastery.Socket.{Platform, Answer, Socket, read}
use roastery.Connection.{Connection, Round, impl_con}
use roastery.Connection.Outgoing.{IJdwpCommandPacket, serialize}
use roastery.Connection.Steps.{Label, Step, Run, ended, then_step, messages, AllSends}
use roastery.Connection.Progress.{HasSent, HasRead, Polls}
use roastery.Connection.Calls.{
  Writer, not_writing, writing, Reader, not_reading, reading_header, reading_body, Threads,
}

-- The connection `a` of the whole calls, with what the calls in progress have done to it: `sent` was
-- written and `inbox` is what is left of the stream.
abbrev pub mixed : {W : Type 0} → Connection W → Bytes → Bytes → Connection W
mixed a sent inbox = record a {
  socket = record a.socket { outbox = a.socket.outbox ++ sent; inbox = inbox };
}

module _ {W : Type 0} (p : Platform) (initial : (c : EventClass) → Tuple (event_fields c))
    (IsOne : Answer → Type 0) where
  -- The writing thread has sent `sent` of the packet that is held, by some answers of that kind.
  abbrev pub Writes : Connection W → Bytes → Writer → Type 0
  Writes a sent not_writing = sent ≡ []
  Writes a sent (writing text w) =
      (message : IJdwpCommandPacket) × (answers : List Answer) × (a.next_packet ≡ some message)
      × (serialize message impl_con ≡ ok text)
      × HasSent p text w answers sent
      × All IsOne answers
      × (a.writer_in_loop ≡ true)

  -- The reading thread has taken what is between the stream of `a` and `inbox`, in a round.
  abbrev pub Reads : ℕ → Connection W → Bytes → Reader → Type 0
  Reads fd a inbox not_reading = inbox ≡ a.socket.inbox
  Reads fd a inbox (reading_header r out) =
      (revents : Option ℕ) × (errno : ℕ) × (answers : List Answer) × (a.reader_in_loop ≡ true)
      × Polls p true revents errno fd
      × HasRead p header_len r out answers a.socket.inbox inbox
  Reads fd a inbox (reading_body header len r out) =
      (round : Round) × (total : ℕ) × (middle : Bytes) × (a.reader_in_loop ≡ true)
      × Polls p true round.revents round.errno fd
      × ((s : Socket)
          → s.sock_fd ≡ some fd
          → s.inbox ≡ a.socket.inbox
          → read p round.header_reads header_len s ≡ (ok header, record s { inbox = middle }))
      × (read_ntohl 0 header ≡ ok total)
      × (len ≡ (total + (2 ^ 32 - header_len)) % 2 ^ 32)
      × HasRead p len r out round.body_reads middle inbox

  -- The threads `f` are where the whole calls up to `a` and the calls in progress have brought them.
  abbrev pub Simulates : ℕ → Connection W → Threads W → Type 0
  Simulates fd a f =
      (sent : Bytes) × (inbox : Bytes) × (f.shared ≡ mixed a sent inbox)
      × (a.socket.sock_fd ≡ some fd)
      × Writes a sent f.writer
      × Reads fd a inbox f.reader

  -- Some whole calls lead from `a` to where `f` is, and `given` was given to `SendMessage` among them.
  abbrev pub Follows : ℕ → List IJdwpCommandPacket → Connection W → Threads W → Type 0
  Follows fd given a f =
      (ls : List (Label W)) × (later : Connection W) × Run p initial a ls later
      × (messages ls ≡ given)
      × All (AllSends IsOne) ls
      × Simulates fd later f

  pub stays : {fd : ℕ} (f : Threads W) (a : Connection W) → Simulates fd a f → Follows fd [] a f
  stays f a h = ([], a, ended, refl, tt, h)

  pub steps_once :
      {fd : ℕ} {l : Label W} (f : Threads W) (a later : Connection W)
      → Step p initial l a later
      → AllSends IsOne l
      → Simulates fd later f
      → Follows fd (messages (l ∷ [])) a f
  steps_once {l = l} f a later step final h =
      (l ∷ [], later, then_step step ended, refl, (final, tt), h)

  -- Changes of other parts of the connection.
  pub kept-Writes :
      (a later : Connection W) (sent : Bytes) (w : Writer)
      → later.next_packet ≡ a.next_packet
      → later.writer_in_loop ≡ a.writer_in_loop
      → Writes a sent w
      → Writes later sent w
  kept-Writes a later sent not_writing e e' h = h
  kept-Writes a later sent (writing text n) e e' (message, answers, held, bytes, h, final, within) =
      (message, answers, e ∙ held, bytes, h, final, e' ∙ within)

  pub kept-Reads :
      (fd : ℕ) (a later : Connection W) (inbox : Bytes) (r : Reader)
      → later.reader_in_loop ≡ a.reader_in_loop
      → later.socket.inbox ≡ a.socket.inbox
      → Reads fd a inbox r
      → Reads fd later inbox r
  kept-Reads fd a later inbox not_reading e e' stream = stream ∙ sym e'
  kept-Reads fd a later inbox (reading_header r out) e e' (revents, errno, answers, off, polls, h) =
      (
        revents,
        errno,
        answers,
        e ∙ off,
        polls,
        subst (λ from. HasRead p header_len r out answers from inbox) (sym e') h,
      )
  kept-Reads fd a later inbox (reading_body header len r out) e e'
        (round, total, middle, off, polls, first, word, size, h) =
      (
        round,
        total,
        middle,
        e ∙ off,
        polls,
        λ s opened same. first s opened (same ∙ e'),
        word,
        size,
        h,
      )
