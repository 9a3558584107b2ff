-- ===== src/Connection/SplitReads.antt =====
-- src/jdwp_con.cpp: the steps of the reading thread within a round.
use roastery.Prelude.{
  false, ℕ, ◌+◌, ◌-◌, ◌%◌, ◌^◌, ◌≡◌, refl, sym, ap, ◌∙◌, subst, true, false, Option, [], ◌∷◌, ◌++◌,
  ltb,
}
use roastery.Outcome.{ok}
use roastery.Bytes.{Bytes}
use roastery.HostOrder.{read_ntohl}
use roastery.Fields.{Tuple}
use roastery.EventClass.{EventClass, event_fields}
use roastery.Packet.{header_len}
use roastery.Socket.{Platform, Answer, Socket, can_read}
use roastery.Socket.Iterations.{read_once, read_once-ok}
use roastery.Connection.{Connection, handle_packet, incoming_round}
use roastery.Connection.Steps.{step_receive}
use roastery.Connection.Progress.{HasRead, no_reads, one_more_read, all_read, can_read-Polls}
use roastery.Connection.Calls.{
  Writer, not_reading, reading_header, reading_body, threads, with_socket,
}
use roastery.Connection.Simulation.{mixed, Simulates, Follows, stays, steps_once, kept-Writes}
use roastery.Connection.WholeRound.{whole_round, end_behind}

module _ {W : Type 0} (p : Platform) (initial : (c : EventClass) → Tuple (event_fields c))
    (IsOne : Answer → Type 0) where
  -- The reading thread.
  pub poll-Follows :
      (fd : ℕ) (a c : Connection W) (w : Writer) (revents : Option ℕ) (errno : ℕ)
      → c.reader_in_loop ≡ true
      → can_read p revents errno c.socket ≡ (ok true, c.socket)
      → Simulates p initial IsOne fd a (threads c w not_reading)
      → Follows p initial IsOne fd [] a (threads c w (reading_header 0 []))
  poll-Follows fd a c w revents errno running found (sent, inbox, same, opened, hw, stream) =
      stays p initial IsOne (threads c w (reading_header 0 [])) a (
        sent,
        inbox,
        same,
        opened,
        hw,
        (
          revents,
          errno,
          [],
          ap (λ k. k.reader_in_loop) (sym same) ∙ running,
          can_read-Polls p revents errno c.socket
              (ap (λ (k : Connection W). k.socket.sock_fd) same ∙ opened) found,
          subst (λ to. HasRead p header_len 0 [] [] a.socket.inbox to) (sym stream)
              (no_reads p header_len a.socket.inbox),
        ),
      )

  pub nothing-Follows :
      (fd : ℕ) (a c : Connection W) (w : Writer) (revents : Option ℕ) (errno : ℕ)
      → c.reader_in_loop ≡ true
      → can_read p revents errno c.socket ≡ (ok false, c.socket)
      → Simulates p initial IsOne fd a (threads c w not_reading)
      → Follows p initial IsOne fd [] a
          (threads (record c { reader_in_loop = false }) w not_reading)
  unfolding incoming_round
  nothing-Follows fd a c w revents errno within none_found (sent, inbox, same, opened, hw, stream) =
      let later : Connection W = record a { reader_in_loop = false } in
      let polls =
        can_read-Polls p revents errno c.socket
          (ap (λ (k : Connection W). k.socket.sock_fd) same ∙ opened) none_found in
      steps_once p initial IsOne (threads (record c { reader_in_loop = false }) w not_reading) a
        later
        (step_receive {d = a}
          {round = record { revents = revents; errno = errno; header_reads = []; body_reads = [] }}
          (ap (λ k. k.reader_in_loop) (sym same) ∙ within) (rw (polls a.socket opened) refl))
        tt
        (
          sent,
          inbox,
          ap (λ (k : Connection W). record k { reader_in_loop = false }) same,
          opened,
          kept-Writes p initial IsOne a later sent w refl refl hw,
          stream,
        )

  -- One more `read`.
  read-mixed :
      (a c : Connection W) (sent inbox : Bytes) (s : Socket)
      → c ≡ mixed a sent inbox
      → s ≡ record c.socket { inbox = s.inbox }
      → with_socket s c ≡ mixed a sent s.inbox
  read-mixed a c sent inbox s same now =
      ap (λ t. with_socket t c) now
      ∙ ap (λ (k : Connection W). with_socket (record k.socket { inbox = s.inbox }) k) same

  pub header-Follows :
      (fd : ℕ) (a c : Connection W) (w : Writer) (r : ℕ) (out : Bytes) (later : ℕ × Bytes)
      (s : Socket) (answer : Answer)
      → ltb r header_len ≡ true
      → read_once p answer header_len r out c.socket ≡ (ok later, s)
      → Simulates p initial IsOne fd a (threads c w (reading_header r out))
      → Follows p initial IsOne fd [] a
          (threads (with_socket s c) w (reading_header later.0 later.1))
  header-Follows fd a c w r out later s answer going_on e
        (sent, inbox, same, opened, hw, (revents, errno, answers, off, polls, h)) =
      let (now, elsewhere) = read_once-ok p answer header_len r out c.socket e in
      let there = ap (λ (k : Connection W). k.socket.inbox) same in
      stays p initial IsOne (threads (with_socket s c) w (reading_header later.0 later.1)) a (
        sent,
        s.inbox,
        read-mixed a c sent inbox s same now,
        opened,
        hw,
        (
          revents,
          errno,
          answers ++ (answer ∷ []),
          off,
          polls,
          one_more_read p answer header_len r out answers a.socket.inbox inbox s.inbox going_on
              (λ t here. elsewhere t (here ∙ sym there)) h,
        ),
      )

  pub word-Follows :
      (fd : ℕ) (a c : Connection W) (w : Writer) (r total : ℕ) (out : Bytes)
      → ltb r header_len ≡ false
      → read_ntohl 0 out ≡ ok total
      → Simulates p initial IsOne fd a (threads c w (reading_header r out))
      → Follows p initial IsOne fd [] a
          (threads c w (reading_body out ((total + (2 ^ 32 - header_len)) % 2 ^ 32) 0 []))
  word-Follows fd a c w r total out done word
        (sent, inbox, same, opened, hw, (revents, errno, answers, off, polls, h)) =
      let len = (total + (2 ^ 32 - header_len)) % 2 ^ 32 in
      stays p initial IsOne (threads c w (reading_body out len 0 [])) a (
        sent,
        inbox,
        same,
        opened,
        hw,
        (
          record { revents = revents; errno = errno; header_reads = answers; body_reads = [] },
          total,
          inbox,
          off,
          polls,
          λ s is_open here.
              all_read p header_len r out answers a.socket.inbox inbox s done h is_open here,
          word,
          refl,
          no_reads p len inbox,
        ),
      )

  pub body-Follows :
      (fd : ℕ) (a c : Connection W) (w : Writer) (len r : ℕ) (header out : Bytes)
      (later : ℕ × Bytes) (s : Socket) (answer : Answer)
      → ltb r len ≡ true
      → read_once p answer len r out c.socket ≡ (ok later, s)
      → Simulates p initial IsOne fd a (threads c w (reading_body header len r out))
      → Follows p initial IsOne fd [] a
          (threads (with_socket s c) w (reading_body header len later.0 later.1))
  body-Follows fd a c w len r header out later s answer going_on e
        (sent, inbox, same, opened, hw, (round, total, middle, off, polls, first, word, size, h)) =
      let (now, elsewhere) = read_once-ok p answer len r out c.socket e in
      let there = ap (λ (k : Connection W). k.socket.inbox) same in
      stays p initial IsOne (threads (with_socket s c) w (reading_body header len later.0 later.1))
        a
        (
          sent,
          s.inbox,
          read-mixed a c sent inbox s same now,
          opened,
          hw,
          (
            record round { body_reads = round.body_reads ++ (answer ∷ []) },
            total,
            middle,
            off,
            polls,
            first,
            word,
            size,
            one_more_read p answer len r out round.body_reads middle inbox s.inbox going_on
                (λ t here. elsewhere t (here ∙ sym there)) h,
          ),
        )

  pub round-Follows :
      (fd : ℕ) (a c d : Connection W) (w : Writer) (len r : ℕ) (header out : Bytes)
      → ltb r len ≡ false
      → handle_packet p initial header (header ++ out) c ≡ (ok tt, d)
      → Simulates p initial IsOne fd a (threads c w (reading_body header len r out))
      → Follows p initial IsOne fd [] a
          (threads (record d { reader_in_loop = false }) w not_reading)
  round-Follows fd a c d w len r header out done e
        (sent, inbox, same, opened, hw, (round, total, middle, off, polls, first, word, size, h)) =
      let (world, received, after) =
        whole_round p initial IsOne fd a round len r total header out middle inbox d
          (record a.socket { outbox = a.socket.outbox ++ sent; inbox = inbox }) done opened polls
          first word size h
          (ap (λ k. handle_packet p initial header (header ++ out) k) (sym same) ∙ e) in
      end_behind p initial IsOne fd a d w sent inbox world round off received after opened hw
