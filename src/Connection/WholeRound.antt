-- ===== src/Connection/WholeRound.antt =====
-- src/jdwp_con.cpp: the end of a round, on the connection whose steps are whole calls.
use roastery.Prelude.{
  ℕ, ◌+◌, ◌-◌, ◌%◌, ◌^◌, ◌≡◌, refl, sym, ap, ◌∙◌, true, false, some, [], ◌++◌, ltb,
}
use roastery.Outcome.{ok}
use roastery.Bytes.{Bytes}
use roastery.HostOrder.{read_ntohl}
use roastery.Fields.{Tuple}
use roastery.EventClass.{EventClass, event_fields}
use roastery.Packet.{header_len}
use roastery.Socket.{Platform, Answer, Socket, read}
use roastery.Connection.{Connection, Round, handle_packet, read_packet, incoming_round}
use roastery.Connection.Steps.{step_receive}
use roastery.Connection.Progress.{HasRead, Polls, all_read}
use roastery.Connection.Calls.{Writer, not_reading, threads}
use roastery.Connection.Simulation.{mixed, Writes, Follows, steps_once, kept-Writes}
use roastery.Connection.Handling.{handle_packet-IsFramed}

module _ {W : Type 0} (p : Platform) (initial : (c : EventClass) → Tuple (event_fields c))
    (IsOne : Answer → Type 0) where
  -- The whole round, on the connection of the whole calls.
  abbrev pub behind_round : Connection W → Bytes → W → Connection W
  behind_round a inbox world = record a {
    socket = record a.socket { inbox = inbox };
    world = world;
  }

  pub whole_round :
      (fd : ℕ) (a : Connection W) (round : Round) (len r total : ℕ)
      (header out middle inbox : Bytes) (d : Connection W) (s : Socket)
      → ltb r len ≡ false
      → a.socket.sock_fd ≡ some fd
      → Polls p true round.revents round.errno fd
      → ((s : Socket)
          → s.sock_fd ≡ some fd
          → s.inbox ≡ a.socket.inbox
          → read p round.header_reads header_len s ≡ (ok header, record s { inbox = middle }))
      → read_ntohl 0 header ≡ ok total
      → len ≡ (total + (2 ^ 32 - header_len)) % 2 ^ 32
      → HasRead p len r out round.body_reads middle inbox
      → handle_packet p initial header (header ++ out) (record a { socket = s }) ≡ (ok tt, d)
      → (world : W) × (incoming_round p initial round a ≡ (ok tt, behind_round a inbox world))
        × (d ≡ record a { socket = s; world = world })
  unfolding incoming_round read_packet
  whole_round fd a round len r total header out middle inbox d s done opened polls first word size h
        e =
      let packet = header ++ out in
      let result = handle_packet p initial header packet a in
      let framed = sym (handle_packet-IsFramed initial p a a.should_cancel s header packet) ∙ e in
      let between = record a.socket { inbox = middle } in
      let behind = record a.socket { inbox = inbox } in
      (
        result.1.world,
        rw
            (
              polls a.socket opened,
              first a.socket opened refl,
              word,
              sym size,
              all_read p len r out round.body_reads middle inbox between done h opened refl,
              handle_packet-IsFramed initial p a a.should_cancel behind header packet,
              ap (λ q. q.0) framed,
            )
            refl,
        sym (ap (λ q. q.1) framed),
      )

  pub end_behind :
      (fd : ℕ) (a : Connection W) (d : Connection W) (w : Writer) (sent inbox : Bytes) (world : W)
      (round : Round)
      → a.reader_in_loop ≡ true
      → incoming_round p initial round a ≡ (ok tt, behind_round a inbox world)
      → d ≡ mixed (behind_round a inbox world) sent inbox
      → a.socket.sock_fd ≡ some fd
      → Writes p initial IsOne a sent w
      → Follows p initial IsOne fd [] a
          (threads (record d { reader_in_loop = false }) w not_reading)
  end_behind fd a d w sent inbox world round within e same opened hw =
      let later : Connection W = record (behind_round a inbox world) { reader_in_loop = false } in
      steps_once p initial IsOne (threads (record d { reader_in_loop = false }) w not_reading) a
        later (step_receive within e) tt
        (
          sent,
          inbox,
          ap (λ (k : Connection W). record k { reader_in_loop = false }) same,
          opened,
          kept-Writes p initial IsOne a later sent w refl refl hw,
          refl,
        )
