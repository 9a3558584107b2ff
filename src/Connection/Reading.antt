-- ===== src/Connection/Reading.antt =====
-- src/jdwp_con.cpp: the reading thread leaves what the writing thread works on as it is.
use roastery.Prelude.{
  ℕ, ◌^◌, refl, ap, Bool, true, false, Option, List, ◌++◌, ◌+◌, ◌-◌, ◌%◌, if◌then◌else◌,
}
use roastery.Bytes.{Bytes}
use roastery.Action.{Action, Keeps, >>=-Keeps, lift}
use roastery.Fields.{Tuple}
use roastery.EventClass.{EventClass, event_fields}
use roastery.Socket.{Platform, Answer, Socket, read, can_read}
use roastery.Socket.Keeps.{read-outbox, can_read-unchanged}
use roastery.Event.{header_is_event, from_composite}
use roastery.HostOrder.{read_ntohl}
use roastery.Connection.{
  on_socket, Connection, Round, impl_con, incoming_round, read_packet, handle_packet,
}
use roastery.Connection.Outgoing.{IJdwpCommandPacket}

module _ {W : Type 0} (p : Platform) (initial : (c : EventClass) → Tuple (event_fields c)) where
  -- What a round of the reading thread leaves alone.
  abbrev pub writing_side :
      Connection W → Option IJdwpCommandPacket × List IJdwpCommandPacket × Bytes × Bool × Bool
  writing_side c =
      (c.next_packet, c.outgoing_messages, c.socket.outbox, c.should_cancel, c.writer_in_loop)

  on_read-Keeps :
      (answers : List Answer) (len : ℕ) → Keeps writing_side (on_socket (read p answers len))
  on_read-Keeps answers len c =
      ap (λ outbox. (c.next_packet, c.outgoing_messages, outbox, c.should_cancel, c.writer_in_loop))
        (read-outbox p answers len c.socket)

  on_can_read-Keeps :
      (revents : Option ℕ) (errno : ℕ) → Keeps writing_side (on_socket (can_read p revents errno))
  on_can_read-Keeps revents errno c =
      ap
        (λ (s : Socket).
          (c.next_packet, c.outgoing_messages, s.outbox, c.should_cancel, c.writer_in_loop))
        (can_read-unchanged p revents errno c.socket)

  if-Keeps :
      {A : Type 0} (b : Bool) (m k : Action (Connection W) A)
      → Keeps writing_side m
      → Keeps writing_side k
      → Keeps writing_side (if b then m else k)
  if-Keeps true m k hm hk = hm
  if-Keeps false m k hm hk = hk

  handle_packet-Keeps :
      (header packet : Bytes) → Keeps writing_side (handle_packet p initial header packet)
  unfolding handle_packet
  handle_packet-Keeps header packet =
      >>=-Keeps writing_side (lift (header_is_event header)) _ (λ c. refl)
        λ is_event.
          if-Keeps is_event _ _
            (>>=-Keeps writing_side (lift (from_composite initial impl_con packet)) _ (λ c. refl)
              λ events c. refl)
            (λ c. refl)

  read_packet-Keeps : (round : Round) → Keeps writing_side (read_packet p initial round)
  unfolding read_packet
  read_packet-Keeps round =
      >>=-Keeps writing_side (on_socket (read p round.header_reads 11)) _
        (on_read-Keeps round.header_reads 11)
        λ header.
          >>=-Keeps writing_side (lift (read_ntohl 0 header)) _ (λ c. refl)
            λ total_len.
              >>=-Keeps writing_side
                (on_socket (read p round.body_reads ((total_len + (2 ^ 32 - 11)) % 2 ^ 32))) _
                (on_read-Keeps round.body_reads _)
                λ body. handle_packet-Keeps header (header ++ body)

  pub incoming_round-Keeps : (round : Round) → Keeps writing_side (incoming_round p initial round)
  unfolding incoming_round
  incoming_round-Keeps round =
      >>=-Keeps writing_side (on_socket (can_read p round.revents round.errno)) _
        (on_can_read-Keeps round.revents round.errno)
        λ more. if-Keeps more _ _ (read_packet-Keeps round) (λ c. refl)
