-- ===== src/Connection/Underflow.antt =====
-- src/jdwp_con.cpp: a packet whose length is below that of its header.
use roastery.Prelude.{ℕ, ◌+◌, ◌-◌, ◌%◌, ◌^◌, ◌<◌, ◌≡◌, refl, some, [], ◌++◌, length, arith}
use roastery.Outcome.{ok, raised}
use roastery.Bytes.{Bytes}
use roastery.HostOrder.{read_ntohl}
use roastery.Fields.{Tuple}
use roastery.EventClass.{EventClass, event_fields}
use roastery.Socket.{Platform, close, connection_closed}
use roastery.Socket.Streams.{read_front, read_closes}
use roastery.Connection.{Connection, Round, incoming_round, read_packet}
use roastery.Connection.Incoming.{IsReady, poll-ready}

-- The socket was closed behind the end of the stream.
abbrev pub at_end : {W : Type 0} → Connection W → Connection W
at_end c = record c { socket = close (record c.socket { inbox = [] }) }

-- A packet whose length field is below 11 is not rejected: the length of its body wraps around, and
-- the reading thread takes what the peer sends behind it as this body. Let the socket be open,
-- BUFSIZ not be 0, `poll` report input and no error, and every `read` move bytes, with an answer for
-- each byte that the peer still sends and one more; and let the stream be a header of 11 bytes whose
-- length field is `n` below 11, followed by fewer than 2 ^ 32 - 11 + n bytes. Then the round takes
-- all of them, whatever packets they are, closes the socket and throws `JdwpException` with
-- "Connection closed", and all else of the connection, what the handlers act on included, stays as
-- it was.
pub incoming_round_underflow :
    {W : Type 0} (p : Platform) (initial : (c : EventClass) → Tuple (event_fields c))
    (round : Round) (h rest : Bytes) (n : ℕ) (c : Connection W) {fd : ℕ}
    → 0 < p.bufsiz
    → IsReady p round (length rest + 1)
    → c.socket.sock_fd ≡ some fd
    → c.socket.inbox ≡ h ++ rest
    → length h ≡ 11
    → read_ntohl 0 h ≡ ok n
    → n < 11
    → length rest < 2 ^ 32 - 11 + n
    → incoming_round p initial round c ≡ (raised connection_closed, at_end c)
unfolding incoming_round read_packet
incoming_round_underflow p initial round h rest n c room ready e stream size total less short =
    let (_, _, _, _, hr, hn, br, bn) = ready in
    let wrapped : (n + (2 ^ 32 - 11)) % 2 ^ 32 ≡ 2 ^ 32 - 11 + n = omega arith in
    let behind = record c.socket { inbox = rest } in
    rw
      (
        poll-ready p round (length rest + 1) c.socket ready e,
        read_front p round.header_reads 11 c.socket h rest room (omega arith) e hr hn size stream,
        total,
        wrapped,
        read_closes p round.body_reads (2 ^ 32 - 11 + n) behind room (omega arith) e br short
            (omega arith),
      )
      refl
