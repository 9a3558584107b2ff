-- ===== src/Connection/Malformed.antt =====
-- src/jdwp_con.cpp: a composite event packet with an event of a kind for which there is no class.
use roastery.Prelude.{ℕ, ◌+◌, ◌^◌, ◌<◌, ◌≡◌, refl, some, List, ◌∷◌, ◌++◌, length, ◌∙◌}
use roastery.Outcome.{raised}
use roastery.Bytes.{Bytes, big_endian}
use roastery.Fields.{Tuple}
use roastery.Fields.Valid.{IsClearTuple}
use roastery.EventClass.{EventClass, JdwpEvent, kind_of_byte, event_fields}
use roastery.Event.{new_event}
use roastery.Event.Composite.{Encodes}
use roastery.Event.Malformed.{illegal, from_composite-illegal}
use roastery.Socket.{Platform}
use roastery.Connection.{Connection, Round, impl_con, incoming_round, handle_packet}
use roastery.Connection.Packets.{
  header_of, header_of-IsWhole, header_is_event-header_of, impl_con-IsSupported,
}
use roastery.Connection.Incoming.{IsReady, with_inbox, incoming_round-lem}

-- The body of a packet that announces `n` events: its suspend policy, `n`, the bytes of some events,
-- the kind `k`, and more.
abbrev pub body_with : ℕ → ℕ → Bytes → ℕ → Bytes → Bytes
body_with policy n bytes k more = policy ∷ (big_endian 4 n ++ (bytes ++ (k ∷ more)))

-- An event packet is handled whole or not at all: let the stream begin with a composite event packet
-- of fewer than 2 ^ 32 bytes that announces more events, fewer than 2 ^ 31, than the valid ones at its
-- front, and let the byte behind these be a kind for which there is no class of events; the socket is
-- open, BUFSIZ is not 0, IDs of new events are clear, `poll` reports input and no error, and `read`
-- moves bytes, with an answer for each byte of the packet. Then the round of the reading thread
-- throws `JdwpException` with "Illegal eventKind in composite event", the packet has been taken from
-- the stream, and all else is as it was: no handler has acted on the valid events of the packet, which
-- are those whose fields fit their types, without a zero byte in a tagged object ID.
pub incoming_round-illegal :
    {W : Type 0} (p : Platform) (initial : (c : EventClass) → Tuple (event_fields c))
    (round : Round) (id policy n k : ℕ) (events : List JdwpEvent) (bytes more rest : Bytes)
    (c : Connection W) {fd : ℕ}
    → 0 < p.bufsiz
    → ((c : EventClass) → IsClearTuple impl_con (event_fields c) (initial c))
    → IsReady p round (length (body_with policy n bytes k more))
    → length (body_with policy n bytes k more) + 11 < 2 ^ 32
    → n < 2 ^ 31
    → Encodes impl_con events bytes
    → length events < n
    → new_event (kind_of_byte k) ≡ raised illegal
    → c.socket.sock_fd ≡ some fd
    → c.socket.inbox
      ≡ header_of (length (body_with policy n bytes k more)) id 0 64 100
        ++ (body_with policy n bytes k more ++ rest)
    → incoming_round p initial round c ≡ (raised illegal, with_inbox rest c)
unfolding handle_packet
incoming_round-illegal p initial round id policy n k events bytes more rest c room clear ready small
      few enc short no_class e stream =
    let b : Bytes = body_with policy n bytes k more in
    let h : Bytes = header_of (length b) id 0 64 100 in
    let whole = header_of-IsWhole b id 0 64 100 small in
    let is_event = header_is_event-header_of (length b) id in
    incoming_round-lem p initial room clear round h b rest c ready whole e stream
    ∙ rw
        (
          is_event,
          from_composite-illegal impl_con initial h policy n k events bytes more
              impl_con-IsSupported clear whole.0 is_event few enc short no_class,
        )
        refl
