-- ===== src/Connection/Packets.antt =====
-- The packets that a virtual machine sends to a connection, as the protocol lays them out, and what
-- src/jdwp_packet.cpp finds in them.
use roastery.Prelude.{
  ℕ, ◌+◌, ◌/◌, ◌%◌, ◌^◌, ◌<◌, ◌≡◌, refl, sym, ap, ◌∙◌, true, false, List, [], ◌∷◌, ◌++◌, length,
  length-append, append-nil, arith,
}
use roastery.Outcome.{ok}
use roastery.Bytes.{Bytes, big_endian}
use roastery.Bytes.Words.{length-big_endian}
use roastery.Con.{IsSupported}
use roastery.HostOrder.{read_ntohl}
use roastery.HostOrder.Laws.{read_ntohl_next}
use roastery.Fields.{Tuple}
use roastery.Fields.Valid.{IsClearTuple}
use roastery.EventClass.{EventClass, JdwpEvent, event_fields}
use roastery.Event.{header_is_event, from_composite}
use roastery.Event.Composite.{Encodes, from_composite-Encodes}
use roastery.Packet.Framing.{char_at-header}
use roastery.Connection.{impl_con}

-- A reply with its ID, its error code and its data, or a composite event packet with its ID, its
-- suspend policy, its events and their bytes.
pub data Incoming : Type 0 where
  reply : ℕ → ℕ → Bytes → Incoming
  composite : ℕ → ℕ → List JdwpEvent → Bytes → Incoming

-- The length of the packet, its ID, its flags and two bytes.
abbrev pub header_of : ℕ → ℕ → ℕ → ℕ → ℕ → Bytes
header_of body_len id flags first second =
    big_endian 4 (body_len + 11) ++ (big_endian 4 id ++ (flags ∷ first ∷ second ∷ []))

abbrev pub body : Incoming → Bytes
body (reply id error text) = text
body (composite id policy events text) = policy ∷ (big_endian 4 (length events) ++ text)

-- A reply has the flag 0x80 and an error code; a composite event has the command set 64 and the
-- command 100.
abbrev pub header : Incoming → Bytes
header (reply id error text) = header_of (length text) id 0x80 (error / 256) (error % 256)
header (composite id policy events text) =
    header_of (length (body (composite id policy events text))) id 0 64 100

abbrev pub events_of : Incoming → List JdwpEvent
events_of (reply id error text) = []
events_of (composite id policy events text) = events

-- What the peer sends for some packets, and their events.
abbrev pub wire : List Incoming → Bytes
wire [] = []
wire (packet ∷ packets) = header packet ++ (body packet ++ wire packets)

abbrev pub all_events : List Incoming → List JdwpEvent
all_events [] = []
all_events (packet ∷ packets) = events_of packet ++ all_events packets

-- The bytes of the events are each the kind and the fields, over IDs of the connection's sizes.
abbrev pub HasEvents : Incoming → Type 0
HasEvents (reply id error text) = Unit
HasEvents (composite id policy events text) =
    (length events < 2 ^ 31) × Encodes impl_con events text

abbrev pub IsIncoming : Incoming → Type 0
IsIncoming packet = (length (body packet) + 11 < 2 ^ 32) × HasEvents packet

-- The header has 11 bytes, and its length is that of the packet.
abbrev pub IsWhole : Bytes → Bytes → Type 0
IsWhole h b = (length h ≡ 11) × (read_ntohl 0 h ≡ ok (length b + 11)) × (length b + 11 < 2 ^ 32)

pub header_of-IsWhole :
    (b : Bytes) (id flags first second : ℕ)
    → length b + 11 < 2 ^ 32
    → IsWhole (header_of (length b) id flags first second) b
header_of-IsWhole b id flags first second small =
    let tail : Bytes = big_endian 4 id ++ (flags ∷ first ∷ second ∷ []) in
    (
      omega (
        arith,
        length-append (big_endian 4 (length b + 11)) tail,
        length-append (big_endian 4 id) (flags ∷ first ∷ second ∷ []),
        length-big_endian 4 (length b + 11),
        length-big_endian 4 id,
      ),
      read_ntohl_next 0 (length b + 11) [] tail refl small,
      small,
    )

pub packet-IsWhole : (packet : Incoming) → IsIncoming packet → IsWhole (header packet) (body packet)
packet-IsWhole (reply id error text) fits =
    header_of-IsWhole text id 0x80 (error / 256) (error % 256) fits.0
packet-IsWhole (composite id policy events text) fits =
    header_of-IsWhole (body (composite id policy events text)) id 0 64 100 fits.0

-- The bytes behind the two words of the header.
pub header_is_event-reply :
    (id error : ℕ) (text : Bytes) → header_is_event (header (reply id error text)) ≡ ok false
unfolding header_is_event
header_is_event-reply id error text =
    let n = length text + 11 in
    let (flags, _, _) =
      char_at-header (big_endian 4 n) (big_endian 4 id) [] 0x80 (error / 256) (error % 256)
        (length-big_endian 4 n) (length-big_endian 4 id) in
    rw flags refl

pub header_is_event-header_of : (n id : ℕ) → header_is_event (header_of n id 0 64 100) ≡ ok true
unfolding header_is_event
header_is_event-header_of n id =
    let (flags, set, _) =
      char_at-header (big_endian 4 (n + 11)) (big_endian 4 id) [] 0 64 100
        (length-big_endian 4 (n + 11)) (length-big_endian 4 id) in
    rw (flags, set) refl

pub header_is_event-composite :
    (id policy : ℕ) (events : List JdwpEvent) (text : Bytes)
    → header_is_event (header (composite id policy events text)) ≡ ok true
header_is_event-composite id policy events text =
    header_is_event-header_of (length (body (composite id policy events text))) id

pub impl_con-IsSupported : IsSupported impl_con
impl_con-IsSupported = record {
  obj_id = omega arith;
  method_id = omega arith;
  field_id = omega arith;
  frame_id = omega arith;
}

-- The events are parsed, if the IDs of new events are clear.
pub from_composite-packet :
    (initial : (c : EventClass) → Tuple (event_fields c)) (id policy : ℕ) (events : List JdwpEvent)
    (text : Bytes)
    → ((c : EventClass) → IsClearTuple impl_con (event_fields c) (initial c))
    → IsIncoming (composite id policy events text)
    → let packet = composite id policy events text in
      (from_composite initial impl_con (header packet ++ body packet) ≡ ok events)
from_composite-packet initial id policy events text clear fits =
    let packet = composite id policy events text in
    let bytes : Bytes = header packet in
    ap
      (λ r.
        from_composite initial impl_con (bytes ++ (policy ∷ (big_endian 4 (length events) ++ r))))
      (sym (append-nil text))
    ∙ from_composite-Encodes impl_con initial bytes policy events text [] impl_con-IsSupported clear
        (packet-IsWhole packet fits).0 (header_is_event-composite id policy events text) fits.1.0
        fits.1.1
