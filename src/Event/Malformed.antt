-- ===== src/Event/Malformed.antt =====
-- Composite event packets with an event of a kind for which there is no class.
use roastery.Prelude.{
  ℕ, zero, suc, ◌+◌, ◌<◌, ◌^◌, ◌≡◌, ◌∙◌, true, List, [], ◌∷◌, ◌++◌, length, length-append,
  append_assoc, arith,
}
use roastery.Outcome.{Fault, ok, raised, jdwp_exception}
use roastery.Bytes.{Bytes, big_endian}
use roastery.Bytes.Reads.{substr_from_next}
use roastery.Con.{Con, IsSupported}
use roastery.Numeric
use roastery.Fields.{Tuple, serialize_tuple}
use roastery.Fields.Valid.{IsValidTuple, IsClearTuple}
use roastery.EventClass.{EventClass, JdwpEvent, kind_to_byte, kind_of_byte, get_kind, event_fields}
use roastery.Event.{new_event, read_events, header_is_event, from_composite}
use roastery.Event.Composite.{
  Encodes, no_events, event, kind_of_byte-get_kind, new_event-get_kind, from_encoded_front,
  from_composite-append, length-front,
}

-- What the switch of `FromComposite` throws.
abbrev pub illegal : Fault
illegal = jdwp_exception "Illegal eventKind in composite event"

module _ (con : Con) (supported : IsSupported con)
    (initial : (c : EventClass) → Tuple (event_fields c))
    (clear : (c : EventClass) → IsClearTuple con (event_fields c) (initial c)) where
  -- The round that reaches the event.
  illegal_kind :
      (front rest : Bytes) (idx k n : ℕ)
      → length front ≡ idx
      → new_event (kind_of_byte k) ≡ raised illegal
      → 0 < n
      → read_events initial con n idx (front ++ (k ∷ rest)) ≡ raised illegal
  unfolding read_events
  illegal_kind front rest idx k zero e no_class more = absurd (omega arith)
  illegal_kind front rest idx k (suc n) e no_class more =
      rw (
        substr_from_next idx front (k ∷ rest) e,
        Numeric.RoundTrip.from_encoded_byte k [],
        no_class,
      )

  -- A round for a legal event before it.
  legal_round :
      (e : JdwpEvent) (front fields s : Bytes) (idx n : ℕ)
      → IsValidTuple con (event_fields e.class) e.fields
      → serialize_tuple (event_fields e.class) e.fields con ≡ ok fields
      → length front ≡ idx
      → read_events initial con n
          (idx + (1 + length fields))
          ((front ++ (kind_to_byte (get_kind e.class) ∷ fields)) ++ s)
        ≡ raised illegal
      → read_events initial con
          (suc n)
          idx
          (front ++ (kind_to_byte (get_kind e.class) ∷ (fields ++ s)))
        ≡ raised illegal
  unfolding read_events
  legal_round e front fields s idx n h sent eq later =
      let k : ℕ = kind_to_byte (get_kind e.class) in
      rw (
        substr_from_next idx front (k ∷ (fields ++ s)) eq,
        Numeric.RoundTrip.from_encoded_byte k [],
        kind_of_byte-get_kind e.class,
        new_event-get_kind e.class,
        from_encoded_front con supported initial clear e fields s h sent,
        rw (append_assoc front (k ∷ fields) s) at later,
      )

  read_events-illegal :
      (events : List JdwpEvent) (front bytes rest : Bytes) (idx k n : ℕ)
      → Encodes con events bytes
      → length front ≡ idx
      → new_event (kind_of_byte k) ≡ raised illegal
      → length events < n
      → read_events initial con n idx (front ++ (bytes ++ (k ∷ rest))) ≡ raised illegal
  read_events-illegal events front bytes rest idx k zero enc e no_class more = absurd (omega arith)
  read_events-illegal events front bytes rest idx k (suc n) no_events e no_class more =
      illegal_kind front rest idx k (suc n) e no_class more
  read_events-illegal (ev ∷ events) front bytes rest idx k (suc n)
        (event {fields = fields} {rest = others} h sent enc) e no_class more =
      let b : ℕ = kind_to_byte (get_kind ev.class) in
      let later =
        read_events-illegal events (front ++ (b ∷ fields)) others rest (idx + (1 + length fields)) k
          n enc (omega (arith, length-append front (b ∷ fields))) no_class (omega arith) in
      rw (append_assoc fields others (k ∷ rest))
        (legal_round ev front fields (others ++ (k ∷ rest)) idx n h sent e later)

-- If the count of a composite event packet says that there are more events than the valid ones at
-- its front, and the byte behind them is a kind for which there is no class of events, the packet
-- is rejected, whatever follows. The valid events are those whose numbers and IDs fit their types,
-- whose tags have names, and in which no byte of a tagged object ID is zero.
pub from_composite-illegal :
    (con : Con) (initial : (c : EventClass) → Tuple (event_fields c)) (header : Bytes)
    (policy n k : ℕ) (events : List JdwpEvent) (bytes rest : Bytes)
    → IsSupported con
    → ((c : EventClass) → IsClearTuple con (event_fields c) (initial c))
    → length header ≡ 11
    → header_is_event header ≡ ok true
    → n < 2 ^ 31
    → Encodes con events bytes
    → length events < n
    → new_event (kind_of_byte k) ≡ raised illegal
    → from_composite initial con (header ++ (policy ∷ (big_endian 4 n ++ (bytes ++ (k ∷ rest)))))
      ≡ raised illegal
from_composite-illegal con initial header policy n k events bytes rest supported clear size is_event
      few enc more no_class =
    from_composite-append con initial header policy n (bytes ++ (k ∷ rest)) size is_event few
    ∙ read_events-illegal con supported initial clear events (header ++ (policy ∷ big_endian 4 n))
        bytes rest 16 k n enc (length-front header policy n size) no_class more
