-- ===== src/Event/Composite.antt =====
-- Composite event packets, as the virtual machine lays them out, are parsed into their events.
use roastery.Prelude.{
  ℕ, ◌+◌, ◌≤◌, ◌<◌, ◌^◌, ◌≡◌, refl, sym, ap, ◌∙◌, true, ==_refl, lt→ltb, List, [], ◌∷◌, ◌++◌,
  length, length-append, append_assoc, take-append, arith,
}
use roastery.Outcome.{ok, ok-injective}
use roastery.Bytes.{Bytes, big_endian}
use roastery.Bytes.Reads.{substr_from_next, char_at-append}
use roastery.Bytes.Words.{length-big_endian}
use roastery.Con.{Con, IsSupported}
use roastery.Numeric
use roastery.Numeric.{byte, int}
use roastery.Fields.{Tuple, serialize_tuple}
use roastery.Fields.Valid.{IsValidTuple, IsClearTuple}
use roastery.Fields.RoundTrip as FieldsRoundTrip
use roastery.EventClass.{
  EventClass, JdwpEvent, kind_to_byte, kind_of_byte, get_kind, event_fields, vm_start,
}
use roastery.Event.{new_event, from_encoded, read_events, header_is_event, from_composite}

-- The bytes of a list of events: each is its kind and the bytes of its fields.
pub data Encodes (con : Con) : List JdwpEvent → Bytes → Type 0 where
  no_events : Encodes con [] []
  event :
      {e : JdwpEvent} {events : List JdwpEvent} {fields rest : Bytes}
      → IsValidTuple con (event_fields e.class) e.fields
      → serialize_tuple (event_fields e.class) e.fields con ≡ ok fields
      → Encodes con events rest
      → Encodes con (e ∷ events) (kind_to_byte (get_kind e.class) ∷ (fields ++ rest))

pub kind_of_byte-get_kind : (c : EventClass) → kind_of_byte (kind_to_byte (get_kind c)) ≡ get_kind c
unfolding kind_of_byte kind_to_byte get_kind
kind_of_byte-get_kind vm_start = refl
kind_of_byte-get_kind _ = refl

pub new_event-get_kind : (c : EventClass) → new_event (get_kind c) ≡ ok c
unfolding new_event get_kind
new_event-get_kind vm_start = refl
new_event-get_kind _ = refl

module _ (con : Con) (supported : IsSupported con)
    (initial : (c : EventClass) → Tuple (event_fields c))
    (clear : (c : EventClass) → IsClearTuple con (event_fields c) (initial c)) where
  -- One event at the front of a string.
  pub from_encoded_front :
      (e : JdwpEvent) (fields rest : Bytes)
      → IsValidTuple con (event_fields e.class) e.fields
      → serialize_tuple (event_fields e.class) e.fields con ≡ ok fields
      → from_encoded e.class
          (initial e.class)
          con
          (kind_to_byte (get_kind e.class) ∷ (fields ++ rest))
        ≡ ok (1 + length fields, e)
  unfolding from_encoded
  from_encoded_front e fields rest h sent =
      let (bs, sent', got) =
        FieldsRoundTrip.tuple_from_encoded-serialize_tuple con supported (event_fields e.class)
          e.fields (initial e.class) [] rest 0 h (clear e.class) refl in
      let same : bs ≡ fields = ok-injective (sym sent' ∙ sent) in
      rw
        (
          Numeric.RoundTrip.from_encoded_byte (kind_to_byte (get_kind e.class)) (fields ++ rest),
          kind_of_byte-get_kind e.class,
          ==_refl (kind_to_byte (get_kind e.class)),
          rw same at got,
        )
        (ap (λ (n : ℕ). ok (n, e)) (omega arith))

  read_events-Encodes :
      (events : List JdwpEvent) (front bytes rest : Bytes) (idx : ℕ)
      → Encodes con events bytes
      → length front ≡ idx
      → read_events initial con (length events) idx (front ++ (bytes ++ rest)) ≡ ok events
  unfolding read_events
  read_events-Encodes events front bytes rest idx no_events e = refl
  read_events-Encodes (e ∷ events) front bytes rest idx
        (event {fields = fields} {rest = more} h sent enc) eq =
      let k : ℕ = kind_to_byte (get_kind e.class) in
      let later : read_events initial con (length events) (idx + (1 + length fields))
            (front ++ (k ∷ (fields ++ (more ++ rest))))
          ≡ ok events =
        rw (append_assoc front (k ∷ fields) (more ++ rest)) at (
          read_events-Encodes events (front ++ (k ∷ fields)) more rest (idx + (1 + length fields))
            enc (omega (arith, length-append front (k ∷ fields)))) in
      rw (
        append_assoc fields more rest,
        substr_from_next idx front (k ∷ (fields ++ (more ++ rest))) eq,
        Numeric.RoundTrip.from_encoded_byte k [],
        kind_of_byte-get_kind e.class,
        new_event-get_kind e.class,
        from_encoded_front e fields (more ++ rest) h sent,
        later,
      )

header_is_event-append :
    (header rest : Bytes)
    → 10 ≤ length header
    → header_is_event (header ++ rest) ≡ header_is_event header
unfolding header_is_event
header_is_event-append header rest h =
    rw (char_at-append header rest 8 (omega arith), char_at-append header rest 9 (omega arith))

-- What follows the count is read from index 16 on, in as many rounds as the count says.
pub from_composite-append :
    (con : Con) (initial : (c : EventClass) → Tuple (event_fields c)) (header : Bytes)
    (policy n : ℕ) (s : Bytes)
    → length header ≡ 11
    → header_is_event header ≡ ok true
    → n < 2 ^ 31
    → from_composite initial con (header ++ (policy ∷ (big_endian 4 n ++ s)))
      ≡ read_events initial con n 16 ((header ++ (policy ∷ big_endian 4 n)) ++ s)
unfolding from_composite
from_composite-append con initial header policy n s size is_event few =
    let body : Bytes = big_endian 4 n ++ s in
    let regroup : header ++ (policy ∷ body) ≡ (header ++ (policy ∷ [])) ++ body =
      sym (append_assoc header (policy ∷ []) body) in
    let skipped : length (header ++ (policy ∷ [])) ≡ 12 =
      omega (arith, length-append header (policy ∷ [])) in
    let front : Bytes = header ++ (policy ∷ big_endian 4 n) in
    let regroup_again : (header ++ (policy ∷ [])) ++ body ≡ front ++ s =
      append_assoc header (policy ∷ []) body
      ∙ sym (append_assoc header (policy ∷ big_endian 4 n) s) in
    rw (
      header_is_event-append header (policy ∷ body) (omega arith),
      is_event,
      regroup,
      substr_from_next 12 (header ++ (policy ∷ [])) body skipped,
      take-append 4 0 (big_endian 4 n) s (omega (arith, length-big_endian 4 n)),
      Numeric.RoundTrip.from_encoded-big_endian int n [] (omega (arith, few)),
      lt→ltb n (2 ^ 31) few,
      regroup_again,
    )

pub length-front :
    (header : Bytes) (policy n : ℕ)
    → length header ≡ 11
    → length (header ++ (policy ∷ big_endian 4 n)) ≡ 16
length-front header policy n size =
    omega (arith, length-append header (policy ∷ big_endian 4 n), length-big_endian 4 n)

-- A packet of an event header of 11 bytes, a suspend policy, the count of fewer than 2 ^ 31
-- events, and these events, each laid out as its kind and the bytes of its fields, is parsed into
-- these events in their order, and bytes behind them are ignored, if the connection's ID sizes are at
-- most 8 bytes, the IDs of new events are clear, and the fields are valid: numbers and IDs fit their
-- types, tags have names, lengths fit 32 bits, and no byte of a tagged object ID is zero.
pub from_composite-Encodes :
    (con : Con) (initial : (c : EventClass) → Tuple (event_fields c)) (header : Bytes) (policy : ℕ)
    (events : List JdwpEvent) (bytes rest : Bytes)
    → IsSupported con
    → ((c : EventClass) → IsClearTuple con (event_fields c) (initial c))
    → length header ≡ 11
    → header_is_event header ≡ ok true
    → length events < 2 ^ 31
    → Encodes con events bytes
    → from_composite initial con
        (header ++ (policy ∷ (big_endian 4 (length events) ++ (bytes ++ rest))))
      ≡ ok events
from_composite-Encodes con initial header policy events bytes rest supported clear size is_event few
      enc =
    from_composite-append con initial header policy (length events) (bytes ++ rest) size is_event
      few
    ∙ read_events-Encodes con supported initial clear events
        (header ++ (policy ∷ big_endian 4 (length events))) bytes rest 16 enc
        (length-front header policy (length events) size)
