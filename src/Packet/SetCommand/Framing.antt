-- ===== src/Packet/SetCommand/Framing.antt =====
-- What a reader finds in the packet of a `SetCommand`.
use roastery.Prelude.{
  ℕ, ◌+◌, ◌-◌, ◌^◌, ◌≤◌, ◌<◌, ◌≡◌, ap, ◌∙◌, append-nil, [], ◌∷◌, ◌++◌, length, length-append,
  append_assoc, arith,
}
use roastery.Outcome.{ok}
use roastery.Bytes.{Bytes, char_at, big_endian, memory_of}
use roastery.Bytes.Words.{length-big_endian}
use roastery.Bytes.Reads.{char_at_next}
use roastery.HostOrder.{read_ntohl}
use roastery.HostOrder.Laws.{read_ntohl_next}
use roastery.Con.{Con, IsSupported}
use roastery.Numeric
use roastery.Numeric.{byte, int, assign}
use roastery.Fields.{Tuple}
use roastery.Fields.Valid.{IsClearTuple}
use roastery.Packet.Framing.{
  IsFramed, header_bytes, length-header_bytes, header_bytes-IsFramed, produce_header_lem,
}
use roastery.Packet.SetCommand.{
  Alternative, modifier_fields, SetCommand, serialize_modifiers, serialize_body, serialize_impl,
}
use roastery.Packet.SetCommand.RoundTrip.{
  AreValid, read_modifiers, read_modifiers-serialize_modifiers,
}

byte_sent : (v : ℕ) → v < 256 → Numeric.serialize byte v ≡ v ∷ []
unfolding big_endian memory_of
byte_sent v h =
    Numeric.RoundTrip.serialize-big_endian byte v ∙ ap (λ (b : ℕ). b ∷ []) (omega (arith, h))

-- The body in front of the modifiers.
abbrev front_of : SetCommand → Bytes
front_of command =
    command.event_kind ∷ command.suspend_policy ∷ big_endian 4 (length command.modifiers)

serialize_body_lem :
    (command : SetCommand) (con : Con) (bs : Bytes)
    → command.event_kind < 256
    → command.suspend_policy < 256
    → length command.modifiers < 2 ^ 32
    → serialize_modifiers command.modifiers con ≡ ok bs
    → serialize_body command con ≡ ok (front_of command ++ bs)
unfolding serialize_body
serialize_body_lem command con bs kind policy few sent =
    let n : ℕ = length command.modifiers in
    let same : assign int n ≡ n = omega (arith, few) in
    rw (
      sent,
      byte_sent command.event_kind kind,
      byte_sent command.suspend_policy policy,
      same,
      Numeric.RoundTrip.serialize-big_endian int n,
    )

-- What a reader finds in the packet `sent`, with the modifiers that are read by their kinds.
pub record IsReadAs (con : Con) (blank : (a : Alternative) → Tuple (modifier_fields a))
    (command : SetCommand) (sent : Bytes) : Type 0 where
  pub framed : (body : Bytes) × IsFramed sent 15 1 command.packet_id body
  pub event_kind : char_at sent 11 ≡ ok command.event_kind
  pub suspend_policy : char_at sent 12 ≡ ok command.suspend_policy
  pub count : read_ntohl 13 sent ≡ ok (length command.modifiers)
  pub modifiers : read_modifiers blank con (length command.modifiers) sent 17 ≡ ok command.modifiers

-- The two bytes behind a header.
behind :
    (header rest : Bytes) (kind policy : ℕ)
    → length header ≡ 11
    → (char_at (header ++ (kind ∷ policy ∷ rest)) 11 ≡ ok kind)
      × (char_at (header ++ (kind ∷ policy ∷ rest)) 12 ≡ ok policy)
behind header rest kind policy e = (
  char_at_next 11 kind header (policy ∷ rest) e,
  rw (append_assoc header (kind ∷ []) (policy ∷ rest)) at (
      char_at_next 12 policy (header ++ (kind ∷ [])) rest
        (omega (arith, e, length-append header (kind ∷ [])))),
)

-- A request for events whose kind and policy are bytes, whose modifiers are valid and fewer than 2
-- ^ 32, whose ID is below 2 ^ 32, and whose modifiers take at most 2 ^ 32 - 18 bytes, over a
-- connection whose ID sizes are at most 8 bytes, is sent as a packet of the command set 15 and the
-- command 1 in which a reader finds the ID, the kind, the policy, the number of modifiers, and,
-- into fields whose IDs are clear, the modifiers, each with the kind and the fields that it was
-- made of. The modifiers are valid if their fields fit their types, and no byte of a tagged object ID is
-- zero.
pub set_command-IsReadAs :
    (command : SetCommand) (con : Con) (blank : (a : Alternative) → Tuple (modifier_fields a))
    (bs : Bytes)
    → IsSupported con
    → ((a : Alternative) → IsClearTuple con (modifier_fields a) (blank a))
    → AreValid con command.modifiers
    → command.event_kind < 256
    → command.suspend_policy < 256
    → length command.modifiers < 2 ^ 32
    → command.packet_id < 2 ^ 32
    → serialize_modifiers command.modifiers con ≡ ok bs
    → length bs ≤ 2 ^ 32 - 18
    → (sent : Bytes) × (serialize_impl command con ≡ ok sent) × IsReadAs con blank command sent
unfolding serialize_impl
set_command-IsReadAs command con blank bs supported clear valid kind policy few id sent short =
    let body : Bytes = front_of command ++ bs in
    let n : ℕ = length command.modifiers in
    let size : length body ≡ 6 + length bs =
      omega (arith, length-append (front_of command) bs, length-big_endian 4 n) in
    let header : Bytes = header_bytes 15 1 (length body) command.packet_id in
    let header_size : length header ≡ 11 =
      length-header_bytes 15 1 (length body) command.packet_id in
    let (at_kind, at_policy) =
      behind header (big_endian 4 n ++ bs) command.event_kind command.suspend_policy header_size in
    let to_count : Bytes = header ++ (command.event_kind ∷ command.suspend_policy ∷ []) in
    let at_count =
      read_ntohl_next 13 n to_count bs
        (omega (
          arith,
          header_size,
          length-append header (command.event_kind ∷ command.suspend_policy ∷ []),
        ))
        few in
    let at_modifiers =
      read_modifiers-serialize_modifiers con supported blank clear command.modifiers bs
        (header ++ front_of command) [] 17 valid sent
        (omega
          (arith, header_size, length-append header (front_of command), length-big_endian 4 n)) in
    (
      header ++ body,
      rw (
        serialize_body_lem command con bs kind policy few sent,
        produce_header_lem 15 1 (length body) command.packet_id (omega (arith, size, short)),
      ),
      record {
        framed = (
          body,
          header_bytes-IsFramed 15 1 command.packet_id body (omega (arith, size, short)) id,
        );
        event_kind = at_kind;
        suspend_policy = at_policy;
        count =
            rw
              (append_assoc header (command.event_kind ∷ command.suspend_policy ∷ [])
                (big_endian 4 n ++ bs))
              at at_count;
        modifiers = rw (append-nil bs, append_assoc header (front_of command) bs) at at_modifiers;
      },
    )
