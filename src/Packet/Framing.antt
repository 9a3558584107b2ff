-- ===== src/Packet/Framing.antt =====
-- The header of a command packet, and what a reader of the packet finds in it.
use roastery.Prelude.{
  ◌≢◌, Bool-cases, ltb→lt, ltb_false→le, inl, inr, ltb, sym, ℕ, ◌+◌, ◌-◌, ◌%◌, ◌^◌, ◌≤◌, ◌<◌, ◌≡◌,
  refl, ap, ◌∙◌, false, lt→ltb, le→ltb_false, [], ◌∷◌, ◌++◌, length, drop, length-append,
  append_assoc, drop-append, arith, ◌==◌,
}
use roastery.Outcome.{Fault, ok-injective, >>=-eq-ok, ok, raised, jdwp_exception}
use roastery.Bytes.{Bytes, char_at, big_endian}
use roastery.Bytes.Words.{length-big_endian}
use roastery.HostOrder.{read_ntohl}
use roastery.HostOrder.Laws.{memory_of-htonl, read_ntohl_next}
use roastery.Con.{Con}
use roastery.Fields.{serialize_elements}
use roastery.Command.{Command, command_set, command, request}
use roastery.Command.Codes.{command_set-le}
use roastery.Event.{header_is_event}
use roastery.Packet.{CommandPacket, produce_header, serialize_impl}

-- The bytes of a header.
abbrev pub header_bytes : ℕ → ℕ → ℕ → ℕ → Bytes
header_bytes command_set command body_len id =
    big_endian 4 (body_len + 11) ++ (big_endian 4 id ++ (0 ∷ command_set ∷ command ∷ []))

-- A body of at most 2 ^ 32 - 12 bytes gets a header of the length with the header's own 11 bytes
-- and the ID, both in network byte order, no flags, the command set and the command.
pub produce_header_lem :
    (set cmd body_len id : ℕ)
    → body_len ≤ 2 ^ 32 - 12
    → produce_header set cmd body_len id ≡ ok (header_bytes set cmd body_len id)
unfolding produce_header
produce_header_lem set cmd body_len id h =
    let fits : (body_len % 2 ^ 32 + 11) % 2 ^ 32 ≡ body_len + 11 = omega arith in
    rw (
      le→ltb_false (2 ^ 32 - 12) body_len h,
      fits,
      memory_of-htonl (body_len + 11),
      memory_of-htonl id,
    )

-- A longer body is refused.
pub produce_header_too_long :
    (set cmd body_len id : ℕ)
    → 2 ^ 32 - 12 < body_len
    → produce_header set cmd body_len id ≡ raised (jdwp_exception "Body too long")
unfolding produce_header
produce_header_too_long set cmd body_len id h = rw (lt→ltb (2 ^ 32 - 12) body_len h)

pub length-header_bytes : (set cmd body_len id : ℕ) → length (header_bytes set cmd body_len id) ≡ 11
length-header_bytes set cmd body_len id = omega (
  arith,
  length-append (big_endian 4 (body_len + 11)) (big_endian 4 id ++ (0 ∷ set ∷ cmd ∷ [])),
  length-append (big_endian 4 id) (0 ∷ set ∷ cmd ∷ []),
  length-big_endian 4 (body_len + 11),
  length-big_endian 4 id,
)

-- The bytes behind the two words of a header.
pub char_at-header :
    (w w' rest : Bytes) (flags set cmd : ℕ)
    → length w ≡ 4
    → length w' ≡ 4
    → (char_at (w ++ (w' ++ (flags ∷ set ∷ cmd ∷ rest))) 8 ≡ ok flags)
      × (char_at (w ++ (w' ++ (flags ∷ set ∷ cmd ∷ rest))) 9 ≡ ok set)
      × (char_at (w ++ (w' ++ (flags ∷ set ∷ cmd ∷ rest))) 10 ≡ ok cmd)
unfolding char_at
char_at-header (a ∷ b ∷ c ∷ d ∷ []) (a' ∷ b' ∷ c' ∷ d' ∷ []) rest flags set cmd e e' =
    (refl, refl, refl)
char_at-header _ _ rest flags set cmd e e' = absurd (omega arith)

-- What a reader finds in a packet with this header and this body.
pub record IsFramed (packet : Bytes) (set cmd id : ℕ) (body : Bytes) : Type 0 where
  pub length_field : read_ntohl 0 packet ≡ ok (length packet)
  pub id_field : read_ntohl 4 packet ≡ ok id
  pub flags_field : char_at packet 8 ≡ ok 0
  pub set_field : char_at packet 9 ≡ ok set
  pub command_field : char_at packet 10 ≡ ok cmd
  pub body_field : drop 11 packet ≡ body

pub header_bytes-IsFramed :
    (set cmd id : ℕ) (body : Bytes)
    → length body ≤ 2 ^ 32 - 12
    → id < 2 ^ 32
    → IsFramed (header_bytes set cmd (length body) id ++ body) set cmd id body
header_bytes-IsFramed set cmd id body h h' =
    let n : ℕ = length body + 11 in
    let tail : Bytes = 0 ∷ set ∷ cmd ∷ body in
    let parts : header_bytes set cmd (length body) id ++ body
        ≡ big_endian 4 n ++ (big_endian 4 id ++ tail) =
      append_assoc (big_endian 4 n) (big_endian 4 id ++ (0 ∷ set ∷ cmd ∷ [])) body
      ∙ ap (λ bs. big_endian 4 n ++ bs)
          (append_assoc (big_endian 4 id) (0 ∷ set ∷ cmd ∷ []) body) in
    let (flags, set_is, cmd_is) =
      char_at-header (big_endian 4 n) (big_endian 4 id) body 0 set cmd (length-big_endian 4 n)
        (length-big_endian 4 id) in
    let framed : length (header_bytes set cmd (length body) id) ≡ 11 =
      length-header_bytes set cmd (length body) id in
    let size : length (header_bytes set cmd (length body) id ++ body) ≡ n =
      omega (arith, framed, length-append (header_bytes set cmd (length body) id) body) in
    record {
      length_field =
          rw (size, parts) (read_ntohl_next 0 n [] (big_endian 4 id ++ tail) refl (omega arith));
      id_field = rw parts (read_ntohl_next 4 id (big_endian 4 n) tail (length-big_endian 4 n) h');
      flags_field = rw parts flags;
      set_field = rw parts set_is;
      command_field = rw parts cmd_is;
      body_field = rw framed at (drop-append (header_bytes set cmd (length body) id) body);
    }

-- A command whose fields serialize to at most 2 ^ 32 - 12 bytes is serialized to a packet in which
-- a reader finds the packet's length, its ID, no flags, the command set and the command of its
-- class, and behind the header these bytes.
pub serialize_impl-IsFramed :
    (c : Command) (packet : CommandPacket c) (con : Con) (body : Bytes)
    → serialize_elements (request c) packet.fields con ≡ ok body
    → length body ≤ 2 ^ 32 - 12
    → packet.id < 2 ^ 32
    → (sent : Bytes) × (serialize_impl c packet con ≡ ok sent)
      × IsFramed sent (command_set c) (command c) packet.id body
unfolding serialize_impl
serialize_impl-IsFramed c packet con body fields short id = (
  header_bytes (command_set c) (command c) (length body) packet.id ++ body,
  rw (fields, produce_header_lem (command_set c) (command c) (length body) packet.id short),
  header_bytes-IsFramed (command_set c) (command c) packet.id body short id,
)

raised-ok : {e : Fault} {bs : Bytes} → raised e ≢ ok bs
raised-ok e = cc

-- A header is produced only for a body that leaves the length of the packet below 2 ^ 32.
produce_header_short :
    (set cmd body_len id : ℕ) (header : Bytes)
    → produce_header set cmd body_len id ≡ ok header
    → body_len ≤ 2 ^ 32 - 12
produce_header_short set cmd body_len id header e = elim (Bool-cases (ltb (2 ^ 32 - 12) body_len)) [
  | inl long ↦ absurd (
      raised-ok (
        sym (produce_header_too_long set cmd body_len id (ltb→lt (2 ^ 32 - 12) body_len long)) ∙ e))
  | inr short ↦ ltb_false→le (2 ^ 32 - 12) body_len short
]

-- The base class's `SerializeImpl`: whatever the fields of a command with an ID below 2 ^ 32 are, a packet that is returned for them
-- is shorter than 2 ^ 32 bytes, and a reader finds in it the packet's length, its ID, no flags,
-- the command set and the command of its class, and behind the header the bytes of the fields.
pub IsFramed-serialize_impl :
    (c : Command) (packet : CommandPacket c) (con : Con) (sent : Bytes)
    → packet.id < 2 ^ 32
    → serialize_impl c packet con ≡ ok sent
    → (length sent < 2 ^ 32)
      × (body : Bytes) × (serialize_elements (request c) packet.fields con ≡ ok body)
      × IsFramed sent (command_set c) (command c) packet.id body
unfolding serialize_impl
IsFramed-serialize_impl c packet con sent id e =
    let (body, fields, e') = >>=-eq-ok (serialize_elements (request c) packet.fields con) _ e in
    let (header, produced, whole) =
      >>=-eq-ok (produce_header (command_set c) (command c) (length body) packet.id) _ e' in
    let short =
      produce_header_short (command_set c) (command c) (length body) packet.id header produced in
    let is_header : header_bytes (command_set c) (command c) (length body) packet.id ≡ header =
      ok-injective (
        sym (produce_header_lem (command_set c) (command c) (length body) packet.id short)
        ∙ produced) in
    let is_sent : header_bytes (command_set c) (command c) (length body) packet.id ++ body ≡ sent =
      ap (λ h. h ++ body) is_header ∙ ok-injective whole in
    let size : length sent ≡ 11 + length body =
      ap length (sym is_sent)
      ∙ omega (
        arith,
        length-append (header_bytes (command_set c) (command c) (length body) packet.id) body,
        length-header_bytes (command_set c) (command c) (length body) packet.id,
      ) in
    (
      omega (arith, size, short),
      body,
      fields,
      rw is_sent at (header_bytes-IsFramed (command_set c) (command c) packet.id body short id),
    )

-- A framed command is not taken for an event.
pub header_is_event-IsFramed :
    (c : Command) (packet body : Bytes) (id : ℕ)
    → IsFramed packet (command_set c) (command c) id body
    → header_is_event packet ≡ ok false
unfolding header_is_event
header_is_event-IsFramed c packet body id framed =
    let small : (command_set c == 64) ≡ false = ground (arith, command_set-le c) in
    rw (framed.flags_field, framed.set_field, small)
