-- ===== src/Value/Payload.antt =====
-- The valid values under a tag, and the bytes that a value is sent as without it.
use roastery.Prelude.{ℕ, ◌^◌, ◌≤◌, ◌<◌, ◌≡◌, refl, ap, true, [], length}
use roastery.Outcome.{ok}
use roastery.Bytes.{Bytes, big_endian}
use roastery.Bytes.Words.{length-big_endian}
use roastery.Con.{Con}
use roastery.Tags.{JdwpTag}
use roastery.Numeric
use roastery.Numeric.{Numeric, value_size}
use roastery.Ids
use roastery.Ids.RoundTrip.{Fits, serialize-big_endian}
use roastery.Value.{
  JdwpVal, void_value, bool, byte, char, float, double, int, long, short, obj_id, tag_is_obj_type,
  get_size_by_tag, serialize_as_untagged,
}

-- The alternative is the one that the tag stands for, and its value fits the type.
pub data IsValid (con : Con) : JdwpTag → JdwpVal → Type 0 where
  is_void : IsValid con JdwpTag.void void_value
  is_bool : {v : ℕ} → v < 2 ^ 8 → IsValid con JdwpTag.boolean (bool v)
  is_byte : {v : ℕ} → v < 2 ^ 8 → IsValid con JdwpTag.byte (byte v)
  is_char : {v : ℕ} → v < 2 ^ 16 → IsValid con JdwpTag.char (char v)
  is_float : {v : ℕ} → v < 2 ^ 32 → IsValid con JdwpTag.float (float v)
  is_double : {v : ℕ} → v < 2 ^ 64 → IsValid con JdwpTag.double (double v)
  is_int : {v : ℕ} → v < 2 ^ 32 → IsValid con JdwpTag.int (int v)
  is_long : {v : ℕ} → v < 2 ^ 64 → IsValid con JdwpTag.long (long v)
  is_short : {v : ℕ} → v < 2 ^ 16 → IsValid con JdwpTag.short (short v)
  is_object :
      {t : JdwpTag} {v : ℕ}
      → tag_is_obj_type t ≡ true
      → Fits Ids.obj_id con v
      → IsValid con t (obj_id v)

-- The bytes of an untagged value.
abbrev pub payload : Con → JdwpVal → Bytes
payload con void_value = []
payload con (bool v) = big_endian 1 v
payload con (byte v) = big_endian 1 v
payload con (char v) = big_endian 2 v
payload con (float v) = big_endian 4 v
payload con (double v) = big_endian 8 v
payload con (int v) = big_endian 4 v
payload con (long v) = big_endian 8 v
payload con (short v) = big_endian 2 v
payload con (obj_id v) = big_endian con.get_obj_id_size v

numeric_sent : (t : Numeric) (v : ℕ) → ok (Numeric.serialize t v) ≡ ok (big_endian (value_size t) v)
numeric_sent t v = ap ok (Numeric.RoundTrip.serialize-big_endian t v)

pub serialize_as_untagged_lem :
    (con : Con) (val : JdwpVal)
    → con.get_obj_id_size ≤ 8
    → serialize_as_untagged val con ≡ ok (payload con val)
unfolding serialize_as_untagged
serialize_as_untagged_lem con void_value h = refl
serialize_as_untagged_lem con (bool v) h = numeric_sent Numeric.bool v
serialize_as_untagged_lem con (byte v) h = numeric_sent Numeric.byte v
serialize_as_untagged_lem con (char v) h = numeric_sent Numeric.char v
serialize_as_untagged_lem con (float v) h = numeric_sent Numeric.float v
serialize_as_untagged_lem con (double v) h = numeric_sent Numeric.double v
serialize_as_untagged_lem con (int v) h = numeric_sent Numeric.int v
serialize_as_untagged_lem con (long v) h = numeric_sent Numeric.long v
serialize_as_untagged_lem con (short v) h = numeric_sent Numeric.short v
serialize_as_untagged_lem con (obj_id v) h = serialize-big_endian Ids.obj_id con v h

pub size_of_object :
    (con : Con) (t : JdwpTag)
    → tag_is_obj_type t ≡ true
    → get_size_by_tag t con ≡ ok con.get_obj_id_size
unfolding get_size_by_tag tag_is_obj_type
size_of_object con JdwpTag.array h = refl
size_of_object con JdwpTag.object h = refl
size_of_object con JdwpTag.string h = refl
size_of_object con JdwpTag.thread h = refl
size_of_object con JdwpTag.thread_group h = refl
size_of_object con JdwpTag.class_loader h = refl
size_of_object con JdwpTag.class_object h = refl
size_of_object con _ h = cc

-- How many bytes the untagged value takes.
abbrev pub payload_size : Con → JdwpVal → ℕ
payload_size con void_value = 0
payload_size con (bool v) = 1
payload_size con (byte v) = 1
payload_size con (char v) = 2
payload_size con (float v) = 4
payload_size con (double v) = 8
payload_size con (int v) = 4
payload_size con (long v) = 8
payload_size con (short v) = 2
payload_size con (obj_id v) = con.get_obj_id_size

pub length-payload : (con : Con) (val : JdwpVal) → length (payload con val) ≡ payload_size con val
length-payload con void_value = refl
length-payload con (bool v) = length-big_endian 1 v
length-payload con (byte v) = length-big_endian 1 v
length-payload con (char v) = length-big_endian 2 v
length-payload con (float v) = length-big_endian 4 v
length-payload con (double v) = length-big_endian 8 v
length-payload con (int v) = length-big_endian 4 v
length-payload con (long v) = length-big_endian 8 v
length-payload con (short v) = length-big_endian 2 v
length-payload con (obj_id v) = length-big_endian con.get_obj_id_size v
