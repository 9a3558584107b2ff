-- ===== src/Region.antt =====
-- src/jdwp_type.cpp: `JdwpArrayRegion`, a tag and an owned vector of owned values.
pub mod Items
pub mod RoundTrip
pub mod Constructor
pub mod Termination
use roastery.Prelude.{
  ℕ, zero, suc, ◌+◌, ◌*◌, ◌%◌, ◌^◌, Bool, true, false, Option, none, some, List, [], ◌∷◌, ◌++◌, ltb,
  if◌then◌else◌, length, replicate,
}
use roastery.Outcome.{Outcome, ok, undefined, out_of_fuel, ◌>>=◌}
use roastery.Bytes.{Bytes, char_at, substr, memory_of}
use roastery.HostOrder.{htonl, read_ntohl}
use roastery.Con.{Con}
use roastery.Tags.{JdwpTag, tag_of_byte, tag_to_byte}
use roastery.Value
use roastery.Value.{JdwpValue, get_size_by_tag, tag_is_obj_type}

-- `unique_ptr<vector<unique_ptr<JdwpValue>>>`: `none` is a null pointer.
abbrev pub Values : Type 0
Values = Option (List (Option JdwpValue))

pub record JdwpArrayRegion : Type 0 where
  pub tag : JdwpTag
  pub values : Values

-- The loop of the constructor that takes values: each is read through its pointer and copied.
unfoldable pub copies : List (Option JdwpValue) → Outcome (List (Option JdwpValue))
copies [] = ok []
copies (none ∷ values) = undefined
copies (some v ∷ values) = do rest ← copies values; ok (some v ∷ rest)

-- The constructor makes a vector of `values.size()` null pointers and pushes the copies behind them.
unfoldable pub construct : JdwpTag → List (Option JdwpValue) → Outcome JdwpArrayRegion
unfolding copies
construct tag values = do
  pushed ← copies values
  ok (record { tag = tag; values = some (replicate (length values) none ++ pushed) })

-- `for (i = ...; i < limit; i += step)`: each round reads a value at index `i` and pushes it.
unfoldable pub read_values :
    (ℕ → Outcome JdwpValue) → ℕ → ℕ → ℕ → ℕ → Outcome (List (Option JdwpValue))
read_values read zero i limit step = out_of_fuel
read_values read (suc fuel) i limit step = elim (ltb i limit) [
  | true ↦ do v ← read i; rest ← read_values read fuel (i + step) limit step; ok (some v ∷ rest)
  | false ↦ ok []
]

-- The body of the loop over object values, which have their own tags.
unfoldable pub read_object : Con → ℕ → Bytes → ℕ → Outcome JdwpValue
unfolding substr
read_object con value_size encoded i = do
  part ← substr i (i + value_size) encoded
  (_, v) ← Value.from_encoded con part
  ok v

-- The body of the loop over untagged values.
unfoldable pub read_primitive : JdwpTag → Con → ℕ → Bytes → ℕ → Outcome JdwpValue
unfolding substr
read_primitive t con value_size encoded i = do
  part ← substr i value_size encoded
  (_, v) ← Value.from_encoded_as_untagged t con part
  ok v

-- `kHeaderOffset`: 1 for the tag, 4 for the length.
abbrev pub header_offset : ℕ
header_offset = 5

-- What follows the header. A round takes one value, so that `value_count` + 1 tests end the loop.
read_body : Bool → JdwpTag → Con → ℕ → ℕ → Bytes → Outcome (ℕ × JdwpArrayRegion)
unfolding read_object read_primitive read_values
read_body true t con count size encoded = do
  let value_size = size + 1
  values ←
      read_values (read_object con value_size encoded) (suc count) header_offset
        (header_offset + value_size * count) value_size
  ok (1 + 4 + count * value_size, record { tag = t; values = some values })
read_body false t con count value_size encoded = do
  values ←
      read_values (read_primitive t con value_size encoded) (suc count) header_offset
        (header_offset + value_size * count) value_size
  ok (1 + 4 + count * value_size, record { tag = t; values = some values })

-- The vector is made or cleared first, so that nothing is left of the old values.
unfoldable pub from_encoded : Con → Bytes → Outcome (ℕ × JdwpArrayRegion)
unfolding char_at read_body
from_encoded con encoded = do
  b ← char_at encoded 0
  let t = tag_of_byte b
  value_count ← read_ntohl 1 encoded
  value_size ← get_size_by_tag t con
  read_body (tag_is_obj_type t) t con value_count value_size encoded

-- One round of the loop that writes: a null pointer is read through.
unfoldable pub serialize_item : JdwpTag → Con → Option JdwpValue → Outcome Bytes
serialize_item t con none = undefined
serialize_item t con (some v) =
    if tag_is_obj_type t then Value.serialize v con else Value.serialize_as_untagged v.value con

unfoldable pub serialize_items : JdwpTag → Con → List (Option JdwpValue) → Outcome Bytes
unfolding serialize_item
serialize_items t con [] = ok []
serialize_items t con (v ∷ values) = do
  bytes ← serialize_item t con v
  rest ← serialize_items t con values
  ok (bytes ++ rest)

serialize_values : JdwpTag → Con → Values → Outcome Bytes
unfolding serialize_items
serialize_values t con none = undefined
serialize_values t con (some values) = do
  items ← serialize_items t con values
  ok (tag_to_byte t ∷ (memory_of 4 (htonl (length values % 2 ^ 32)) ++ items))

unfoldable pub serialize : JdwpArrayRegion → Con → Outcome Bytes
unfolding serialize_values
serialize this con = serialize_values this.tag con this.values
