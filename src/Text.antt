-- ===== src/Text.antt =====
-- src/jdwp_type.cpp: `JdwpString`, a string with its length in front.
use roastery.Prelude.{
  ℕ, ◌+◌, ◌%◌, ◌^◌, ◌<◌, ◌≡◌, refl, [], ◌++◌, arith, length, append_assoc, length-append,
}
use roastery.Outcome.{Outcome, ok, ◌>>=◌}
use roastery.Bytes.{Bytes, read_range, memory_of, big_endian}
use roastery.Bytes.Words.{length-big_endian, length-memory_of}
use roastery.Bytes.Reads.{read_range_next}
use roastery.HostOrder.{htonl, read_ntohl}
use roastery.HostOrder.Laws.{memory_of-htonl, read_ntohl_next}

-- `operator<<`: the text that the field holds then.
unfoldable pub assign_string : Bytes → Bytes → Bytes
assign_string this s = s

-- `htonl` takes a `uint32_t`: a length is cut to 32 bits.
unfoldable pub serialize : Bytes → Bytes
serialize text = memory_of 4 (htonl (length text % 2 ^ 32)) ++ text

-- The number of bytes read, and the new text.
unfoldable pub from_encoded : Bytes → Outcome (ℕ × Bytes)
from_encoded encoded = do
  strlen ← read_ntohl 0 encoded
  text ← read_range 4 strlen encoded
  ok (4 + strlen, text)

-- A string of fewer than 2 ^ 32 bytes, zero bytes included, is read back whole, and what follows it
-- is left.
pub from_encoded-serialize_string :
    (text rest : Bytes)
    → length text < 2 ^ 32
    → from_encoded (serialize text ++ rest) ≡ ok (4 + length text, text)
unfolding from_encoded serialize
from_encoded-serialize_string text rest h =
    rw (memory_of-htonl (length text % 2 ^ 32), append_assoc)
      (rw (
        small,
        read_ntohl_next 0 (length text) [] (text ++ rest) refl h,
        read_range_next 4 (length text) (big_endian 4 (length text)) text rest
            (length-big_endian 4 (length text)) refl,
      ))
  where
    small : length text % 2 ^ 32 ≡ length text
    small = omega arith

pub length-serialize : (text : Bytes) → length (serialize text) ≡ 4 + length text
unfolding serialize
length-serialize text = omega (
  arith,
  length-append (memory_of 4 (htonl (length text % 2 ^ 32))) text,
  length-memory_of 4 (htonl (length text % 2 ^ 32)),
)
