-- ===== src/HostOrder.antt =====
-- src/jdwp_type.cpp: the conversions between host and network byte order. The model is of a
-- little-endian host, where `__BIG_ENDIAN__` is not defined; `ntohl` and `htonl` are those of
-- arpa/inet.h there, which reverse the four bytes of their argument.
pub mod Laws
use roastery.Prelude.{ℕ, ◌+◌, ◌*◌, ◌/◌, ◌%◌, ◌^◌, reverse}
use roastery.Outcome.{Outcome, ok, ◌>>=◌}
use roastery.Bytes.{Bytes, read_range, memory_of, value_of}

unfoldable pub ntohl : ℕ → ℕ
ntohl network = value_of (reverse (memory_of 4 network))

unfoldable pub htonl : ℕ → ℕ
htonl host = value_of (reverse (memory_of 4 host))

-- `network & UINT32_MAX` is `network % 2 ^ 32`.
unfoldable pub ntohll : ℕ → ℕ
unfolding ntohl
ntohll network =
    let upper_bits = ntohl (network / 2 ^ 32) in
    let lower_bits = ntohl (network % 2 ^ 32) in
    (lower_bits * 2 ^ 32 % 2 ^ 64 + upper_bits) % 2 ^ 64

unfoldable pub htonll : ℕ → ℕ
unfolding htonl
htonll host =
    let upper_bits = htonl (host / 2 ^ 32) in
    let lower_bits = htonl (host % 2 ^ 32) in (lower_bits * 2 ^ 32 % 2 ^ 64 + upper_bits) % 2 ^ 64

-- `ntohl(*reinterpret_cast<const uint32_t*>(s.data() + off))`.
unfoldable pub read_ntohl : ℕ → Bytes → Outcome ℕ
unfolding ntohl
read_ntohl off s = do word ← read_range off 4 s; ok (ntohl (value_of word))

-- The same for `uint64_t` and `ntohll`.
unfoldable pub read_ntohll : ℕ → Bytes → Outcome ℕ
unfolding ntohll
read_ntohll off s = do word ← read_range off 8 s; ok (ntohll (value_of word))
