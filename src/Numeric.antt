-- ===== src/Numeric.antt =====
-- src/include/jdwp_type.hpp: `impl::JdwpFieldBase` and the numeric types that derive from it. A
-- value is its bit pattern, a number below 256 ^ value_size; the branches for a little-endian host
-- are modelled.
pub mod Layout
pub mod RoundTrip
pub mod Termination
use roastery.Prelude.{ℕ, zero, suc, ◌-◌, ◌*◌, ◌%◌, ◌^◌, List, [], ◌∷◌, ltb, if◌then◌else◌}
use roastery.Outcome.{Outcome, ok, ◌>>=◌}
use roastery.Bytes.{Bytes, char_at, memory_of, value_of}

-- JdwpByte, JdwpBool, JdwpChar, JdwpFloat, JdwpDouble, JdwpInt, JdwpLong and JdwpShort.
pub data Numeric : Type 0 where
  byte bool char float double int long short : Numeric

-- `sizeof(UnderlyingType)`.
abbrev pub value_size : Numeric → ℕ
value_size byte = 1
value_size bool = 1
value_size char = 2
value_size float = 4
value_size double = 8
value_size int = 4
value_size long = 8
value_size short = 2

-- `operator<<`: the argument is converted to the underlying type.
abbrev pub assign : Numeric → ℕ → ℕ
assign t v = v % 256 ^ value_size t

-- `val_bytes[i]` for an index into the object.
abbrev pub get_or : Bytes → ℕ → ℕ → ℕ
get_or [] i d = d
get_or (b ∷ bs) zero d = b
get_or (b ∷ bs) (suc i) d = get_or bs i d

-- The loop that writes the bytes of the value from index `i` - 1 down to 0.
unfoldable pub write_back : ℕ → Bytes → Bytes
write_back zero val_bytes = []
write_back (suc i) val_bytes = get_or val_bytes i 0 ∷ write_back i val_bytes

unfoldable pub serialize : Numeric → ℕ → Bytes
serialize t value = write_back (value_size t) (memory_of (value_size t) value)

-- The loop `value_bytes[i] = encoded[value_size - 1 - i]`, with `n` = value_size - i rounds left.
unfoldable pub read_back : ℕ → Bytes → Outcome Bytes
unfolding char_at
read_back zero encoded = ok []
read_back (suc n) encoded = do b ← char_at encoded n; rest ← read_back n encoded; ok (b ∷ rest)

-- The number of bytes read, and the new value.
unfoldable pub from_encoded : Numeric → Bytes → Outcome (ℕ × ℕ)
from_encoded t encoded = do
  value_bytes ← read_back (value_size t) encoded
  ok (value_size t, value_of value_bytes)
