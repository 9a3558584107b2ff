-- ===== src/Numeric/RoundTrip.antt =====
-- Numeric fields are sent in network byte order and read back.
use roastery.Prelude.{
  ℕ, ◌+◌, ◌^◌, ◌<◌, ◌≡◌, refl, [], ◌∷◌, ap, ◌∙◌, ◌++◌, reverse, arith, length, All, All-reverse,
  length-reverse,
}
use roastery.Outcome.{ok, undefined}
use roastery.Bytes.{Bytes, IsByte, memory_of, value_of, big_endian}
use roastery.Bytes.Words.{
  length-memory_of, take-memory_of, value_of-memory_of, length-big_endian, memory_of-eq,
}
use roastery.Bytes.Reads.{char_at_long}
use roastery.Numeric.{
  Numeric, byte, bool, char, float, double, int, long, short, value_size, serialize, from_encoded,
  read_back,
}
use roastery.Numeric.Layout.{write_back-reverse, read_back_front}
use mathlib.Core.List.{reverse-reverse}

-- A numeric field is sent as the bytes of its value, highest first.
pub serialize-big_endian : (t : Numeric) (v : ℕ) → serialize t v ≡ big_endian (value_size t) v
unfolding serialize big_endian
serialize-big_endian t v =
    write_back-reverse (value_size t) (memory_of (value_size t) v)
      (omega (arith, length-memory_of (value_size t) v))
    ∙ ap reverse (take-memory_of (value_size t) (value_size t) v (omega arith))

pub length-serialize : (t : Numeric) (v : ℕ) → length (serialize t v) ≡ value_size t
length-serialize t v = ap length (serialize-big_endian t v) ∙ length-big_endian (value_size t) v

-- Reading the bytes at the front of a string as a number, highest first.
pub from_encoded_front :
    (t : Numeric) (bs rest : Bytes)
    → length bs ≡ value_size t
    → from_encoded t (bs ++ rest) ≡ ok (value_size t, value_of (reverse bs))
unfolding from_encoded
from_encoded_front t bs rest e = rw (rw e at (read_back_front bs rest))

-- A numeric field whose value fits its type is read back from the bytes that it was sent as, and
-- what follows them is left.
pub from_encoded-serialize_numeric :
    (t : Numeric) (v : ℕ) (rest : Bytes)
    → v < 256 ^ value_size t
    → from_encoded t (serialize t v ++ rest) ≡ ok (value_size t, v)
from_encoded-serialize_numeric t v rest h =
    from_encoded_front t (serialize t v) rest (length-serialize t v)
    ∙ ap (λ (w : ℕ). ok (value_size t, w))
        (ap (λ bs. value_of (reverse bs)) (serialize-big_endian t v) ∙ unreversed)
  where
    unreversed : value_of (reverse (big_endian (value_size t) v)) ≡ v
    unreversed = unfold big_endian in rw reverse-reverse (value_of-memory_of (value_size t) v h)

-- Reading a numeric field from a string that, with its terminator, is shorter than the field is
-- undefined: nothing checks the length.
from_encoded_short :
    (t : Numeric) (encoded : Bytes)
    → length encoded + 1 < value_size t
    → from_encoded t encoded ≡ undefined
unfolding from_encoded read_back
from_encoded_short byte s h = absurd (omega arith)
from_encoded_short bool s h = absurd (omega arith)
from_encoded_short char s h = rw (char_at_long 1 s (omega arith))
from_encoded_short float s h = rw (char_at_long 3 s (omega arith))
from_encoded_short double s h = rw (char_at_long 7 s (omega arith))
from_encoded_short int s h = rw (char_at_long 3 s (omega arith))
from_encoded_short long s h = rw (char_at_long 7 s (omega arith))
from_encoded_short short s h = rw (char_at_long 1 s (omega arith))

-- If as many bytes as a numeric type has are read as a field of that type, sending the field sends
-- these bytes again.
pub serialize-from_encoded_numeric :
    (t : Numeric) (bs rest : Bytes)
    → length bs ≡ value_size t
    → All IsByte bs
    → (v : ℕ) × (from_encoded t (bs ++ rest) ≡ ok (value_size t, v)) × (serialize t v ≡ bs)
serialize-from_encoded_numeric t bs rest e h =
    (value_of (reverse bs), from_encoded_front t bs rest e, serialize-big_endian t _ ∙ sent)
  where
    kept : memory_of (value_size t) (value_of (reverse bs)) ≡ reverse bs
    kept =
        memory_of-eq (value_size t) (reverse bs) (length-reverse bs ∙ e) (All-reverse IsByte bs h)

    sent : big_endian (value_size t) (value_of (reverse bs)) ≡ bs
    sent = unfold big_endian in rw kept (reverse-reverse bs)

-- A number in network byte order at the front of a string is read.
pub from_encoded-big_endian :
    (t : Numeric) (v : ℕ) (rest : Bytes)
    → v < 256 ^ value_size t
    → from_encoded t (big_endian (value_size t) v ++ rest) ≡ ok (value_size t, v)
from_encoded-big_endian t v rest h =
    rw (serialize-big_endian t v) at (from_encoded-serialize_numeric t v rest h)

-- A byte is read as it is.
pub from_encoded_byte : (b : ℕ) (rest : Bytes) → from_encoded byte (b ∷ rest) ≡ ok (1, b)
from_encoded_byte b rest =
    from_encoded_front byte (b ∷ []) rest refl
    ∙ unfold value_of in ap (λ (w : ℕ). ok (1, w)) (omega arith)
