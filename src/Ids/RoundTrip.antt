-- ===== src/Ids/RoundTrip.antt =====
-- IDs of any supported size are sent in network byte order and read back.
use roastery.Prelude.{
  append-nil, ℕ, zero, suc, ◌+◌, ◌*◌, ◌/◌, ◌^◌, ◌≤◌, ◌<◌, ◌≡◌, refl, ap, ap₂, sym, ◌∙◌, [], ◌∷◌,
  ◌++◌, reverse, arith, length, drop, All, All-reverse, length-reverse, le→ltb_false, lt→ltb,
}
use roastery.Outcome.{ok, ok-injective, raised, undefined, jdwp_exception}
use roastery.Bytes.{Bytes, IsByte, memory_of, value_of, big_endian}
use roastery.Bytes.Words.{
  length-memory_of, take-memory_of, value_of-memory_of, length-big_endian, value_of-append_at,
  pow_step, memory_of-append,
}
use roastery.Bytes.Reads.{read_range_front, read_range_long}
use roastery.Numeric.Layout.{write_back-reverse}
use roastery.Con.{Con}
use roastery.Ids.{IdType, get_size, overwrite, from_encoded, serialize}
use mathlib.Core.List.{reverse-reverse}
use native.Mathlib.Nat.{div-div-eq-div-mul, div-eq_of_lt, pow-le-pow_right, le_trans}

-- An ID is sent as its low bytes, highest first.
pub serialize-big_endian :
    (t : IdType) (con : Con) (v : ℕ)
    → get_size t con ≤ 8
    → serialize t con v ≡ ok (big_endian (get_size t con) v)
unfolding serialize big_endian
serialize-big_endian t con v h = rw (le→ltb_false 8 (get_size t con) h) (
    ap ok (
      write_back-reverse (get_size t con) (memory_of 8 v) (omega (arith, length-memory_of 8 v))
      ∙ ap reverse (take-memory_of (get_size t con) 8 v h)))

-- A connection whose IDs do not fit 64 bits cannot send any.
pub serialize_too_large :
    (t : IdType) (con : Con) (v : ℕ)
    → 8 < get_size t con
    → serialize t con v ≡ raised (jdwp_exception "ID size too large")
unfolding serialize
serialize_too_large t con v h = rw (lt→ltb 8 (get_size t con) h)

overwrite_lem :
    (bytes mem : Bytes)
    → length bytes ≤ length mem
    → overwrite bytes mem ≡ ok (bytes ++ drop (length bytes) mem)
unfolding overwrite
overwrite_lem [] mem h = refl
overwrite_lem (b ∷ bytes) [] h = absurd (omega arith)
overwrite_lem (b ∷ bytes) (m ∷ mem) h = rw (overwrite_lem bytes mem (omega arith))

overwrite_too_long :
    (bytes mem : Bytes) → length mem < length bytes → overwrite bytes mem ≡ undefined
unfolding overwrite
overwrite_too_long [] mem h = absurd (omega arith)
overwrite_too_long (b ∷ bytes) [] h = refl
overwrite_too_long (b ∷ bytes) (m ∷ mem) h = rw (overwrite_too_long bytes mem (omega arith))

-- Reading the bytes at the front of a string as an ID: they replace the low bytes of the value, and
-- its other bytes stay.
pub from_encoded_front :
    (t : IdType) (con : Con) (old : ℕ) (bs rest : Bytes)
    → length bs ≡ get_size t con
    → get_size t con ≤ 8
    → from_encoded t con old (bs ++ rest)
      ≡ ok (get_size t con, value_of (reverse bs ++ drop (length bs) (memory_of 8 old)))
unfolding from_encoded
from_encoded_front t con old bs rest e h = rw (
  rw e at (read_range_front bs rest),
  overwrite_lem (reverse bs) (memory_of 8 old)
      (omega (arith, length-memory_of 8 old, length-reverse bs)),
  length-reverse bs,
)

-- Reading an ID of more than 8 bytes from a string that has them writes past the end of the value,
-- which is undefined.
pub from_encoded_overflow :
    (t : IdType) (con : Con) (old : ℕ) (bs rest : Bytes)
    → length bs ≡ get_size t con
    → 8 < get_size t con
    → from_encoded t con old (bs ++ rest) ≡ undefined
unfolding from_encoded
from_encoded_overflow t con old bs rest e h = rw (
  rw e at (read_range_front bs rest),
  overwrite_too_long (reverse bs) (memory_of 8 old)
      (omega (arith, length-memory_of 8 old, length-reverse bs)),
)

-- The bytes of an integer from index `k` on hold its upper part.
value_of-drop : (k n v : ℕ) → k ≤ n → v < 256 ^ n → value_of (drop k (memory_of n v)) ≡ v / 256 ^ k
unfolding memory_of
value_of-drop zero n v h lt = value_of-memory_of n v lt ∙ omega arith
value_of-drop (suc k) zero v h lt = absurd (omega arith)
value_of-drop (suc k) (suc n) v h lt =
    value_of-drop k n (v / 256) (omega arith) (omega (arith, pow_step n))
    ∙ div-div-eq-div-mul v 256 (256 ^ k)
    ∙ ap (λ (p : ℕ). v / p) (sym (pow_step k))

-- An ID that fits the connection's size of at most 8 bytes is sent, and read back into the low
-- bytes of the 64-bit value `old` of the field; the other bytes of that value stay.
pub from_encoded-serialize_id :
    (t : IdType) (con : Con) (v old : ℕ) (rest : Bytes)
    → get_size t con ≤ 8
    → v < 256 ^ get_size t con
    → old < 2 ^ 64
    → (bs : Bytes) × (serialize t con v ≡ ok bs)
      × (from_encoded t con old (bs ++ rest)
          ≡ ok (get_size t con, v + 256 ^ get_size t con * (old / 256 ^ get_size t con)))
from_encoded-serialize_id t con v old rest h fits fits_old = (
  big_endian k v,
  serialize-big_endian t con v h,
  from_encoded_front t con old (big_endian k v) rest (length-big_endian k v) h
      ∙ ap (λ (w : ℕ). ok (k, w)) joined,
)
  where
    k : ℕ
    k = get_size t con

    low : value_of (reverse (big_endian k v)) ≡ v
    low = unfold big_endian in rw (reverse-reverse (memory_of k v)) (value_of-memory_of k v fits)

    joined :
        value_of (reverse (big_endian k v) ++ drop (length (big_endian k v)) (memory_of 8 old))
        ≡ v + 256 ^ k * (old / 256 ^ k)
    joined = rw (length-big_endian k v) (
        value_of-append_at k _ _ (length-reverse (big_endian k v) ∙ length-big_endian k v)
        ∙ ap₂ (λ (a b : ℕ). a + 256 ^ k * b) low (value_of-drop k 8 old h fits_old))

-- If as many bytes as an ID of at most 8 bytes has are read as an ID, sending the value sends
-- these bytes again, whatever the value held before.
pub serialize-from_encoded_id :
    (t : IdType) (con : Con) (old : ℕ) (bs rest : Bytes)
    → length bs ≡ get_size t con
    → get_size t con ≤ 8
    → All IsByte bs
    → (v : ℕ) × (from_encoded t con old (bs ++ rest) ≡ ok (get_size t con, v))
      × (serialize t con v ≡ ok bs)
serialize-from_encoded_id t con old bs rest e h all_bytes = (
  value_of mem,
  from_encoded_front t con old bs rest e h,
  serialize-big_endian t con (value_of mem) h ∙ ap ok sent,
)
  where
    k : ℕ
    k = get_size t con

    mem : Bytes
    mem = reverse bs ++ drop (length bs) (memory_of 8 old)

    sent : big_endian k (value_of mem) ≡ bs
    sent =
        unfold big_endian in
        rw
          (memory_of-append k (reverse bs) (drop (length bs) (memory_of 8 old))
            (length-reverse bs ∙ e) (All-reverse IsByte bs all_bytes))
          (reverse-reverse bs)

-- The value fits the bytes that travel.
abbrev pub Fits : IdType → Con → ℕ → Type 0
Fits t con v = v < 256 ^ get_size t con

lt_64 : (k v : ℕ) → k ≤ 8 → v < 256 ^ k → v < 2 ^ 64
lt_64 k v h fits = le_trans fits (pow-le-pow_right {n = 256} (omega arith) h)

-- An ID that was sent is read back, if the value it is read into had its upper bytes clear.
pub from_encoded-Fits :
    (t : IdType) (con : Con) (v old : ℕ) (rest : Bytes)
    → get_size t con ≤ 8
    → Fits t con v
    → Fits t con old
    → from_encoded t con old (big_endian (get_size t con) v ++ rest) ≡ ok (get_size t con, v)
from_encoded-Fits t con v old rest h fits fits_old =
    let (bs, sent, got) =
      from_encoded-serialize_id t con v old rest h fits (lt_64 (get_size t con) old h fits_old) in
    let same : bs ≡ big_endian (get_size t con) v =
      ok-injective (sym sent ∙ serialize-big_endian t con v h) in
    rw same at got ∙ ap (λ (w : ℕ). ok (get_size t con, w)) upper_clear
  where
    upper_clear : v + 256 ^ get_size t con * (old / 256 ^ get_size t con) ≡ v
    upper_clear = rw (div-eq_of_lt fits_old) (omega arith)

-- Reading an ID from a string that, with its terminator, is too short for it is undefined.
pub from_encoded_short :
    (t : IdType) (con : Con) (old : ℕ) (encoded : Bytes)
    → length encoded + 1 < get_size t con
    → from_encoded t con old encoded ≡ undefined
unfolding from_encoded
from_encoded_short t con old encoded h = rw (read_range_long (get_size t con) encoded h)

pub from_encoded_exact :
    (t : IdType) (con : Con) (v old : ℕ)
    → get_size t con ≤ 8
    → Fits t con v
    → Fits t con old
    → from_encoded t con old (big_endian (get_size t con) v) ≡ ok (get_size t con, v)
from_encoded_exact t con v old h fits fits_old =
    rw append-nil at (from_encoded-Fits t con v old [] h fits fits_old)
