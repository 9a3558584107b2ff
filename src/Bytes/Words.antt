-- ===== src/Bytes/Words.antt =====
-- Integers and their bytes: `memory_of` and `value_of` undo one another, and their halves.
use roastery.Prelude.{
  ℕ, zero, suc, ◌+◌, ◌*◌, ◌/◌, ◌%◌, ◌^◌, ◌≤◌, ◌<◌, ◌≡◌, refl, ap, ap₂, ◌∙◌, [], ◌∷◌, ◌++◌, arith,
  length, take, All, All-reverse, length-reverse,
}
use roastery.Bytes.{Bytes, IsByte, memory_of, value_of, big_endian}
use native.Mathlib.Nat.{pow-suc}

pub length-memory_of : (n v : ℕ) → length (memory_of n v) ≡ n
unfolding memory_of
length-memory_of zero v = refl
length-memory_of (suc n) v = ap suc (length-memory_of n (v / 256))

pub memory_of-IsByte : (n v : ℕ) → All IsByte (memory_of n v)
unfolding memory_of
memory_of-IsByte zero v = tt
memory_of-IsByte (suc n) v = (omega arith, memory_of-IsByte n (v / 256))

pub pow_step : (n : ℕ) → 256 ^ suc n ≡ 256 * 256 ^ n
pow_step n = omega (arith, pow-suc 256 n)

-- `n` bytes hold every value below 256 ^ n.
pub value_of-memory_of : (n v : ℕ) → v < 256 ^ n → value_of (memory_of n v) ≡ v
unfolding memory_of value_of
value_of-memory_of zero v h = omega arith
value_of-memory_of (suc n) v h =
    omega (arith, value_of-memory_of n (v / 256) (omega (arith, pow_step n)))

rest_of : (b v : ℕ) → b < 256 → (b + 256 * v) / 256 ≡ v
rest_of b v h = omega arith

pub memory_of-value_of : (bs : Bytes) → All IsByte bs → memory_of (length bs) (value_of bs) ≡ bs
unfolding memory_of value_of
memory_of-value_of [] h = refl
memory_of-value_of (b ∷ bs) h =
    ap₂ (λ (x : ℕ) (xs : Bytes). x ∷ xs) (omega arith)
      (rw (rest_of b (value_of bs) h.0) (memory_of-value_of bs h.1))

pub value_of-lt : (bs : Bytes) → All IsByte bs → value_of bs < 256 ^ length bs
unfolding value_of
value_of-lt [] h = omega arith
value_of-lt (b ∷ bs) h = omega (arith, value_of-lt bs h.1, pow_step (length bs))

pub take-memory_of : (k n v : ℕ) → k ≤ n → take k (memory_of n v) ≡ memory_of k v
unfolding memory_of
take-memory_of zero n v h = refl
take-memory_of (suc k) zero v h = absurd (omega arith)
take-memory_of (suc k) (suc n) v h =
    ap (λ r. (v % 256) ∷ r) (take-memory_of k n (v / 256) (omega arith))

pub value_of-append :
    (xs ys : Bytes) → value_of (xs ++ ys) ≡ value_of xs + 256 ^ length xs * value_of ys
unfolding value_of
value_of-append [] ys = omega arith
value_of-append (x ∷ xs) ys =
    omega (arith, value_of-append xs ys, ap (λ (p : ℕ). p * value_of ys) (pow_step (length xs)))

pub length-big_endian : (n v : ℕ) → length (big_endian n v) ≡ n
unfolding big_endian
length-big_endian n v = length-reverse (memory_of n v) ∙ length-memory_of n v

pub big_endian-IsByte : (n v : ℕ) → All IsByte (big_endian n v)
unfolding big_endian
big_endian-IsByte n v = All-reverse IsByte (memory_of n v) (memory_of-IsByte n v)

-- Two byte strings of one length that hold the same integer are the same.
pub memory_of-eq :
    (n : ℕ) (bs : Bytes) → length bs ≡ n → All IsByte bs → memory_of n (value_of bs) ≡ bs
memory_of-eq n bs e h = rw (← e) (memory_of-value_of bs h)

pub value_of-append_at :
    (n : ℕ) (xs ys : Bytes)
    → length xs ≡ n
    → value_of (xs ++ ys) ≡ value_of xs + 256 ^ n * value_of ys
value_of-append_at n xs ys e = rw (← e) (value_of-append xs ys)

low_bytes : (xs ys : Bytes) → All IsByte xs → memory_of (length xs) (value_of (xs ++ ys)) ≡ xs
unfolding memory_of value_of
low_bytes [] ys h = refl
low_bytes (b ∷ bs) ys h =
    ap₂ (λ (x : ℕ) (xs : Bytes). x ∷ xs) (omega arith)
      (rw (rest_of b (value_of (bs ++ ys)) h.0) (low_bytes bs ys h.1))

-- The low bytes of an integer that `xs ++ ys` holds are `xs`.
pub memory_of-append :
    (n : ℕ) (xs ys : Bytes) → length xs ≡ n → All IsByte xs → memory_of n (value_of (xs ++ ys)) ≡ xs
memory_of-append n xs ys e h = rw (← e) (low_bytes xs ys h)
