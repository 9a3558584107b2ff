-- ===== src/Bytes/Reads.antt =====
-- What a read through an index, a pointer or `substr` finds in a string that is laid out in parts.
use roastery.Prelude.{ℕ, zero, suc, ◌+◌, ◌<◌, ◌≡◌, refl, ap, ◌∙◌, [], ◌∷◌, ◌++◌, arith, length, All}
use roastery.Outcome.{ok, undefined, >>=-eq-ok}
use roastery.Bytes.{Bytes, char_at, read_range, substr_from, c_string}

-- A read behind the front of the string does not see the front.
pub read_range-cons :
    (off n c : ℕ) (s : Bytes) → read_range (suc off) n (c ∷ s) ≡ read_range off n s
unfolding read_range
read_range-cons off zero c s = refl
read_range-cons off (suc n) c s = rw (read_range-cons (suc off) n c s)

-- Reading the bytes that a string begins with.
pub read_range_front : (bs rest : Bytes) → read_range 0 (length bs) (bs ++ rest) ≡ ok bs
unfolding read_range
read_range_front [] rest = refl
read_range_front (b ∷ bs) rest =
    rw (read_range-cons 0 (length bs) b (bs ++ rest), read_range_front bs rest)

pub read_range-append :
    (front : Bytes) (n : ℕ) (s : Bytes)
    → read_range (length front) n (front ++ s) ≡ read_range 0 n s
read_range-append [] n s = refl
read_range-append (c ∷ front) n s =
    read_range-cons (length front) n c (front ++ s) ∙ read_range-append front n s

-- Reading the bytes that stand behind `front`.
pub read_range_at :
    (front bs rest : Bytes) → read_range (length front) (length bs) (front ++ (bs ++ rest)) ≡ ok bs
read_range_at front bs rest =
    read_range-append front (length bs) (bs ++ rest) ∙ read_range_front bs rest

pub substr_from-append : (front s : Bytes) → substr_from (length front) (front ++ s) ≡ ok s
unfolding substr_from
substr_from-append [] s = refl
substr_from-append (c ∷ front) s = substr_from-append front s

-- A C string keeps all of its bytes up to the first zero.
pub c_string-append :
    (bs rest : Bytes) → All (λ b. 0 < b) bs → c_string (bs ++ rest) ≡ bs ++ c_string rest
unfolding c_string
c_string-append [] rest h = refl
c_string-append (zero ∷ bs) rest h = absurd (omega arith)
c_string-append (suc b ∷ bs) rest h = ap (λ r. suc b ∷ r) (c_string-append bs rest h.1)

-- A read of `n` bytes succeeds only if the string, with its terminator, is that long.
pub read_range_long : (n : ℕ) (s : Bytes) → length s + 1 < n → read_range 0 n s ≡ undefined
unfolding read_range
read_range_long zero s h = absurd (omega arith)
read_range_long (suc zero) s h = absurd (omega arith)
read_range_long (suc (suc n)) [] h = refl
read_range_long (suc (suc n)) (c ∷ s) h =
    rw (read_range-cons 0 (suc n) c s, read_range_long (suc n) s (omega arith))

pub length-read_range :
    (n off : ℕ) (s : Bytes) {bs : Bytes} → read_range off n s ≡ ok bs → length bs ≡ n
unfolding read_range
length-read_range zero off s e = cc
length-read_range (suc n) off s {bs} e =
    let (c, _, e') = >>=-eq-ok (char_at s off) _ e in
    let (rest, got, e'') = >>=-eq-ok (read_range (suc off) n s) _ e' in
    ground (arith, length-read_range n (suc off) s got)

pub char_at_long : (i : ℕ) (s : Bytes) → length s < i → char_at s i ≡ undefined
unfolding char_at
char_at_long zero s h = absurd (omega arith)
char_at_long (suc i) [] h = refl
char_at_long (suc i) (c ∷ s) h = char_at_long i s (omega arith)

pub read_range_first :
    (n : ℕ) (bs rest : Bytes) → length bs ≡ n → read_range 0 n (bs ++ rest) ≡ ok bs
read_range_first n bs rest e = rw e at (read_range_front bs rest)

pub read_range_next :
    (off n : ℕ) (front bs rest : Bytes)
    → length front ≡ off
    → length bs ≡ n
    → read_range off n (front ++ (bs ++ rest)) ≡ ok bs
read_range_next off n front bs rest e e' = rw (e, e') at (read_range_at front bs rest)

pub substr_from_next :
    (pos : ℕ) (front s : Bytes) → length front ≡ pos → substr_from pos (front ++ s) ≡ ok s
substr_from_next pos front s e = rw e at (substr_from-append front s)

-- A byte within the front is read there.
pub char_at-append :
    (front rest : Bytes) (i : ℕ) → i < length front → char_at (front ++ rest) i ≡ char_at front i
unfolding char_at
char_at-append [] rest i h = absurd (omega arith)
char_at-append (c ∷ front) rest zero h = refl
char_at-append (c ∷ front) rest (suc i) h = char_at-append front rest i (omega arith)

char_at-length : (c : ℕ) (front s : Bytes) → char_at (front ++ (c ∷ s)) (length front) ≡ ok c
unfolding char_at
char_at-length c [] s = refl
char_at-length c (x ∷ front) s = char_at-length c front s

-- The byte behind the front.
pub char_at_next :
    (i c : ℕ) (front s : Bytes) → length front ≡ i → char_at (front ++ (c ∷ s)) i ≡ ok c
char_at_next i c front s e = rw e at (char_at-length c front s)
