-- ===== src/Numeric/Layout.antt =====
-- What the two byte loops of `JdwpFieldBase` do.
use roastery.Prelude.{
  ℕ, zero, suc, ◌≤◌, ◌≡◌, refl, ap, ◌∙◌, [], ◌∷◌, ◌++◌, reverse, arith, length, take,
}
use roastery.Outcome.{ok, >>=-eq-ok, ok-injective}
use roastery.Bytes.{Bytes, char_at}
use roastery.Numeric.{get_or, write_back, read_back}
use mathlib.Core.List.{reverse-cons}

write_back-cons :
    (k x : ℕ) (mem : Bytes) → write_back (suc k) (x ∷ mem) ≡ write_back k mem ++ (x ∷ [])
unfolding write_back
write_back-cons zero x mem = refl
write_back-cons (suc k) x mem = ap (λ r. get_or mem k 0 ∷ r) (write_back-cons k x mem)

-- Writing downwards from index `k` is the first `k` bytes reversed.
pub write_back-reverse :
    (k : ℕ) (mem : Bytes) → k ≤ length mem → write_back k mem ≡ reverse (take k mem)
write_back-reverse zero mem h = unfold write_back in refl
write_back-reverse (suc k) [] h = absurd (omega arith)
write_back-reverse (suc k) (x ∷ mem) h =
    write_back-cons k x mem ∙ rw (write_back-reverse k mem (omega arith), reverse-cons)

read_back-cons :
    (k c : ℕ) (s : Bytes) {bs : Bytes}
    → read_back k s ≡ ok bs
    → read_back (suc k) (c ∷ s) ≡ ok (bs ++ (c ∷ []))
unfolding read_back
read_back-cons zero c s e = ap (λ r. ok (r ++ (c ∷ []))) (ok-injective e)
read_back-cons (suc k) c s {bs} e =
    let (b, at, e') = >>=-eq-ok (char_at s k) _ e in
    let (rest, got, e'') = >>=-eq-ok (read_back k s) _ e' in
    rw (at, read_back-cons k c s got) (ap (λ r. ok (r ++ (c ∷ []))) (ok-injective e''))

-- Reading downwards finds the bytes that the string begins with, reversed.
pub read_back_front : (bs rest : Bytes) → read_back (length bs) (bs ++ rest) ≡ ok (reverse bs)
read_back_front [] rest = unfold read_back in refl
read_back_front (b ∷ bs) rest =
    rw reverse-cons (read_back-cons (length bs) b (bs ++ rest) (read_back_front bs rest))
