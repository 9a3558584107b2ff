-- ===== src/Bytes/Termination.antt =====
-- Reads from a string end.
use roastery.Prelude.{ℕ, zero, suc, [], ◌∷◌}
use roastery.Outcome.{Ends, >>=-Ends, ok-Ends}
use roastery.Bytes.{Bytes, char_at, read_range, substr, substr_from}

pub char_at-Ends : (i : ℕ) (s : Bytes) → Ends (char_at s i)
unfolding char_at
char_at-Ends zero [] = λ e. cc
char_at-Ends (suc i) [] = λ e. cc
char_at-Ends zero (c ∷ s) = λ e. cc
char_at-Ends (suc i) (c ∷ s) = char_at-Ends i s

pub read_range-Ends : (off n : ℕ) (s : Bytes) → Ends (read_range off n s)
unfolding read_range
read_range-Ends off zero s = λ e. cc
read_range-Ends off (suc n) s =
    >>=-Ends (char_at s off) _ (char_at-Ends off s) λ c.
      >>=-Ends (read_range (suc off) n s) _ (read_range-Ends (suc off) n s) λ r. ok-Ends (c ∷ r)

pub substr_from-Ends : (pos : ℕ) (s : Bytes) → Ends (substr_from pos s)
unfolding substr_from
substr_from-Ends zero s = λ e. cc
substr_from-Ends (suc pos) [] = λ e. cc
substr_from-Ends (suc pos) (c ∷ s) = substr_from-Ends pos s

pub substr-Ends : (pos n : ℕ) (s : Bytes) → Ends (substr pos n s)
unfolding substr
substr-Ends pos n s = >>=-Ends (substr_from pos s) _ (substr_from-Ends pos s) λ r. ok-Ends _
