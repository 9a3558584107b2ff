-- ===== src/Numeric/Termination.antt =====
-- Reading a numeric field ends.
use roastery.Prelude.{ℕ, zero, suc, ◌∷◌}
use roastery.Outcome.{Ends, >>=-Ends, ok-Ends}
use roastery.Bytes.{Bytes, char_at}
use roastery.Bytes.Termination.{char_at-Ends}
use roastery.Numeric.{Numeric, value_size, read_back, from_encoded}

pub read_back-Ends : (n : ℕ) (s : Bytes) → Ends (read_back n s)
unfolding read_back
read_back-Ends zero s = λ e. cc
read_back-Ends (suc n) s =
    >>=-Ends (char_at s n) _ (char_at-Ends n s)
      λ c. >>=-Ends (read_back n s) _ (read_back-Ends n s) λ r. ok-Ends (c ∷ r)

pub from_encoded-Ends : (n : Numeric) (s : Bytes) → Ends (from_encoded n s)
unfolding from_encoded
from_encoded-Ends n s =
    >>=-Ends (read_back (value_size n) s) _ (read_back-Ends (value_size n) s) λ r. ok-Ends _
