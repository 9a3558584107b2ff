-- ===== src/Ids/Termination.antt =====
-- Reading an ID ends.
use roastery.Prelude.{ℕ, [], ◌∷◌, reverse}
use roastery.Outcome.{Ends, >>=-Ends, ok-Ends}
use roastery.Bytes.{Bytes, memory_of, read_range}
use roastery.Bytes.Termination.{read_range-Ends}
use roastery.Con.{Con}
use roastery.Ids.{IdType, get_size, overwrite, from_encoded}

pub overwrite-Ends : (bytes mem : Bytes) → Ends (overwrite bytes mem)
unfolding overwrite
overwrite-Ends [] mem = λ e. cc
overwrite-Ends (b ∷ bytes) [] = λ e. cc
overwrite-Ends (b ∷ bytes) (m ∷ mem) =
    >>=-Ends (overwrite bytes mem) _ (overwrite-Ends bytes mem) λ r. ok-Ends (b ∷ r)

pub from_encoded-Ends :
    (t : IdType) (con : Con) (old : ℕ) (s : Bytes) → Ends (from_encoded t con old s)
unfolding from_encoded
from_encoded-Ends t con old s =
    >>=-Ends (read_range 0 (get_size t con) s) _ (read_range-Ends 0 (get_size t con) s) λ bytes.
      >>=-Ends (overwrite (reverse bytes) (memory_of 8 old)) _
        (overwrite-Ends (reverse bytes) (memory_of 8 old)) λ r. ok-Ends _
