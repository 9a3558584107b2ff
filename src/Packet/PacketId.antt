-- ===== src/Packet/PacketId.antt =====
-- The IDs of the packets that are made one after another.
use roastery.Prelude.{
  ℕ, zero, suc, ◌+◌, ◌%◌, ◌^◌, ◌≤◌, ◌<◌, ◌≡◌, ◌≢◌, sym, ap, ◌∙◌, List, [], ◌∷◌, get_elem?, some,
  arith,
}
use roastery.Packet.{get_next_id}

-- The results of `n` calls of `GetNextId`, with `next_id` before the first.
unfoldable pub get_next_ids : ℕ → ℕ → List ℕ
unfolding get_next_id
get_next_ids zero next_id = []
get_next_ids (suc n) next_id = let (id, later) = get_next_id next_id in id ∷ get_next_ids n later

-- The call after `i` others returns the first ID plus `i`, modulo 2 ^ 32.
pub get_next_ids-nth :
    (n next_id i : ℕ)
    → next_id < 2 ^ 32
    → i < n
    → get_elem? (get_next_ids n next_id) i ≡ some ((next_id + i) % 2 ^ 32)
unfolding get_next_ids
get_next_ids-nth zero next_id i h k = absurd (omega arith)
get_next_ids-nth (suc n) next_id zero h k = ap some (omega arith)
get_next_ids-nth (suc n) next_id (suc i) h k =
    get_next_ids-nth n ((next_id + 1) % 2 ^ 32) i (omega arith) (omega arith)
    ∙ ap some (omega arith)

some-injective : {a b : ℕ} → some a ≡ some b → a ≡ b
some-injective e = cc

-- Of at most 2 ^ 32 packets that are made one after another, no two have the same ID.
pub get_next_ids-distinct :
    (n next_id i j : ℕ)
    → next_id < 2 ^ 32
    → n ≤ 2 ^ 32
    → i < j
    → j < n
    → get_elem? (get_next_ids n next_id) i ≢ get_elem? (get_next_ids n next_id) j
get_next_ids-distinct n next_id i j h k l m e =
    let same : (next_id + i) % 2 ^ 32 ≡ (next_id + j) % 2 ^ 32 =
      some-injective (
        sym (get_next_ids-nth n next_id i h (omega arith))
        ∙ e
        ∙ get_next_ids-nth n next_id j h m) in
    omega (arith, same)
