-- ===== src/Handles/Moved.antt =====
-- src/jdwp_socket.cpp and src/jdwp_con.cpp: calls of an object that was moved from, and of the one
-- that it was moved to.
use roastery.Prelude.{
  ℕ, zero, suc, ◌<◌, ◌≡◌, refl, ap, ◌∙◌, Option, none, some, List, [], ◌∷◌, ◌++◌, length, arith,
}
use roastery.Outcome.{undefined}
use roastery.Action.{Action}
use roastery.Handles.{Handles, pointer, set_pointer, move_construct, on_pointer, on_impl}

module _ {T : Type 0} where
  pointer-set_pointer :
      (ps : List (Option T)) (n : ℕ) (v : Option T) → pointer (set_pointer ps n v) n ≡ v
  unfolding pointer set_pointer
  pointer-set_pointer [] zero v = refl
  pointer-set_pointer [] (suc n) v = pointer-set_pointer [] n v
  pointer-set_pointer (p ∷ ps) zero v = refl
  pointer-set_pointer (p ∷ ps) (suc n) v = pointer-set_pointer ps n v

  -- The object that was appended.
  pointer_new :
      (ps : List (Option T)) (v : Option T) (n : ℕ) → length ps ≡ n → pointer (ps ++ (v ∷ [])) n ≡ v
  unfolding pointer
  pointer_new [] v zero e = refl
  pointer_new [] v (suc n) e = absurd (omega (arith, e))
  pointer_new (p ∷ ps) v zero e = absurd (omega (arith, e))
  pointer_new (p ∷ ps) v (suc n) e = pointer_new ps v n (omega (arith, e))

  -- The others.
  pointer_old :
      (ps qs : List (Option T)) (n : ℕ) → n < length ps → pointer (ps ++ qs) n ≡ pointer ps n
  unfolding pointer
  pointer_old [] qs n h = absurd (omega (arith, h))
  pointer_old (p ∷ ps) qs zero h = refl
  pointer_old (p ∷ ps) qs (suc n) h = pointer_old ps qs n (omega (arith, h))

  length-set_pointer :
      (ps : List (Option T)) (n : ℕ) (v : Option T)
      → n < length ps
      → length (set_pointer ps n v) ≡ length ps
  unfolding set_pointer
  length-set_pointer [] n v h = absurd (omega (arith, h))
  length-set_pointer (p ∷ ps) zero v h = refl
  length-set_pointer (p ∷ ps) (suc n) v h =
      omega (arith, length-set_pointer ps n v (omega (arith, h)))

  pointer-some :
      (ps : List (Option T)) (n : ℕ) {impl : T} → pointer ps n ≡ some impl → n < length ps
  unfolding pointer
  pointer-some [] n e = cc
  pointer-some (p ∷ ps) zero e = omega arith
  pointer-some (p ∷ ps) (suc n) e = omega (arith, pointer-some ps n e)

-- An object is moved to a new one, whose number is that of the objects made before. From then on any
-- call of the new object returns or throws what the call returns or throws that is made of the
-- `Impl` the first object had, and leaves in the new object what that call makes of the `Impl`,
-- while any call of the first object is undefined.
pub on_impl-move_construct {ℓ} :
    {T : Type 0} {A : Type ℓ} (call : Action T A) (other : ℕ) (h : Handles T) {impl : T}
    → pointer h.pointers other ≡ some impl
    → let later = move_construct other h in
      (on_impl other call later ≡ (undefined, later))
      × ((on_impl (length h.pointers) call later).0 ≡ (call impl).0)
      × (pointer (on_impl (length h.pointers) call later).1.pointers (length h.pointers)
          ≡ some (call impl).1)
unfolding on_impl move_construct
on_impl-move_construct call other h {impl} e =
    let ps = h.pointers in
    let n = length ps in
    let released = set_pointer ps other none in
    let later = record h { pointers = released ++ (pointer ps other ∷ []) } in
    let there = pointer-some ps other e in
    let size = length-set_pointer ps other none there in
    let gone =
      pointer_old released (pointer ps other ∷ []) other (omega (arith, size, there))
      ∙ pointer-set_pointer ps other none in
    let here = pointer_new released (pointer ps other) n size ∙ e in
    let made = ap (λ p. on_pointer p n call later) here in
    (
      ap (λ p. on_pointer p other call later) gone,
      ap (λ r. r.0) made,
      ap (λ r. pointer r.1.pointers n) made
          ∙ pointer-set_pointer later.pointers n (some (call impl).1),
    )
