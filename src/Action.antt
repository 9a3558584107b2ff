-- ===== src/Action.antt =====
-- C++ calls that change an object: what the call returns or throws, and the object after it. What
-- was changed before a throw stays changed.
use roastery.Outcome.{Outcome, ok, raised, undefined, out_of_fuel}
use roastery.Prelude.{◌≡◌, refl, ◌∙◌}

abbrev pub Action {ℓ κ} : Type ℓ → Type κ → Type (ℓ ⊔ κ)
Action S A = S → Outcome A × S

-- The rest of a block, if the call before it has returned.
abbrev pub continue {ℓ κ μ} :
    {S : Type ℓ} {A : Type κ} {B : Type μ} → Outcome A → (A → Action S B) → Action S B
continue (ok a) f s = f a s
continue (raised e) f s = (raised e, s)
continue undefined f s = (undefined, s)
continue out_of_fuel f s = (out_of_fuel, s)

infixl 5 ◌>>=◌ ◌>>◌
abbrev pub ◌>>=◌ {ℓ κ μ} :
    {S : Type ℓ} {A : Type κ} {B : Type μ} → Action S A → (A → Action S B) → Action S B
◌>>=◌ m f s = let (r, later) = m s in continue r f later

abbrev pub ◌>>◌ {ℓ κ} : {S : Type ℓ} {B : Type κ} → Action S (Unit {0}) → Action S B → Action S B
m >> k = m >>= λ _. k

-- A call that does not change the object.
abbrev pub lift {ℓ κ} : {S : Type ℓ} {A : Type κ} → Outcome A → Action S A
lift r s = (r, s)

-- What the return of a sequence says of the first call.
pub continue-eq-ok {ℓ κ μ} :
    {S : Type ℓ} {A : Type κ} {B : Type μ} (r : Outcome A) (f : A → Action S B) (s : S) {b : B}
    {later : S}
    → continue r f s ≡ (ok b, later)
    → (a : A) × (r ≡ ok a) × (f a s ≡ (ok b, later))
continue-eq-ok (ok a) f s e = (a, refl, e)
continue-eq-ok (raised fault) f s e = cc
continue-eq-ok undefined f s e = cc
continue-eq-ok out_of_fuel f s e = cc

-- A call that leaves a part of the object as it is, whatever comes of it.
abbrev pub Keeps {ℓ κ μ} :
    {S : Type ℓ} {A : Type κ} {V : Type μ} → (S → V) → Action S A → Type (ℓ ⊔ μ)
Keeps view m = (s : _) → view (m s).1 ≡ view s

module _ {ℓ κ μ ν} {S : Type ℓ} {A : Type κ} {B : Type μ} {V : Type ν} (view : S → V) where
  continue-Keeps :
      (r : Outcome A) (f : A → Action S B)
      → ((a : A) → Keeps view (f a))
      → Keeps view (continue r f)
  continue-Keeps (ok a) f h = h a
  continue-Keeps (raised e) f h = λ s. refl
  continue-Keeps undefined f h = λ s. refl
  continue-Keeps out_of_fuel f h = λ s. refl

  pub >>=-Keeps :
      (m : Action S A) (f : A → Action S B)
      → Keeps view m
      → ((a : A) → Keeps view (f a))
      → Keeps view (m >>= f)
  >>=-Keeps m f hm hf s = continue-Keeps (m s).0 f hf (m s).1 ∙ hm s
