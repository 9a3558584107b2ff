-- ===== src/Outcome.antt =====
-- The outcome of a C++ call: a value, a thrown exception (src/jdwp_exception.cpp and the standard
-- ones), undefined behaviour, or a loop that used up the fuel of the model.
use roastery.Prelude.{ℕ, String, ◌≡◌, ◌≢◌, refl, subst, Bool, true, false}

-- What is thrown. `system_error` carries its errno; a message is kept where the code writes one.
pub data Fault : Type 0 where
  jdwp_exception : String → Fault
  logic_error : String → Fault
  system_error : ℕ → Fault
  out_of_range length_error : Fault

pub data Outcome {ℓ} (A : Type ℓ) : Type ℓ where
  ok : A → Outcome A
  raised : Fault → Outcome A
  undefined : Outcome A
  out_of_fuel : Outcome A

infixl 5 ◌>>=◌ ◌>>◌
abbrev pub ◌>>=◌ {ℓ κ} : {A : Type ℓ} {B : Type κ} → Outcome A → (A → Outcome B) → Outcome B
ok a >>= f = f a
raised e >>= f = raised e
undefined >>= f = undefined
out_of_fuel >>= f = out_of_fuel

abbrev pub ◌>>◌ {ℓ} : {B : Type ℓ} → Outcome (Unit {0}) → Outcome B → Outcome B
m >> k = m >>= λ _. k

-- `if (!b) throw e;`
abbrev pub guard : Bool → Fault → Outcome (Unit {0})
guard true e = ok tt
guard false e = raised e

pub ok-injective {ℓ} : {A : Type ℓ} {a b : A} → ok a ≡ ok b → a ≡ b
ok-injective e = cc

-- The call ended: it did not run out of the model's fuel.
abbrev pub Ends {ℓ} : {A : Type ℓ} → Outcome A → Type ℓ
Ends m = m ≢ out_of_fuel

pub ok-Ends {ℓ} : {A : Type ℓ} (a : A) → Ends (ok a)
ok-Ends a e = cc

-- What a sequence of two calls says of the first.
module _ {ℓ κ} {A : Type ℓ} {B : Type κ} where
  -- A sequence that returned has returned from both.
  pub >>=-eq-ok :
      (first : Outcome A) (later : A → Outcome B) {result : B}
      → first >>= later ≡ ok result
      → (between : A) × (first ≡ ok between) × (later between ≡ ok result)
  >>=-eq-ok undefined later e = cc
  >>=-eq-ok out_of_fuel later e = cc
  >>=-eq-ok (raised fault) later e = cc
  >>=-eq-ok (ok between) later e = (between, refl, e)

  pub >>=-Ends :
      (first : Outcome A) (later : A → Outcome B)
      → Ends first
      → ((between : A) → Ends (later between))
      → Ends (first >>= later)
  >>=-Ends (ok between) later h k = k between
  >>=-Ends (raised fault) later h k = λ e. cc
  >>=-Ends undefined later h k = λ e. cc
  >>=-Ends out_of_fuel later h k = absurd (h refl)

-- What a call returns, if it returns, satisfies `P`.
abbrev pub Gives {ℓ κ} : {A : Type ℓ} → (A → Type κ) → Outcome A → Type (ℓ ⊔ κ)
Gives P m = (a : _) → m ≡ ok a → P a

pub ok-Gives {ℓ κ} : {A : Type ℓ} (P : A → Type κ) {a : A} → P a → Gives P (ok a)
ok-Gives P h b e = subst P (ok-injective e) h

pub >>=-Gives {ℓ κ μ ν} :
    {A : Type ℓ} {B : Type κ} (Q : A → Type μ) (P : B → Type ν) (m : Outcome A) (f : A → Outcome B)
    → Gives Q m
    → ((a : A) → Q a → Gives P (f a))
    → Gives P (m >>= f)
>>=-Gives Q P m f h k b e = let (a, first, rest) = >>=-eq-ok m f e in k a (h a first) b rest
