-- ===== src/Handles.antt =====
-- src/include/jdwp_socket.hpp and src/include/jdwp_con.hpp: what `JdwpSocket` and `JdwpCon` have in
-- common. An object of either has a single member `pImpl`, a `std::unique_ptr` to its `Impl`, which
-- is moved with it.
pub mod Moved
use roastery.Prelude.{ℕ, zero, suc, Option, none, some, List, [], ◌∷◌, ◌++◌}
use roastery.Outcome.{Outcome, ok, raised, undefined, out_of_fuel}
use roastery.Action.{Action}

-- The objects, each with a number that counts those made before it: `some` where `pImpl` is set, and
-- `none` where it is null or the object has ended. `destroyed` are the `Impl`s whose destructor was
-- called, each as it was then.
pub record Handles (T : Type 0) : Type 0 where
  pub pointers : List (Option T)
  pub destroyed : List T

module _ {T : Type 0} where
  -- The pointer of an object: null, if none has that number.
  unfoldable pub pointer : List (Option T) → ℕ → Option T
  pointer [] n = none
  pointer (p ∷ ps) zero = p
  pointer (p ∷ ps) (suc n) = pointer ps n

  unfoldable pub set_pointer : List (Option T) → ℕ → Option T → List (Option T)
  set_pointer [] zero v = v ∷ []
  set_pointer [] (suc n) v = none ∷ set_pointer [] n v
  set_pointer (p ∷ ps) zero v = v ∷ ps
  set_pointer (p ∷ ps) (suc n) v = p ∷ set_pointer ps n v

  -- The `Impl` that a pointer owns, as a list.
  abbrev pub owned : Option T → List T
  owned none = []
  owned (some impl) = impl ∷ []

  -- `delete` of what a pointer owned: nothing for null.
  abbrev pub deleted : Option T → Handles T → Handles T
  deleted old h = record h { destroyed = h.destroyed ++ owned old }

  -- `pImpl(new Impl(...))` of a new object: if the constructor of `Impl` throws, there is none.
  unfoldable pub construct_object : Outcome (Unit {0}) × T → Action (Handles T) (Unit {0})
  construct_object (ok u, impl) h = (ok tt, record h { pointers = h.pointers ++ (some impl ∷ []) })
  construct_object (raised fault, impl) h = (raised fault, h)
  construct_object (undefined, impl) h = (undefined, h)
  construct_object (out_of_fuel, impl) h = (out_of_fuel, h)

  -- The move constructor: the new object takes the pointer of `other`, which becomes null.
  unfoldable pub move_construct : ℕ → Handles T → Handles T
  unfolding pointer set_pointer
  move_construct other h = record h {
    pointers = set_pointer h.pointers other none ++ (pointer h.pointers other ∷ []);
  }

  -- The move assignment, as `reset(other.release())`: what `this` has then, it deletes, which is
  -- nothing if `other` is the same object.
  unfoldable pub move_assign : ℕ → ℕ → Handles T → Handles T
  unfolding pointer set_pointer
  move_assign this other h =
      let released = set_pointer h.pointers other none in
      let old = pointer released this in
      deleted old (record h { pointers = set_pointer released this (pointer h.pointers other) })

  -- The destructor.
  unfoldable pub destruct : ℕ → Handles T → Handles T
  unfolding pointer set_pointer
  destruct this h =
      deleted (pointer h.pointers this) (record h { pointers = set_pointer h.pointers this none })

  -- A call `this->pImpl->f(...)`, which has no meaning for null.
  abbrev pub on_pointer {ℓ} : {A : Type ℓ} → Option T → ℕ → Action T A → Action (Handles T) A
  on_pointer none this call h = (undefined, h)
  on_pointer (some impl) this call h =
      let (r, later) = call impl in
      (r, record h { pointers = set_pointer h.pointers this (some later) })

  unfoldable pub on_impl {ℓ} : {A : Type ℓ} → ℕ → Action T A → Action (Handles T) A
  unfolding pointer set_pointer
  on_impl this call h = on_pointer (pointer h.pointers this) this call h
