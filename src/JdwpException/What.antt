-- ===== src/JdwpException/What.antt =====
-- src/jdwp_exception.cpp: the messages of exceptions that are made, copied and assigned.
use roastery.Prelude.{ℕ, zero, suc, ◌≡◌, refl, ap, [], ◌∷◌, ◌==◌, if◌then◌else◌, arith}
use roastery.Bytes.{Bytes, c_string}
use roastery.JdwpException.{Exceptions, from_string, from_c_string, copy, what, assign_from}

c_string_idem : (s : Bytes) → c_string (c_string s) ≡ c_string s
unfolding c_string
c_string_idem [] = refl
c_string_idem (zero ∷ s) = refl
c_string_idem (suc c ∷ s) = ap (λ r. suc c ∷ r) (c_string_idem s)

-- An exception that is made of a string, and a copy of one that is made of a C string, explain
-- themselves alike: by the bytes before the first zero byte.
pub what-copy :
    (what_arg : Bytes)
    → (what (from_string what_arg) ≡ c_string what_arg)
      × (what (copy (from_c_string what_arg)) ≡ what (from_string what_arg))
unfolding what from_string from_c_string copy
what-copy what_arg = (refl, c_string_idem what_arg)

-- After an assignment, of an exception to itself or to another, the assigned exception explains
-- itself as the other one did, and all others, the other one included, as they did.
pub what-assign_from :
    (this other address : ℕ) (store : Exceptions)
    → what (assign_from this other store address)
      ≡ (if address == this then what (store other) else what (store address))
unfolding what assign_from copy
what-assign_from this other address store = ground arith
