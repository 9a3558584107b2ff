-- ===== src/Command/RespFields.antt =====
-- src/include/jdwp_packet.hpp: the fields of a reply, and `impl::RepeatedTuple`.
use roastery.Prelude.{ℕ, zero, suc, ◌≡◌, refl, ap, ◌∙◌, List, [], ◌∷◌, ◌++◌, replicate}
use roastery.Fields.{FieldType, Field, Tuple}

-- An element of `RespFields`: a field, a vector of tuples, or a vector of fields.
pub data RespField : Type 0 where
  single : FieldType → RespField
  vector : List FieldType → RespField
  plain_vector : FieldType → RespField

abbrev pub RespValue : RespField → Type 0
RespValue (single t) = Field t
RespValue (vector ts) = List (Tuple ts)
RespValue (plain_vector t) = List (Field t)

-- An object of the type `RespFields`.
abbrev pub RespFields : List RespField → Type 0
RespFields [] = Unit {0}
RespFields (t ∷ ts) = RespValue t × RespFields ts

-- `ConcatTuple`.
abbrev pub concat_tuple : List RespField → List RespField → List RespField
concat_tuple ts us = ts ++ us

-- `RepeatedTuple`, with its base case for 0.
unfoldable pub repeated_tuple : RespField → ℕ → List RespField
repeated_tuple t zero = t ∷ []
repeated_tuple t (suc rem) = concat_tuple (repeated_tuple t rem) (t ∷ [])

replicate_last : (n : ℕ) (t : RespField) → replicate n t ++ (t ∷ []) ≡ replicate (suc n) t
replicate_last zero t = refl
replicate_last (suc n) t = ap (λ ts. t ∷ ts) (replicate_last n t)

-- `RepeatedTuple<T, n>` is the tuple of one `T` more than `n`.
pub repeated_tuple-replicate : (t : RespField) (n : ℕ) → repeated_tuple t n ≡ replicate (suc n) t
unfolding repeated_tuple
repeated_tuple-replicate t zero = refl
repeated_tuple-replicate t (suc n) =
    ap (λ ts. ts ++ (t ∷ [])) (repeated_tuple-replicate t n) ∙ replicate_last (suc n) t
