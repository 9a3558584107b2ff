-- ===== src/Packet/SetCommand/RoundTrip.antt =====
-- A reader that takes the kind of a modifier for the place of its tuple in the variant finds the
-- modifiers that were sent.
use roastery.Prelude.{
  ℕ, zero, suc, ◌+◌, ◌≡◌, refl, sym, ap, ◌∙◌, Option, none, some, List, [], ◌∷◌, ◌++◌, All, length,
  length-append, append_assoc, first_with, arith,
}
use roastery.Outcome.{Outcome, ok, undefined, ok-injective, >>=-eq-ok, ◌>>=◌}
use roastery.Bytes.{Bytes, substr_from, big_endian}
use roastery.Bytes.Reads.{substr_from_next}
use roastery.Bytes.Words.{length-big_endian}
use roastery.Con.{Con, IsSupported}
use roastery.Numeric
use roastery.Numeric.{byte, int, assign}
use roastery.Fields.{Tuple, serialize_tuple, tuple_from_encoded}
use roastery.Fields.Valid.{IsValidTuple, IsClearTuple}
use roastery.Fields.Body.RoundTrip.{tuple_found}
use roastery.Packet.SetCommand.{
  Alternative, alternative_0, index, modifier_fields, Modifier, serialize_modifiers, alternative_1,
  alternative_2, alternative_3, alternative_4, alternative_5, alternative_6, alternative_7,
  alternative_8, alternative_9, alternative_10, alternative_11,
}

-- The alternative that a `modKind` stands for.
unfoldable pub of_mod_kind : ℕ → Option Alternative
unfolding index
of_mod_kind k =
    first_with (λ a. index a + 1) k
      (alternative_0 ∷ alternative_1 ∷ alternative_2 ∷ alternative_3 ∷ alternative_4 ∷ alternative_5
        ∷ alternative_6 ∷ alternative_7 ∷ alternative_8 ∷ alternative_9 ∷ alternative_10
        ∷ alternative_11 ∷ [])

of_mod_kind-index : (a : Alternative) → of_mod_kind (assign byte (index a + 1)) ≡ some a
unfolding of_mod_kind index
of_mod_kind-index alternative_0 = refl
of_mod_kind-index _ = refl

-- The modifier's kind, then its fields, as often as the count says.
module _ (blank : (a : Alternative) → Tuple (modifier_fields a)) (con : Con) where
  read_values : Option Alternative → Bytes → ℕ → Outcome (ℕ × Modifier)
  read_values none encoded idx = undefined
  read_values (some a) encoded idx = do
    (next, values) ← tuple_from_encoded (modifier_fields a) (blank a) con encoded idx
    ok (next, record { alternative = a; values = values })

  unfoldable pub read_modifiers : ℕ → Bytes → ℕ → Outcome (List Modifier)
  unfolding read_values of_mod_kind
  read_modifiers zero encoded idx = ok []
  read_modifiers (suc n) encoded idx = do
    part ← substr_from idx encoded
    (_, kind) ← Numeric.from_encoded byte part
    (next, modifier) ← read_values (of_mod_kind kind) encoded (idx + 1)
    modifiers ← read_modifiers n encoded next
    ok (modifier ∷ modifiers)

abbrev pub AreValid : Con → List Modifier → Type 0
AreValid con modifiers =
    All (λ m. IsValidTuple con (modifier_fields m.alternative) m.values) modifiers

module _ (con : Con) (supported : IsSupported con)
    (blank : (a : Alternative) → Tuple (modifier_fields a))
    (clear : (a : Alternative) → IsClearTuple con (modifier_fields a) (blank a)) where
  modifier_found :
      (m : Modifier) (modifiers : List Modifier) (b more bs front rest : Bytes) (idx : ℕ)
      → IsValidTuple con (modifier_fields m.alternative) m.values
      → serialize_tuple (modifier_fields m.alternative) m.values con ≡ ok b
      → Numeric.serialize byte (assign byte (index m.alternative + 1)) ++ (b ++ more) ≡ bs
      → length front ≡ idx
      → ((front' : Bytes) (idx' : ℕ)
          → length front' ≡ idx'
          → read_modifiers blank con (length modifiers) (front' ++ (more ++ rest)) idx'
            ≡ ok modifiers)
      → read_modifiers blank con (length (m ∷ modifiers)) (front ++ (bs ++ rest)) idx
        ≡ ok (m ∷ modifiers)
  unfolding read_modifiers
  modifier_found m modifiers b more bs front rest idx hm first whole e later =
      let k : ℕ = assign byte (index m.alternative + 1) in
      let kind : Bytes = big_endian 1 k in
      let parts : front ++ (bs ++ rest) ≡ front ++ (kind ++ (b ++ (more ++ rest))) =
        ap (λ s. front ++ (s ++ rest))
          (sym (
            ap (λ s. s ++ (b ++ more)) (sym (Numeric.RoundTrip.serialize-big_endian byte k))
            ∙ whole))
        ∙ ap (λ s. front ++ s)
            (append_assoc kind (b ++ more) rest ∙ ap (λ s. kind ++ s) (append_assoc b more rest)) in
      let found =
        tuple_found con supported (modifier_fields m.alternative) m.values (blank m.alternative) b
          hm (clear m.alternative) first (front ++ kind) (more ++ rest) (idx + 1)
          (omega (arith, length-append front kind, length-big_endian 1 k)) in
      let others = later ((front ++ kind) ++ b) (idx + 1 + length b) (
        omega (
          arith,
          length-append (front ++ kind) b,
          length-append front kind,
          length-big_endian 1 k,
        )) in
      rw (
        parts,
        substr_from_next idx front (kind ++ (b ++ (more ++ rest))) e,
        Numeric.RoundTrip.from_encoded-big_endian byte k (b ++ (more ++ rest)) (omega arith),
        of_mod_kind-index m.alternative,
        rw (append_assoc front kind (b ++ (more ++ rest))) at found,
        rw
            (
              append_assoc (front ++ kind) b (more ++ rest),
              append_assoc front kind (b ++ (more ++ rest)),
            )
            at others,
      )

  pub read_modifiers-serialize_modifiers :
      (modifiers : List Modifier) (bs front rest : Bytes) (idx : ℕ)
      → AreValid con modifiers
      → serialize_modifiers modifiers con ≡ ok bs
      → length front ≡ idx
      → read_modifiers blank con (length modifiers) (front ++ (bs ++ rest)) idx ≡ ok modifiers
  unfolding serialize_modifiers read_modifiers
  read_modifiers-serialize_modifiers [] bs front rest idx h sent e = refl
  read_modifiers-serialize_modifiers (m ∷ modifiers) bs front rest idx (hm, h) sent e =
      let (b, first, sent') =
        >>=-eq-ok (serialize_tuple (modifier_fields m.alternative) m.values con) _ sent in
      let (more, later, whole) = >>=-eq-ok (serialize_modifiers modifiers con) _ sent' in
      modifier_found m modifiers b more bs front rest idx hm first (ok-injective whole) e
        (λ front' idx' e'.
          read_modifiers-serialize_modifiers modifiers more front' rest idx' h later e')
