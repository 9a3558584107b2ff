-- ===== src/Fields/Body.antt =====
-- A reader for the fields of a command, as the virtual machine would read them: vectors by their
-- counts, fields by the `FromEncoded` of their types.
pub mod RoundTrip
use roastery.Prelude.{
  ℕ, zero, suc, ◌+◌, ◌<◌, ◌^◌, ◌≡◌, sym, ap, ◌∙◌, List, [], ◌∷◌, ◌++◌, All, length, length-append,
  append_assoc, arith,
}
use roastery.Outcome.{Outcome, ok, ok-injective, >>=-eq-ok, ◌>>=◌}
use roastery.Bytes.{Bytes, substr_from, big_endian}
use roastery.Bytes.Reads.{substr_from_next}
use roastery.Bytes.Words.{length-big_endian}
use roastery.Con.{Con, IsSupported}
use roastery.Numeric
use roastery.Numeric.{int, assign}
use roastery.Fields.{
  FieldType, Field, Tuple, Element, ElementValue, Elements, single, vector, serialize_field,
  field_from_encoded, serialize_tuple, tuple_from_encoded, serialize_tuples, serialize_element,
  serialize_elements,
}
use roastery.Fields.Valid.{IsValid, IsClear, IsValidTuple, IsClearTuple}
use roastery.Fields.RoundTrip.{
  field_from_encoded-serialize_field, tuple_from_encoded-serialize_tuple,
}

-- What the fields that are read into held before.
abbrev pub Blank : Element → Type 0
Blank (single t) = Field t
Blank (vector ts) = Tuple ts

abbrev pub Blanks : List Element → Type 0
Blanks [] = Unit {0}
Blanks (e ∷ es) = Blank e × Blanks es

unfoldable pub read_tuples :
    (ts : List FieldType) → Tuple ts → Con → Bytes → ℕ → ℕ → Outcome (ℕ × List (Tuple ts))
read_tuples ts blank con encoded zero idx = ok (idx, [])
read_tuples ts blank con encoded (suc n) idx = do
  (next, tuple) ← tuple_from_encoded ts blank con encoded idx
  (end_idx, tuples) ← read_tuples ts blank con encoded n next
  ok (end_idx, tuple ∷ tuples)

unfoldable pub read_element :
    (e : Element) → Blank e → Con → Bytes → ℕ → Outcome (ℕ × ElementValue e)
unfolding read_tuples
read_element (single t) blank con encoded idx = do
  part ← substr_from idx encoded
  (size, v) ← field_from_encoded t blank con part
  ok (idx + size, v)
read_element (vector ts) blank con encoded idx = do
  part ← substr_from idx encoded
  (size, n) ← Numeric.from_encoded int part
  read_tuples ts blank con encoded n (idx + size)

unfoldable pub read_elements :
    (es : List Element) → Blanks es → Con → Bytes → ℕ → Outcome (ℕ × Elements es)
unfolding read_element
read_elements [] blanks con encoded idx = ok (idx, tt)
read_elements (e ∷ es) (blank, blanks) con encoded idx = do
  (next, v) ← read_element e blank con encoded idx
  (end_idx, vs) ← read_elements es blanks con encoded next
  ok (end_idx, (v, vs))

-- Each field is valid, and a vector's length fits a `JdwpInt`.
abbrev pub IsValidElement : Con → (e : Element) → ElementValue e → Type 0
IsValidElement con (single t) v = IsValid con t v
IsValidElement con (vector ts) tuples =
    All (λ tuple. IsValidTuple con ts tuple) tuples × (length tuples < 2 ^ 32)

abbrev pub AreValid : Con → (es : List Element) → Elements es → Type 0
AreValid con [] vs = Unit {0}
AreValid con (e ∷ es) (v, vs) = IsValidElement con e v × AreValid con es vs

abbrev pub IsClearElement : Con → (e : Element) → Blank e → Type 0
IsClearElement con (single t) blank = IsClear con t blank
IsClearElement con (vector ts) blank = IsClearTuple con ts blank

abbrev pub AreClear : Con → (es : List Element) → Blanks es → Type 0
AreClear con [] blanks = Unit {0}
AreClear con (e ∷ es) (blank, blanks) = IsClearElement con e blank × AreClear con es blanks
