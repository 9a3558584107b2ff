-- ===== src/Fields/Body/RoundTrip.antt =====
-- What a command sends is read back by the reader.
use roastery.Prelude.{
  refl, ℕ, ◌+◌, ◌<◌, ◌^◌, ◌≡◌, sym, ap, ◌∙◌, List, [], ◌∷◌, ◌++◌, All, length, length-append,
  append_assoc, arith,
}
use roastery.Outcome.{Outcome, ok, ok-injective, >>=-eq-ok, ◌>>=◌}
use roastery.Bytes.{Bytes, big_endian}
use roastery.Bytes.Reads.{substr_from_next}
use roastery.Bytes.Words.{length-big_endian}
use roastery.Con.{Con, IsSupported}
use roastery.Numeric
use roastery.Numeric.{int, assign}
use roastery.Fields.{
  FieldType, Field, Tuple, Element, ElementValue, Elements, single, vector, serialize_field,
  serialize_tuple, tuple_from_encoded, serialize_tuples, serialize_element, serialize_elements,
}
use roastery.Fields.Valid.{IsValid, IsClear, IsValidTuple, IsClearTuple}
use roastery.Fields.RoundTrip.{
  field_from_encoded-serialize_field, tuple_from_encoded-serialize_tuple,
}
use roastery.Fields.Body.{
  Blank, Blanks, read_tuples, read_element, read_elements, IsValidElement, AreValid, IsClearElement,
  AreClear,
}

-- A reader finds `v` at every place where the bytes `bs` stand.
abbrev Finds : {A : Type 0} → (Bytes → ℕ → Outcome (ℕ × A)) → Bytes → A → Type 0
Finds read bs v =
    (front rest : Bytes) (idx : ℕ)
    → length front ≡ idx
    → read (front ++ (bs ++ rest)) idx ≡ ok (idx + length bs, v)

-- One reader after another, each at the place where its bytes stand.
Finds-next :
    {A B C : Type 0} (f : A → B → C) (read : Bytes → ℕ → Outcome (ℕ × A))
    (later : Bytes → ℕ → Outcome (ℕ × B)) (b more bs : Bytes) (x : A) (y : B)
    → Finds read b x
    → Finds later more y
    → b ++ more ≡ bs
    → Finds
        (λ encoded idx. read encoded idx >>= λ r. later encoded r.0 >>= λ r'. ok (r'.0, f r.1 r'.1))
        bs
        (f x y)
Finds-next f read later b more bs x y first second whole front rest idx e =
    let size : length bs ≡ length b + length more = ap length (sym whole) ∙ length-append b more in
    let parts : front ++ (bs ++ rest) ≡ front ++ (b ++ (more ++ rest)) =
      ap (λ s. front ++ (s ++ rest)) (sym whole)
      ∙ ap (λ s. front ++ s) (append_assoc b more rest) in
    let found : later (front ++ (b ++ (more ++ rest))) (idx + length b)
        ≡ ok (idx + length b + length more, y) =
      rw (append_assoc front b (more ++ rest)) at
        (second (front ++ b) rest (idx + length b) (omega (arith, length-append front b))) in
    rw (parts, first front (more ++ rest) idx e, found)
      (ap (λ (n : ℕ). ok (n, f x y)) (omega (arith, size)))

-- Nothing is read from no bytes.
Finds-nothing :
    {A : Type 0} (x : A) (bs : Bytes) → [] ≡ bs → Finds (λ encoded idx. ok (idx, x)) bs x
Finds-nothing x bs e front rest idx e' =
    let size : length bs ≡ 0 = ap length (sym e) in ap (λ (n : ℕ). ok (n, x)) (omega (arith, size))

-- A count below 2 ^ 32 is sent as it is.
sent_count :
    (n : ℕ) (items : Bytes)
    → n < 2 ^ 32
    → Numeric.serialize int (assign int n) ++ items ≡ big_endian 4 n ++ items
sent_count n items h =
    let same : assign int n ≡ n = omega arith in
    ap (λ s. s ++ items)
      (Numeric.RoundTrip.serialize-big_endian int (assign int n) ∙ ap (big_endian 4) same)

module _ (con : Con) (supported : IsSupported con) where
  pub tuple_found :
      (ts : List FieldType) (tuple blank : Tuple ts) (bs : Bytes)
      → IsValidTuple con ts tuple
      → IsClearTuple con ts blank
      → serialize_tuple ts tuple con ≡ ok bs
      → Finds (tuple_from_encoded ts blank con) bs tuple
  tuple_found ts tuple blank bs h c sent front rest idx e =
      let (bs', sent', got) =
        tuple_from_encoded-serialize_tuple con supported ts tuple blank front rest idx h c e in
      let same : bs' ≡ bs = ok-injective (sym sent' ∙ sent) in rw same at got

  tuples_found :
      (ts : List FieldType) (tuples : List (Tuple ts)) (blank : Tuple ts) (bs : Bytes)
      → All (λ tuple. IsValidTuple con ts tuple) tuples
      → IsClearTuple con ts blank
      → serialize_tuples ts tuples con ≡ ok bs
      → Finds (λ encoded idx. read_tuples ts blank con encoded (length tuples) idx) bs tuples
  unfolding serialize_tuples read_tuples
  tuples_found ts [] blank bs h c sent = Finds-nothing [] bs (ok-injective sent)
  tuples_found ts (tuple ∷ tuples) blank bs h c sent =
      let (b, sent_first, sent') = >>=-eq-ok (serialize_tuple ts tuple con) _ sent in
      let (more, sent_rest, whole) = >>=-eq-ok (serialize_tuples ts tuples con) _ sent' in
      Finds-next (λ t ts. t ∷ ts) (tuple_from_encoded ts blank con)
        (λ encoded idx. read_tuples ts blank con encoded (length tuples) idx) b more bs tuple tuples
        (tuple_found ts tuple blank b h.0 c sent_first)
        (tuples_found ts tuples blank more h.1 c sent_rest) (ok-injective whole)

  field_found :
      (t : FieldType) (v blank : Field t) (bs : Bytes)
      → IsValid con t v
      → IsClear con t blank
      → serialize_field t v con ≡ ok bs
      → Finds (read_element (single t) blank con) bs v
  unfolding read_element
  field_found t v blank bs h c sent front rest idx e =
      let (bs', sent', got) = field_from_encoded-serialize_field con supported t v blank rest h c in
      let same : bs' ≡ bs = ok-injective (sym sent' ∙ sent) in
      rw (substr_from_next idx front (bs ++ rest) e, rw same at got)

  -- The count in front of a vector, then its tuples.
  vector_found :
      (ts : List FieldType) (tuples : List (Tuple ts)) (blank : Tuple ts) (items bs : Bytes)
      → IsValidElement con (vector ts) tuples
      → IsClearTuple con ts blank
      → serialize_tuples ts tuples con ≡ ok items
      → Numeric.serialize int (assign int (length tuples)) ++ items ≡ bs
      → Finds (read_element (vector ts) blank con) bs tuples
  unfolding read_element
  vector_found ts tuples blank items bs h c sent whole front rest idx e =
      let n : ℕ = length tuples in
      let count : Bytes = big_endian 4 n in
      let parts : front ++ (bs ++ rest) ≡ front ++ (count ++ (items ++ rest)) =
        ap (λ s. front ++ (s ++ rest)) (sym whole ∙ sent_count n items h.1)
        ∙ ap (λ s. front ++ s) (append_assoc count items rest) in
      let size : length bs ≡ 4 + length items =
        ap length (sym whole ∙ sent_count n items h.1)
        ∙ omega (arith, length-append count items, length-big_endian 4 n) in
      let found = rw (append_assoc front count (items ++ rest)) at (
        tuples_found ts tuples blank items h.0 c sent (front ++ count) rest (idx + 4)
          (omega (arith, length-append front count, length-big_endian 4 n))) in
      rw
        (
          parts,
          substr_from_next idx front (count ++ (items ++ rest)) e,
          Numeric.RoundTrip.from_encoded-big_endian int n (items ++ rest) (omega (arith, h.1)),
          found,
        )
        (ap (λ (i : ℕ). ok (i, tuples)) (omega (arith, size)))

  element_found :
      (el : Element) (v : ElementValue el) (blank : Blank el) (bs : Bytes)
      → IsValidElement con el v
      → IsClearElement con el blank
      → serialize_element el v con ≡ ok bs
      → Finds (read_element el blank con) bs v
  unfolding serialize_element
  element_found (single t) v blank bs h c sent = field_found t v blank bs h c sent
  element_found (vector ts) tuples blank bs h c sent =
      let (items, sent_items, whole) = >>=-eq-ok (serialize_tuples ts tuples con) _ sent in
      vector_found ts tuples blank items bs h c sent_items (ok-injective whole)

  pub read_elements-serialize_elements :
      (es : List Element) (vs : Elements es) (blanks : Blanks es) (bs front rest : Bytes) (idx : ℕ)
      → AreValid con es vs
      → AreClear con es blanks
      → serialize_elements es vs con ≡ ok bs
      → length front ≡ idx
      → read_elements es blanks con (front ++ (bs ++ rest)) idx ≡ ok (idx + length bs, vs)
  unfolding serialize_elements read_elements
  read_elements-serialize_elements [] vs blanks bs front rest idx h c sent =
      Finds-nothing tt bs (ok-injective sent) front rest idx
  read_elements-serialize_elements (el ∷ es) (v, vs) (blank, blanks) bs front rest idx (hv, h)
        (cv, c) sent =
      let (b, sent_first, sent') = >>=-eq-ok (serialize_element el v con) _ sent in
      let (more, sent_rest, whole) = >>=-eq-ok (serialize_elements es vs con) _ sent' in
      Finds-next (λ x xs. (x, xs)) (read_element el blank con) (read_elements es blanks con) b more
        bs v vs (element_found el v blank b hv cv sent_first)
        (λ front' rest' idx' e.
          read_elements-serialize_elements es vs blanks more front' rest' idx' h c sent_rest e)
        (ok-injective whole) front rest idx

  tuples_sent :
      (ts : List FieldType) (tuples : List (Tuple ts)) (blank : Tuple ts)
      → All (λ tuple. IsValidTuple con ts tuple) tuples
      → IsClearTuple con ts blank
      → (bs : Bytes) × (serialize_tuples ts tuples con ≡ ok bs)
  unfolding serialize_tuples
  tuples_sent ts [] blank h c = ([], refl)
  tuples_sent ts (tuple ∷ tuples) blank h c =
      let (b, first, _) =
        tuple_from_encoded-serialize_tuple con supported ts tuple blank [] [] 0 h.0 c refl in
      let (bs, later) = tuples_sent ts tuples blank h.1 c in (b ++ bs, rw (first, later))

  element_sent :
      (el : Element) (v : ElementValue el) (blank : Blank el)
      → IsValidElement con el v
      → IsClearElement con el blank
      → (bs : Bytes) × (serialize_element el v con ≡ ok bs)
  unfolding serialize_element
  element_sent (single t) v blank h c =
      let (bs, sent, _) = field_from_encoded-serialize_field con supported t v blank [] h c in
      (bs, sent)
  element_sent (vector ts) tuples blank h c =
      let (items, sent) = tuples_sent ts tuples blank h.0 c in
      (Numeric.serialize int (assign int (length tuples)) ++ items, rw sent)

  -- The fields of a command, if they are valid, are sent.
  pub serialize_elements-AreValid :
      (es : List Element) (vs : Elements es) (blanks : Blanks es)
      → AreValid con es vs
      → AreClear con es blanks
      → (bs : Bytes) × (serialize_elements es vs con ≡ ok bs)
  unfolding serialize_elements
  serialize_elements-AreValid [] vs blanks h c = ([], refl)
  serialize_elements-AreValid (el ∷ es) (v, vs) (blank, blanks) (hv, h) (cv, c) =
      let (b, first) = element_sent el v blank hv cv in
      let (bs, later) = serialize_elements-AreValid es vs blanks h c in (b ++ bs, rw (first, later))
