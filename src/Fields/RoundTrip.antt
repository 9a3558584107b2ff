-- ===== src/Fields/RoundTrip.antt =====
-- Fields and tuples of fields are sent and read back.
use roastery.Prelude.{
  ℕ, ◌+◌, ◌≤◌, ◌≡◌, refl, sym, ap, ◌∙◌, List, [], ◌∷◌, ◌++◌, length, length-append, append_assoc,
  arith,
}
use roastery.Outcome.{Outcome, ok, ok-injective}
use roastery.Bytes.{Bytes, big_endian}
use roastery.Bytes.Reads.{substr_from_next}
use roastery.Bytes.Words.{length-big_endian}
use roastery.Con.{Con, IsSupported}
use roastery.Numeric
use roastery.Numeric.{Numeric, value_size}
use roastery.Ids
use roastery.Ids.{IdType, get_size}
use roastery.Tagged
use roastery.Location
use roastery.Text
use roastery.Value
use roastery.Region
use roastery.Region.RoundTrip.{region}
use roastery.Fields.{
  FieldType, Field, Tuple, numeric, id, tagged_object_id, location, string, value, array_region,
  serialize_field, field_from_encoded, serialize_tuple, tuple_from_encoded,
}
use roastery.Fields.Valid.{IsValid, IsClear, IsValidTuple, IsClearTuple}

-- What was sent is read back, together with the number of bytes that were sent.
abbrev Returns : (t : FieldType) → Field t → Field t → Con → Bytes → Type 0
Returns t v old con rest =
    (bs : Bytes) × (serialize_field t v con ≡ ok bs)
    × (field_from_encoded t old con (bs ++ rest) ≡ ok (length bs, v))

resize {ℓ} :
    {A : Type ℓ} (v : A) {m : Outcome (ℕ × A)} {n k : ℕ} → m ≡ ok (n, v) → n ≡ k → m ≡ ok (k, v)
resize v e e' = e ∙ ap (λ (i : ℕ). ok (i, v)) e'

pub get_size-le : (con : Con) → IsSupported con → (t : IdType) → get_size t con ≤ 8
get_size-le con h IdType.method_id = h.method_id
get_size-le con h IdType.field_id = h.field_id
get_size-le con h IdType.frame_id = h.frame_id
get_size-le con h _ = h.obj_id

module _ (con : Con) (supported : IsSupported con) where
  pub field_from_encoded-serialize_field :
      (t : FieldType) (v old : Field t) (rest : Bytes)
      → IsValid con t v
      → IsClear con t old
      → Returns t v old con rest
  unfolding serialize_field field_from_encoded
  field_from_encoded-serialize_field (numeric n) v old rest h c = (
    Numeric.serialize n v,
    refl,
    resize v (Numeric.RoundTrip.from_encoded-serialize_numeric n v rest h)
        (sym (Numeric.RoundTrip.length-serialize n v)),
  )
  field_from_encoded-serialize_field (id t) v old rest h c =
      let small : get_size t con ≤ 8 = get_size-le con supported t in
      (
        big_endian (get_size t con) v,
        Ids.RoundTrip.serialize-big_endian t con v small,
        resize v (Ids.RoundTrip.from_encoded-Fits t con v old rest small h c)
            (sym (length-big_endian (get_size t con) v)),
      )
  field_from_encoded-serialize_field tagged_object_id v old rest (named, fits, nonzero) c =
      Tagged.RoundTrip.from_encoded-serialize_tagged v old con rest supported.obj_id named fits c
        nonzero
  field_from_encoded-serialize_field location v old rest (h, named) (c, m) =
      Location.RoundTrip.from_encoded-serialize_location con v old rest h named c m
  field_from_encoded-serialize_field string v old rest h c = (
    Text.serialize v,
    refl,
    resize v (Text.from_encoded-serialize_string v rest h) (sym (Text.length-serialize v)),
  )
  field_from_encoded-serialize_field value v old rest h c =
      Value.RoundTrip.from_encoded-serialize_value con v rest supported.obj_id h
  field_from_encoded-serialize_field array_region v old rest (values, e, few, h) c = rw e (
      Region.RoundTrip.from_encoded-serialize_array_region con v.tag values rest supported.obj_id
        few h)

  -- One field in front of a tuple.
  tuple_round :
      (t : FieldType) (ts : List FieldType) (v : Field t) (tuple : Tuple ts) (old : Field t)
      (olds : Tuple ts) (front b bs rest : Bytes) (idx : ℕ)
      → length front ≡ idx
      → serialize_field t v con ≡ ok b
      → serialize_tuple ts tuple con ≡ ok bs
      → field_from_encoded t old con (b ++ (bs ++ rest)) ≡ ok (length b, v)
      → tuple_from_encoded ts olds con ((front ++ b) ++ (bs ++ rest)) (idx + length b)
        ≡ ok (idx + length b + length bs, tuple)
      → (sent : Bytes) × (serialize_tuple (t ∷ ts) (v, tuple) con ≡ ok sent)
        × (tuple_from_encoded (t ∷ ts) (old, olds) con (front ++ (sent ++ rest)) idx
            ≡ ok (idx + length sent, (v, tuple)))
  unfolding serialize_tuple tuple_from_encoded
  tuple_round t ts v tuple old olds front b bs rest idx e sent_first sent got_first got = (
    b ++ bs,
    rw (sent_first, sent),
    rw
        (
          append_assoc b bs rest,
          substr_from_next idx front (b ++ (bs ++ rest)) e,
          got_first,
          rw (append_assoc front b (bs ++ rest)) at got,
        )
        (ap (λ (n : ℕ). ok (n, (v, tuple))) (omega (arith, length-append b bs))),
  )

  -- A tuple of valid fields is sent over a connection whose ID sizes are at most 8 bytes, and read
  -- field by field, into fields whose IDs are clear, from the index in a string where its bytes
  -- stand, whatever follows, up to their end.
  pub tuple_from_encoded-serialize_tuple :
      (ts : List FieldType) (tuple olds : Tuple ts) (front rest : Bytes) (idx : ℕ)
      → IsValidTuple con ts tuple
      → IsClearTuple con ts olds
      → length front ≡ idx
      → (bs : Bytes) × (serialize_tuple ts tuple con ≡ ok bs)
        × (tuple_from_encoded ts olds con (front ++ (bs ++ rest)) idx ≡ ok (idx + length bs, tuple))
  unfolding serialize_tuple tuple_from_encoded
  tuple_from_encoded-serialize_tuple [] tuple olds front rest idx h c e =
      ([], refl, ap (λ (n : ℕ). ok (n, tt)) (omega arith))
  tuple_from_encoded-serialize_tuple (t ∷ ts) (v, tuple) (old, olds) front rest idx (hv, h) (cv, c)
        e =
      let (b, sent_first, _) = field_from_encoded-serialize_field t v old [] hv cv in
      let (bs, sent, got) =
        tuple_from_encoded-serialize_tuple ts tuple olds (front ++ b) rest (idx + length b) h c
          (omega (arith, length-append front b)) in
      let (b', sent', got') = field_from_encoded-serialize_field t v old (bs ++ rest) hv cv in
      let same : b' ≡ b = ok-injective (sym sent' ∙ sent_first) in
      tuple_round t ts v tuple old olds front b bs rest idx e sent_first sent (rw same at got') got
