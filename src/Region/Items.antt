-- ===== src/Region/Items.antt =====
-- The items of an array region, and the loops that read them.
use roastery.Prelude.{
  ℕ, zero, suc, ◌+◌, ◌*◌, ◌≤◌, ◌<◌, ◌≡◌, sym, ◌∙◌, ap, true, false, Option, some, List, [], ◌∷◌,
  ◌++◌, arith, length, length-append, append_assoc, All, take, take-append, lt→ltb, le→ltb_false,
}
use roastery.Outcome.{Outcome, ok, ok-injective}
use roastery.Bytes.{Bytes}
use roastery.Bytes.Reads.{substr_from_next}
use roastery.Con.{Con}
use roastery.Tags.{JdwpTag, tag_to_byte}
use roastery.Value
use roastery.Value.{JdwpValue, get_size_by_tag, tag_is_obj_type}
use roastery.Value.Payload.{IsValid, payload, payload_size, length-payload}
use roastery.Value.RoundTrip.{payload_size_object, get_size_by_tag-payload_size}
use roastery.Region.{read_values, read_object, read_primitive}
use roastery.Region.Constructor.{owned}

-- The bytes of all items.
abbrev pub concat : (JdwpValue → Bytes) → List JdwpValue → Bytes
concat item [] = []
concat item (v ∷ values) = item v ++ concat item values

read_values_done :
    (read : ℕ → Outcome JdwpValue) (fuel i limit step : ℕ)
    → limit ≤ i
    → read_values read (suc fuel) i limit step ≡ ok []
unfolding read_values
read_values_done read fuel i limit step h = rw (le→ltb_false i limit h, read_values)

read_values_round :
    (read : ℕ → Outcome JdwpValue) (fuel i limit step : ℕ) (v : JdwpValue)
    (values : List (Option JdwpValue))
    → i < limit
    → read i ≡ ok v
    → read_values read fuel (i + step) limit step ≡ ok values
    → read_values read (suc fuel) i limit step ≡ ok (some v ∷ values)
unfolding read_values
read_values_round read fuel i limit step v values h e e' =
    rw (lt→ltb i limit h, read_values) (rw (e, e'))

-- The reading loop over items of one size, each of which the loop's body reads where it stands.
module _ (P : JdwpValue → Type 0) (item : JdwpValue → Bytes) (step : ℕ)
    (read : Bytes → ℕ → Outcome JdwpValue) (step_pos : 0 < step)
    (item_size : (v : JdwpValue) → P v → length (item v) ≡ step)
    (reads : (v : JdwpValue) (front rest : Bytes) (i : ℕ)
      → P v
      → length front ≡ i
      → read (front ++ (item v ++ rest)) i ≡ ok v) where
  pub read_values-concat :
      (values : List JdwpValue) (encoded front rest : Bytes) (fuel i limit : ℕ)
      → All P values
      → encoded ≡ front ++ (concat item values ++ rest)
      → length front ≡ i
      → limit ≡ i + step * length values
      → length values < fuel
      → read_values (read encoded) fuel i limit step ≡ ok (owned values)
  read_values-concat values encoded front rest zero i limit h e f l m = absurd (omega arith)
  read_values-concat [] encoded front rest (suc fuel) i limit h e f l m =
      read_values_done (read encoded) fuel i limit step (omega arith)
  read_values-concat (v ∷ values) encoded front rest (suc fuel) i limit h e f l m =
      let regroup : encoded ≡ front ++ (item v ++ (concat item values ++ rest)) =
        e ∙ ap (λ r. front ++ r) (append_assoc (item v) (concat item values) rest) in
      read_values_round (read encoded) fuel i limit step v (owned values) (omega arith)
        (rw regroup (reads v front (concat item values ++ rest) i h.0 f))
        (read_values-concat values encoded (front ++ item v) rest fuel (i + step) limit h.1
          (regroup ∙ sym (append_assoc front (item v) (concat item values ++ rest)))
          (omega (arith, length-append front (item v), item_size v h.0)) (omega arith)
          (omega arith))

abbrev pub object_item : Con → JdwpValue → Bytes
object_item con v = tag_to_byte v.tag ∷ payload con v.value

abbrev pub primitive_item : Con → JdwpValue → Bytes
primitive_item con v = payload con v.value

-- A valid value of some object type.
abbrev pub IsObjectItem : Con → JdwpValue → Type 0
IsObjectItem con v = (tag_is_obj_type v.tag ≡ true) × IsValid con v.tag v.value

-- A valid value of the region's type.
abbrev pub IsPrimitiveItem : Con → JdwpTag → JdwpValue → Type 0
IsPrimitiveItem con t v = (v.tag ≡ t) × IsValid con t v.value

-- The tag is not void, and the values are those that a region with this tag holds.
pub data IsRegion (con : Con) : JdwpTag → List JdwpValue → Type 0 where
  objects :
      {t : JdwpTag} {values : List JdwpValue}
      → tag_is_obj_type t ≡ true
      → All (IsObjectItem con) values
      → IsRegion con t values
  primitives :
      {t : JdwpTag} {values : List JdwpValue} (size : ℕ)
      → tag_is_obj_type t ≡ false
      → get_size_by_tag t con ≡ ok size
      → 0 < size
      → All (IsPrimitiveItem con t) values
      → IsRegion con t values

pub read_object_item :
    (con : Con) (v : JdwpValue) (front rest : Bytes) (i : ℕ)
    → con.get_obj_id_size ≤ 8
    → IsObjectItem con v
    → length front ≡ i
    → read_object con (con.get_obj_id_size + 1) (front ++ (object_item con v ++ rest)) i ≡ ok v
unfolding read_object
read_object_item con v front rest i h (o, valid) e = rw (
  substr_from_next i front (object_item con v ++ rest) e,
  take-append (i + (con.get_obj_id_size + 1)) i (object_item con v) rest
      (omega (arith, length-payload con v.value, payload_size_object con valid o)),
  Value.RoundTrip.from_encoded-payload con v (take i rest) h valid,
)

pub read_primitive_item :
    (con : Con) (t : JdwpTag) (size : ℕ) (v : JdwpValue) (front rest : Bytes) (i : ℕ)
    → con.get_obj_id_size ≤ 8
    → get_size_by_tag t con ≡ ok size
    → IsPrimitiveItem con t v
    → length front ≡ i
    → read_primitive t con size (front ++ (primitive_item con v ++ rest)) i ≡ ok v
unfolding read_primitive
read_primitive_item con t size v front rest i h s (e, valid) e' =
    let size_eq : payload_size con v.value ≡ size =
      ok-injective (sym (get_size_by_tag-payload_size con t v.value valid) ∙ s) in
    rw
      (
        substr_from_next i front (payload con v.value ++ rest) e',
        take-append size 0 (payload con v.value) rest (omega (arith, length-payload con v.value)),
        Value.RoundTrip.from_encoded_as_untagged-payload con t v.value [] h valid,
      )
      (ap (λ t'. ok (record { tag = t'; value = v.value })) (sym e))

pub length-concat :
    (P : JdwpValue → Type 0) (item : JdwpValue → Bytes) (step : ℕ)
    → ((v : JdwpValue) → P v → length (item v) ≡ step)
    → (values : List JdwpValue) → All P values
    → length (concat item values) ≡ length values * step
length-concat P item step size [] h = omega arith
length-concat P item step size (v ∷ values) h = grind (
  arith,
  length-append (item v) (concat item values),
  size v h.0,
  length-concat P item step size values h.1,
)
