-- ===== src/Region/RoundTrip.antt =====
-- Array regions are sent and read back.
use roastery.Prelude.{
  ℕ, suc, ◌+◌, ◌*◌, ◌%◌, ◌^◌, ◌≤◌, ◌<◌, ◌≡◌, refl, sym, ◌∙◌, ap, true, false, some, List, [], ◌∷◌,
  ◌++◌, arith, length, length-append, append_assoc, All,
}
use roastery.Outcome.{ok, ok-injective}
use roastery.Bytes.{Bytes, big_endian}
use roastery.Bytes.Words.{length-big_endian}
use roastery.HostOrder.Laws.{memory_of-htonl, read_ntohl_next}
use roastery.Con.{Con}
use roastery.Tags.{JdwpTag, IsNamed, tag_to_byte, tag_of_byte-tag_to_byte}
use roastery.Value
use roastery.Value.{JdwpValue, get_size_by_tag, tag_is_obj_type}
use roastery.Value.Payload.{IsValid, length-payload, payload_size, size_of_object}
use roastery.Value.RoundTrip.{payload_size_object, get_size_by_tag-payload_size}
use roastery.Region.{
  JdwpArrayRegion, read_object, read_primitive, read_body, from_encoded, serialize_items, serialize,
}
use roastery.Region.Constructor.{owned, length-owned}
use roastery.Region.Items.{
  concat, object_item, primitive_item, IsObjectItem, IsPrimitiveItem, IsRegion, objects, primitives,
  read_object_item, read_primitive_item, read_values-concat, length-concat,
}

-- A region whose pointers are not null.
abbrev pub region : JdwpTag → List JdwpValue → JdwpArrayRegion
region t values = record { tag = t; values = some (owned values) }

-- The bytes of a region: the tag, the number of values, and the items.
abbrev pub encoding : JdwpTag → List JdwpValue → Bytes → Bytes
encoding t values items = tag_to_byte t ∷ (big_endian 4 (length values) ++ items)

sized_IsNamed : (con : Con) (t : JdwpTag) (size : ℕ) → get_size_by_tag t con ≡ ok size → IsNamed t
unfolding get_size_by_tag
sized_IsNamed con (JdwpTag.other b) size h = cc
sized_IsNamed con JdwpTag.array size h = tt
sized_IsNamed con _ size h = tt

-- The header is read, and the body is left to the loops.
read_header :
    (con : Con) (t : JdwpTag) (size : ℕ) (values : List JdwpValue) (items : Bytes)
    → get_size_by_tag t con ≡ ok size
    → length values < 2 ^ 32
    → from_encoded con (encoding t values items)
      ≡ read_body (tag_is_obj_type t) t con (length values) size (encoding t values items)
unfolding from_encoded
read_header con t size values items s h = rw (
  tag_of_byte-tag_to_byte t (sized_IsNamed con t size s),
  read_ntohl_next 1 (length values) (tag_to_byte t ∷ []) items refl h,
  s,
)

length-encoding :
    (t : JdwpTag) (values : List JdwpValue) (items : Bytes) (n : ℕ)
    → length items ≡ n
    → 1 + 4 + n ≡ length (encoding t values items)
length-encoding t values items n e =
    omega (
      arith,
      length-append (big_endian 4 (length values)) items,
      length-big_endian 4 (length values),
    )

object_size :
    (con : Con) (v : JdwpValue)
    → IsObjectItem con v
    → length (object_item con v) ≡ con.get_obj_id_size + 1
object_size con v (o, valid) =
    omega (arith, length-payload con v.value, payload_size_object con valid o)

primitive_size :
    (con : Con) (t : JdwpTag) (size : ℕ)
    → get_size_by_tag t con ≡ ok size
    → (v : JdwpValue) → IsPrimitiveItem con t v
    → length (primitive_item con v) ≡ size
primitive_size con t size s v (e, valid) =
    length-payload con v.value
    ∙ ok-injective (sym (get_size_by_tag-payload_size con t v.value valid) ∙ s)

module _ (con : Con) (t : JdwpTag) (values : List JdwpValue) (rest : Bytes)
    (supported : con.get_obj_id_size ≤ 8) (few : length values < 2 ^ 32) where
  read_objects :
      tag_is_obj_type t ≡ true
      → All (IsObjectItem con) values
      → from_encoded con (encoding t values (concat (object_item con) values ++ rest))
        ≡ ok (length (encoding t values (concat (object_item con) values)), region t values)
  unfolding read_body
  read_objects o h =
      let k : ℕ = con.get_obj_id_size + 1 in
      let front : Bytes = tag_to_byte t ∷ big_endian 4 (length values) in
      let items : Bytes = concat (object_item con) values in
      read_header con t con.get_obj_id_size values (items ++ rest) (size_of_object con t o) few
      ∙ rw
          (
            o,
            read_values-concat (IsObjectItem con) (object_item con) k (read_object con k)
                (omega arith) (object_size con)
                (λ v f r i p e. read_object_item con v f r i supported p e) values
                (encoding t values (items ++ rest)) front rest (suc (length values)) 5
                (5 + k * length values) h refl (ap suc (length-big_endian 4 (length values))) refl
                (omega arith),
          )
          (ap (λ (m : ℕ). ok (m, region t values))
            (length-encoding t values items (length values * k)
              (length-concat (IsObjectItem con) (object_item con) k (object_size con) values h)))

  read_primitives :
      (size : ℕ)
      → tag_is_obj_type t ≡ false
      → get_size_by_tag t con ≡ ok size
      → 0 < size
      → All (IsPrimitiveItem con t) values
      → from_encoded con (encoding t values (concat (primitive_item con) values ++ rest))
        ≡ ok (length (encoding t values (concat (primitive_item con) values)), region t values)
  unfolding read_body
  read_primitives size o s pos h =
      let front : Bytes = tag_to_byte t ∷ big_endian 4 (length values) in
      let items : Bytes = concat (primitive_item con) values in
      read_header con t size values (items ++ rest) s few
      ∙ rw
          (
            o,
            read_values-concat (IsPrimitiveItem con t) (primitive_item con) size
                (read_primitive t con size) pos (primitive_size con t size s)
                (λ v f r i p e. read_primitive_item con t size v f r i supported s p e) values
                (encoding t values (items ++ rest)) front rest (suc (length values)) 5
                (5 + size * length values) h refl (ap suc (length-big_endian 4 (length values)))
                refl (omega arith),
          )
          (ap (λ (m : ℕ). ok (m, region t values))
            (length-encoding t values items (length values * size) (
              length-concat (IsPrimitiveItem con t) (primitive_item con) size
                (primitive_size con t size s) values h)))

module _ (con : Con) (t : JdwpTag) (supported : con.get_obj_id_size ≤ 8) where
  serialize_objects :
      tag_is_obj_type t ≡ true
      → (values : List JdwpValue)
      → serialize_items t con (owned values) ≡ ok (concat (object_item con) values)
  unfolding serialize_items
  serialize_objects o [] = refl
  serialize_objects o (v ∷ values) =
      rw (o, Value.RoundTrip.serialize_lem con v supported, serialize_objects o values)

  serialize_primitives :
      tag_is_obj_type t ≡ false
      → (values : List JdwpValue)
      → serialize_items t con (owned values) ≡ ok (concat (primitive_item con) values)
  unfolding serialize_items
  serialize_primitives o [] = refl
  serialize_primitives o (v ∷ values) = rw (
    o,
    Value.Payload.serialize_as_untagged_lem con v.value supported,
    serialize_primitives o values,
  )

  sent :
      (values : List JdwpValue) (items : Bytes)
      → length values < 2 ^ 32
      → serialize_items t con (owned values) ≡ ok items
      → serialize (region t values) con ≡ ok (encoding t values items)
  unfolding serialize
  sent values items few e =
      rw (e, length-owned values, memory_of-htonl (length values % 2 ^ 32), cut)
    where
      cut : length values % 2 ^ 32 ≡ length values
      cut = omega arith

-- A region of fewer than 2 ^ 32 values, valid tagged objects or valid values of the region's type
-- other than void, is sent and read back whole, and what follows it is left, if the size of object
-- IDs is at most 8 bytes.
pub from_encoded-serialize_array_region :
    (con : Con) (t : JdwpTag) (values : List JdwpValue) (rest : Bytes)
    → con.get_obj_id_size ≤ 8
    → length values < 2 ^ 32
    → IsRegion con t values
    → (bs : Bytes) × (serialize (region t values) con ≡ ok bs)
      × (from_encoded con (bs ++ rest) ≡ ok (length bs, region t values))
from_encoded-serialize_array_region con t values rest h few (objects o all_objects) =
    let items : Bytes = concat (object_item con) values in
    (
      encoding t values items,
      sent con t h values items few (serialize_objects con t h o values),
      rw (append_assoc (big_endian 4 (length values)) items rest)
          (read_objects con t values rest h few o all_objects),
    )
from_encoded-serialize_array_region con t values rest h few
      (primitives size o s pos all_primitives) =
    let items : Bytes = concat (primitive_item con) values in
    (
      encoding t values items,
      sent con t h values items few (serialize_primitives con t h o values),
      rw (append_assoc (big_endian 4 (length values)) items rest)
          (read_primitives con t values rest h few size o s pos all_primitives),
    )
