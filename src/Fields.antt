-- ===== src/Fields.antt =====
-- src/include/jdwp_packet.hpp: tuples of fields and vectors of them, as packets and events hold
-- them, `impl::TupleForEach` over them, and the field types' virtual `Serialize` and `FromEncoded`.
pub mod Valid
pub mod RoundTrip
pub mod Body
use roastery.Prelude.{ℕ, ◌+◌, ◌%◌, ◌^◌, List, [], ◌∷◌, ◌++◌, length}
use roastery.Outcome.{Outcome, ok, ◌>>=◌}
use roastery.Bytes.{Bytes, substr_from}
use roastery.Con.{Con}
use roastery.Numeric
use roastery.Numeric.{Numeric, assign}
use roastery.Ids
use roastery.Ids.{IdType}
use roastery.Tagged
use roastery.Tagged.{JdwpTaggedObjectId}
use roastery.Location
use roastery.Location.{JdwpLocation}
use roastery.Text
use roastery.Value
use roastery.Value.{JdwpValue}
use roastery.Region
use roastery.Region.{JdwpArrayRegion}

-- The implementations of `IJdwpField`.
pub data FieldType : Type 0 where
  numeric : Numeric → FieldType
  id : IdType → FieldType
  tagged_object_id location string value array_region : FieldType

abbrev pub Field : FieldType → Type 0
Field (numeric n) = ℕ
Field (id t) = ℕ
Field tagged_object_id = JdwpTaggedObjectId
Field location = JdwpLocation
Field string = Bytes
Field value = JdwpValue
Field array_region = JdwpArrayRegion

unfoldable pub serialize_field : (t : FieldType) → Field t → Con → Outcome Bytes
serialize_field (numeric n) v con = ok (Numeric.serialize n v)
serialize_field (id t) v con = Ids.serialize t con v
serialize_field tagged_object_id v con = Tagged.serialize v con
serialize_field location v con = Location.serialize v con
serialize_field string v con = ok (Text.serialize v)
serialize_field value v con = Value.serialize v con
serialize_field array_region v con = Region.serialize v con

-- The number of bytes read, and the new field; `old` is what the field held before.
unfoldable pub field_from_encoded : (t : FieldType) → Field t → Con → Bytes → Outcome (ℕ × Field t)
field_from_encoded (numeric n) old con encoded = Numeric.from_encoded n encoded
field_from_encoded (id t) old con encoded = Ids.from_encoded t con old encoded
field_from_encoded tagged_object_id old con encoded = Tagged.from_encoded old con encoded
field_from_encoded location old con encoded = Location.from_encoded old con encoded
field_from_encoded string old con encoded = Text.from_encoded encoded
field_from_encoded value old con encoded = Value.from_encoded con encoded
field_from_encoded array_region old con encoded = Region.from_encoded con encoded

-- `std::tuple` of fields.
abbrev pub Tuple : List FieldType → Type 0
Tuple [] = Unit {0}
Tuple (t ∷ ts) = Field t × Tuple ts

-- `TupleForEach(tuple, ...)` with a body that writes the field's serialization.
unfoldable pub serialize_tuple : (ts : List FieldType) → Tuple ts → Con → Outcome Bytes
unfolding serialize_field
serialize_tuple [] tuple con = ok []
serialize_tuple (t ∷ ts) (v, tuple) con = do
  bytes ← serialize_field t v con
  rest ← serialize_tuple ts tuple con
  ok (bytes ++ rest)

-- `TupleForEach` with the body of `EventBase::FromEncodedImpl`: each field is read from the index
-- that those before it have reached.
unfoldable pub tuple_from_encoded :
    (ts : List FieldType) → Tuple ts → Con → Bytes → ℕ → Outcome (ℕ × Tuple ts)
unfolding field_from_encoded substr_from
tuple_from_encoded [] old con encoded curr_idx = ok (curr_idx, tt)
tuple_from_encoded (t ∷ ts) (old, olds) con encoded curr_idx = do
  part ← substr_from curr_idx encoded
  (size, v) ← field_from_encoded t old con part
  (end_idx, vs) ← tuple_from_encoded ts olds con encoded (curr_idx + size)
  ok (end_idx, (v, vs))

-- An element of a command's `Fields`: a field, or a vector of tuples.
pub data Element : Type 0 where
  single : FieldType → Element
  vector : List FieldType → Element

abbrev pub ElementValue : Element → Type 0
ElementValue (single t) = Field t
ElementValue (vector ts) = List (Tuple ts)

unfoldable pub serialize_tuples : (ts : List FieldType) → List (Tuple ts) → Con → Outcome Bytes
unfolding serialize_tuple
serialize_tuples ts [] con = ok []
serialize_tuples ts (tuple ∷ tuples) con = do
  bytes ← serialize_tuple ts tuple con
  rest ← serialize_tuples ts tuples con
  ok (bytes ++ rest)

-- `RecursiveSerialize`: a vector has its length, a `JdwpInt`, in front.
unfoldable pub serialize_element : (e : Element) → ElementValue e → Con → Outcome Bytes
unfolding serialize_tuples
serialize_element (single t) v con = serialize_field t v con
serialize_element (vector ts) tuples con = do
  items ← serialize_tuples ts tuples con
  ok (Numeric.serialize Numeric.int (assign Numeric.int (length tuples)) ++ items)

abbrev pub Elements : List Element → Type 0
Elements [] = Unit {0}
Elements (e ∷ es) = ElementValue e × Elements es

unfoldable pub serialize_elements : (es : List Element) → Elements es → Con → Outcome Bytes
unfolding serialize_element
serialize_elements [] vs con = ok []
serialize_elements (e ∷ es) (v, vs) con = do
  bytes ← serialize_element e v con
  rest ← serialize_elements es vs con
  ok (bytes ++ rest)
