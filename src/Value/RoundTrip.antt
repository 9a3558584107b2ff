-- ===== src/Value/RoundTrip.antt =====
-- Values are sent, with and without their tag, and read back.
use roastery.Prelude.{
  ℕ, suc, ◌+◌, ◌^◌, ◌≤◌, ◌<◌, ◌≡◌, refl, ◌∙◌, ap, true, ◌∷◌, ◌++◌, arith, length,
}
use roastery.Outcome.{ok}
use roastery.Bytes.{Bytes, big_endian}
use roastery.Con.{Con}
use roastery.Tags.{JdwpTag, IsNamed, tag_to_byte, tag_of_byte-tag_to_byte}
use roastery.Numeric
use roastery.Numeric.{Numeric, value_size}
use roastery.Ids
use roastery.Ids.RoundTrip.{Fits, from_encoded-Fits}
use roastery.Value.{
  JdwpVal, JdwpValue, bool, byte, char, float, double, int, long, short, obj_id, tag_is_obj_type,
  get_size_by_tag, from_encoded_as_untagged, serialize, from_encoded, read_object, read_numeric,
}
use roastery.Value.Payload.{
  IsValid, payload, serialize_as_untagged_lem, size_of_object, payload_size, length-payload,
  is_void, is_bool, is_byte, is_char, is_float, is_double, is_int, is_long, is_short, is_object,
}

untagged_object :
    (t : JdwpTag) (con : Con) (encoded : Bytes)
    → tag_is_obj_type t ≡ true
    → from_encoded_as_untagged t con encoded ≡ read_object t con encoded
unfolding from_encoded_as_untagged
untagged_object JdwpTag.array con encoded h = refl
untagged_object JdwpTag.object con encoded h = refl
untagged_object JdwpTag.string con encoded h = refl
untagged_object JdwpTag.thread con encoded h = refl
untagged_object JdwpTag.thread_group con encoded h = refl
untagged_object JdwpTag.class_loader con encoded h = refl
untagged_object JdwpTag.class_object con encoded h = refl
untagged_object _ con encoded h = cc

numeric_read :
    (n : Numeric) (alternative : ℕ → JdwpVal) (t : JdwpTag) (v : ℕ) (rest : Bytes)
    → v < 256 ^ value_size n
    → read_numeric n alternative t (big_endian (value_size n) v ++ rest)
      ≡ ok (value_size n, record { tag = t; value = alternative v })
unfolding read_numeric
numeric_read n alternative t v rest h = rw (Numeric.RoundTrip.from_encoded-big_endian n v rest h)

-- For a valid value under its tag, the size that the reader of array regions works with is the
-- size of the value's payload.
pub get_size_by_tag-payload_size :
    (con : Con) (t : JdwpTag) (val : JdwpVal)
    → IsValid con t val
    → get_size_by_tag t con ≡ ok (payload_size con val)
unfolding get_size_by_tag
get_size_by_tag-payload_size con t val is_void = refl
get_size_by_tag-payload_size con t val (is_bool f) = refl
get_size_by_tag-payload_size con t val (is_byte f) = refl
get_size_by_tag-payload_size con t val (is_char f) = refl
get_size_by_tag-payload_size con t val (is_float f) = refl
get_size_by_tag-payload_size con t val (is_double f) = refl
get_size_by_tag-payload_size con t val (is_int f) = refl
get_size_by_tag-payload_size con t val (is_long f) = refl
get_size_by_tag-payload_size con t val (is_short f) = refl
get_size_by_tag-payload_size con t val (is_object o f) = size_of_object con t o

object_read :
    (con : Con) (t : JdwpTag) (v : ℕ) (rest : Bytes)
    → con.get_obj_id_size ≤ 8
    → Fits Ids.obj_id con v
    → read_object t con (big_endian con.get_obj_id_size v ++ rest)
      ≡ ok (con.get_obj_id_size, record { tag = t; value = obj_id v })
unfolding read_object
object_read con t v rest h f = rw (from_encoded-Fits Ids.obj_id con v 0 rest h f (omega (arith, f)))

-- A valid value is read from its payload under its tag, and what follows is left, if the size of
-- object IDs is at most 8 bytes.
pub from_encoded_as_untagged-payload :
    (con : Con) (t : JdwpTag) (val : JdwpVal) (rest : Bytes)
    → con.get_obj_id_size ≤ 8
    → IsValid con t val
    → from_encoded_as_untagged t con (payload con val ++ rest)
      ≡ ok (payload_size con val, record { tag = t; value = val })
unfolding from_encoded_as_untagged
from_encoded_as_untagged-payload con t val rest h is_void = refl
from_encoded_as_untagged-payload con t val rest h (is_bool {v} f) =
    numeric_read Numeric.bool bool JdwpTag.boolean v rest f
from_encoded_as_untagged-payload con t val rest h (is_byte {v} f) =
    numeric_read Numeric.byte byte JdwpTag.byte v rest f
from_encoded_as_untagged-payload con t val rest h (is_char {v} f) =
    numeric_read Numeric.char char JdwpTag.char v rest f
from_encoded_as_untagged-payload con t val rest h (is_float {v} f) =
    numeric_read Numeric.float float JdwpTag.float v rest f
from_encoded_as_untagged-payload con t val rest h (is_double {v} f) =
    numeric_read Numeric.double double JdwpTag.double v rest f
from_encoded_as_untagged-payload con t val rest h (is_int {v} f) =
    numeric_read Numeric.int int JdwpTag.int v rest f
from_encoded_as_untagged-payload con t val rest h (is_long {v} f) =
    numeric_read Numeric.long long JdwpTag.long v rest f
from_encoded_as_untagged-payload con t val rest h (is_short {v} f) =
    numeric_read Numeric.short short JdwpTag.short v rest f
from_encoded_as_untagged-payload con t val rest h (is_object {v = v} o f) =
    untagged_object t con _ o ∙ object_read con t v rest h f

IsValid-IsNamed : {con : Con} {t : JdwpTag} {val : JdwpVal} → IsValid con t val → IsNamed t
IsValid-IsNamed is_void = tt
IsValid-IsNamed (is_bool f) = tt
IsValid-IsNamed (is_byte f) = tt
IsValid-IsNamed (is_char f) = tt
IsValid-IsNamed (is_float f) = tt
IsValid-IsNamed (is_double f) = tt
IsValid-IsNamed (is_int f) = tt
IsValid-IsNamed (is_long f) = tt
IsValid-IsNamed (is_short f) = tt
IsValid-IsNamed (is_object {t} o f) = object_IsNamed t o
  where
    object_IsNamed : (t : JdwpTag) → tag_is_obj_type t ≡ true → IsNamed t
    object_IsNamed (JdwpTag.other b) h = unfold tag_is_obj_type in cc
    object_IsNamed JdwpTag.array h = tt
    object_IsNamed _ h = tt

-- A valid value is read back from its tag and its bytes.
pub from_encoded-payload :
    (con : Con) (this : JdwpValue) (rest : Bytes)
    → con.get_obj_id_size ≤ 8
    → IsValid con this.tag this.value
    → from_encoded con (tag_to_byte this.tag ∷ (payload con this.value ++ rest))
      ≡ ok (1 + payload_size con this.value, this)
unfolding from_encoded
from_encoded-payload con this rest h v = rw (
  tag_of_byte-tag_to_byte this.tag (IsValid-IsNamed v),
  from_encoded_as_untagged-payload con this.tag this.value rest h v,
)

-- The bytes that a value is sent as, with its tag.
pub serialize_lem :
    (con : Con) (this : JdwpValue)
    → con.get_obj_id_size ≤ 8
    → serialize this con ≡ ok (tag_to_byte this.tag ∷ payload con this.value)
unfolding serialize
serialize_lem con this h = rw (serialize_as_untagged_lem con this.value h)

-- A valid value is sent with its tag and read back, and what follows it is left, if the size of
-- object IDs is at most 8 bytes.
pub from_encoded-serialize_value :
    (con : Con) (this : JdwpValue) (rest : Bytes)
    → con.get_obj_id_size ≤ 8
    → IsValid con this.tag this.value
    → (bs : Bytes) × (serialize this con ≡ ok bs)
      × (from_encoded con (bs ++ rest) ≡ ok (length bs, this))
from_encoded-serialize_value con this rest h v = (
  tag_to_byte this.tag ∷ payload con this.value,
  serialize_lem con this h,
  from_encoded-payload con this rest h v ∙ ap (λ (n : ℕ). ok (n, this)) counted,
)
  where
    counted : 1 + payload_size con this.value ≡ suc (length (payload con this.value))
    counted = omega (arith, length-payload con this.value)

-- An object value has the size of an object ID.
pub payload_size_object :
    (con : Con) {t : JdwpTag} {val : JdwpVal}
    → IsValid con t val
    → tag_is_obj_type t ≡ true
    → payload_size con val ≡ con.get_obj_id_size
unfolding tag_is_obj_type
payload_size_object con is_void o = cc
payload_size_object con (is_bool f) o = cc
payload_size_object con (is_byte f) o = cc
payload_size_object con (is_char f) o = cc
payload_size_object con (is_float f) o = cc
payload_size_object con (is_double f) o = cc
payload_size_object con (is_int f) o = cc
payload_size_object con (is_long f) o = cc
payload_size_object con (is_short f) o = cc
payload_size_object con (is_object o' f) o = refl
