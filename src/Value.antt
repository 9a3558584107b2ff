-- ===== src/Value.antt =====
-- src/jdwp_type.cpp: `JdwpValue`, a tag and a variant, and the two functions on tags of that file.
pub mod Payload
pub mod RoundTrip
pub mod Termination
use roastery.Prelude.{ℕ, ◌+◌, Bool, true, false, [], ◌∷◌, if◌then◌else◌}
use roastery.Outcome.{Outcome, ok, raised, jdwp_exception, logic_error, ◌>>=◌}
use roastery.Bytes.{Bytes, char_at, substr_from}
use roastery.Con.{Con}
use roastery.Tags.{JdwpTag, tag_of_byte, tag_to_byte}
use roastery.Numeric
use roastery.Numeric.{Numeric, value_size}
use roastery.Ids

unfoldable pub get_size_by_tag : JdwpTag → Con → Outcome ℕ
get_size_by_tag JdwpTag.array con = ok con.get_obj_id_size
get_size_by_tag JdwpTag.object con = ok con.get_obj_id_size
get_size_by_tag JdwpTag.string con = ok con.get_obj_id_size
get_size_by_tag JdwpTag.thread con = ok con.get_obj_id_size
get_size_by_tag JdwpTag.thread_group con = ok con.get_obj_id_size
get_size_by_tag JdwpTag.class_loader con = ok con.get_obj_id_size
get_size_by_tag JdwpTag.class_object con = ok con.get_obj_id_size
get_size_by_tag JdwpTag.byte con = ok (value_size Numeric.byte)
get_size_by_tag JdwpTag.char con = ok (value_size Numeric.char)
get_size_by_tag JdwpTag.float con = ok (value_size Numeric.float)
get_size_by_tag JdwpTag.double con = ok (value_size Numeric.double)
get_size_by_tag JdwpTag.int con = ok (value_size Numeric.int)
get_size_by_tag JdwpTag.long con = ok (value_size Numeric.long)
get_size_by_tag JdwpTag.short con = ok (value_size Numeric.short)
get_size_by_tag JdwpTag.void con = ok 0
get_size_by_tag JdwpTag.boolean con = ok (value_size Numeric.bool)
get_size_by_tag (JdwpTag.other b) con = raised (logic_error "Unknown tag")

unfoldable pub tag_is_obj_type : JdwpTag → Bool
tag_is_obj_type JdwpTag.array = true
tag_is_obj_type JdwpTag.object = true
tag_is_obj_type JdwpTag.string = true
tag_is_obj_type JdwpTag.thread = true
tag_is_obj_type JdwpTag.thread_group = true
tag_is_obj_type JdwpTag.class_loader = true
tag_is_obj_type JdwpTag.class_object = true
tag_is_obj_type _ = false

-- The alternatives of the variant.
pub data JdwpVal : Type 0 where
  void_value : JdwpVal
  bool byte char float double int long short obj_id : ℕ → JdwpVal

pub record JdwpValue : Type 0 where
  pub tag : JdwpTag
  pub value : JdwpVal

-- `this->value = JdwpObjId()` has the value 0 before it is read.
read_obj_id : Con → Bytes → Outcome JdwpVal
read_obj_id con encoded = do (_, v) ← Ids.from_encoded Ids.obj_id con 0 encoded; ok (obj_id v)

-- One case of the switch, and the visit behind it.
read_numeric : Numeric → (ℕ → JdwpVal) → JdwpTag → Bytes → Outcome (ℕ × JdwpValue)
read_numeric n alternative t encoded = do
  (_, v) ← Numeric.from_encoded n encoded
  ok (value_size n, record { tag = t; value = alternative v })

read_switch : JdwpTag → Bytes → Outcome (ℕ × JdwpValue)
unfolding read_numeric
read_switch JdwpTag.boolean encoded = read_numeric Numeric.bool bool JdwpTag.boolean encoded
read_switch JdwpTag.byte encoded = read_numeric Numeric.byte byte JdwpTag.byte encoded
read_switch JdwpTag.char encoded = read_numeric Numeric.char char JdwpTag.char encoded
read_switch JdwpTag.float encoded = read_numeric Numeric.float float JdwpTag.float encoded
read_switch JdwpTag.double encoded = read_numeric Numeric.double double JdwpTag.double encoded
read_switch JdwpTag.int encoded = read_numeric Numeric.int int JdwpTag.int encoded
read_switch JdwpTag.long encoded = read_numeric Numeric.long long JdwpTag.long encoded
read_switch JdwpTag.short encoded = read_numeric Numeric.short short JdwpTag.short encoded
read_switch _ encoded = raised (jdwp_exception "Unknown Tag")

read_object : JdwpTag → Con → Bytes → Outcome (ℕ × JdwpValue)
unfolding read_obj_id
read_object t con encoded = do
  v ← read_obj_id con encoded
  ok (con.get_obj_id_size, record { tag = t; value = v })

-- Both fields of the object are set on every path that returns.
unfoldable pub from_encoded_as_untagged : JdwpTag → Con → Bytes → Outcome (ℕ × JdwpValue)
unfolding tag_is_obj_type read_object read_switch
from_encoded_as_untagged JdwpTag.void con encoded =
    ok (0, record { tag = JdwpTag.void; value = void_value })
from_encoded_as_untagged t con encoded =
    if tag_is_obj_type t then read_object t con encoded else read_switch t encoded

-- The tag does not choose the bytes that are written: the alternative does.
unfoldable pub serialize_as_untagged : JdwpVal → Con → Outcome Bytes
serialize_as_untagged void_value con = ok []
serialize_as_untagged (bool v) con = ok (Numeric.serialize Numeric.bool v)
serialize_as_untagged (byte v) con = ok (Numeric.serialize Numeric.byte v)
serialize_as_untagged (char v) con = ok (Numeric.serialize Numeric.char v)
serialize_as_untagged (float v) con = ok (Numeric.serialize Numeric.float v)
serialize_as_untagged (double v) con = ok (Numeric.serialize Numeric.double v)
serialize_as_untagged (int v) con = ok (Numeric.serialize Numeric.int v)
serialize_as_untagged (long v) con = ok (Numeric.serialize Numeric.long v)
serialize_as_untagged (short v) con = ok (Numeric.serialize Numeric.short v)
serialize_as_untagged (obj_id v) con = Ids.serialize Ids.obj_id con v

unfoldable pub serialize : JdwpValue → Con → Outcome Bytes
serialize this con = do
  bytes ← serialize_as_untagged this.value con
  ok (tag_to_byte this.tag ∷ bytes)

unfoldable pub from_encoded : Con → Bytes → Outcome (ℕ × JdwpValue)
unfolding char_at substr_from
from_encoded con encoded = do
  b ← char_at encoded 0
  rest ← substr_from 1 encoded
  (untagged_size, this) ← from_encoded_as_untagged (tag_of_byte b) con rest
  ok (1 + untagged_size, this)
