-- ===== src/Location.antt =====
-- src/jdwp_type.cpp: `JdwpLocation`.
pub mod RoundTrip
use roastery.Prelude.{ℕ, ◌+◌, ◌∷◌, ◌++◌}
use roastery.Outcome.{Outcome, ok, ◌>>=◌}
use roastery.Bytes.{Bytes, char_at, read_range, memory_of}
use roastery.HostOrder.{htonll, read_ntohll}
use roastery.Con.{Con}
use roastery.Tags.{JdwpTypeTag, type_tag_of_byte, type_tag_to_byte}
use roastery.Ids
use roastery.Ids.{class_id, method_id}

pub record JdwpLocation : Type 0 where
  pub type_tag : JdwpTypeTag
  pub class_value : ℕ
  pub method_value : ℕ
  pub index : ℕ

unfoldable pub from_encoded : JdwpLocation → Con → Bytes → Outcome (ℕ × JdwpLocation)
unfolding char_at
from_encoded this con encoded = do
  b ← char_at encoded 0
  let obj_id_size = con.get_obj_id_size
  let method_id_size = con.get_method_id_size
  class_bytes ← read_range 1 obj_id_size encoded
  (class_size, new_class) ← Ids.from_encoded class_id con this.class_value class_bytes
  method_bytes ← read_range (1 + obj_id_size) method_id_size encoded
  (method_size, new_method) ← Ids.from_encoded method_id con this.method_value method_bytes
  new_index ← read_ntohll (1 + obj_id_size + method_id_size) encoded
  ok (
    1 + class_size + method_size + 8,
    record {
      type_tag = type_tag_of_byte b;
      class_value = new_class;
      method_value = new_method;
      index = new_index;
    },
  )

unfoldable pub serialize : JdwpLocation → Con → Outcome Bytes
serialize this con = do
  class_bytes ← Ids.serialize class_id con this.class_value
  method_bytes ← Ids.serialize method_id con this.method_value
  ok (
      type_tag_to_byte this.type_tag
      ∷ (class_bytes ++ (method_bytes ++ memory_of 8 (htonll this.index))))
