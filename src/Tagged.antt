-- ===== src/Tagged.antt =====
-- src/jdwp_type.cpp: `JdwpTaggedObjectId`.
pub mod RoundTrip
use roastery.Prelude.{ℕ, zero, suc, ◌+◌, ◌∷◌}
use roastery.Outcome.{Outcome, ok, ◌>>=◌}
use roastery.Bytes.{Bytes, char_at, read_c_string}
use roastery.Con.{Con}
use roastery.Tags.{JdwpTag, tag_of_byte, tag_to_byte}
use roastery.Ids
use roastery.Ids.{obj_id}

pub record JdwpTaggedObjectId : Type 0 where
  pub tag : JdwpTag
  pub obj_id : ℕ

-- `FromEncoded(&data_arr[1], con)` passes a pointer where a string is expected, so the string ends
-- before the first zero byte of the ID.
unfoldable pub from_encoded : JdwpTaggedObjectId → Con → Bytes → Outcome (ℕ × JdwpTaggedObjectId)
unfolding char_at read_c_string
from_encoded this con encoded = do
  b ← char_at encoded 0
  rest ← read_c_string 1 encoded
  (obj_id_size, new_id) ← Ids.from_encoded obj_id con this.obj_id rest
  ok (1 + obj_id_size, record { tag = tag_of_byte b; obj_id = new_id })

unfoldable pub serialize : JdwpTaggedObjectId → Con → Outcome Bytes
serialize this con = do
  bytes ← Ids.serialize obj_id con this.obj_id
  ok (tag_to_byte this.tag ∷ bytes)
