-- ===== src/Ids.antt =====
-- src/include/jdwp_type.hpp: `impl::JdwpVariableSizeFieldBase` and the ID types that derive from
-- it. An ID is a `uint64_t`; the connection gives the number of bytes that travel.
pub mod RoundTrip
pub mod Termination
use roastery.Prelude.{ℕ, zero, suc, ◌+◌, ◌*◌, [], ◌∷◌, ◌++◌, reverse, ltb, if◌then◌else◌}
use roastery.Outcome.{Outcome, ok, raised, undefined, jdwp_exception, ◌>>=◌}
use roastery.Bytes.{Bytes, read_range, memory_of, value_of}
use roastery.Numeric.{write_back}
use roastery.Con.{Con}

-- JdwpObjId to JdwpFrameId.
pub data IdType : Type 0 where
  obj_id thread_id thread_group_id string_id class_loader_id class_object_id array_id : IdType
  reference_type_id class_id interface_id array_type_id method_id field_id frame_id : IdType

-- `GetSize` of each type.
abbrev pub get_size : IdType → Con → ℕ
get_size method_id con = con.get_method_id_size
get_size field_id con = con.get_field_id_size
get_size frame_id con = con.get_frame_id_size
get_size _ con = con.get_obj_id_size

-- `value_bytes[i] = bytes[i]` for each byte: a byte too many is written behind the value.
unfoldable pub overwrite : Bytes → Bytes → Outcome Bytes
overwrite [] value_bytes = ok value_bytes
overwrite (b ∷ bytes) [] = undefined
overwrite (b ∷ bytes) (v ∷ value_bytes) = do rest ← overwrite bytes value_bytes; ok (b ∷ rest)

-- The number of bytes read, and the new value. Bytes of the value that are not read keep what
-- `value` held before the call.
unfoldable pub from_encoded : IdType → Con → ℕ → Bytes → Outcome (ℕ × ℕ)
unfolding overwrite
from_encoded t con value encoded = do
  let bytes_to_read = get_size t con
  bytes ← read_range 0 bytes_to_read encoded
  value_bytes ← overwrite (reverse bytes) (memory_of 8 value)
  ok (bytes_to_read, value_of value_bytes)

unfoldable pub serialize : IdType → Con → ℕ → Outcome Bytes
serialize t con value =
    let bytes_to_send = get_size t con in
    if ltb 8 bytes_to_send
    then raised (jdwp_exception "ID size too large")
    else ok (write_back bytes_to_send (memory_of 8 value))
