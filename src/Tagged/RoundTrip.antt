-- ===== src/Tagged/RoundTrip.antt =====
-- When a tagged object ID is read back, and when it is not.
use roastery.Prelude.{ℕ, ◌+◌, ◌≤◌, ◌<◌, ◌≡◌, ◌∷◌, ◌++◌, length, All, ap, ◌∙◌, arith, append-nil}
use roastery.Outcome.{ok, undefined}
use roastery.Bytes.{Bytes, c_string, big_endian}
use roastery.Bytes.Reads.{c_string-append}
use roastery.Bytes.Words.{length-big_endian}
use roastery.Con.{Con}
use roastery.Tags.{IsNamed, tag_to_byte, tag_of_byte-tag_to_byte}
use roastery.Ids.{obj_id}
use roastery.Ids.RoundTrip
use roastery.Tagged.{JdwpTaggedObjectId, from_encoded, serialize}

-- The bytes that a tagged object ID is sent as.
pub serialize_lem :
    (this : JdwpTaggedObjectId) (con : Con)
    → con.get_obj_id_size ≤ 8
    → serialize this con ≡ ok (tag_to_byte this.tag ∷ big_endian con.get_obj_id_size this.obj_id)
unfolding serialize
serialize_lem this con h = rw (RoundTrip.serialize-big_endian obj_id con this.obj_id h)

-- A tagged object ID with a named tag, whose ID fits a size of at most 8 bytes and has no byte
-- that is zero in that size, is sent, and read back into an object whose ID is clear, and what
-- follows it is left.
pub from_encoded-serialize_tagged :
    (this old : JdwpTaggedObjectId) (con : Con) (rest : Bytes)
    → con.get_obj_id_size ≤ 8
    → IsNamed this.tag
    → RoundTrip.Fits obj_id con this.obj_id
    → RoundTrip.Fits obj_id con old.obj_id
    → All (λ b. 0 < b) (big_endian con.get_obj_id_size this.obj_id)
    → (bs : Bytes) × (serialize this con ≡ ok bs)
      × (from_encoded old con (bs ++ rest) ≡ ok (length bs, this))
from_encoded-serialize_tagged this old con rest h named fits fits_old nonzero = (
  tag_to_byte this.tag ∷ id_bytes,
  serialize_lem this con h,
  read_back ∙ ap (λ (n : ℕ). ok (n, this)) counted,
)
  where
    id_bytes : Bytes
    id_bytes = big_endian con.get_obj_id_size this.obj_id

    counted : 1 + con.get_obj_id_size ≡ length (tag_to_byte this.tag ∷ id_bytes)
    counted = omega (arith, length-big_endian con.get_obj_id_size this.obj_id)

    read_back :
        from_encoded old con (tag_to_byte this.tag ∷ id_bytes ++ rest)
        ≡ ok (1 + con.get_obj_id_size, this)
    read_back =
        unfold from_encoded in
        rw (
          c_string-append id_bytes rest nonzero,
          RoundTrip.from_encoded-Fits obj_id con this.obj_id old.obj_id (c_string rest) h fits
              fits_old,
          tag_of_byte-tag_to_byte this.tag named,
        )

-- A tagged object ID whose first zero byte stands before the last byte of the ID is not read: the
-- string that the ID is read from ends there, and the read goes on behind it, which is undefined.
pub from_encoded_zero_byte :
    (old : JdwpTaggedObjectId) (con : Con) (tag : ℕ) (front back : Bytes)
    → All (λ b. 0 < b) front
    → length front + 1 < con.get_obj_id_size
    → from_encoded old con (tag ∷ (front ++ (0 ∷ back))) ≡ undefined
unfolding from_encoded
from_encoded_zero_byte old con tag front back nonzero short = rw (
  c_string-append front (0 ∷ back) nonzero,
  append-nil,
  RoundTrip.from_encoded_short obj_id con old.obj_id front short,
)
