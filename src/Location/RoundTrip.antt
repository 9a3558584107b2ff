-- ===== src/Location/RoundTrip.antt =====
-- Locations are sent and read back.
use roastery.Prelude.{
  ℕ, ◌+◌, ◌^◌, ◌≤◌, ◌<◌, ◌≡◌, refl, ap, sym, ◌∙◌, [], ◌∷◌, ◌++◌, arith, length, append_assoc,
  length-append,
}
use roastery.Outcome.{ok}
use roastery.HostOrder.{read_ntohll}
use roastery.Bytes.{Bytes, read_range, big_endian}
use roastery.Bytes.Reads.{read_range_next}
use roastery.Bytes.Words.{length-big_endian}
use roastery.HostOrder.Laws.{memory_of-htonll, read_ntohll_next}
use roastery.Con.{Con}
use roastery.Tags.{IsNamedType, type_tag_to_byte, type_tag_of_byte-to_byte}
use roastery.Ids.{class_id, method_id}
use roastery.Ids.RoundTrip
use roastery.Ids.RoundTrip.{Fits}
use roastery.Location.{JdwpLocation, from_encoded, serialize}

-- The IDs of the location fit the connection's sizes, which fit 64 bits, and the index fits too.
pub record IsValid (con : Con) (this : JdwpLocation) : Type 0 where
  pub class_size : con.get_obj_id_size ≤ 8
  pub method_size : con.get_method_id_size ≤ 8
  pub class_fits : Fits class_id con this.class_value
  pub method_fits : Fits method_id con this.method_value
  pub index_fits : this.index < 2 ^ 64

abbrev pub encoding : Con → JdwpLocation → Bytes
encoding con this =
    type_tag_to_byte this.type_tag
    ∷ (big_endian con.get_obj_id_size this.class_value
        ++ (big_endian con.get_method_id_size this.method_value ++ big_endian 8 this.index))

-- The bytes that a location is sent as.
pub serialize_lem :
    (con : Con) (this : JdwpLocation)
    → IsValid con this
    → serialize this con ≡ ok (encoding con this)
unfolding serialize
serialize_lem con this v = rw (
  RoundTrip.serialize-big_endian class_id con this.class_value v.class_size,
  RoundTrip.serialize-big_endian method_id con this.method_value v.method_size,
  memory_of-htonll this.index v.index_fits,
)

-- The three parts behind the tag, read by their offsets.
module _ (tag k n : ℕ) (c m : Bytes) (c_size : length c ≡ k) (m_size : length m ≡ n) where
  class_read : (r : Bytes) → read_range 1 k (tag ∷ (c ++ r)) ≡ ok c
  class_read r = read_range_next 1 k (tag ∷ []) c r refl c_size

  method_read : (r : Bytes) → read_range (1 + k) n (tag ∷ (c ++ (m ++ r))) ≡ ok m
  method_read r = read_range_next (1 + k) n (tag ∷ c) m r (omega arith) m_size

  index_read :
      (v : ℕ) (rest : Bytes)
      → v < 2 ^ 64
      → read_ntohll (1 + k + n) (tag ∷ (c ++ (m ++ (big_endian 8 v ++ rest)))) ≡ ok v
  index_read v rest h =
      rw (append_assoc c m (big_endian 8 v ++ rest)) at
        (read_ntohll_next (1 + k + n) v (tag ∷ (c ++ m)) rest (omega (arith, length-append c m)) h)

-- The number of bytes that a location takes.
pub length-encoding :
    (con : Con) (this : JdwpLocation)
    → length (encoding con this) ≡ 1 + con.get_obj_id_size + con.get_method_id_size + 8
length-encoding con this = omega (
  arith,
  length-append (big_endian con.get_obj_id_size this.class_value)
      (big_endian con.get_method_id_size this.method_value ++ big_endian 8 this.index),
  length-append (big_endian con.get_method_id_size this.method_value) (big_endian 8 this.index),
  length-big_endian con.get_obj_id_size this.class_value,
  length-big_endian con.get_method_id_size this.method_value,
  length-big_endian 8 this.index,
)

-- A location is read back from its bytes, and what follows them is left.
pub from_encoded-encoding :
    (con : Con) (this old : JdwpLocation) (rest : Bytes)
    → IsValid con this
    → IsNamedType this.type_tag
    → Fits class_id con old.class_value
    → Fits method_id con old.method_value
    → from_encoded old con (encoding con this ++ rest)
      ≡ ok (1 + con.get_obj_id_size + con.get_method_id_size + 8, this)
unfolding from_encoded
from_encoded-encoding con this old rest v named fits_class fits_method =
    let k : ℕ = con.get_obj_id_size in
    let n : ℕ = con.get_method_id_size in
    let tag : ℕ = type_tag_to_byte this.type_tag in
    let c : Bytes = big_endian k this.class_value in
    let m : Bytes = big_endian n this.method_value in
    let i : Bytes = big_endian 8 this.index in
    let c_size : length c ≡ k = length-big_endian k this.class_value in
    let m_size : length m ≡ n = length-big_endian n this.method_value in
    rw (
      append_assoc c (m ++ i) rest,
      append_assoc m i rest,
      class_read tag k n c m c_size m_size (m ++ (i ++ rest)),
      RoundTrip.from_encoded_exact class_id con this.class_value old.class_value v.class_size
          v.class_fits fits_class,
      method_read tag k n c m c_size m_size (i ++ rest),
      RoundTrip.from_encoded_exact method_id con this.method_value old.method_value v.method_size
          v.method_fits fits_method,
      index_read tag k n c m c_size m_size this.index rest v.index_fits,
      type_tag_of_byte-to_byte this.type_tag named,
    )

-- A location with a named type tag, whose IDs fit the connection's sizes of at most 8 bytes and
-- whose index is below 2 ^ 64, is sent, and read back from the bytes sent into a location whose
-- IDs are clear, and what follows them is left.
pub from_encoded-serialize_location :
    (con : Con) (this old : JdwpLocation) (rest : Bytes)
    → IsValid con this
    → IsNamedType this.type_tag
    → Fits class_id con old.class_value
    → Fits method_id con old.method_value
    → (bs : Bytes) × (serialize this con ≡ ok bs)
      × (from_encoded old con (bs ++ rest) ≡ ok (length bs, this))
from_encoded-serialize_location con this old rest v named fits_class fits_method = (
  encoding con this,
  serialize_lem con this v,
  from_encoded-encoding con this old rest v named fits_class fits_method
      ∙ ap (λ (n : ℕ). ok (n, this)) (sym (length-encoding con this)),
)
