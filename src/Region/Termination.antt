-- ===== src/Region/Termination.antt =====
-- Reading an array region ends on every input: the loop tests its index at most once more than
-- there are values.
use roastery.Prelude.{
  ℕ, zero, suc, ◌+◌, ◌*◌, ◌≤◌, Bool, true, false, Bool-cases, inl, inr, arith, ltb, le→ltb_false,
}
use roastery.Outcome.{Outcome, Ends, >>=-Ends, ok-Ends}
use roastery.Bytes.{Bytes, value_of, char_at, read_range, substr}
use roastery.Bytes.Termination.{char_at-Ends, read_range-Ends, substr-Ends}
use roastery.HostOrder.{ntohl, read_ntohl}
use roastery.Con.{Con}
use roastery.Tags.{JdwpTag, tag_of_byte}
use roastery.Value
use roastery.Value.{JdwpValue, get_size_by_tag, tag_is_obj_type}
use roastery.Region.{read_values, read_object, read_primitive, read_body, from_encoded}

read_ntohl-Ends : (off : ℕ) (s : Bytes) → Ends (read_ntohl off s)
unfolding read_ntohl
read_ntohl-Ends off s =
    >>=-Ends (read_range off 4 s) _ (read_range-Ends off 4 s)
      λ word. ok-Ends (ntohl (value_of word))

-- Where the index is at most `n` steps below the limit, `n` + 1 tests are enough.
read_values-Ends :
    (read : ℕ → Outcome JdwpValue) (n i limit step : ℕ)
    → ((j : ℕ) → Ends (read j))
    → limit ≤ i + step * n
    → Ends (read_values read (suc n) i limit step)
unfolding read_values
read_values-Ends read zero i limit step h le =
    rw (le→ltb_false i limit (omega arith), read_values) λ e. cc
read_values-Ends read (suc n) i limit step h le = elim (Bool-cases (ltb i limit)) [
  | inl more ↦
      rw (more, read_values)
        (>>=-Ends (read i) _ (h i) λ v.
          >>=-Ends (read_values read (suc n) (i + step) limit step) _
            (read_values-Ends read n (i + step) limit step h (omega arith)) λ rest. ok-Ends _)
  | inr done ↦ rw (done, read_values) λ e. cc
]

read_object-Ends : (con : Con) (size : ℕ) (s : Bytes) (i : ℕ) → Ends (read_object con size s i)
unfolding read_object
read_object-Ends con size s i =
    >>=-Ends (substr i (i + size) s) _ (substr-Ends i (i + size) s) λ part.
      >>=-Ends (Value.from_encoded con part) _ (Value.Termination.from_encoded-Ends con part)
        λ r. ok-Ends r.1

read_primitive-Ends :
    (t : JdwpTag) (con : Con) (size : ℕ) (s : Bytes) (i : ℕ) → Ends (read_primitive t con size s i)
unfolding read_primitive
read_primitive-Ends t con size s i = >>=-Ends (substr i size s) _ (substr-Ends i size s) λ part.
    >>=-Ends (Value.from_encoded_as_untagged t con part) _
      (Value.Termination.from_encoded_as_untagged-Ends t con part) λ r. ok-Ends r.1

read_body-Ends :
    (o : Bool) (t : JdwpTag) (con : Con) (count size : ℕ) (s : Bytes)
    → Ends (read_body o t con count size s)
unfolding read_body
read_body-Ends true t con count size s =
    >>=-Ends
      (read_values (read_object con (size + 1) s) (suc count) 5 (5 + (size + 1) * count) (size + 1))
      _
      (read_values-Ends (read_object con (size + 1) s) count 5 (5 + (size + 1) * count) (size + 1)
        (read_object-Ends con (size + 1) s) (omega arith))
      λ r. ok-Ends _
read_body-Ends false t con count size s =
    >>=-Ends (read_values (read_primitive t con size s) (suc count) 5 (5 + size * count) size) _
      (read_values-Ends (read_primitive t con size s) count 5 (5 + size * count) size
        (read_primitive-Ends t con size s) (omega arith))
      λ r. ok-Ends _

-- On every input, however long or malformed, the reader of array regions returns, throws or is
-- undefined within the rounds that the model gives its loop.
pub from_encoded-Ends : (con : Con) (encoded : Bytes) → Ends (from_encoded con encoded)
unfolding from_encoded
from_encoded-Ends con encoded = >>=-Ends (char_at encoded 0) _ (char_at-Ends 0 encoded) λ b.
    >>=-Ends (read_ntohl 1 encoded) _ (read_ntohl-Ends 1 encoded) λ count.
      >>=-Ends (get_size_by_tag (tag_of_byte b) con) _
        (Value.Termination.get_size_by_tag-Ends (tag_of_byte b) con)
        λ size.
          read_body-Ends (tag_is_obj_type (tag_of_byte b)) (tag_of_byte b) con count size encoded
