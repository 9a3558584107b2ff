-- ===== src/Value/Termination.antt =====
-- Reading a value ends.
use roastery.Prelude.{ℕ, Bool, true, false, if◌then◌else◌}
use roastery.Outcome.{Outcome, Ends, >>=-Ends, ok-Ends}
use roastery.Bytes.{Bytes, char_at, substr_from}
use roastery.Bytes.Termination.{char_at-Ends, substr_from-Ends}
use roastery.Con.{Con}
use roastery.Tags.{JdwpTag, tag_of_byte}
use roastery.Numeric
use roastery.Numeric.{Numeric}
use roastery.Ids
use roastery.Value.{
  JdwpVal, bool, byte, char, float, double, int, long, short, get_size_by_tag, tag_is_obj_type,
  read_numeric, read_switch, read_obj_id, read_object, from_encoded_as_untagged, from_encoded,
}

read_numeric-Ends :
    (n : Numeric) (alternative : ℕ → JdwpVal) (t : JdwpTag) (s : Bytes)
    → Ends (read_numeric n alternative t s)
unfolding read_numeric
read_numeric-Ends n alternative t s =
    >>=-Ends (Numeric.from_encoded n s) _ (Numeric.Termination.from_encoded-Ends n s) λ r. ok-Ends _

read_switch-Ends : (t : JdwpTag) (s : Bytes) → Ends (read_switch t s)
unfolding read_switch
read_switch-Ends JdwpTag.boolean s = read_numeric-Ends Numeric.bool bool JdwpTag.boolean s
read_switch-Ends JdwpTag.byte s = read_numeric-Ends Numeric.byte byte JdwpTag.byte s
read_switch-Ends JdwpTag.char s = read_numeric-Ends Numeric.char char JdwpTag.char s
read_switch-Ends JdwpTag.float s = read_numeric-Ends Numeric.float float JdwpTag.float s
read_switch-Ends JdwpTag.double s = read_numeric-Ends Numeric.double double JdwpTag.double s
read_switch-Ends JdwpTag.int s = read_numeric-Ends Numeric.int int JdwpTag.int s
read_switch-Ends JdwpTag.long s = read_numeric-Ends Numeric.long long JdwpTag.long s
read_switch-Ends JdwpTag.short s = read_numeric-Ends Numeric.short short JdwpTag.short s
read_switch-Ends _ s = λ e. cc

read_object-Ends : (t : JdwpTag) (con : Con) (s : Bytes) → Ends (read_object t con s)
unfolding read_object
read_object-Ends t con s =
    >>=-Ends (read_obj_id con s) _
      (>>=-Ends (Ids.from_encoded Ids.obj_id con 0 s) _
        (Ids.Termination.from_encoded-Ends Ids.obj_id con 0 s) λ r. ok-Ends _)
      λ v. ok-Ends _

if-Ends {ℓ} :
    {A : Type ℓ} (b : Bool) (x y : Outcome A) → Ends x → Ends y → Ends (if b then x else y)
if-Ends true x y hx hy = hx
if-Ends false x y hx hy = hy

pub from_encoded_as_untagged-Ends :
    (t : JdwpTag) (con : Con) (s : Bytes) → Ends (from_encoded_as_untagged t con s)
unfolding from_encoded_as_untagged
from_encoded_as_untagged-Ends JdwpTag.void con s = λ e. cc
from_encoded_as_untagged-Ends t con s =
    if-Ends (tag_is_obj_type t) (read_object t con s) (read_switch t s) (read_object-Ends t con s)
      (read_switch-Ends t s)

pub from_encoded-Ends : (con : Con) (s : Bytes) → Ends (from_encoded con s)
unfolding from_encoded
from_encoded-Ends con s = >>=-Ends (char_at s 0) _ (char_at-Ends 0 s) λ b.
    >>=-Ends (substr_from 1 s) _ (substr_from-Ends 1 s) λ rest.
      >>=-Ends (from_encoded_as_untagged (tag_of_byte b) con rest) _
        (from_encoded_as_untagged-Ends (tag_of_byte b) con rest) λ r. ok-Ends _

pub get_size_by_tag-Ends : (t : JdwpTag) (con : Con) → Ends (get_size_by_tag t con)
unfolding get_size_by_tag
get_size_by_tag-Ends (JdwpTag.other b) con = λ e. cc
get_size_by_tag-Ends JdwpTag.array con = λ e. cc
get_size_by_tag-Ends _ con = λ e. cc
