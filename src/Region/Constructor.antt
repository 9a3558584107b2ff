-- ===== src/Region/Constructor.antt =====
-- What the constructor of `JdwpArrayRegion` that takes values leaves behind.
use roastery.Prelude.{
  suc, ◌≡◌, refl, ap, Option, none, some, List, [], ◌∷◌, ◌++◌, length, replicate,
}
use roastery.Outcome.{ok, undefined}
use roastery.Con.{Con}
use roastery.Tags.{JdwpTag}
use roastery.Value.{JdwpValue}
use roastery.Region.{JdwpArrayRegion, copies, construct, serialize}

abbrev pub owned : List JdwpValue → List (Option JdwpValue)
owned [] = []
owned (v ∷ values) = some v ∷ owned values

copies-owned : (values : List JdwpValue) → copies (owned values) ≡ ok (owned values)
unfolding copies
copies-owned [] = refl
copies-owned (v ∷ values) = rw (copies-owned values)

pub length-owned : (values : List JdwpValue) → length (owned values) ≡ length values
length-owned [] = refl
length-owned (v ∷ values) = ap suc (length-owned values)

-- A region that was constructed from one value or more holds that many null pointers in front of
-- the copies, and to send it reads through the first of them.
pub serialize-construct :
    (t : JdwpTag) (con : Con) (v : JdwpValue) (values : List JdwpValue)
    → (r : JdwpArrayRegion) × (construct t (owned (v ∷ values)) ≡ ok r)
      × (r.values ≡ some (replicate (length (owned (v ∷ values))) none ++ owned (v ∷ values)))
      × (serialize r con ≡ undefined)
serialize-construct t con v values = (
  record {
    tag = t;
    values = some (replicate (length (owned (v ∷ values))) none ++ owned (v ∷ values));
  },
  (unfold construct in rw (copies-owned values)),
  refl,
  unfold serialize in refl,
)
