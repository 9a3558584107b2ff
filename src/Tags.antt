-- ===== src/Tags.antt =====
-- src/include/jdwp_type.hpp: the enums `JdwpTag` and `JdwpTypeTag`, and the casts between them and
-- a byte. An enum over `uint8_t` holds any byte; `other` is one that has no name.
use roastery.Prelude.{ℕ, ◌≡◌, refl, arith, ◌==◌, if◌then◌else◌}

pub data JdwpTag : Type 0 where
  array byte char object float double int long short void boolean : JdwpTag
  string thread thread_group class_loader class_object : JdwpTag
  other : ℕ → JdwpTag

-- `static_cast<char>(tag)`.
unfoldable pub tag_to_byte : JdwpTag → ℕ
tag_to_byte array = b'['
tag_to_byte byte = b'B'
tag_to_byte char = b'C'
tag_to_byte object = b'L'
tag_to_byte float = b'F'
tag_to_byte double = b'D'
tag_to_byte int = b'I'
tag_to_byte long = b'J'
tag_to_byte short = b'S'
tag_to_byte void = b'V'
tag_to_byte boolean = b'Z'
tag_to_byte string = b's'
tag_to_byte thread = b't'
tag_to_byte thread_group = b'g'
tag_to_byte class_loader = b'l'
tag_to_byte class_object = b'c'
tag_to_byte (other b) = b

-- `static_cast<JdwpTag>(b)`.
unfoldable pub tag_of_byte : ℕ → JdwpTag
tag_of_byte b =
    if b == b'['
    then array
    else if b == b'B'
    then byte
    else if b == b'C'
    then char
    else if b == b'L'
    then object
    else if b == b'F'
    then float
    else if b == b'D'
    then double
    else if b == b'I'
    then int
    else if b == b'J'
    then long
    else if b == b'S'
    then short
    else if b == b'V'
    then void
    else if b == b'Z'
    then boolean
    else if b == b's'
    then string
    else if b == b't'
    then thread
    else if b == b'g'
    then thread_group
    else if b == b'l'
    then class_loader
    else if b == b'c'
    then class_object
    else other b

-- A tag that the enum names.
abbrev pub IsNamed : JdwpTag → Type 0
IsNamed (other b) = ⊥
IsNamed _ = Unit {0}

pub tag_of_byte-tag_to_byte : (t : JdwpTag) → IsNamed t → tag_of_byte (tag_to_byte t) ≡ t
unfolding tag_of_byte tag_to_byte
tag_of_byte-tag_to_byte (other b) h = absurd h
tag_of_byte-tag_to_byte array h = refl
tag_of_byte-tag_to_byte _ h = refl

pub tag_to_byte-tag_of_byte : (b : ℕ) → tag_to_byte (tag_of_byte b) ≡ b
unfolding tag_of_byte tag_to_byte
tag_to_byte-tag_of_byte b = ground arith

pub data JdwpTypeTag : Type 0 where
  class interface array : JdwpTypeTag
  other : ℕ → JdwpTypeTag

unfoldable pub type_tag_to_byte : JdwpTypeTag → ℕ
type_tag_to_byte class = 1
type_tag_to_byte interface = 2
type_tag_to_byte array = 3
type_tag_to_byte (other b) = b

unfoldable pub type_tag_of_byte : ℕ → JdwpTypeTag
type_tag_of_byte b =
    if b == 1
    then class
    else if b == 2
    then interface
    else if b == 3
    then JdwpTypeTag.array
    else JdwpTypeTag.other b

abbrev pub IsNamedType : JdwpTypeTag → Type 0
IsNamedType (other b) = ⊥
IsNamedType _ = Unit {0}

pub type_tag_of_byte-to_byte :
    (t : JdwpTypeTag) → IsNamedType t → type_tag_of_byte (type_tag_to_byte t) ≡ t
unfolding type_tag_of_byte type_tag_to_byte
type_tag_of_byte-to_byte (other b) h = absurd h
type_tag_of_byte-to_byte class h = refl
type_tag_of_byte-to_byte _ h = refl
