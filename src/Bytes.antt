-- ===== src/Bytes.antt =====
-- Byte strings as the code reads and writes them: `std::string` by index, by pointer and by
-- `substr`, and the bytes of an integer in the memory of a little-endian host. A byte is a number
-- below 256. These are the parts of the C++ library and of the host that every component uses.
pub mod Words
pub mod Reads
pub mod Termination
use roastery.Prelude.{
  ℕ, zero, suc, ◌+◌, ◌*◌, ◌/◌, ◌%◌, ◌<◌, List, [], ◌∷◌, ◌++◌, reverse, ltb, if◌then◌else◌, length,
  take, drop,
}
use roastery.Outcome.{Outcome, ok, raised, undefined, out_of_range, ◌>>=◌}

abbrev pub Bytes : Type 0
Bytes = List ℕ

abbrev pub IsByte : ℕ → Type 0
IsByte b = b < 256

-- `s[i]`, and a read through `s.data() + i`. The byte at index `s.size()` is the terminator, and
-- a read behind it is undefined.
unfoldable pub char_at : Bytes → ℕ → Outcome ℕ
char_at [] zero = ok 0
char_at [] (suc i) = undefined
char_at (c ∷ s) zero = ok c
char_at (c ∷ s) (suc i) = char_at s i

-- `string(s.data() + off, n)`.
unfoldable pub read_range : ℕ → ℕ → Bytes → Outcome Bytes
unfolding char_at
read_range off zero s = ok []
read_range off (suc n) s = do c ← char_at s off; rest ← read_range (suc off) n s; ok (c ∷ rest)

-- `s.substr(pos)`.
unfoldable pub substr_from : ℕ → Bytes → Outcome Bytes
substr_from zero s = ok s
substr_from (suc pos) [] = raised out_of_range
substr_from (suc pos) (c ∷ s) = substr_from pos s

-- `s.substr(pos, n)`.
unfoldable pub substr : ℕ → ℕ → Bytes → Outcome Bytes
unfolding substr_from
substr pos n s = do rest ← substr_from pos s; ok (take n rest)

-- The string that a `const char*` at the front of these bytes is converted to: it ends before the
-- first zero byte.
unfoldable pub c_string : Bytes → Bytes
c_string [] = []
c_string (zero ∷ s) = []
c_string (suc c ∷ s) = suc c ∷ c_string s

-- `string(s.data() + off)`: there is no zero to stop at behind the terminator.
unfoldable pub read_c_string : ℕ → Bytes → Outcome Bytes
unfolding c_string
read_c_string zero s = ok (c_string s)
read_c_string (suc off) [] = undefined
read_c_string (suc off) (c ∷ s) = read_c_string off s

-- The `n` bytes of an unsigned integer in memory, lowest first.
unfoldable pub memory_of : ℕ → ℕ → Bytes
memory_of zero v = []
memory_of (suc n) v = (v % 256) ∷ memory_of n (v / 256)

-- The unsigned integer that these bytes of memory hold.
unfoldable pub value_of : Bytes → ℕ
value_of [] = 0
value_of (b ∷ bs) = b + 256 * value_of bs

-- The integer's `n` low bytes, highest first: network byte order.
unfoldable pub big_endian : ℕ → ℕ → Bytes
big_endian n v = reverse (memory_of n v)
