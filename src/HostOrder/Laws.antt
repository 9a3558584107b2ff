-- ===== src/HostOrder/Laws.antt =====
-- What the conversions do to the bytes of an integer.
use roastery.Prelude.{
  ℕ, ◌+◌, ◌*◌, ◌/◌, ◌%◌, ◌^◌, ◌<◌, ◌≡◌, refl, sym, ap, ◌∙◌, ◌++◌, reverse, arith, length, All,
  All-append,
}
use roastery.Bytes.{Bytes, IsByte, memory_of, value_of, big_endian}
use roastery.Bytes.Words.{
  memory_of-IsByte, value_of-memory_of, memory_of-eq, value_of-lt, value_of-append_at,
  length-big_endian, big_endian-IsByte,
}
use roastery.Outcome.{ok}
use roastery.Bytes.Reads.{read_range_next}
use roastery.HostOrder.{ntohl, htonl, ntohll, htonll, read_ntohl, read_ntohll}
use mathlib.Core.List.{reverse-append, reverse-reverse}

reversed-IsByte : (n v : ℕ) → All IsByte (reverse (memory_of n v))
unfolding big_endian
reversed-IsByte n v = big_endian-IsByte n v

length_reversed : (n v : ℕ) → length (reverse (memory_of n v)) ≡ n
unfolding big_endian
length_reversed n v = length-big_endian n v

-- An integer converted for the network holds its bytes highest first in memory.
pub memory_of-htonl : (v : ℕ) → memory_of 4 (htonl v) ≡ big_endian 4 v
unfolding htonl big_endian
memory_of-htonl v = memory_of-eq 4 _ (length_reversed 4 v) (reversed-IsByte 4 v)

unswap : (n v : ℕ) → v < 256 ^ n → value_of (reverse (memory_of n (value_of (big_endian n v)))) ≡ v
unswap n v h =
    rw (memory_of-eq n (big_endian n v) (length-big_endian n v) (big_endian-IsByte n v))
      (unfold big_endian in rw (reverse-reverse (memory_of n v)) (value_of-memory_of n v h))

-- Bytes from the network, highest first, are read as the integer that they spell.
pub ntohl-value_of : (v : ℕ) → v < 2 ^ 32 → ntohl (value_of (big_endian 4 v)) ≡ v
unfolding ntohl
ntohl-value_of v h = unswap 4 v h

two_halves :
    (v : ℕ) → v < 2 ^ 64 → value_of (memory_of 4 (v % 2 ^ 32) ++ memory_of 4 (v / 2 ^ 32)) ≡ v
unfolding value_of memory_of
two_halves v h = omega arith

-- The bytes of a 64-bit integer are those of its lower half, then those of its upper half.
memory_of_halves :
    (v : ℕ) → v < 2 ^ 64 → memory_of 8 v ≡ memory_of 4 (v % 2 ^ 32) ++ memory_of 4 (v / 2 ^ 32)
memory_of_halves v h =
    let halves : Bytes = memory_of 4 (v % 2 ^ 32) ++ memory_of 4 (v / 2 ^ 32) in
    let all_bytes : All IsByte halves =
      All-append IsByte (memory_of 4 (v % 2 ^ 32)) (memory_of 4 (v / 2 ^ 32))
        (memory_of-IsByte 4 (v % 2 ^ 32)) (memory_of-IsByte 4 (v / 2 ^ 32)) in
    ap (memory_of 8) (sym (two_halves v h))
    ∙ memory_of-eq 8 halves (unfold memory_of in refl) all_bytes

reversed-lt : (v : ℕ) → value_of (reverse (memory_of 4 v)) < 2 ^ 32
reversed-lt v =
    rw (length_reversed 4 v) at (value_of-lt (reverse (memory_of 4 v)) (reversed-IsByte 4 v))

swapped_halves :
    (v : ℕ)
    → v < 2 ^ 64
    → value_of (big_endian 8 v)
      ≡ value_of (reverse (memory_of 4 (v / 2 ^ 32)))
        + 2 ^ 32 * value_of (reverse (memory_of 4 (v % 2 ^ 32)))
unfolding big_endian
swapped_halves v h =
    rw (memory_of_halves v h)
      (rw reverse-append (value_of-append_at 4 _ _ (length_reversed 4 (v / 2 ^ 32))))

-- For a 64-bit integer, `htonll` is the integer with its eight bytes reversed.
pub htonll_lem : (v : ℕ) → v < 2 ^ 64 → htonll v ≡ value_of (big_endian 8 v)
unfolding htonll htonl
htonll_lem v h =
    omega (arith, swapped_halves v h, reversed-lt (v / 2 ^ 32), reversed-lt (v % 2 ^ 32))

pub ntohll_lem : (v : ℕ) → v < 2 ^ 64 → ntohll v ≡ value_of (big_endian 8 v)
unfolding ntohll ntohl
ntohll_lem v h =
    omega (arith, swapped_halves v h, reversed-lt (v / 2 ^ 32), reversed-lt (v % 2 ^ 32))

pub memory_of-htonll : (v : ℕ) → v < 2 ^ 64 → memory_of 8 (htonll v) ≡ big_endian 8 v
memory_of-htonll v h =
    rw (htonll_lem v h)
      (memory_of-eq 8 (big_endian 8 v) (length-big_endian 8 v) (big_endian-IsByte 8 v))

-- For a 64-bit integer `v`, `ntohll` converts what the eight bytes of `v`, highest first, are in
-- memory to `v`.
pub ntohll-value_of : (v : ℕ) → v < 2 ^ 64 → ntohll (value_of (big_endian 8 v)) ≡ v
ntohll-value_of v h =
    let small : value_of (big_endian 8 v) < 2 ^ 64 =
      rw (length-big_endian 8 v) at (value_of-lt (big_endian 8 v) (big_endian-IsByte 8 v)) in
    rw (ntohll_lem _ small) (unfold big_endian in unswap 8 v h)

-- An integer in network byte order behind `front` is read from there.
pub read_ntohl_next :
    (off v : ℕ) (front rest : Bytes)
    → length front ≡ off
    → v < 2 ^ 32
    → read_ntohl off (front ++ (big_endian 4 v ++ rest)) ≡ ok v
read_ntohl_next off v front rest e h =
    unfold read_ntohl in
    rw (read_range_next off 4 front (big_endian 4 v) rest e (length-big_endian 4 v))
      (ap ok (ntohl-value_of v h))

pub read_ntohll_next :
    (off v : ℕ) (front rest : Bytes)
    → length front ≡ off
    → v < 2 ^ 64
    → read_ntohll off (front ++ (big_endian 8 v ++ rest)) ≡ ok v
read_ntohll_next off v front rest e h =
    unfold read_ntohll in
    rw (read_range_next off 8 front (big_endian 8 v) rest e (length-big_endian 8 v))
      (ap ok (ntohll-value_of v h))
