-- ===== src/Paging/Attributes.antt =====
-- The page attribute table: the codes of memory types, and the register.
use native.Mathlib.Nat.{mod-eq_of_lt, mul-le-mul_right}
use tauos.Base.{ℕ, ◌+◌, ◌*◌, ◌%◌, ◌^◌, ◌≤◌, ◌<◌, ◌≡◌, refl, ◌∙◌, arith, some}
use tauos.Bits.{modulus, ◌>>>◌}
use tauos.Bits.Masks.{or_fields, or_comm}
use tauos.Paging.{
  PatType, uncacheable, write_combining, write_through, write_protect, write_back,
  uncacheable_minus, to_bits, from_bits, Pat, type_at, put, read, write,
}

to_bits-lt : (t : PatType) → to_bits t < 8
unfolding to_bits
to_bits-lt uncacheable = omega arith
to_bits-lt write_combining = omega arith
to_bits-lt write_through = omega arith
to_bits-lt write_protect = omega arith
to_bits-lt write_back = omega arith
to_bits-lt uncacheable_minus = omega arith

from_bits-to_bits : (t : PatType) → from_bits (to_bits t) ≡ some t
unfolding from_bits to_bits
from_bits-to_bits uncacheable = refl
from_bits-to_bits write_combining = refl
from_bits-to_bits write_through = refl
from_bits-to_bits write_protect = refl
from_bits-to_bits write_back = refl
from_bits-to_bits uncacheable_minus = refl

-- A byte put above what is there already.
put_eq :
    (pat : ℕ) (t : PatType) (k : ℕ)
    → pat < 2 ^ k
    → k % 64 ≡ k
    → 8 * 2 ^ k ≤ modulus
    → put pat t k ≡ to_bits t * 2 ^ k + pat
put_eq pat t k l e room =
    let small : to_bits t * 2 ^ k < modulus =
      omega (arith, mul-le-mul_right (2 ^ k) (to_bits-lt t), l) in
    rw e (rw (mod-eq_of_lt small) (or_comm pat (to_bits t * 2 ^ k) ∙ or_fields k (to_bits t) pat l))

-- The register's value, byte by byte.
abbrev word : Pat → ℕ
word p =
    to_bits p.pat_types.t3 * 2 ^ 56
    + (to_bits p.pat_types.t2 * 2 ^ 48
        + (to_bits p.pat_types.t1 * 2 ^ 40
            + (to_bits p.pat_types.t0 * 2 ^ 32
                + (to_bits p.std_types.t3 * 2 ^ 24
                    + (to_bits p.std_types.t2 * 2 ^ 16
                        + (to_bits p.std_types.t1 * 2 ^ 8
                            + (to_bits p.std_types.t0 * 2 ^ 0 + 0)))))))

put_onto :
    (pat sum : ℕ) (t : PatType) (k : ℕ)
    → pat ≡ sum
    → sum < 2 ^ k
    → k % 64 ≡ k
    → 8 * 2 ^ k ≤ modulus
    → put pat t k ≡ to_bits t * 2 ^ k + sum
put_onto pat sum t k same l e room = rw same (put_eq sum t k l e room)

write-eq : (p : Pat) → write p ≡ word p
unfolding write
write-eq p =
    let l0 = to_bits-lt p.std_types.t0 in
    let l1 = to_bits-lt p.std_types.t1 in
    let l2 = to_bits-lt p.std_types.t2 in
    let l3 = to_bits-lt p.std_types.t3 in
    let l4 = to_bits-lt p.pat_types.t0 in
    let l5 = to_bits-lt p.pat_types.t1 in
    let l6 = to_bits-lt p.pat_types.t2 in
    let e0 = put_onto 0 0 p.std_types.t0 0 refl (omega arith) refl (omega arith) in
    let e1 = put_onto _ _ p.std_types.t1 8 e0 (omega (arith, l0)) refl (omega arith) in
    let e2 = put_onto _ _ p.std_types.t2 16 e1 (omega (arith, l0, l1)) refl (omega arith) in
    let e3 = put_onto _ _ p.std_types.t3 24 e2 (omega (arith, l0, l1, l2)) refl (omega arith) in
    let e4 = put_onto _ _ p.pat_types.t0 32 e3 (omega (arith, l0, l1, l2, l3)) refl (omega arith) in
    let e5 =
      put_onto _ _ p.pat_types.t1 40 e4 (omega (arith, l0, l1, l2, l3, l4)) refl (omega arith) in
    let e6 =
      put_onto _ _ p.pat_types.t2 48 e5 (omega (arith, l0, l1, l2, l3, l4, l5)) refl
        (omega arith) in
    put_onto _ _ p.pat_types.t3 56 e6 (omega (arith, l0, l1, l2, l3, l4, l5, l6)) refl (omega arith)

type_at-byte : (msr k : ℕ) (t : PatType) → (msr >>> k) % 2 ^ 8 ≡ to_bits t → type_at msr k ≡ some t
type_at-byte msr k t e = rw e (from_bits-to_bits t)

-- Reading the page attribute table from the register value that write gives returns the same table,
-- for every table.
pub read-write : (p : Pat) → read (write p) ≡ some p
unfolding read
read-write p =
    let l0 = to_bits-lt p.std_types.t0 in
    let l1 = to_bits-lt p.std_types.t1 in
    let l2 = to_bits-lt p.std_types.t2 in
    let l3 = to_bits-lt p.std_types.t3 in
    let l4 = to_bits-lt p.pat_types.t0 in
    let l5 = to_bits-lt p.pat_types.t1 in
    let l6 = to_bits-lt p.pat_types.t2 in
    let l7 = to_bits-lt p.pat_types.t3 in
    rw
      (
        write-eq p,
        type_at-byte (word p) 0 p.std_types.t0 (omega (arith, l0)),
        type_at-byte (word p) 8 p.std_types.t1 (omega (arith, l0, l1)),
        type_at-byte (word p) 16 p.std_types.t2 (omega (arith, l0, l1, l2)),
        type_at-byte (word p) 24 p.std_types.t3 (omega (arith, l0, l1, l2, l3)),
        type_at-byte (word p) 32 p.pat_types.t0 (omega (arith, l0, l1, l2, l3, l4)),
        type_at-byte (word p) 40 p.pat_types.t1 (omega (arith, l0, l1, l2, l3, l4, l5)),
        type_at-byte (word p) 48 p.pat_types.t2 (omega (arith, l0, l1, l2, l3, l4, l5, l6)),
        type_at-byte (word p) 56 p.pat_types.t3 (omega (arith, l0, l1, l2, l3, l4, l5, l6, l7)),
      )
      refl
