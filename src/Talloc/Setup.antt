-- ===== src/Talloc/Setup.antt =====
-- The sizes that construction computes.
use native.Mathlib.Nat.{pow-suc}
use native.Mathlib.Decide.{dec_lt}
use tauos.Base.{
  ℕ, zero, suc, ◌+◌, ◌-◌, ◌*◌, ◌/◌, ◌%◌, ◌^◌, ◌≤◌, ◌<◌, ◌≡◌, ap, ◌∙◌, arith, true, some, ◌==◌,
  bit_and, ◌&&◌, leb, if◌then◌else◌,
}
use tauos.Bits.{◌<<◌, ◌>>>◌}
use tauos.Bits.Digits.{pow-le}
use tauos.Bits.Pow.{pow-pos, pow_add}
use tauos.Bits.Masks.{and_low}
use tauos.Utils.Log.{IsTop, leading_zeros-top}
use tauos.Utils.Pow.{IsCeil, IsTop-pow, one-shl, lt_of_pow-lt}
use tauos.Talloc.{node_size}
use tauos.Talloc.Extend.{
  log2, next_power_of_two, is_power_of_two, validate_arena_args, llists_len, bitmap_len,
  slice_bytes, align_offset,
}

pub log2-eq : (k n : ℕ) → k < 64 → IsTop k n → log2 n ≡ k
unfolding log2
log2-eq k n l top = rw (leading_zeros-top k n l top) (omega arith)

ceil-IsTop : (k n : ℕ) → IsCeil (suc k) n → IsTop k (n - 1)
ceil-IsTop k n c = (omega (arith, c.1, pow-suc 2 k), omega (arith, c.0, c.1))

pub next_power_of_two-eq : (k n : ℕ) → k < 63 → IsCeil (suc k) n → next_power_of_two n ≡ 2 ^ suc k
unfolding next_power_of_two
next_power_of_two-eq k n l c =
    rw (leading_zeros-top k (n - 1) (omega arith) (ceil-IsTop k n c))
      (ap (λ (t : ℕ). 2 ^ t) (omega (arith, l)))

is_power_of_two-pow : (k : ℕ) → k < 63 → is_power_of_two (2 ^ suc k) ≡ true
is_power_of_two-pow k l =
    let same = next_power_of_two-eq k (2 ^ suc k) l (omega arith, omega (arith, pow-pos (suc k))) in
    rw same (ground arith)

-- The least power of two not below the arena's size, and the smallest block's.
pub record IsSizes (size smallest K m : ℕ) : Type 0 where
  pub least : 64 ≤ size
  pub most : size ≤ 2 ^ 48
  pub ceil : IsCeil K size
  pub smallest_pow2 : smallest ≡ 2 ^ m
  pub holds_node : 4 ≤ m
  pub level : m ≤ K

pub order_bounds : (size smallest K m : ℕ) → IsSizes size smallest K m → (6 ≤ K) × (K ≤ 48)
order_bounds size smallest K m z = (
  lt_of_pow-lt 5 K (omega (arith, z.least, z.ceil.0)),
  omega (arith, lt_of_pow-lt K 49 (omega (arith, z.most, z.ceil.1))),
)

log2-ceil : (K size : ℕ) → 0 < K → K < 64 → IsCeil K size → log2 (size - 1) + 1 ≡ K
log2-ceil zero size p l c = absurd (omega arith)
log2-ceil (suc k) size p l c =
    ap (λ (t : ℕ). t + 1) (log2-eq k (size - 1) (omega arith) (ceil-IsTop k size c)) ∙ omega arith

pub next_power_of_two-ceil :
    (K size : ℕ) → 0 < K → K < 64 → IsCeil K size → next_power_of_two size ≡ 2 ^ K
next_power_of_two-ceil zero size p l c = absurd (omega arith)
next_power_of_two-ceil (suc k) size p l c = next_power_of_two-eq k size (omega arith) c

llists_len-eq :
    (size smallest K m : ℕ) → IsSizes size smallest K m → llists_len size smallest ≡ K - m + 1
llists_len-eq size smallest K m z =
    let bounds = order_bounds size smallest K m z in
    let small : log2 smallest ≡ m =
      ap (λ (t : ℕ). log2 t) z.smallest_pow2
      ∙ log2-eq m (2 ^ m) (omega (arith, bounds, z.level)) (IsTop-pow m) in
    rw (log2-ceil K size (omega (arith, bounds)) (omega (arith, bounds)) z.ceil, small)
      (omega (arith, bounds, z.level))

pow2-valid : (m : ℕ) → 4 ≤ m → m < 63 → (is_power_of_two (2 ^ m) && leb node_size (2 ^ m)) ≡ true
pow2-valid zero p l = absurd (omega arith)
pow2-valid (suc k) p l =
    let power = is_power_of_two-pow k (omega arith) in
    let large = pow-le 4 (suc k) p in rw power (ground (arith, large))

validate-true :
    (size smallest K m : ℕ) → IsSizes size smallest K m → validate_arena_args size smallest ≡ true
validate-true size smallest K m z =
    let valid =
      pow2-valid m z.holds_node (omega (arith, order_bounds size smallest K m z, z.level)) in
    let least : leb 64 size ≡ true = ground (arith, z.least) in
    let most : leb size (2 ^ 48) ≡ true = ground (arith, z.most) in
    rw (z.smallest_pow2, least, most) valid

pub slice_bytes-eq :
    (size smallest K m : ℕ)
    → IsSizes size smallest K m
    → slice_bytes size smallest ≡ some ((K - m + 1) * node_size, bitmap_len (K - m + 1))
unfolding slice_bytes
slice_bytes-eq size smallest K m z =
    rw (slice_bytes, validate-true size smallest K m z)
      (ap (λ (n : ℕ). some (n * node_size, bitmap_len n)) (llists_len-eq size smallest K m z))

pub bitmap_len-room : (n : ℕ) → n < 64 → (2 ^ n ≤ 8 * bitmap_len n) × (bitmap_len n ≤ 2 ^ n)
bitmap_len-room n l =
    let shift : (1 << n >>> 3) ≡ 2 ^ n / 8 = ap (λ (t : ℕ). t / 8) (one-shl n l) in
    rw shift (room n)
  where
    room :
        (n : ℕ)
        → (2 ^ n ≤ 8 * (if 2 ^ n / 8 == 0 then 1 else 2 ^ n / 8))
          × ((if 2 ^ n / 8 == 0 then 1 else 2 ^ n / 8) ≤ 2 ^ n)
    room n = elim (dec_lt n 3) [
      | yes p ↦ (ground (arith, pow-le n 2 (omega arith)), ground (arith, pow-pos n))
      | no p ↦
          let e : 3 + (n - 3) ≡ n = omega arith in
          let parts : 2 ^ n ≡ 8 * 2 ^ (n - 3) =
            ap (λ (t : ℕ). 2 ^ t) (omega arith) ∙ pow_add 3 (n - 3) in
          (ground (arith, parts), ground (arith, parts, pow-pos n))
    ]

pub align_offset-le : (ptr : ℕ) → (align_offset ptr ≤ 16) × (0 < align_offset ptr)
align_offset-le ptr =
    let low : bit_and ptr (16 - 1) ≡ ptr % 16 = and_low 4 ptr in rw low (omega arith, omega arith)
