-- ===== src/Segmentation/System.antt =====
-- The other methods of `SysSegDesc`: the constructor, the limit and the flags.
use tauos.Base.{
  ℕ, ◌*◌, ◌/◌, ◌%◌, ◌^◌, ◌<◌, ◌≡◌, refl, ap, ◌∙◌, arith, bit_and, bit_or, Bool, true, false, Option,
  some, none, ◌==◌, if◌then◌else◌, ◌&&◌,
}
use tauos.Bits.{◌>>>◌}
use tauos.Bits.Masks.{and_low}
use tauos.Bits.Table.{all_below, all_below_sound}
use tauos.Bits.Field.{join_field}
use tauos.Privilege
use tauos.Privilege.{PrivLvl}
use tauos.Interrupts.{Ssdt, ssdt_bits, ssdt_of_bits, is_int_or_trap, not8}
use tauos.Interrupts.Gates.{new_flags-HasFields}
use tauos.Segmentation.Fields.{SysSegDesc, get_base, set_base, get_base-set_base}

-- `bool as u8`
abbrev pub of_bool : Bool → ℕ
of_bool b = if b then 1 else 0

unfoldable pub new :
    (base limit : ℕ) → Ssdt → PrivLvl → (page_granularity_limit : Bool) → SysSegDesc
new base limit ssdt priviledge page_granularity_limit = record {
  limit_lo = limit % 2 ^ 16;
  base_lo = base % 2 ^ 16;
  base_mid_0 = (base >>> 16) % 2 ^ 8;
  flags = bit_or (bit_or (ssdt_bits ssdt) (Privilege.to_bits priviledge * 2 ^ 5)) 128;
  g_limit_hi = bit_or (bit_and (limit >>> 16) 7 % 2 ^ 8) (of_bool page_granularity_limit * 2 ^ 7);
  base_mid_1 = (base >>> 24) % 2 ^ 8;
  base_hi = (base >>> 32) % 2 ^ 32;
}

unfoldable pub get_limit : SysSegDesc → ℕ
get_limit d = bit_or d.limit_lo (bit_and d.g_limit_hi 15 * 2 ^ 16)

unfoldable pub set_limit : SysSegDesc → ℕ → SysSegDesc
set_limit d limit = record d {
  limit_lo = limit % 2 ^ 16;
  g_limit_hi = bit_or (bit_and d.g_limit_hi (not8 15)) ((limit >>> 16) % 2 ^ 8);
}

unfoldable pub get_ssdt : SysSegDesc → Option Ssdt
get_ssdt d = ssdt_of_bits (bit_and d.flags 15)

-- `none` where it panics.
unfoldable pub set_ssdt : SysSegDesc → Ssdt → Option SysSegDesc
set_ssdt d ssdt =
    if is_int_or_trap ssdt
    then some (record d { flags = bit_or (bit_and d.flags (not8 15)) (ssdt_bits ssdt) })
    else none

unfoldable pub get_dpl : SysSegDesc → Option PrivLvl
get_dpl d = Privilege.from_bits (bit_and d.flags 96 >>> 5)

unfoldable pub set_dpl : SysSegDesc → PrivLvl → SysSegDesc
set_dpl d dpl = record d { flags = bit_or (bit_and d.flags (not8 96)) (Privilege.to_bits dpl) }

unfoldable pub is_present : SysSegDesc → Bool
is_present d = bit_and d.flags 128 == 128

unfoldable pub set_present : SysSegDesc → Bool → SysSegDesc
set_present d is_present =
    if is_present
    then record d { flags = bit_or d.flags 128 }
    else record d { flags = bit_and d.flags (not8 128) }

unfoldable pub get_page_granularity : SysSegDesc → Bool
get_page_granularity d = bit_and d.g_limit_hi 128 == 128

unfoldable pub set_page_granularity : SysSegDesc → Bool → SysSegDesc
set_page_granularity d page_granularity =
    if page_granularity
    then record d { g_limit_hi = bit_or d.g_limit_hi 128 }
    else record d { g_limit_hi = bit_and d.g_limit_hi (not8 128) }

-- The high part of the limit and the granularity flag in one byte.
high_table :
    all_below 8 (λ v.
      (bit_and (bit_or v (0 * 2 ^ 7)) 15 == v)
      && (bit_and (bit_or v (0 * 2 ^ 7)) 128 == 0)
      && (bit_and (bit_or v (1 * 2 ^ 7)) 15 == v)
      && (bit_and (bit_or v (1 * 2 ^ 7)) 128 == 128))
    ≡ true
unfolding all_below
high_table = refl

high_byte :
    (v : ℕ) (page : Bool)
    → v < 8
    → (bit_and (bit_or v (of_bool page * 2 ^ 7)) 15 ≡ v)
      × ((bit_and (bit_or v (of_bool page * 2 ^ 7)) 128 == 128) ≡ page)
high_byte v true l = let row = all_below_sound 8 _ v high_table l in ground arith
high_byte v false l = let row = all_below_sound 8 _ v high_table l in ground arith

set_table :
    all_below 256 (λ f. all_below 16 (λ v.
      (bit_and (bit_or (bit_and f (not8 15)) v) 15 == v)
      && (bit_and (bit_or (bit_and f (not8 15)) v) 128 == bit_and f 128)))
    ≡ true
unfolding all_below
set_table = refl

set_byte :
    (f v : ℕ)
    → f < 256
    → v < 16
    → (bit_and (bit_or (bit_and f (not8 15)) v) 15 ≡ v)
      × (bit_and (bit_or (bit_and f (not8 15)) v) 128 ≡ bit_and f 128)
set_byte f v l k =
    let row = all_below_sound 16 _ v (all_below_sound 256 _ f set_table l) k in ground arith

-- For a 64-bit base, the getters of a new system segment descriptor return the base, the type, the
-- privilege level and the granularity; it is present, and its limit reads as the given limit modulo
-- 2 ^ 19.
pub system_segment-roundtrip :
    (base limit : ℕ) (ssdt : Ssdt) (priviledge : PrivLvl) (page : Bool)
    → base < 2 ^ 64
    → let d = new base limit ssdt priviledge page in
      ((get_base d ≡ base) × (get_limit d ≡ limit % 2 ^ 19))
      × (((get_ssdt d ≡ some ssdt) × (get_dpl d ≡ some priviledge))
          × ((is_present d ≡ true) × (get_page_granularity d ≡ page)))
unfolding new get_limit get_ssdt get_dpl is_present get_page_granularity
system_segment-roundtrip base limit ssdt priviledge page l =
    let fields = new_flags-HasFields ssdt priviledge in
    let v : bit_and (limit / 2 ^ 16) 7 % 2 ^ 8 ≡ limit / 2 ^ 16 % 8 =
      ap (λ (t : ℕ). t % 2 ^ 8) (and_low 3 (limit / 2 ^ 16)) ∙ omega arith in
    let byte = high_byte (limit / 2 ^ 16 % 8) page (omega arith) in
    let addr =
      get_base-set_base
        (record {
          limit_lo = 0;
          base_lo = 0;
          base_mid_0 = 0;
          flags = 0;
          g_limit_hi = 0;
          base_mid_1 = 0;
          base_hi = 0;
        })
        base l in
    (
      (
        unfold get_base set_base in addr,
        rw (v, byte.0)
            (join_field 16 (limit / 2 ^ 16 % 8) (limit % 2 ^ 16) (omega arith) ∙ omega arith),
      ),
      ((fields.0, fields.1.0), (fields.1.1, rw v byte.1)),
    )

-- For a descriptor whose high byte has eight bits and a limit below 2 ^ 20, get_limit after
-- set_limit is the limit, and the granularity and the base are unchanged.
pub get_limit-set_limit :
    (d : SysSegDesc) (limit : ℕ)
    → d.g_limit_hi < 256
    → limit < 2 ^ 20
    → (get_limit (set_limit d limit) ≡ limit)
      × ((get_page_granularity (set_limit d limit) ≡ get_page_granularity d)
          × (get_base (set_limit d limit) ≡ get_base d))
unfolding get_limit set_limit get_page_granularity get_base
get_limit-set_limit d limit l k =
    let small : limit / 2 ^ 16 % 2 ^ 8 ≡ limit / 2 ^ 16 = omega arith in
    let byte = set_byte d.g_limit_hi (limit / 2 ^ 16) l (omega arith) in
    (
      rw (small, byte.0)
          (join_field 16 (limit / 2 ^ 16) (limit % 2 ^ 16) (omega arith) ∙ omega arith),
      (rw (small, byte.1) refl, refl),
    )
