-- ===== src/Boot/Examples.antt =====
-- Uses of the theorem on the memory map at a given one, and tests.
use tauos.Base.{
  ℕ, ◌+◌, ◌/◌, ◌≡◌, ◌≢◌, refl, arith, List, [], ◌∷◌, take, Bool, false, ltb, ◌==◌, ◌&&◌,
  if◌then◌else◌,
}
use tauos.Bits.{sub64}
use tauos.Boot.{
  MMapEntry, mmap_available_iter, env_cfg_as_str, env_len, boot_boot_size, mmap_entry_size,
}
use tauos.Boot.Available.{usable, AllWords, mmap_available_iter_lem}

-- Memory below an address; above it, writes are lost and reads give 0xff.
abbrev works : ℕ → Bool
works p = ltb p 65536

abbrev read_ram : (ℕ → ℕ) → ℕ → ℕ
read_ram m p = if works p then m p else 255

abbrev write_ram : (ℕ → ℕ) → ℕ → ℕ → ℕ → ℕ
write_ram m p v q = if (p == q) && works p then v else m q

keeps :
    (m : ℕ → ℕ) (p q v : ℕ)
    → read_ram (write_ram m p v) q ≡ (if (p == q) && works p then v else read_ram m q)
keeps m p q v = ground arith

absent : (m : ℕ → ℕ) (p : ℕ) → works p ≡ false → read_ram m p ≢ 0xae
absent m p e = ground arith

-- Free memory, used memory, free memory that is not there, and the registers of a device.
abbrev mmap : List MMapEntry
mmap =
    record { ptr = 4096; data_ = 8193 }
    ∷ record { ptr = 16384; data_ = 4096 }
    ∷ record { ptr = 131072; data_ = 4097 }
    ∷ record { ptr = 32768; data_ = 4099 }
    ∷ []

mmap_available_iter_lem_example :
    let r = mmap_available_iter read_ram write_ram (boot_boot_size + 64) mmap (λ p. 7) in
    (r.0 ≡ usable works (take (sub64 (boot_boot_size + 64) boot_boot_size / mmap_entry_size) mmap))
    × ((q : ℕ) → read_ram r.1 q ≡ read_ram (λ p. 7) q)
mmap_available_iter_lem_example =
    mmap_available_iter_lem read_ram write_ram works keeps absent (boot_boot_size + 64) mmap
      (λ p. 7) words
  where
    words : AllWords (take (sub64 (boot_boot_size + 64) boot_boot_size / mmap_entry_size) mmap)
    words =
        unfold AllWords in
        (
          (omega arith, omega arith),
          (
            (omega arith, omega arith),
            ((omega arith, omega arith), ((omega arith, omega arith), tt)),
          ),
        )

test_usable : usable works mmap ≡ (4096, 8192) ∷ (32768, 4096) ∷ []
unfolding usable
test_usable = refl

test_env : env_cfg_as_str (97 ∷ 98 ∷ 0 ∷ 99 ∷ []) ≡ 97 ∷ 98 ∷ []
unfolding env_cfg_as_str env_len
test_env = refl
