-- ===== src/Boot/Available.antt =====
-- Which spans the memory map yields.
use tauos.Base.{
  ℕ, ◌/◌, ◌%◌, ◌-◌, ◌^◌, ◌<◌, ◌≤◌, sym, ◌≡◌, ◌≢◌, refl, ap, ◌∙◌, arith, bit_and, List, [], ◌∷◌,
  take, Bool, true, false, Bool-cases, inl, inr, ◌==◌, ◌!=◌, ◌&&◌, ◌||◌, if◌then◌else◌,
}
use tauos.Bits.{not64, sub64}
use tauos.Bits.Masks.{and_low, and_high, and_not_low}
use tauos.Boot.{
  MMapEntry, is_free, probe, check_entry, check_entries, free_spans, mmap_available_iter,
  mmap_data_size_mask, mmap_free, mmap_mmio, boot_boot_size, mmap_entry_size,
}

-- The type of an entry, in the low four bits, and its size, in the others.
abbrev pub mmap_type : MMapEntry → ℕ
mmap_type entry = entry.data_ % 16

abbrev pub mmap_size : MMapEntry → ℕ
mmap_size entry = entry.data_ - entry.data_ % 16

-- The address and size of the entries of the types free and MMIO at an address that works.
unfoldable pub usable : (works : ℕ → Bool) → List MMapEntry → List (ℕ × ℕ)
usable works [] = []
usable works (entry ∷ mmap) =
    let rest = usable works mmap in
    if (mmap_type entry == mmap_free || mmap_type entry == mmap_mmio) && works entry.ptr
    then (entry.ptr, mmap_size entry) ∷ rest
    else rest

-- The entries are 64-bit words of one of the four types that the boot loader has.
unfoldable pub AllWords : List MMapEntry → Type 0
AllWords [] = Unit
AllWords (entry ∷ mmap) = ((entry.data_ < 2 ^ 64) × (mmap_type entry ≤ mmap_mmio)) × AllWords mmap

-- What the filter tests is set in two of the four types.
is_free-eq :
    (entry : MMapEntry)
    → mmap_type entry ≤ mmap_mmio
    → is_free entry ≡ (mmap_type entry == mmap_free || mmap_type entry == mmap_mmio)
is_free-eq entry l = rw (and_low 1 entry.data_) (ground (arith, l))

size-eq :
    (entry : MMapEntry)
    → entry.data_ < 2 ^ 64
    → bit_and entry.data_ mmap_data_size_mask ≡ mmap_size entry
size-eq entry l = and_high 4 60 entry.data_ l ∙ omega arith

cleared : (d : ℕ) → d < 2 ^ 64 → (bit_and (bit_and d (not64 mmap_free)) mmap_free != 0) ≡ false
cleared d l = rw (and_low 1 (bit_and d (not64 1)), and_not_low 1 d (omega arith) l) (ground arith)

module _ {M : Type 0} (read_volatile : M → ℕ → ℕ) (write_volatile : M → ℕ → ℕ → M)
    (works : ℕ → Bool)
    (keeps : (m : M) (p q v : ℕ)
      → read_volatile (write_volatile m p v) q
        ≡ (if (p == q) && works p then v else read_volatile m q))
    (absent : (m : M) (p : ℕ) → works p ≡ false → read_volatile m p ≢ 0xae) where
  probe_lem :
      (m : M) (p : ℕ)
      → (probe read_volatile write_volatile m p).0 ≡ (if works p then false else true)
  probe_lem m p =
      let here : (p == p) ≡ true = ground arith in
      elim (Bool-cases (works p)) [
        | inl e ↦ rw (keeps m p p 0xae, here, e) refl
        | inr e ↦ rw (keeps m p p 0xae, here, e) (ground (arith, absent m p e))
      ]

  restored :
      (m : M) (p q : ℕ)
      → read_volatile (probe read_volatile write_volatile m p).1 q ≡ read_volatile m q
  restored m p q = elim (Bool-cases ((p == q) && works p)) [
    | inl e ↦
        let same : p ≡ q = ground (arith, e) in
        rw (keeps (write_volatile m p 0xae) p q (read_volatile m p), e)
          (ap (λ (a : ℕ). read_volatile m a) same)
    | inr e ↦
        rw (keeps (write_volatile m p 0xae) p q (read_volatile m p), e, keeps m p q 0xae, e) refl
  ]

  -- An entry after its check is free just when it was and its address works.
  checked_free :
      (m : M) (entry : MMapEntry)
      → entry.data_ < 2 ^ 64
      → is_free (check_entry read_volatile write_volatile m entry).0
        ≡ (is_free entry && works entry.ptr)
  checked_free m entry l = elim (Bool-cases (is_free entry)) [
    | inl e ↦ elim (Bool-cases (works entry.ptr)) [
      | inl w ↦
          let valid : (probe read_volatile write_volatile m entry.ptr).0 ≡ false =
            probe_lem m entry.ptr ∙ rw w refl in
          rw (check_entry, e, valid, e, w) refl
      | inr w ↦
          let invalid : (probe read_volatile write_volatile m entry.ptr).0 ≡ true =
            probe_lem m entry.ptr ∙ rw w refl in
          rw (check_entry, e, invalid, w) (cleared entry.data_ l)
    ]
    | inr e ↦ rw (check_entry, e, e) refl
  ]

  checked_same :
      (m : M) (entry : MMapEntry)
      → (is_free entry && works entry.ptr) ≡ true
      → (check_entry read_volatile write_volatile m entry).0 ≡ entry
  checked_same m entry b =
      let e : is_free entry ≡ true = ground (arith, b) in
      let w : works entry.ptr ≡ true = ground (arith, b) in
      let valid : (probe read_volatile write_volatile m entry.ptr).0 ≡ false =
        probe_lem m entry.ptr ∙ rw w refl in
      rw (check_entry, e, valid) refl

  checked_restored :
      (m : M) (entry : MMapEntry) (q : ℕ)
      → read_volatile (check_entry read_volatile write_volatile m entry).1 q ≡ read_volatile m q
  checked_restored m entry q = elim (Bool-cases (is_free entry)) [
    | inl e ↦ rw (check_entry, e) (restored m entry.ptr q)
    | inr e ↦ rw (check_entry, e) refl
  ]

  entries_lem :
      (m : M) (mmap : List MMapEntry)
      → AllWords mmap
      → let r = check_entries read_volatile write_volatile m mmap in
        (free_spans r.0 ≡ usable works mmap) × ((q : ℕ) → read_volatile r.1 q ≡ read_volatile m q)
  unfolding check_entries free_spans usable AllWords
  entries_lem m [] words = (refl, λ q. refl)
  entries_lem m (entry ∷ mmap) words =
      let r = check_entry read_volatile write_volatile m entry in
      let rest = entries_lem r.1 mmap words.1 in
      let first = checked_free m entry words.0.0 in
      let kind = is_free-eq entry words.0.1 in
      let size = size-eq entry words.0.0 in
      (
        elim (Bool-cases (is_free entry && works entry.ptr)) [
          | inl b ↦
              rw (first, sym kind, b, checked_same m entry b, size)
                (ap (λ (t : List (ℕ × ℕ)). (entry.ptr, mmap_size entry) ∷ t) rest.0)
          | inr b ↦ rw (first, sym kind, b) rest.0
        ],
        λ q. rest.1 q ∙ checked_restored m entry q,
      )

  -- On a memory that at each address either keeps what is written there and nowhere else, or
  -- ignores writes and never reads as the test value, and for entries of 64-bit words, each of one
  -- of the four types (the low four bits) that the boot loader has: mmap_available_iter yields, in
  -- order, exactly the address and the size (the word without those bits) of each entry behind the
  -- struct, as far as the header's size reaches, that is of type free or MMIO and whose first byte
  -- keeps what is written; every byte of memory reads as before. That MMIO entries are yielded too
  -- is a flaw of the code.
  pub mmap_available_iter_lem :
      (size : ℕ) (mmap : List MMapEntry) (m : M)
      → AllWords (take (sub64 size boot_boot_size / mmap_entry_size) mmap)
      → let r = mmap_available_iter read_volatile write_volatile size mmap m in
        (r.0 ≡ usable works (take (sub64 size boot_boot_size / mmap_entry_size) mmap))
        × ((q : ℕ) → read_volatile r.1 q ≡ read_volatile m q)
  unfolding mmap_available_iter
  mmap_available_iter_lem size mmap m words =
      entries_lem m (take (sub64 size boot_boot_size / mmap_entry_size) mmap) words
