-- ===== src/Mapping/Offset.antt =====
-- What `map_offset` writes to a table of the lowest level.
use tauos.Base.{
  ℕ, zero, suc, ◌+◌, ◌*◌, ◌/◌, ◌%◌, ◌^◌, ◌≤◌, ◌<◌, ◌≡◌, ◌⊎◌, inl, inr, refl, sym, ap, ◌∙◌, arith,
  bit_or, Bool, true, false, Bool-cases, Option, some, ◌==◌, ltb, if◌then◌else◌,
}
use tauos.Bits.{add64, signed_lt}
use tauos.Paging.{
  Pte, page_size, table_index, PatType, uncacheable, write_combining, write_through, write_protect,
  write_back, uncacheable_minus, from_pat,
}
use tauos.Paging.Indices.{index_1}
use tauos.Paging.Entries.{from_paddr_iff, pat_index}
use tauos.Mapping.{
  Tables, set_entry, pte_p, is_leaf, leaf_entry, map_entry, map_entries, map_offset,
  pat_type_to_pte, krnl_default_pat,
}

-- The type at an index of the default table.
abbrev pub default_type : ℕ → PatType
default_type i =
    if i == 0
    then krnl_default_pat.std_types.t0
    else if i == 1
    then krnl_default_pat.std_types.t1
    else if i == 2
    then krnl_default_pat.std_types.t2
    else if i == 3
    then krnl_default_pat.std_types.t3
    else if i == 4
    then krnl_default_pat.pat_types.t0
    else if i == 5
    then krnl_default_pat.pat_types.t1
    else if i == 6
    then krnl_default_pat.pat_types.t2
    else krnl_default_pat.pat_types.t3

-- The entry flags that pat_type_to_pte gives for a type, for a page of either kind, select exactly
-- that type in the default table.
pub pat_type_to_pte_lem :
    (t : PatType) (is_hpage : Bool)
    → default_type (pat_index (pat_type_to_pte t is_hpage) is_hpage) ≡ t
unfolding pat_type_to_pte from_pat
pat_type_to_pte_lem uncacheable true = refl
pat_type_to_pte_lem uncacheable false = refl
pat_type_to_pte_lem write_combining true = refl
pat_type_to_pte_lem write_combining false = refl
pat_type_to_pte_lem write_through true = refl
pat_type_to_pte_lem write_through false = refl
pat_type_to_pte_lem write_protect true = refl
pat_type_to_pte_lem write_protect false = refl
pat_type_to_pte_lem write_back true = refl
pat_type_to_pte_lem write_back false = refl
pat_type_to_pte_lem uncacheable_minus true = refl
pat_type_to_pte_lem uncacheable_minus false = refl

-- Doing a step so many times.
unfoldable pub iterate : {S : Type 0} → (S → S) → ℕ → S → S
iterate next zero s = s
iterate next (suc i) s = iterate next i (next s)

module _ {S : Type 0} (page_getter : ℕ → S → Option (ℕ × S)) (page : S → ℕ) (next : S → S)
    (gets : (s : S) → page_getter 4096 s ≡ some (page s, next s))
    (is_page : (s : S) → (page s % 2 ^ 12 ≡ 0) × (page s < 2 ^ 52)) (branches leaves : Pte) where
  abbrev pub entry_for : S → Pte
  entry_for s = bit_or (bit_or pte_p (page s)) leaves

  -- The `n` entries from index `idx` on hold the pages in the order in which they were given, and all
  -- else is as it was.
  abbrev pub IsMapped : (table idx n : ℕ) → (before after : Tables) → S → Type 0
  IsMapped table idx n before after s =
      ((i : ℕ) → i < n → after (table + 8 * (idx + i)) ≡ entry_for (iterate next i s))
      × ((a : ℕ) → (a < table + 8 * idx) ⊎ (table + 8 * (idx + n) ≤ a) → after a ≡ before a)

  page_entry : (s : S) → leaf_entry 1 leaves (page s) ≡ some (entry_for s)
  unfolding leaf_entry
  page_entry s =
      let aligned : (page s % 2 ^ 12 == 0) ≡ true = ground (arith, is_page s) in
      let small : ltb (page s) (2 ^ 52) ≡ true = ground (arith, is_page s) in
      rw (from_paddr_iff (page s) (omega (arith, is_page s)), aligned, small) refl

  entry_step :
      (lower : (base table : ℕ) → Tables → S → Option (Tables × S))
      → (acme base table idx : ℕ) (tables : Tables) (s : S) → table_index base 1 ≡ idx
      → map_entry page_getter branches leaves lower 1 acme base table tables s
        ≡ some (set_entry tables (table + 8 * idx) (entry_for s), next s)
  unfolding map_entry is_leaf page_size
  entry_step lower acme base table idx tables s e = rw (e, gets s, page_entry s) refl

  -- One entry, and the rest of them after it.
  IsMapped-after :
      (table idx n : ℕ) (tables after : Tables) (s : S)
      → IsMapped table (idx + 1) n (set_entry tables (table + 8 * idx) (entry_for s)) after (next s)
      → IsMapped table idx (suc n) tables after s
  unfolding iterate
  IsMapped-after table idx n tables after s (inside, outside) =
      (λ i l. at_index i l, λ a out. outside a (wider a out) ∙ other a out)
    where
      wider :
          (a : ℕ)
          → (a < table + 8 * idx) ⊎ (table + 8 * (idx + suc n) ≤ a)
          → (a < table + 8 * (idx + 1)) ⊎ (table + 8 * (idx + 1 + n) ≤ a)
      wider a (inl l) = inl (omega arith)
      wider a (inr l) = inr (omega arith)

      other :
          (a : ℕ)
          → (a < table + 8 * idx) ⊎ (table + 8 * (idx + suc n) ≤ a)
          → set_entry tables (table + 8 * idx) (entry_for s) a ≡ tables a
      other a (inl l) = ground arith
      other a (inr l) = ground arith

      same : (table + 8 * idx == table + 8 * idx) ≡ true
      same = ground arith

      at_index : (i : ℕ) → i < suc n → after (table + 8 * (idx + i)) ≡ entry_for (iterate next i s)
      at_index zero l =
          let place : table + 8 * (idx + 0) ≡ table + 8 * idx = omega arith in
          rw place (outside (table + 8 * idx) (inl (omega arith)) ∙ rw same refl)
      at_index (suc i) l =
          let place : idx + suc i ≡ idx + 1 + i = omega arith in rw place (inside i (omega arith))

  abbrev Result : (acme table idx n : ℕ) → (tables : Tables) (s : S) → Option (Tables × S) → Type 0
  Result acme table idx n tables s r =
      (after : Tables) × ((r ≡ some (after, iterate next n s))
        × IsMapped table idx n tables after s)

  iterate-zero : (n : ℕ) (s : S) → n ≡ 0 → iterate next n s ≡ s
  unfolding iterate
  iterate-zero zero s e = refl
  iterate-zero (suc n) s e = absurd (omega arith)

  entries_next :
      (lower : (base table : ℕ) → Tables → S → Option (Tables × S))
      → (fuel acme base table idx : ℕ) (tables : Tables) (s : S) → signed_lt base acme ≡ true
      → table_index base 1 ≡ idx
      → (idx == 511) ≡ false
      → base + 4096 < 2 ^ 64
      → map_entries page_getter branches leaves lower (suc fuel) 1 acme base table tables s
        ≡ map_entries page_getter branches leaves lower fuel 1 acme
            (base + 4096)
            table
            (set_entry tables (table + 8 * idx) (entry_for s))
            (next s)
  unfolding map_entries page_size
  entries_next lower fuel acme base table idx tables s go index more small =
      let next_base : add64 base 4096 ≡ base + 4096 = omega arith in
      rw
        (
          go,
          map_entries,
          entry_step lower acme base table idx tables s index,
          index,
          more,
          next_base,
        )
        refl

  entries_lem :
      (lower : (base table : ℕ) → Tables → S → Option (Tables × S))
      → (n fuel acme base table idx : ℕ) (tables : Tables) (s : S) → n ≤ fuel
      → base / 2 ^ 12 % 512 ≡ idx
      → idx + n ≤ 512
      → acme ≡ base + n * 4096
      → acme < 2 ^ 47
      → Result acme table idx n tables s
          (map_entries page_getter branches leaves lower fuel 1 acme base table tables s)
  unfolding map_entries iterate page_size
  entries_lem lower zero zero acme base table idx tables s a b c d e =
      (tables, (refl, (λ i l. absurd (omega arith), λ _ _. refl)))
  entries_lem lower zero (suc fuel) acme base table idx tables s a b c d e =
      let stop : signed_lt base acme ≡ false = ground arith in
      (tables, (rw (stop, map_entries) refl, (λ i l. absurd (omega arith), λ _ _. refl)))
  entries_lem lower (suc n) zero acme base table idx tables s a b c d e = absurd (omega arith)
  entries_lem lower (suc n) (suc fuel) acme base table idx tables s a b c d e =
      let go : signed_lt base acme ≡ true = ground arith in
      let index : table_index base 1 ≡ idx = index_1 base ∙ b in
      let step = entry_step lower acme base table idx tables s index in
      let tables1 = set_entry tables (table + 8 * idx) (entry_for s) in
      elim (Bool-cases (idx == 511)) [
        | inl last ↦
            let none_left : n ≡ 0 = ground arith in
            (
              tables1,
              (
                rw (go, map_entries, step, index, last)
                    (ap (λ (t : S). some (tables1, t)) (sym (iterate-zero n (next s) none_left))),
                IsMapped-after table idx n tables tables1 s
                    (λ i l. absurd (omega (arith, l, none_left)), λ _ _. refl),
              ),
            )
        | inr more ↦
            let (after, (same, mapped)) =
              entries_lem lower n fuel acme (base + 4096) table (idx + 1) tables1 (next s)
                (omega arith) (ground arith) (omega arith) (omega arith) e in
            (
              after,
              (
                entries_next lower fuel acme base table idx tables s go index more (omega arith)
                    ∙ same,
                IsMapped-after table idx n tables after s mapped,
              ),
            )
      ]

  -- With a source of pages that never fails and gives page-aligned addresses below 2 ^ 52,
  -- map_offset at the lowest level, for a whole number of pages of the lower half that the table
  -- still has room for, succeeds: the entries from the index of the base on hold the pages in the
  -- order given, present and with the flags of a leaf, every other entry is unchanged, and exactly
  -- so many pages were taken.
  pub map_offset_lem :
      (n base table : ℕ) (tables : Tables) (s : S)
      → base / 2 ^ 12 % 512 + n ≤ 512
      → base + n * 4096 < 2 ^ 47
      → (after : Tables) × ((map_offset page_getter branches leaves 1
              (base + n * 4096)
              base
              table
              tables
              s
            ≡ some (after, iterate next n s))
          × IsMapped table (base / 2 ^ 12 % 512) n tables after s)
  unfolding map_offset
  map_offset_lem n base table tables s fits low =
      entries_lem (map_offset page_getter branches leaves 0 (base + n * 4096)) n 512
        (base + n * 4096) base table (base / 2 ^ 12 % 512) tables s (omega arith) refl fits refl low
