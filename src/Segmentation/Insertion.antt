-- ===== src/Segmentation/Insertion.antt =====
-- Where a descriptor is inserted.
use tauos.Base.{
  ℕ, zero, suc, ◌+◌, ◌≤◌, ◌<◌, ◌≡◌, refl, arith, List, true, false, Bool-cases, inl, inr, ltb,
  get_or, set, length,
}
use tauos.Segmentation.{
  contains, code_type, code_present, Inserted, inserted, no_slot, out_of_fuel, insert_user,
  user_seg, try_insert_into_gdt,
}

-- The entries that the search passes on its way from one index to another: all are in use, and a
-- system descriptor takes two.
pub data Walk (gdt : List ℕ) : (from to : ℕ) → Type 0 where
  here : {i : ℕ} → Walk gdt i i
  past_user :
      {i j : ℕ}
      → contains (get_or gdt i 0) code_present ≡ true
      → contains (get_or gdt i 0) code_type ≡ true
      → Walk gdt (i + 1) j
      → Walk gdt i j
  past_system :
      {i j : ℕ}
      → contains (get_or gdt i 0) code_present ≡ true
      → contains (get_or gdt i 0) code_type ≡ false
      → Walk gdt (i + 2) j
      → Walk gdt i j

-- What an insertion of a code or data descriptor that starts at an index may return.
abbrev pub IsPlaced : (gdt : List ℕ) (seg from : ℕ) → Inserted → Type 0
IsPlaced gdt seg from (inserted i after) =
    ((i < length gdt) × Walk gdt from i)
    × ((contains (get_or gdt i 0) code_present ≡ false) × (after ≡ set gdt i seg))
IsPlaced gdt seg from no_slot = (j : ℕ) × ((length gdt ≤ j) × Walk gdt from j)
IsPlaced gdt seg from out_of_fuel = ⊥

from_user :
    (gdt : List ℕ) (seg i : ℕ) (r : Inserted)
    → contains (get_or gdt i 0) code_present ≡ true
    → contains (get_or gdt i 0) code_type ≡ true
    → IsPlaced gdt seg (i + 1) r
    → IsPlaced gdt seg i r
from_user gdt seg i (inserted k after) p t ((l, w), rest) = ((l, past_user p t w), rest)
from_user gdt seg i no_slot p t (j, (l, w)) = (j, (l, past_user p t w))
from_user gdt seg i out_of_fuel p t r = r

from_system :
    (gdt : List ℕ) (seg i : ℕ) (r : Inserted)
    → contains (get_or gdt i 0) code_present ≡ true
    → contains (get_or gdt i 0) code_type ≡ false
    → IsPlaced gdt seg (i + 2) r
    → IsPlaced gdt seg i r
from_system gdt seg i (inserted k after) p t ((l, w), rest) = ((l, past_system p t w), rest)
from_system gdt seg i no_slot p t (j, (l, w)) = (j, (l, past_system p t w))
from_system gdt seg i out_of_fuel p t r = r

insert_user-IsPlaced :
    (fuel : ℕ) (gdt : List ℕ) (seg index : ℕ)
    → 0 < fuel
    → length gdt < index + fuel
    → IsPlaced gdt seg index (insert_user fuel gdt seg index)
unfolding insert_user
insert_user-IsPlaced zero gdt seg index p l = absurd (omega arith)
insert_user-IsPlaced (suc fuel) gdt seg index p l = elim (Bool-cases (ltb index (length gdt))) [
  | inr end ↦ rw (insert_user, end) (index, (ground arith, here))
  | inl within ↦ elim (Bool-cases (contains (get_or gdt index 0) code_present)) [
    | inr unused ↦ rw (insert_user, within, unused) ((ground arith, here), (unused, refl))
    | inl used ↦ elim (Bool-cases (contains (get_or gdt index 0) code_type)) [
      | inl user ↦
          rw (insert_user, within, used, user)
            (from_user gdt seg index _ used user
              (insert_user-IsPlaced fuel gdt seg (index + 1) (ground arith) (omega arith)))
      | inr system ↦
          rw (insert_user, within, used, system)
            (from_system gdt seg index _ used system
              (insert_user-IsPlaced fuel gdt seg (index + 2) (ground arith) (omega arith)))
    ]
  ]
]

-- Inserting a code or data descriptor into a table ends, and either puts it at an index inside the
-- table whose entry is not present, reached from index 1 over present entries only (two for each
-- system descriptor), and changes no other entry, or finds no slot when that walk leaves the table.
pub try_insert_into_gdt-IsPlaced :
    (gdt : List ℕ) (seg : ℕ) → IsPlaced gdt seg 1 (try_insert_into_gdt (user_seg seg) gdt)
unfolding try_insert_into_gdt
try_insert_into_gdt-IsPlaced gdt seg =
    insert_user-IsPlaced (length gdt + 1) gdt seg 1 (omega arith) (omega arith)
