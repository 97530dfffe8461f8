-- ===== src/Llist/Examples.antt =====
-- Uses of the theorems on linked lists at a given list, and tests.
use tauos.Base.{ℕ, ◌≡◌, refl, [], ◌∷◌, ◌==◌, arith, some, if◌then◌else◌}
use tauos.Llist.{Mem, mov, remove, relink, iter_mut}
use tauos.Llist.Links.{IsRing}
use tauos.Llist.Remove.{remove-IsRing}
use tauos.Llist.Move.{mov-IsRing}
use tauos.Llist.Iterate.{collect, collect-IsRing}

-- The sentinel at 16, and the nodes 32, 48 and 64 behind it.
abbrev three : Mem ℕ
three a =
    if a == 16
    then record { content = 0; next = 32; prev = 64 }
    else if a == 32
    then record { content = 7; next = 48; prev = 16 }
    else if a == 48
    then record { content = 8; next = 64; prev = 32 }
    else if a == 64
    then record { content = 9; next = 16; prev = 48 }
    else record { content = 1; next = 0; prev = 0 }

three-IsRing : IsRing three 16 (32 ∷ 48 ∷ 64 ∷ [])
three-IsRing = record {
  links = (refl, refl, (refl, refl, (refl, refl, (refl, refl))));
  fresh = refl;
  unique = (refl, (refl, (refl, tt)));
}

test_relink : (relink three 48 64 16 32 16).next ≡ 48
unfolding relink
test_relink = refl

remove-IsRing_example : IsRing (remove three 48) 16 (32 ∷ 64 ∷ [])
remove-IsRing_example = remove-IsRing three 16 (32 ∷ []) 48 (64 ∷ []) three-IsRing

mov-IsRing_example : IsRing (mov three 16 96) 96 (32 ∷ 48 ∷ 64 ∷ [])
mov-IsRing_example = mov-IsRing three 16 96 (32 ∷ 48 ∷ 64 ∷ []) three-IsRing refl

collect-IsRing_example : collect 4 three (iter_mut three 16) ≡ some (32 ∷ 48 ∷ 64 ∷ [])
collect-IsRing_example = collect-IsRing 4 three 16 (32 ∷ 48 ∷ 64 ∷ []) three-IsRing (omega arith)
