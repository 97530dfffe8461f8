-- ===== src/Privilege.antt =====
-- amd64/src/lib.rs: privilege levels.
use tauos.Base.{ℕ, Bool, true, false, Option, some, none, ◌==◌, if◌then◌else◌}

pub data PrivLvl : Type 0 where
  ring0 ring1 ring2 ring3 : PrivLvl

-- `PrivLvl::from_bits`; `none` where it panics.
unfoldable pub from_bits : ℕ → Option PrivLvl
from_bits from =
    if from == 0
    then some ring0
    else if from == 1
    then some ring1
    else if from == 2
    then some ring2
    else if from == 3
    then some ring3
    else none

unfoldable pub to_bits : PrivLvl → ℕ
to_bits ring0 = 0
to_bits ring1 = 1
to_bits ring2 = 2
to_bits ring3 = 3

unfoldable pub is_userland : PrivLvl → Bool
is_userland ring3 = true
is_userland _ = false
