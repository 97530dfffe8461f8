-- ===== src/Bits/Table.antt =====
-- Checking every value of a small range by evaluation.
use tauos.Base.{ℕ, zero, suc, ◌<◌, ◌≡◌, arith, Bool, true, ◌&&◌}

-- Whether a test holds of every number below a bound.
unfoldable pub all_below : ℕ → (ℕ → Bool) → Bool
all_below zero p = true
all_below (suc n) p = p n && all_below n p

pub all_below_sound : (n : ℕ) (p : ℕ → Bool) (x : ℕ) → all_below n p ≡ true → x < n → p x ≡ true
unfolding all_below
all_below_sound zero p x h l = absurd (omega arith)
all_below_sound (suc n) p x h l = ground (arith, all_below_sound n p x)
