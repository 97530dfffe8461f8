-- ===== src/Base/Order.antt =====
-- Strong induction on the native numbers.
use Prim.Native.Nat.{ℕ, zero, suc, ◌<◌}
use native.Mathlib.Omega.{arith}

induct {ℓ} : (P : ℕ → Type ℓ) → ((n : ℕ) → ((m : ℕ) → m < n → P m) → P n) → (k n : ℕ) → n < k → P n
induct P step zero n h = elim h [ ]
induct P step (suc k) n h = step n (λ m p. induct P step k m (omega arith))

pub strong {ℓ} : (P : ℕ → Type ℓ) → ((n : ℕ) → ((m : ℕ) → m < n → P m) → P n) → (n : ℕ) → P n
strong P step n = induct P step (suc n) n (omega arith)
