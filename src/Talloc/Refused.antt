-- ===== src/Talloc/Refused.antt =====
-- `alloc` when the handler for a lack of memory refuses.
use tauos.Base.{ℕ, Bool, zero, suc, ◌≡◌, inl, inr, ap, false, ◌==◌, Bool-cases, ltb, bit_and}
use tauos.Bits.{◌<<◌}
use tauos.Talloc.{State, Layout, layout_to_size, block_granularity}
use tauos.Talloc.Alloc.{
  done, alloc_error, out_of_fuel, Outcome, OomHandler, larger_avails, alloc_larger, find_larger,
  alloc_sized, grow_arena, alloc,
}

-- The outcome is no error, or the error leaves the state `s`.
abbrev pub Leaves : {A : Type 0} → State → Outcome A → Type 0
Leaves s (done u a) = Unit
Leaves s (alloc_error u) = u ≡ s
Leaves s out_of_fuel = Unit

module _ (oom_handler : OomHandler) (s : State) (layout : Layout)
    (refuses : oom_handler s layout ≡ (s, false)) where
  find_larger-Leaves : (fuel size g : ℕ) → Leaves s (find_larger oom_handler fuel s layout size g)
  unfolding find_larger alloc_larger
  find_larger-Leaves zero size g = tt
  find_larger-Leaves (suc fuel) size g = elim (Bool-cases (larger_avails s.talloc g == 0)) [
    | inl empty ↦ rw (find_larger, empty, refuses) (ap (λ (r : State × Bool). r.0) refuses)
    | inr some ↦ rw (find_larger, some) tt
  ]

  alloc_sized-Leaves : (fuel size : ℕ) → Leaves s (alloc_sized oom_handler fuel s layout size)
  unfolding alloc_sized
  alloc_sized-Leaves fuel size =
      elim (Bool-cases (bit_and s.talloc.avails (1 << block_granularity s.talloc size) == 0)) [
        | inl empty ↦ rw empty (find_larger-Leaves fuel size (block_granularity s.talloc size))
        | inr some ↦ rw some tt
      ]

  pub alloc-Leaves : (fuel : ℕ) → Leaves s (alloc oom_handler fuel s layout)
  unfolding alloc grow_arena
  alloc-Leaves zero = tt
  alloc-Leaves (suc fuel) =
      elim (Bool-cases (ltb s.talloc.arena_size (layout_to_size s.talloc layout))) [
        | inl large ↦
            rw (alloc, grow_arena, large, refuses) (ap (λ (r : State × Bool). r.0) refuses)
        | inr fits ↦
            rw (alloc, grow_arena, fits)
              (alloc_sized-Leaves (suc fuel) (layout_to_size s.talloc layout))
      ]
