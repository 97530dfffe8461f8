-- ===== src/Talloc/Tallock.antt =====
-- `Tallock`: the traits `GlobalAlloc` and `Allocator` on top of `Talloc`, one call at a time under
-- its lock. Of what these methods do to the bytes of blocks, the accesses are recorded, each with
-- the allocator's state in which it is made; the bytes themselves are not modelled.
use tauos.Base.{ℕ, List, ◌∷◌, true, false, Option, some, none, ◌==◌, ltb}
use tauos.Base.Partial.{◌>>=◌}
use tauos.Llist.{Ptr}
use tauos.Talloc.{State, Layout}
use tauos.Talloc.Alloc.{done, alloc_error, out_of_fuel, OomHandler, alloc, dealloc, shrink}

-- An access to `count` bytes of blocks.
pub data Access : Type 0 where
  write_bytes : (ptr : Ptr) (value count : ℕ) → Access
  copy_nonoverlapping : (src dst : Ptr) (count : ℕ) → Access

-- What the lock guards, and the accesses made so far, the last one first.
pub record Tallock : Type 0 where
  pub talloc : State
  pub accesses : List (State × Access)

abbrev pub access : Tallock → Access → Tallock
access t a = record { talloc = t.talloc; accesses = (t.talloc, a) ∷ t.accesses }

abbrev pub with_state : Tallock → State → Tallock
with_state t s = record { talloc = s; accesses = t.accesses }

-- The layout of `realloc`'s new block
abbrev pub resized : Layout → (new_size : ℕ) → Layout
resized layout new_size = record { size = new_size; align = layout.align }

-- The pointer of `NonNull::dangling()` is a parameter. `none` stands for a handler that is asked
-- for ever.
module _ (oom_handler : OomHandler) (dangling : Ptr) (fuel : ℕ) where
  -- `Talloc::alloc` with its `Result` as an option
  unfoldable pub try_alloc : Tallock → Layout → Option (Tallock × Option Ptr)
  try_alloc t layout = elim (alloc oom_handler fuel t.talloc layout) [
    | done s b ↦ some (with_state t s, some b)
    | alloc_error s ↦ some (with_state t s, none)
    | out_of_fuel ↦ none
  ]

  -- `GlobalAlloc::alloc`
  unfoldable pub global_alloc : Tallock → Layout → Option (Tallock × Ptr)
  global_alloc t layout = try_alloc t layout >>= λ r. some (r.0, elim r.1 [ some b ↦ b | none ↦ 0 ])

  -- `GlobalAlloc::dealloc`
  unfoldable pub global_dealloc : Tallock → Ptr → Layout → Option Tallock
  global_dealloc t ptr layout = dealloc t.talloc ptr layout >>= λ s. some (with_state t s)

  unfoldable pub alloc_zeroed : Tallock → Layout → Option (Tallock × Ptr)
  alloc_zeroed t layout = try_alloc t layout >>= λ r. elim r.1 [
    | some b ↦ some (access r.0 (write_bytes b 0 layout.size), b)
    | none ↦ some (r.0, 0)
  ]

  -- `realloc` to a larger size
  unfoldable pub realloc_larger :
      Tallock → Ptr → (old_layout : Layout) (new_size : ℕ) → Option (Tallock × Ptr)
  realloc_larger t ptr old_layout new_size = try_alloc t (resized old_layout new_size) >>= λ r.
      elim r.1 [
        | some b ↦
            global_dealloc (access r.0 (copy_nonoverlapping ptr b old_layout.size)) ptr old_layout
            >>= λ t'. some (t', b)
        | none ↦ some (r.0, 0)
      ]

  unfoldable pub realloc :
      Tallock → Ptr → (old_layout : Layout) (new_size : ℕ) → Option (Tallock × Ptr)
  realloc t ptr old_layout new_size = elim (ltb old_layout.size new_size) [
    | true ↦ realloc_larger t ptr old_layout new_size
    | false ↦
        some (with_state t (shrink t.talloc ptr old_layout (resized old_layout new_size)), ptr)
  ]

  -- `Allocator::allocate`: the slice's address and length, or `AllocError`
  unfoldable pub allocate : Tallock → Layout → Option (Tallock × Option (Ptr × ℕ))
  allocate t layout = elim (layout.size == 0) [
    | false ↦ try_alloc t layout >>= λ r.
        some (r.0, elim r.1 [ some b ↦ some (b, layout.size) | none ↦ none ])
    | true ↦ some (t, some (dangling, 0))
  ]

  -- `Allocator::deallocate`
  unfoldable pub deallocate : Tallock → Ptr → Layout → Option Tallock
  deallocate t ptr layout = elim (ptr == dangling) [
    | false ↦ global_dealloc t ptr layout
    | true ↦ some t
  ]

  -- `Allocator::shrink`
  unfoldable pub shrink_block :
      Tallock → Ptr → (old_layout new_layout : Layout) → Option (Tallock × (Ptr × ℕ))
  shrink_block t ptr old_layout new_layout = elim (new_layout.size == 0) [
    | false ↦
        some (with_state t (shrink t.talloc ptr old_layout new_layout), (ptr, new_layout.size))
    | true ↦ deallocate t ptr old_layout >>= λ t'. some (t', (dangling, 0))
  ]
