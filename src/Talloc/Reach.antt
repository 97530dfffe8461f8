-- ===== src/Talloc/Reach.antt =====
-- The states that a client can bring about: construction, and then calls that keep the contract.
use mathlib.Core.Option.{some-injective}
use tauos.Base.{
  ℕ, suc, ◌+◌, ◌-◌, ◌^◌, ◌%◌, ◌≤◌, ◌<◌, ◌≡◌, ◌≢◌, inl, inr, sym, ap, ◌∙◌, arith, true, false, some,
  none, leb, ltb, ◌&&◌,
}
use tauos.Bits.Digits.{test_bit}
use tauos.Bits.Pow.{down}
use tauos.Llist.{Ptr, Mem}
use tauos.Talloc.{State, Layout, layout_to_size}
use tauos.Talloc.Alloc.{done, alloc_error, out_of_fuel, Outcome, OomHandler, alloc, dealloc, shrink}
use tauos.Talloc.Refused.{Leaves, alloc-Leaves}
use tauos.Talloc.Regions.{Region, Separate}
use tauos.Talloc.Releases.{up}
use tauos.Talloc.Release.{release}
use tauos.Talloc.Extend.{new}
use tauos.Talloc.Status.{IsSetup, status_bytes}
use tauos.Talloc.New.{IsFirst, new-IsFirst}
use tauos.Talloc.Heap.{Heap, HeapStep, put, drop, give}
use tauos.Talloc.Represents.{Represents}
use tauos.Talloc.Updates.{in_range}
use tauos.Talloc.Runs.{IsGivable, alloc-refines, dealloc-refines, shrink-refines, release-refines}

-- Memory from `base` to `acme`, with no block allocated.
abbrev pub first_heap : (base acme : ℕ) → Heap
first_heap base acme = record { pool = λ x. leb base x && ltb x acme; live = λ b. none }

-- One call: its arguments keep the contract, and the state is the one that the code returns.
pub data Call (K m : ℕ) (s : State) (h : Heap) (u : State) : Heap → Type 0 where
  alloc_call :
      (oom_handler : OomHandler) (fuel g k : ℕ) (layout : Layout) (b : Ptr)
      → g < s.talloc.llists.len
      → layout_to_size s.talloc layout ≡ 2 ^ (K - g)
      → 2 ^ (K - g) ≤ s.talloc.arena_size
      → k ≤ g
      → test_bit s.talloc.avails k ≡ 1
      → alloc oom_handler (suc fuel) s layout ≡ done u b
      → Call K m s h u (put h b g)
  refused_call :
      (oom_handler : OomHandler) (fuel : ℕ) (layout : Layout)
      → oom_handler s layout ≡ (s, false)
      → alloc oom_handler fuel s layout ≡ alloc_error u
      → Call K m s h u h
  dealloc_call :
      (g : ℕ) (b : Ptr) (layout : Layout)
      → h.live b ≡ some g
      → layout_to_size s.talloc layout ≡ 2 ^ (K - g)
      → dealloc s b layout ≡ some u
      → Call K m s h u (drop h b)
  shrink_call :
      (g n : ℕ) (b : Ptr) (old_layout new_layout : Layout)
      → h.live b ≡ some g
      → g + n < s.talloc.llists.len
      → layout_to_size s.talloc old_layout ≡ 2 ^ (K - g)
      → layout_to_size s.talloc new_layout ≡ 2 ^ (K - (g + n))
      → shrink s b old_layout new_layout ≡ u
      → Call K m s h u (put h b (g + n))
  release_call :
      (ptr : Ptr) (len : ℕ)
      → IsGivable s K m h ptr len
      → release s ptr len ≡ some u
      → Call K m s h u (give h (up m ptr) (down m (ptr + len)))

pub data Reachable (K m : ℕ) : State → Heap → Type 0 where
  constructed :
      (mem : Mem (Unit {0})) (arena_base arena_size smallest free_ptr free_len : ℕ) (s : State)
      → IsSetup arena_base arena_size smallest free_ptr free_len K m
      → new mem arena_base arena_size smallest free_ptr free_len ≡ some s
      → Reachable K m s
          (first_heap (up m (free_ptr + status_bytes K m free_ptr)) (down m (free_ptr + free_len)))
  called : {s u : State} {h i : Heap} → Reachable K m s h → Call K m s h u i → Reachable K m u i

state_of : State → Outcome Ptr → State
state_of s (done u b) = u
state_of s (alloc_error u) = s
state_of s out_of_fuel = s

block_of : Outcome Ptr → Ptr
block_of (done u b) = b
block_of (alloc_error u) = 0
block_of out_of_fuel = 0

refused-same : (s u : State) (o : Outcome Ptr) → Leaves s o → o ≡ alloc_error u → u ≡ s
refused-same s u o left e = rw e at left

done-injective :
    (s u v : State) (b c : Ptr) → ◌≡◌ {A = Outcome Ptr} (done u b) (done v c) → (u ≡ v) × (b ≡ c)
unfolding state_of block_of
done-injective s u v b c e = (ap (state_of s) e, ap block_of e)

Call-Represents :
    (K m : ℕ) (s u : State) (h i : Heap)
    → Call K m s h u i
    → Represents s K m h
    → Represents u K m i × HeapStep K h i
Call-Represents K m s u h i (alloc_call oom_handler fuel g k layout b l size room le bit result)
      rep =
    let (v, (c, (result', refined))) =
      alloc-refines s K m g k h oom_handler fuel layout rep l size room le bit in
    let (eu, eb) = done-injective s v u c b (sym result' ∙ result) in
    rw (← eu, ← eb) (refined.0, HeapStep.allocated g c refined.1.0 refined.1.1)
Call-Represents K m s u h i (refused_call oom_handler fuel layout refuses result) rep =
    let same : u ≡ s =
      refused-same s u (alloc oom_handler fuel s layout)
        (alloc-Leaves oom_handler s layout refuses fuel) result in
    rw same (rep, HeapStep.refused)
Call-Represents K m s u h i (dealloc_call g b layout here size result) rep =
    let (v, (result', refined)) = dealloc-refines s K m g h b layout rep here size in
    let e : v ≡ u = some-injective v u (sym result' ∙ result) in rw (← e) refined
Call-Represents K m s u h i (shrink_call g n b old_layout new_layout here l old new result) rep =
    rw (← result) (shrink-refines s K m g n h b old_layout new_layout rep here l old new)
Call-Represents K m s u h i (release_call ptr len givable result) rep =
    let (v, (result', refined)) = release-refines s K m h ptr len rep givable in
    let e : v ≡ u = some-injective v u (sym result' ∙ result) in rw (← e) refined

new-Represents :
    (u : State) (arena_base arena_size smallest K m base acme : ℕ)
    → IsFirst u arena_base arena_size smallest K m base acme
    → Represents u K m (first_heap base acme)
new-Represents u arena_base arena_size smallest K m base acme first = record {
  lists = first.lists;
  valid = first.valid;
  smallest = first.smallest_eq;
  reserved = λ b g is. absurd (ground (arith, is));
  apart = λ b c g k p q differ. absurd (ground (arith, p));
  cover = λ x. (
    λ p. inl ((first.covers x).1 ((in_range base acme x).0 p)),
    λ c. elim c [
      | inl free ↦ (in_range base acme x).1 ((first.covers x).0 free)
      | inr l ↦ absurd (ground (arith, l.is))
    ],
  );
}

-- Every state that new and then any sequence of calls within their contracts bring about represents
-- the heap that the calls describe: the invariant of free lists, availability bits and bitmap
-- holds, allocated blocks are reserved and apart, and the given memory is what is free or
-- allocated. A call of alloc finds a free block, or ends with an error when its handler refuses and
-- leaves the state as it is.
pub Reachable-Represents : (K m : ℕ) {s : State} {h : Heap} → Reachable K m s h → Represents s K m h
Reachable-Represents K m
      (constructed mem arena_base arena_size smallest free_ptr free_len s setup result) =
    let (v, (result', first)) =
      new-IsFirst mem arena_base arena_size smallest free_ptr free_len K m setup in
    let e : v ≡ s = some-injective v s (sym result' ∙ result) in
    rw (← e) (new-Represents v arena_base arena_size smallest K m _ _ first)
Reachable-Represents K m (called {s} {u} {h} {i} before call) =
    (Call-Represents K m s u h i call (Reachable-Represents K m before)).0

-- Abstract steps in a row.
pub data HeapRun (K : ℕ) (first : Heap) : Heap → Type 0 where
  start : HeapRun K first first
  next : {h i : Heap} → HeapRun K first h → HeapStep K h i → HeapRun K first i

-- What new and then any sequence of calls within their contracts do is a sequence of steps of the
-- abstract heap, from a heap with some range of given memory and no block: alloc hands out an
-- aligned block of which every byte was given and none is allocated, dealloc takes an allocated
-- block back, shrink makes it smaller, release gives memory that was not given before, and an alloc
-- that fails because its handler refuses, and leaves the state as it is, changes nothing.
pub Reachable-HeapRun :
    (K m : ℕ) {s : State} {h : Heap}
    → Reachable K m s h
    → (base : ℕ) × ((acme : ℕ) × HeapRun K (first_heap base acme) h)
Reachable-HeapRun K m
      (constructed mem arena_base arena_size smallest free_ptr free_len s setup result) =
    (up m (free_ptr + status_bytes K m free_ptr), (down m (free_ptr + free_len), HeapRun.start))
Reachable-HeapRun K m (called {s} {u} {h} {i} before call) =
    let (base, (acme, run)) = Reachable-HeapRun K m before in
    let step = (Call-Represents K m s u h i call (Reachable-Represents K m before)).1 in
    (base, (acme, HeapRun.next run step))

-- In every state that new and then any sequence of calls of alloc, dealloc, shrink and release
-- within their contracts bring about, two allocated blocks at different bases have no byte in
-- common, and the first of them is aligned to its size and consists of memory that was given to the
-- allocator. A call of alloc finds a free block, or ends with an error when its handler refuses and
-- leaves the state as it is.
pub Reachable-Separate :
    (K m : ℕ) (s : State) (h : Heap) (b c : Ptr) (g k : ℕ)
    → Reachable K m s h
    → h.live b ≡ some g
    → h.live c ≡ some k
    → b ≢ c
    → Separate (K - g) b (K - k) c
      × ((b % 2 ^ (K - g) ≡ 0) × ((x : ℕ) → Region (K - g) b x → h.pool x ≡ true))
Reachable-Separate K m s h b c g k reach p q differ =
    let rep = Reachable-Represents K m reach in
    (
      rep.apart b c g k p q differ,
      (
        (rep.reserved b g p).block.aligned,
        λ x i. (rep.cover x).1 (inr (record { b = b; g = g; is = p; region = i })),
      ),
    )
