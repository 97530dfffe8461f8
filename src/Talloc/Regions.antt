-- ===== src/Talloc/Regions.antt =====
-- The free memory as a set of addresses, and the part of the invariant that speaks of it: free
-- blocks do not overlap, and hold no sentinel.
use mathlib.Core.Bool.{false≢true}
use tauos.Base.{
  ℕ, ◌+◌, ◌-◌, ◌^◌, ◌≤◌, ◌<◌, ◌≡◌, ◌↔◌, ◌⊎◌, inl, inr, sym, ◌∙◌, ◌*◌, ◌&&◌, ◌||◌, true, false, ◌∷◌,
  arith, ◌==◌, Bool-cases,
}
use tauos.Bits.Pow.{pow-pos}
use tauos.Llist.{Ptr}
use tauos.Llist.Links.{has}
use tauos.Talloc.{NodeSlice, State, sentinel, node_size}
use tauos.Talloc.Arena.{IsBlock}
use tauos.Talloc.Books.{Books, FreeLists}
use tauos.Talloc.Add.{IsNew}

-- `x` lies in the `2 ^ j` bytes from `b`.
abbrev pub Region : (j b x : ℕ) → Type 0
Region j b x = (b ≤ x) × (x < b + 2 ^ j)

abbrev pub Separate : (j b k c : ℕ) → Type 0
Separate j b k c = (b + 2 ^ j ≤ c) ⊎ (c + 2 ^ k ≤ b)

-- `x` lies in a free block.
pub record Covers (n K : ℕ) (free : FreeLists) (x : ℕ) : Type 0 where
  pub g : ℕ
  pub b : Ptr
  pub level : g < n
  pub listed : has b (free g) ≡ true
  pub region : Region (K - g) b x

abbrev pub node_at : NodeSlice → ℕ → Ptr
node_at sl g = sl.ptr + node_size * g

-- Free blocks do not overlap, and no sentinel lies in one.
pub record IsSpread (sl : NodeSlice) (K : ℕ) (free : FreeLists) : Type 0 where
  pub disjoint :
      (g h : ℕ) (b c : Ptr)
      → g < sl.len
      → h < sl.len
      → has b (free g) ≡ true
      → has c (free h) ≡ true
      → Separate (K - g) b (K - h) c ⊎ ((g ≡ h) × (b ≡ c))
  pub spared :
      (g h : ℕ) (b : Ptr)
      → g < sl.len
      → h < sl.len
      → has b (free g) ≡ true
      → (node_at sl h < b) ⊎ (b + 2 ^ (K - g) ≤ node_at sl h)

-- The whole invariant.
pub record Valid (s : State) (K : ℕ) (free : FreeLists) : Type 0 where
  pub books : Books s K free
  pub spread : IsSpread s.talloc.llists K free

-- A block of granularity `g` at `b` none of which is free: it is allocated, or being worked on.
pub record IsReserved (base : ℕ) (sl : NodeSlice) (K : ℕ) (free : FreeLists) (g : ℕ) (b : Ptr)
    : Type 0 where
  pub level : g < sl.len
  pub block : IsBlock base g (K - g) b
  pub disjoint :
      (h : ℕ) (c : Ptr) → h < sl.len → has c (free h) ≡ true → Separate (K - g) b (K - h) c
  pub spared : (h : ℕ) → h < sl.len → (node_at sl h < b) ⊎ (b + 2 ^ (K - g) ≤ node_at sl h)

abbrev pub Reserved : State → (K : ℕ) → FreeLists → (g : ℕ) → Ptr → Type 0
Reserved s K free g b = IsReserved s.talloc.arena_base s.talloc.llists K free g b

pub Reserved-IsNew :
    (s : State) (K : ℕ) (free : FreeLists) (g : ℕ) (b : Ptr)
    → Reserved s K free g b
    → IsNew s.talloc K free g b
Reserved-IsNew s K free g b r = record {
  level = r.level;
  block = r.block;
  out = λ h l. elim (Bool-cases (has b (sentinel s.talloc h ∷ free h))) [
    | inl i ↦ absurd (not_in h l i)
    | inr o ↦ o
  ];
}
  where
    not_in : (h : ℕ) → h < s.talloc.llists.len → has b (sentinel s.talloc h ∷ free h) ≡ true → ⊥
    not_in h l i = elim (Bool-cases (b == sentinel s.talloc h)) [
      | inl e ↦ ground (arith, r.spared h l, pow-pos (K - g))
      | inr ne ↦ ground (arith, r.disjoint h b l, pow-pos (K - g), pow-pos (K - h))
    ]

-- `more` has the block `b` of granularity `g` in addition to those of `less`, which lacks it.
pub record Adds (less more : FreeLists) (g : ℕ) (b : Ptr) : Type 0 where
  pub lacks : has b (less g) ≡ false
  pub gains : (h : ℕ) (c : Ptr) → has c (more h) ≡ (has c (less h) || (g == h && c == b))

module _ {less more : FreeLists} {g : ℕ} {b : Ptr} (adds : Adds less more g b) where
  pub mem_less : (h : ℕ) (c : Ptr) → has c (less h) ≡ true → has c (more h) ≡ true
  mem_less h c i = ground (arith, adds.gains h c)

  pub mem_added : has b (more g) ≡ true
  mem_added = ground (arith, adds.gains g b)

  pub mem_more :
      (h : ℕ) (c : Ptr) → has c (more h) ≡ true → (has c (less h) ≡ true) ⊎ ((g ≡ h) × (b ≡ c))
  mem_more h c i = ground (arith, adds.gains h c)

  -- The block's bytes are what is free more.
  pub Covers-Adds :
      (n K x : ℕ) → g < n → Covers n K more x ↔ (Covers n K less x ⊎ Region (K - g) b x)
  Covers-Adds n K x l = (to, from)
    where
      to : Covers n K more x → Covers n K less x ⊎ Region (K - g) b x
      to c = elim (mem_more c.g c.b c.listed) [
        | inl i ↦ inl (record { g = c.g; b = c.b; level = c.level; listed = i; region = c.region })
        | inr (e, k) ↦ inr (rw (e, k) c.region)
      ]

      from : Covers n K less x ⊎ Region (K - g) b x → Covers n K more x
      from (inl c) = record {
        g = c.g;
        b = c.b;
        level = c.level;
        listed = mem_less c.g c.b c.listed;
        region = c.region;
      }
      from (inr r) = record { g = g; b = b; level = l; listed = mem_added; region = r }

  -- None of a reserved block's bytes is free.
  pub reserved-not_covered :
      (base : ℕ) (sl : NodeSlice) (K x : ℕ)
      → IsReserved base sl K less g b
      → Region (K - g) b x
      → Covers sl.len K less x
      → ⊥
  reserved-not_covered base sl K x r i c =
      ground (arith, r.disjoint c.g c.b c.level c.listed, c.region, i)

  -- Registering a reserved block keeps free blocks apart.
  pub add-IsSpread :
      (base : ℕ) (sl : NodeSlice) (K : ℕ)
      → IsSpread sl K less
      → IsReserved base sl K less g b
      → IsSpread sl K more
  add-IsSpread base sl K v r = record {
    disjoint = λ h k c d l m i j. elim (mem_more h c i) [
      | inl p ↦ elim (mem_more k d j) [
        | inl q ↦ v.disjoint h k c d l m p q
        | inr (e, f) ↦ rw (← e, ← f) (inl (ground (arith, r.disjoint h c l p)))
      ]
      | inr (e, f) ↦ elim (mem_more k d j) [
        | inl q ↦ rw (← e, ← f) (inl (r.disjoint k d m q))
        | inr (e', f') ↦ inr (sym e ∙ e', sym f ∙ f')
      ]
    ];
    spared = λ h k c l m i. elim (mem_more h c i) [
      | inl p ↦ v.spared h k c l m p
      | inr (e, f) ↦ rw (← e, ← f) (r.spared k m)
    ];
  }

  pub take-IsSpread : (sl : NodeSlice) (K : ℕ) → IsSpread sl K more → IsSpread sl K less
  take-IsSpread sl K v = record {
    disjoint = λ h k c d l m i j. v.disjoint h k c d l m (mem_less h c i) (mem_less k d j);
    spared = λ h k c l m i. v.spared h k c l m (mem_less h c i);
  }

  -- A block that is no longer listed is reserved.
  pub take-IsReserved :
      (base : ℕ) (sl : NodeSlice) (K : ℕ)
      → g < sl.len
      → IsBlock base g (K - g) b
      → IsSpread sl K more
      → IsReserved base sl K less g b
  take-IsReserved base sl K l block v = record {
    level = l;
    block = block;
    disjoint = λ h c m i. elim (v.disjoint g h b c l m mem_added (mem_less h c i)) [
      | inl apart ↦ apart
      | inr (e, f) ↦ absurd (false≢true (sym adds.lacks ∙ rw (e, f) i))
    ];
    spared = λ h m. v.spared g h b l m mem_added;
  }
