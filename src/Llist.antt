-- ===== src/Llist.antt =====
-- kernel/src/utils/llist.rs: intrusive circular doubly linked lists. A node is known by its
-- address, and memory gives the node at each address; nodes do not overlap. Reads and writes
-- through raw pointers are total here: what the source requires of its callers (that a pointer is
-- valid) stands in the theorems as membership of a list.
pub mod Links
pub mod Insert
pub mod Remove
pub mod Move
pub mod Iterate
pub mod Examples
use tauos.Base.{ℕ, Bool, Option, none, some, ◌==◌, ◌!=◌, if◌then◌else◌}

abbrev pub Ptr : Type 0
Ptr = ℕ

-- `LlistNode<T>`
pub record Node (A : Type 0) : Type 0 where
  pub content : A
  pub next : Ptr
  pub prev : Ptr

abbrev pub Mem : Type 0 → Type 0
Mem A = Ptr → Node A

module _ {A : Type 0} where
  abbrev pub store : Mem A → Ptr → Node A → Mem A
  store m p n a = if p == a then n else m a

  -- `(*p).next.set(q)`
  abbrev pub set_next : Mem A → Ptr → Ptr → Mem A
  set_next m p q = store m p (record { content = (m p).content; next = q; prev = (m p).prev })

  -- `(*p).prev.set(q)`
  abbrev pub set_prev : Mem A → Ptr → Ptr → Mem A
  set_prev m p q = store m p (record { content = (m p).content; next = (m p).next; prev = q })

  unfoldable pub new_llist : Mem A → Ptr → A → Mem A
  new_llist m node content = store m node (record { content = content; next = node; prev = node })

  unfoldable pub new : Mem A → Ptr → Ptr → Ptr → A → Mem A
  new m node prev next content =
      let m1 = store m node (record { content = content; next = next; prev = prev }) in
      let m2 = set_prev m1 next node in set_next m2 prev node

  unfoldable pub mov : Mem A → Ptr → Ptr → Mem A
  mov m src dst =
      let src_prev = (m src).prev in
      let src_next = (m src).next in
      let m1 = set_next m src_prev dst in
      let m2 = set_prev m1 src_next dst in
      let m3 = store m2 dst (m2 src) in let m4 = set_prev m3 src 0xabc in set_next m4 src 0xabc

  -- The memory after `remove`; its result is the content.
  unfoldable pub remove : Mem A → Ptr → Mem A
  remove m node =
      let prev = (m node).prev in
      let next = (m node).next in
      let m1 = set_next m prev next in
      let m2 = set_prev m1 next prev in let m3 = set_prev m2 node 0xdef in set_next m3 node 0xdef

  unfoldable pub relink : Mem A → (start end prev next : Ptr) → Mem A
  relink m start end prev next =
      let start_prev = (m start).prev in
      let end_next = (m end).next in
      let m1 = set_next m start_prev end_next in
      let m2 = set_prev m1 end_next start_prev in
      let m3 = set_prev m2 start prev in
      let m4 = set_next m3 end next in let m5 = set_next m4 prev start in set_prev m5 next end

-- `IterMut<T>`
pub record IterMut : Type 0 where
  pub forward : Ptr
  pub backward : Ptr
  pub ongoing : Bool

module _ {A : Type 0} where
  -- `LlistNode::iter_mut`, `IterMut::new`
  unfoldable pub iter_mut : Mem A → Ptr → IterMut
  iter_mut m sentinel = record {
    forward = (m sentinel).next;
    backward = (m sentinel).prev;
    ongoing = sentinel != (m sentinel).next;
  }

  unfoldable pub iter_next : Mem A → IterMut → Option Ptr × IterMut
  iter_next m it =
      if it.ongoing
      then (
        some it.forward,
        record {
          forward = (m it.forward).next;
          backward = it.backward;
          ongoing = it.forward != it.backward;
        },
      )
      else (none, it)

  unfoldable pub iter_next_back : Mem A → IterMut → Option Ptr × IterMut
  iter_next_back m it =
      if it.ongoing
      then (
        some it.backward,
        record {
          forward = it.forward;
          backward = (m it.backward).prev;
          ongoing = it.forward != it.backward;
        },
      )
      else (none, it)
