-- ===== src/Heap/Invariant.antt =====
-- The state of cf.c between two operations, without increments: which pages stand on which ring, and
-- what their bitmaps and counters say.
pub mod Settles
pub mod Pages
pub mod Fresh
pub mod Lifted
pub mod Placed
pub mod Touched
use compact_fit.Base.{
  ℕ, ◌/◌, ◌^◌, ◌<◌, ◌≤◌, ◌≡◌, ◌⊎◌, ap, sym, ◌∙◌, arith, Bool, true, false, ◌==◌, List, [],
  Bool-cases, inl, inr,
}
use mathlib.Core.Path.{subst}
use compact_fit.Page.{Page, pagedatasize}
use compact_fit.Page.Census.{Counted}
use compact_fit.ListHead.Ring.{has}
use compact_fit.ListHead.Without.{length}
use compact_fit.State.{
  Cf, SizeClass, Globals, head_full_pages, head_nfull_pages, head_source_pages, head_emptying_pages,
  list_of_page,
}
use compact_fit.State.Kept.{Holds, IsKept}
use compact_fit.Classes.Filed.{heads, IsFiled, full_is_head, nfull_is_head}
use compact_fit.Classes.Moves.{IsFresh}

-- How many blocks a page of the class holds.
abbrev pub capacity : SizeClass → ℕ
capacity c = pagedatasize / c.block_size

-- A page's count agrees with its marks, and no block is counted out ahead.
pub record IsSettled (q : Page) : Type 0 where
  pub counted : Counted 0 q
  pub pending : q.sourceentries ≡ 0

pub record IsFullPage (q : Page) (sc : ℕ) (c : SizeClass) : Type 0 where
  pub settled : IsSettled q
  pub class : q.sc ≡ sc
  pub all_used : q.nr_used_page_blocks ≡ capacity c

pub record IsPartlyUsed (q : Page) (sc : ℕ) (c : SizeClass) : Type 0 where
  pub settled : IsSettled q
  pub class : q.sc ≡ sc
  pub some_used : 0 < q.nr_used_page_blocks
  pub some_free : q.nr_used_page_blocks < capacity c

pub record IsClean (q : Page) : Type 0 where
  pub settled : IsSettled q
  pub none_used : q.nr_used_page_blocks ≡ 0

-- The settings of a size-class: blocks fit a page, and compaction is on with a positive bound.
pub record IsConfigured (c : SizeClass) : Type 0 where
  pub least : 16 ≤ c.block_size
  pub most : c.block_size ≤ pagedatasize
  pub bound_positive : 0 < c.partial_compaction_bound
  pub bound_int : c.partial_compaction_bound < 2 ^ 31

-- The ring of its class on which a page with used blocks stands.
abbrev pub IsListed : (ℕ → List ℕ) → ℕ → ℕ → Type 0
IsListed ring sc p =
    (has (list_of_page p) (ring (head_full_pages sc)) ≡ true)
    ⊎ (has (list_of_page p) (ring (head_nfull_pages sc)) ≡ true)

-- A page is on a ring of its class.
abbrev pub IsOwned : (ℕ → Bool) → (ℕ → List ℕ) → Page → ℕ → Type 0
IsOwned classes ring q p = (classes q.sc ≡ true) × IsListed ring q.sc p

pub record IsHeap (s : Cf) (classes : ℕ → Bool) (ring : ℕ → List ℕ) : Type 0 where
  pub filed : IsFiled s.links s.size_class classes ring
  pub direct : s.globals.incremental_memcpy ≡ 0
  pub rounds : 0 < s.globals.memcpy_multiplicator
  pub set : (sc : ℕ) → classes sc ≡ true → IsConfigured (s.size_class sc)
  pub placed :
      (h x : ℕ) → heads classes h ≡ true → has x (ring h) ≡ true → (16200 ≤ x) × (x < 2 ^ 32)
  pub no_source : (sc : ℕ) → classes sc ≡ true → ring (head_source_pages sc) ≡ []
  pub no_emptying : (sc : ℕ) → classes sc ≡ true → ring (head_emptying_pages sc) ≡ []
  pub bounded :
      (sc : ℕ)
      → classes sc ≡ true
      → length (ring (head_nfull_pages sc)) ≤ (s.size_class sc).partial_compaction_bound
  pub full :
      (sc p : ℕ)
      → classes sc ≡ true
      → has (list_of_page p) (ring (head_full_pages sc)) ≡ true
      → IsFullPage (s.page p) sc (s.size_class sc)
  pub partly :
      (sc p : ℕ)
      → classes sc ≡ true
      → has (list_of_page p) (ring (head_nfull_pages sc)) ≡ true
      → IsPartlyUsed (s.page p) sc (s.size_class sc)
  pub clean : (p : ℕ) → IsFresh classes ring p → IsClean (s.page p)
  pub settled : (p : ℕ) → IsSettled (s.page p)
  pub owned : (p : ℕ) → 0 < (s.page p).nr_used_page_blocks → IsOwned classes ring (s.page p) p

-- The invariant looks at nothing else.
pub IsKept-IsHeap :
    (s t : Cf) (classes : ℕ → Bool) (ring : ℕ → List ℕ)
    → IsKept s s.page t
    → IsHeap s classes ring
    → IsHeap t classes ring
IsKept-IsHeap s t classes ring kept heap = record {
  filed = rw (kept.same_links, kept.same_classes) heap.filed;
  direct = rw kept.same_globals heap.direct;
  rounds = rw kept.same_globals heap.rounds;
  set = rw kept.same_classes heap.set;
  placed = heap.placed;
  no_source = heap.no_source;
  no_emptying = heap.no_emptying;
  bounded = rw kept.same_classes heap.bounded;
  full = rw (kept.same_classes, kept.same_pages) heap.full;
  partly = rw (kept.same_classes, kept.same_pages) heap.partly;
  clean = rw kept.same_pages heap.clean;
  settled = rw kept.same_pages heap.settled;
  owned = rw kept.same_pages heap.owned;
}
