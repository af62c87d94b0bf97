-- ===== src/Heap/Whole/Frames.antt =====
-- The pools of cf.c while their words are left alone, and where the words of blocks lie.
use compact_fit.Base.{
  ℕ, ◌+◌, ◌*◌, ◌/◌, ◌%◌, ◌^◌, ◌<◌, ◌≤◌, ◌≡◌, ◌⊎◌, inl, inr, refl, sym, ap, arith, Bool, true, List,
  ◌==◌, Bool-cases,
}
use native.Mathlib.Nat.{mul-le-mul_right, div-mul-le_self}
use mathlib.Core.Path.{subst}
use compact_fit.Page.{pagedatasize}
use compact_fit.Page.Blocks.{used}
use compact_fit.Page.Census.{count_positive}
use compact_fit.State.{Cf, Globals}
use compact_fit.State.Places.{page_places, aa_places, bucket_places}
use compact_fit.Pool.Tiers.{Places, Tiers, total, IsTiered, Same-IsTiered}
use compact_fit.FreePages.Pool.{IsPool, page_words, bucket_is_page}
use compact_fit.FreePages.Pool.Rooms.{page_at}
use compact_fit.AbstractAddress.Pool.{
  IsBucketAt, aa_words, Untouched, Untouched-ids, Untouched-free,
}
use compact_fit.AbstractAddress.Pool.Takes.{IsAddressPool}
use compact_fit.Heap.{block_at}
use compact_fit.Heap.Invariant.{IsHeap}
use compact_fit.Heap.Whole.{IsApart, cell, pages_end}

pub kept-IsPool :
    (s t : Cf) (l : Tiers)
    → IsPool s l
    → t.globals ≡ s.globals
    → page_places t ≡ page_places s
    → ((x : ℕ) → 0 < total l x → (t.mem x ≡ s.mem x) × (t.mem (x + 4) ≡ s.mem (x + 4)))
    → IsPool t l
kept-IsPool s t l pool globals places same =
    let stocked = pool.stocked in
    let tiered =
      Same-IsTiered (page_words s.mem) (page_words t.mem) (page_places s) l
        (record {
          links = λ c i. (same c i).1;
          begin = λ h i. refl;
          nexts = λ h i. (same h (bucket_is_page s l h stocked i)).0;
        })
        stocked.tiered in
    record {
      stocked = record {
        laid = rw globals stocked.laid;
        tiered = subst (λ (p : Places). IsTiered (page_words t.mem) p l) (sym places) tiered;
        placed = rw globals stocked.placed;
      };
      few = rw globals pool.few;
    }

pub kept-IsAddressPool :
    (s t : Cf) (l k : Tiers)
    → IsAddressPool s l k
    → t.globals ≡ s.globals
    → aa_places t ≡ aa_places s
    → bucket_places t ≡ bucket_places s
    → Untouched s.globals s.mem t.mem l k
    → IsAddressPool t l k
kept-IsAddressPool s t l k pool globals aas buckets same =
    let cells = pool.cells in
    let g = s.globals in
    let ids =
      Same-IsTiered (aa_words g.aa_space s.mem) (aa_words g.aa_space t.mem) (aa_places s) l
        (Untouched-ids g s.mem t.mem l k same) cells.ids in
    let free =
      Same-IsTiered (page_words s.mem) (page_words t.mem) (bucket_places s) k
        (Untouched-free s t.mem l k cells.space cells.free same) cells.free in
    record {
      cells = record {
        space = rw globals cells.space;
        ids =
            subst (λ (b : ℕ). IsTiered (aa_words b t.mem) (aa_places t) l)
              (sym (ap (λ (g : Globals). g.aa_space) globals))
              (subst (λ (p : Places). IsTiered (aa_words g.aa_space t.mem) p l) (sym aas) ids);
        free = subst (λ (p : Places). IsTiered (page_words t.mem) p k) (sym buckets) free;
        numbered = rw globals cells.numbered;
        placed = rw globals cells.placed;
        apart = cells.apart;
      };
      few = rw globals pool.few;
    }

-- A block's words lie in its page.
pub block_in_page :
    (p i size n : ℕ)
    → p % 2 ^ 14 ≡ 0
    → 0 < size
    → i < pagedatasize / size
    → n < size
    → (page_at (block_at p i size + n) ≡ p) × (i * size + size ≤ pagedatasize)
block_in_page p i size n aligned positive room small =
    let whole : (i + 1) * size ≤ pagedatasize / size * size =
      mul-le-mul_right size (omega (arith, room)) in
    let less : pagedatasize / size * size ≤ pagedatasize = div-mul-le_self pagedatasize size in
    let split : (i + 1) * size ≡ i * size + size = omega arith in
    (omega (arith, aligned, whole, less, split, small), omega (arith, whole, less, split))

-- A word below or above the pages is in no page of the pool.
pub outside_pages :
    (s : Cf) (pages : Tiers) (a : ℕ)
    → IsPool s pages
    → (a < s.globals.pages) ⊎ (pages_end s.globals ≤ a)
    → total pages (page_at a) ≡ 0
outside_pages s pages a pool far = elim (Bool-cases (total pages (page_at a) == 0)) [
  | inl e ↦ ground arith
  | inr e ↦
      let at = pool.stocked.placed (page_at a) (ground (arith, e)) in
      let laid = pool.stocked.laid in
      elim far [
        | inl low ↦ absurd (omega (arith, low, at.low))
        | inr high ↦ absurd (omega (arith, high, at.high, at.aligned, laid.pages_aligned))
      ]
]

-- The cell of an address is in no page of the pool.
pub cell_outside :
    (g : Globals) (id : ℕ)
    → IsApart g
    → id < g.nr_aas
    → (cell g id < g.pages) ⊎ (pages_end g ≤ cell g id)
cell_outside g id apart small = elim apart.cells [
  | inl far ↦ inl (omega (arith, far))
  | inr far ↦ inr (omega (arith, far))
]

pub bucket_outside :
    (g : Globals) (h a : ℕ)
    → IsApart g
    → IsBucketAt g h
    → (a ≡ h) ⊎ (a ≡ h + 4)
    → (a < g.pages) ⊎ (pages_end g ≤ a)
bucket_outside g h a apart at is = elim apart.buckets [
  | inl far ↦ inl (ground (arith, far, at.high, is))
  | inr far ↦ inr (ground (arith, far, at.low, is))
]

-- While the words outside the pages are as they were, so are those of the two address pools.
pub outside-Untouched :
    (s : Cf) (mem' : ℕ → ℕ) (l k : Tiers)
    → IsAddressPool s l k
    → IsApart s.globals
    → ((a : ℕ) → (a < s.globals.pages) ⊎ (pages_end s.globals ≤ a) → mem' a ≡ s.mem a)
    → Untouched s.globals s.mem mem' l k
outside-Untouched s mem' l k pool apart same = record {
  cells = λ c i. same (cell s.globals c) (cell_outside s.globals c apart (pool.cells.numbered c i));
  words = λ h i.
      let at = pool.cells.placed h i in
      (
        same h (bucket_outside s.globals h h apart at (inl refl)),
        same (h + 4) (bucket_outside s.globals h (h + 4) apart at (inr refl)),
      );
}

-- A page with a used block counts some.
pub block_counted :
    (s : Cf) (classes : ℕ → Bool) (ring : ℕ → List ℕ) (p i : ℕ)
    → IsHeap s classes ring
    → i < 1024
    → used (s.page p) i ≡ true
    → 0 < (s.page p).nr_used_page_blocks
block_counted s classes ring p i heap small taken =
    omega
      (arith, (heap.settled p).counted.census, count_positive 1024 i (used (s.page p)) small taken)
