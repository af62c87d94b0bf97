-- ===== src/Heap/Whole/Picks.antt =====
-- The page that cf_malloc of cf.c takes a block from, and the pool of free pages then.
use compact_fit.Base.{
  ℕ, ◌^◌, ◌<◌, ◌≤◌, ◌≡◌, ◌⊎◌, inl, inr, refl, ◌∙◌, arith, Bool, true, false, ◌&&◌, ◌==◌, List,
  Bool-cases,
}
use compact_fit.Page.{Page}
use compact_fit.Page.Blocks.{used}
use compact_fit.Page.Census.{some_taken}
use compact_fit.ListHead.{list_empty}
use compact_fit.State.{Cf, set_page, head_nfull_pages, list_of_page}
use compact_fit.State.Kept.{IsKept}
use compact_fit.Classes.Filed.{heads}
use compact_fit.State.Places.{aa_places, bucket_places}
use compact_fit.FreePages.{get_free_page}
use compact_fit.FreePages.Keeps.{reflag, get_free_page-TakesPage}
use compact_fit.FreePages.Pool.{IsPool, IsPageAt}
use compact_fit.FreePages.Pool.Takes.{IsPopped, get_free_page-IsTaken}
use compact_fit.Pool.Tiers.{Tiers, total}
use compact_fit.Classes.{get_nfull_pages_tail, add_page_to_nfull_list}
use compact_fit.Classes.Stores.{
  Beside, Beside-IsPool, then_Beside, refiled, add_page_to_nfull_list-Beside,
}
use compact_fit.Classes.Touched.{IsTouched, itself-IsTouched}
use compact_fit.Heap.Malloc.{malloc_page}
use compact_fit.Heap.Malloc.Keeps.{HasSpare, tail_listed, fresh-IsOffered}
use compact_fit.Heap.Invariant.{IsSettled, capacity}
use compact_fit.Heap.Invariant.Fresh.{none_used-IsFresh}
use compact_fit.Heap.Whole.{IsWhole}
use compact_fit.Heap.Whole.Frames.{block_counted}

-- The page at `p`, of the class, has a block to hand out; it is not in the pool of free pages, and
-- the words are as they were.
pub record IsPicked (s : Cf) (pages : Tiers) (sc p : ℕ) (t : Cf) : Type 0 where
  pub stock : Tiers
  pub pool : IsPool t stock
  pub fewer : (c : ℕ) → total stock c ≤ total pages c
  pub loose : total stock p ≡ 0
  pub same_mem : t.mem ≡ s.mem
  pub same_aas : aa_places t ≡ aa_places s
  pub same_buckets : bucket_places t ≡ bucket_places s
  pub at : IsPageAt s.globals p
  pub lent : Page
  pub only : IsTouched s p lent t
  pub settled : IsSettled lent
  pub class : lent.sc ≡ sc
  pub room : lent.nr_used_page_blocks < capacity (s.size_class sc)
  pub same_marks : (j : ℕ) → used lent j ≡ used (s.page p) j
  pub was_class : (j : ℕ) → j < 1024 → used (s.page p) j ≡ true → (s.page p).sc ≡ sc

module _ (s : Cf) (classes : ℕ → Bool) (ring : ℕ → List ℕ) (pages l k : Tiers)
    (whole : IsWhole s classes ring pages l k) (sc : ℕ) (here : classes sc ≡ true) where
  -- A page of the not-full ring has a used block, so it is one of the pages and is not free.
  tail-IsPicked :
      list_empty s.links (head_nfull_pages sc) ≡ false
      → IsPicked s pages sc (get_nfull_pages_tail s sc) s
  tail-IsPicked listed =
      let p = get_nfull_pages_tail s sc in
      let partly =
        whole.heap.partly sc p here (tail_listed s classes ring whole.heap sc here listed) in
      let (j, small, taken) =
        some_taken 1024 (used (s.page p))
          (omega (arith, partly.settled.counted.census, partly.some_used)) in
      record {
        stock = pages;
        pool = whole.pool;
        fewer = λ c. omega arith;
        loose = elim (Bool-cases (total pages p == 0)) [
          | inl e ↦ ground arith
          | inr e ↦ absurd (
              let none = whole.spare p (ground (arith, e)) in omega (arith, none, partly.some_used))
        ];
        same_mem = refl;
        same_aas = refl;
        same_buckets = refl;
        at = (whole.blocks p j small taken).at;
        lent = s.page p;
        only = itself-IsTouched s p;
        settled = partly.settled;
        class = partly.class;
        room = partly.some_free;
        same_marks = λ i. refl;
        was_class = λ i less mark. partly.class;
      }

  -- The page that get_free_page returns is one of the pages, with no block in use and apart from the
  -- list heads.
  popped-HasSpare :
      IsPopped s pages (get_free_page s).0 (get_free_page s).1
      → IsPageAt s.globals (get_free_page s).1
        × ((s.page (get_free_page s).1).nr_used_page_blocks ≡ 0)
        × (heads classes (list_of_page (get_free_page s).1) ≡ false)
        × (list_of_page (get_free_page s).1 < 2 ^ 32)
  popped-HasSpare popped =
      let p = (get_free_page s).1 in
      let fewer = popped.fewer p in
      let was : 0 < total pages p = ground (arith, fewer) in
      let at = whole.pool.stocked.placed p was in
      let laid = whole.pool.stocked.laid in
      (
        at,
        whole.spare p was,
        whole.off_heads p at,
        omega (arith, at.high, at.aligned, laid.pages_aligned, laid.end),
      )

  -- A fresh page is filed.
  fresh-IsPicked :
      let (t, p) = get_free_page s in
      IsPopped s pages t p
      → list_empty s.links (head_nfull_pages sc) ≡ true
      → IsKept s (reflag s.page p 0) t
      → IsPicked s pages sc p (
          add_page_to_nfull_list
            (set_page t p (record (t.page p) { nr_used_page_blocks = 0; sc = sc }))
            sc
            p)
  fresh-IsPicked popped empty kept =
      let (t, p) = get_free_page s in
      let t1 = set_page t p (record (t.page p) { nr_used_page_blocks = 0; sc = sc }) in
      let beside : Beside t (add_page_to_nfull_list t1 sc p) =
        then_Beside t t1 _ (refiled t _ _ _) (add_page_to_nfull_list-Beside t1 sc p) in
      let fewer = popped.fewer p in
      let once = whole.pool.stocked.tiered.once p in
      let (at, none_used, apart, small) = popped-HasSpare popped in
      let fresh = none_used-IsFresh s classes ring whole.heap p none_used apart in
      let offer = fresh-IsOffered s classes ring whole.heap sc here t p empty kept fresh small in
      record {
        stock = popped.left;
        pool = Beside-IsPool t _ popped.left beside popped.pool;
        fewer = λ c. let f = popped.fewer c in omega (arith, f);
        loose = ground (arith, fewer, once);
        same_mem = beside.same_mem ∙ popped.same_mem;
        same_aas = beside.same_aas ∙ popped.same_aas;
        same_buckets = beside.same_buckets ∙ popped.same_buckets;
        at = at;
        lent = record (s.page p) { nr_used_page_blocks = 0; sc = sc };
        only = offer.touched;
        settled = offer.settled;
        class = refl;
        room = offer.room;
        same_marks = λ j. refl;
        was_class = λ j less mark. absurd (
            let some_used = block_counted s classes ring p j whole.heap less mark in
            omega (arith, some_used, none_used));
      }

  -- There is no page if no page is free; the heap is then what it was.
  pub record IsUnpicked (t : Cf) (p : ℕ) : Type 0 where
    pub none_there : (list_empty s.links (head_nfull_pages sc) && p == 0) ≡ true
    pub empty : (c : ℕ) → total pages c ≡ 0
    pub pool : IsPool t pages
    pub kept : IsKept s s.page t
    pub same_mem : t.mem ≡ s.mem
    pub same_aas : aa_places t ≡ aa_places s
    pub same_buckets : bucket_places t ≡ bucket_places s

  pub malloc_page-IsPicked :
      IsUnpicked (malloc_page s sc).0 (malloc_page s sc).1
      ⊎ (((malloc_page s sc).1 == 0) ≡ false)
        × IsPicked s pages sc (malloc_page s sc).1 (malloc_page s sc).0
  unfolding malloc_page
  malloc_page-IsPicked = elim (Bool-cases (list_empty s.links (head_nfull_pages sc))) [
    | inl e ↦ elim (get_free_page-IsTaken s pages whole.pool) [
      | inl none ↦ elim (get_free_page-TakesPage s) [
        | inl (e', kept) ↦
            rw (e, e')
              (inl (record {
                none_there = rw e refl;
                empty = none.empty;
                pool = none.pool;
                kept = kept;
                same_mem = none.same_mem;
                same_aas = none.same_aas;
                same_buckets = none.same_buckets;
              }))
        | inr (e', kept) ↦ absurd (ground (arith, e', none.no_page))
      ]
      | inr popped ↦ elim (get_free_page-TakesPage s) [
        | inl (e', kept) ↦ absurd (ground (arith, e', popped.some_page))
        | inr (e', kept) ↦ rw (e, e') (inr (e', fresh-IsPicked popped e kept))
      ]
    ]
    | inr e ↦
        let picked = tail-IsPicked e in
        let some_page : (get_nfull_pages_tail s sc == 0) ≡ false =
          ground (arith, picked.at.low, whole.pool.stocked.laid.start) in
        rw e (inr (some_page, picked))
  ]

  -- The next free page may be filed.
  pub next-HasSpare : HasSpare s classes
  next-HasSpare some_page = elim (get_free_page-IsTaken s pages whole.pool) [
    | inl none ↦ absurd (let no_page = none.no_page in ground (arith, no_page, some_page))
    | inr popped ↦
        let (_, none_used, apart, small) = popped-HasSpare popped in (none_used, apart, small)
  ]
