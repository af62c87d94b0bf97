-- ===== src/Heap/Whole/Allots.antt =====
-- The block that cf_malloc of cf.c hands out of a page: its marks, its words and its address.
use compact_fit.Base.{
  ℕ, ◌+◌, ◌-◌, ◌*◌, ◌^◌, ◌<◌, ◌≤◌, ◌≡◌, ◌≢◌, inl, inr, sym, ap, ◌∙◌, arith, Bool, true, false, ◌==◌,
  List, if◌then◌else◌,
}
use mathlib.Core.Path.{subst}
use compact_fit.Page.{Page, get_free_page_block}
use compact_fit.Page.Blocks.{used, get_free-lowest}
use compact_fit.Page.Census.{Counted, get_free-inside, get_free-rest}
use compact_fit.State.{Cf, Globals, set_page}
use compact_fit.FreePages.Pool.{IsPool, IsPageAt}
use compact_fit.FreePages.Pool.Rooms.{page_at}
use compact_fit.AbstractAddress.{get_free_aa}
use compact_fit.AbstractAddress.Pool.{OutsideBuckets, bucket_total}
use compact_fit.AbstractAddress.Pool.Takes.{IsAddressPool, IsDrawn}
use compact_fit.Pool.Lists.{tick}
use compact_fit.Pool.Tiers.{Tiers, total}
use compact_fit.Classes.Stores.{Beside, Beside-IsPool, then_Beside, refiled}
use compact_fit.Classes.Touched.{IsTouched, set_page-IsTouched}
use compact_fit.Heap.{block_at, aa_field}
use compact_fit.Heap.Malloc.{file_page, malloc_block}
use compact_fit.Heap.Malloc.Places.{file_page-IsTouched, malloc_block-IsTouched}
use compact_fit.Heap.Invariant.{capacity}
use compact_fit.Heap.Invariant.Pages.{capacity-bounds}
use compact_fit.Heap.Whole.{IsWhole, IsApart, cell, pages_end}
use compact_fit.Heap.Whole.Frames.{
  cell_outside, kept-IsAddressPool, outside-Untouched, block_in_page,
}
use compact_fit.Heap.Whole.Picks.{IsPicked}
use compact_fit.Heap.Whole.Hands.{
  file_page-Beside, write_words, written, drawn, drawn_id, malloc_address-words, other_word,
  write_words-alike, written-IsAddressPool, written-IsPool,
}

-- The block at `index` of the page at `p` has the address `a`, which was free.
pub record IsAllotted (s : Cf) (pages l k : Tiers) (sc p index : ℕ) (w : Cf) (a : ℕ) : Type 0 where
  pub stock : Tiers
  pub left : Tiers
  pub free : Tiers
  pub id : ℕ
  pub named : a ≡ cell s.globals id
  pub was_free : 0 < total l id
  pub pool : IsPool w stock
  pub fewer_pages : (c : ℕ) → total stock c ≤ total pages c
  pub loose : total stock p ≡ 0
  pub addresses : IsAddressPool w left free
  pub fewer : (c : ℕ) → total l c ≡ tick c id + total left c
  pub same_buckets : (b : ℕ) → bucket_total left free b ≡ bucket_total l k b
  pub globals : w.globals ≡ s.globals
  pub sizes : (c : ℕ) → (w.size_class c).block_size ≡ (s.size_class c).block_size
  pub others : (q : ℕ) → (p == q) ≡ false → w.page q ≡ s.page q
  pub class : (w.page p).sc ≡ sc
  pub was_class : (j : ℕ) → j < 1024 → used (s.page p) j ≡ true → (s.page p).sc ≡ sc
  pub marks : (j : ℕ) → used (w.page p) j ≡ (if index == j then true else used (s.page p) j)
  pub was_unused : used (s.page p) index ≡ false
  pub inside : index < capacity (s.size_class sc)
  pub at : IsPageAt s.globals p
  pub names : w.mem (aa_field p index (s.size_class sc).block_size) ≡ a
  pub points : w.mem a ≡ block_at p index (s.size_class sc).block_size
  pub kept :
      (x : ℕ)
      → OutsideBuckets s.globals x
      → x ≢ a
      → x ≢ aa_field p index (s.size_class sc).block_size
      → w.mem x ≡ s.mem x

module _ (s : Cf) (classes : ℕ → Bool) (ring : ℕ → List ℕ) (pages l k : Tiers)
    (whole : IsWhole s classes ring pages l k) (sc : ℕ) (here : classes sc ≡ true) (p : ℕ) (t : Cf)
    (picked : IsPicked s pages sc p t) (some_id : ℕ) (some_free : 0 < total l some_id) where
  size : ℕ
  size = (s.size_class sc).block_size

  index : ℕ
  index = (get_free_page_block (t.page p)).1

  -- What the page's bitmap says before and after.
  marked :
      let q = (get_free_page_block (t.page p)).0 in
      (index < capacity (s.size_class sc))
      × (used (s.page p) index ≡ false)
      × ((j : ℕ) → used q j ≡ (if index == j then true else used (s.page p) j))
      × (q.sc ≡ sc)
  unfolding index
  marked =
      let content = picked.only.content in
      let counted : Counted 0 (t.page p) = subst (Counted 0) (sym content) (record {
        bitmap = picked.settled.counted.bitmap;
        census = picked.settled.counted.census;
      }) in
      let number : (t.page p).nr_used_page_blocks ≡ picked.lent.nr_used_page_blocks =
        ap (λ (q : Page). q.nr_used_page_blocks) content in
      let bounds = capacity-bounds (s.size_class sc) (whole.heap.set sc here) in
      let (inside, unused, _, _) =
        get_free-inside (t.page p) counted (capacity (s.size_class sc))
          (omega (arith, number, picked.room)) (omega (arith, bounds.1)) in
      let (_, _, marks, _, _) =
        get_free-lowest (t.page p) counted.bitmap index (omega (arith, inside, bounds.1)) unused in
      let was = λ (j : ℕ). ap (λ (q : Page). used q j) content ∙ picked.same_marks j in
      let (class, _) = get_free-rest (t.page p) in
      (
        inside,
        sym (was index) ∙ unused,
        λ j. marks j ∙ ap (λ (b : Bool). if index == j then true else b) (was j),
        class ∙ ap (λ (q : Page). q.sc) content ∙ picked.class,
      )

  filed : Cf
  filed = file_page (set_page t p (get_free_page_block (t.page p)).0) sc p size

  filed-Beside : Beside t filed
  unfolding filed
  filed-Beside =
      let t1 = set_page t p (get_free_page_block (t.page p)).0 in
      then_Beside t t1 filed (refiled t _ _ _) (file_page-Beside t1 sc p size)

  filed-IsTouched : IsTouched t p (get_free_page_block (t.page p)).0 filed
  unfolding filed
  filed-IsTouched =
      let q = (get_free_page_block (t.page p)).0 in
      file_page-IsTouched t sc p size q (set_page t p q) (set_page-IsTouched t p q)

  filed_globals : filed.globals ≡ s.globals
  filed_globals = filed-Beside.same_globals ∙ picked.only.globals

  filed_mem : filed.mem ≡ s.mem
  filed_mem = filed-Beside.same_mem ∙ picked.same_mem

  filed-IsAddressPool : IsAddressPool filed l k
  filed-IsAddressPool =
      kept-IsAddressPool s filed l k whole.addresses filed_globals
        (filed-Beside.same_aas ∙ picked.same_aas) (filed-Beside.same_buckets ∙ picked.same_buckets)
        (outside-Untouched s filed.mem l k whole.addresses whole.apart
          (λ a far. ap (λ (m : ℕ → ℕ). m a) filed_mem))

  drawing : IsDrawn filed l k (get_free_aa filed).0 (get_free_aa filed).1
  drawing = drawn filed l k filed-IsAddressPool some_id some_free

  id : ℕ
  id = (get_free_aa filed).1

  drawn_globals : (get_free_aa filed).0.globals ≡ s.globals
  drawn_globals = drawing.same_globals ∙ filed_globals

  id_small : id < s.globals.nr_aas
  unfolding id
  id_small =
      subst (λ (g : Globals). (get_free_aa filed).1 < g.nr_aas) filed_globals
        (drawn_id filed l k filed-IsAddressPool some_id some_free).1

  handed : Cf
  handed = write_words (get_free_aa filed).0 id (block_at p index size) (aa_field p index size)

  malloc_block-handed : malloc_block t sc p size ≡ (handed, cell (get_free_aa filed).0.globals id)
  unfolding malloc_block handed id filed index size
  malloc_block-handed =
      let direct : filed.globals.incremental_memcpy ≡ 0 =
        ap (λ (g : Globals). g.incremental_memcpy) filed_globals ∙ whole.heap.direct in
      let set = whole.heap.set sc here in
      let bound : (filed.size_class sc).partial_compaction_bound < 2 ^ 31 =
        omega (arith, filed-IsTouched.bound sc, picked.only.bound sc, set.bound_int) in
      malloc_address-words filed l k filed-IsAddressPool some_id some_free sc p index size direct
        bound

  handed-IsTouched : IsTouched t p (get_free_page_block (t.page p)).0 handed
  handed-IsTouched =
      subst (λ (x : Cf × ℕ). IsTouched t p (get_free_page_block (t.page p)).0 x.0)
        malloc_block-handed (malloc_block-IsTouched t sc p size)

  -- The block's last word lies in its page.
  last_word :
      let field = aa_field p index size in
      (page_at field ≡ p) × (s.globals.pages ≤ field) × (field < pages_end s.globals)
  unfolding size
  last_word =
      let set = whole.heap.set sc here in
      let (inside, fits) =
        block_in_page p index size (size - 4) picked.at.aligned (omega (arith, set.least)) marked.0
          (omega (arith, set.least)) in
      let last : aa_field p index size ≡ block_at p index size + (size - 4) =
        let split : (index + 1) * size ≡ index * size + size = omega arith in
        omega (arith, split, set.least) in
      let laid = whole.pool.stocked.laid in
      (
        ap page_at last ∙ inside,
        omega (arith, last, picked.at.low),
        omega (arith, last, fits, set.least, picked.at.high, picked.at.aligned, laid.pages_aligned),
      )

  -- The cell of an address is not the block's last word.
  not_last : (c : ℕ) → c < s.globals.nr_aas → cell s.globals c ≢ aa_field p index size
  not_last c less e =
      let (_, low, high) = last_word in
      elim (cell_outside s.globals c whole.apart less) [
        | inl below ↦ omega (arith, below, low, e)
        | inr above ↦ omega (arith, above, high, e)
      ]

  handed-IsAllotted :
      IsAllotted s pages l k sc p index handed (cell (get_free_aa filed).0.globals id)
  unfolding handed id size
  handed-IsAllotted =
      let v = (get_free_aa filed).0 in
      let block = block_at p index size in
      let field = aa_field p index size in
      let g = drawn_globals in
      let (inside, unused, marks, class) = marked in
      let (in_page, low, high) = last_word in
      let (globals, _, _, _) = write_words-alike v id block field in
      let apart = subst IsApart (sym g) whole.apart in
      let fewer = drawing.fewer id in
      let once = whole.addresses.cells.ids.once id in
      let far : cell v.globals id ≢ field =
        subst (λ (h : Globals). cell h id ≢ field) (sym g) (not_last id id_small) in
      let (names, points) = written v id block field far in
      let content = handed-IsTouched.content in
      record {
        stock = picked.stock;
        left = drawing.left;
        free = drawing.free;
        id = id;
        named = ap (λ (h : Globals). cell h id) g;
        was_free = (drawn_id filed l k filed-IsAddressPool some_id some_free).0;
        pool =
            written-IsPool filed v picked.stock id block field
              (Beside-IsPool t filed picked.stock filed-Beside picked.pool) drawing.same_globals
              drawing.same_pages (subst IsApart (sym filed_globals) whole.apart)
              (subst (λ (h : Globals). id < h.nr_aas) (sym filed_globals) id_small) drawing.kept
              (ap (total picked.stock) in_page ∙ picked.loose);
        fewer_pages = picked.fewer;
        loose = picked.loose;
        addresses =
            written-IsAddressPool v drawing.left drawing.free id block field drawing.pool apart
              (subst (λ (h : Globals). id < h.nr_aas) (sym g) id_small)
              (ground (arith, fewer, once)) (subst (λ (h : Globals). h.pages ≤ field) (sym g) low)
              (subst (λ (h : Globals). field < pages_end h) (sym g) high);
        fewer = drawing.fewer;
        same_buckets = drawing.same_buckets;
        globals = globals ∙ g;
        sizes = λ c. handed-IsTouched.block_size c ∙ picked.only.block_size c;
        others = λ q ne. handed-IsTouched.others q ne ∙ picked.only.others q ne;
        class = ap (λ (q : Page). q.sc) content ∙ class;
        was_class = picked.was_class;
        marks = λ j. ap (λ (q : Page). used q j) content ∙ marks j;
        was_unused = unused;
        inside = inside;
        at = picked.at;
        names = names;
        points = points;
        kept = λ x out ne ne'.
            other_word v id block field x ne ne'
            ∙ drawing.kept x (subst (λ (h : Globals). OutsideBuckets h x) (sym filed_globals) out)
            ∙ ap (λ (m : ℕ → ℕ). m x) filed_mem;
      }

  -- While an address is free, cf_malloc hands out a block of the page, with an address that was free.
  pub malloc_block-IsAllotted :
      let (w, a) = malloc_block t sc p (s.size_class sc).block_size in
      IsAllotted s pages l k sc p (get_free_page_block (t.page p)).1 w a
  unfolding size index
  malloc_block-IsAllotted =
      subst (λ (x : Cf × ℕ). IsAllotted s pages l k sc p index x.0 x.1) (sym malloc_block-handed)
        handed-IsAllotted
