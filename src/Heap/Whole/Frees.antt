-- ===== src/Heap/Whole/Frees.antt =====
-- cf_free of cf.c in the whole state: the address and its block become free, and every other address
-- still leads to its block with the same words, wherever a compaction has moved it.
use compact_fit.Base.{
  ℕ, ◌+◌, ◌-◌, ◌*◌, ◌/◌, ◌%◌, ◌^◌, ◌<◌, ◌≤◌, ◌≡◌, ◌≢◌, inl, inr, sym, ap, ◌∙◌, arith, Bool, true,
  List, some,
}
use mathlib.Core.Path.{subst}
use compact_fit.Page.{Page, pagedatasize}
use compact_fit.Page.Blocks.{used}
use compact_fit.State.{Cf, Globals, SizeClass}
use compact_fit.State.Kept.{IsKept}
use compact_fit.FreePages.Pool.{IsPageAt}
use compact_fit.Pool.Tiers.{Tiers}
use compact_fit.AbstractAddress.{put_free_aa, clear_abstract_address}
use compact_fit.AbstractAddress.Pool.{HasAllBuckets, OutsideBuckets, IsBucketAt}
use compact_fit.AbstractAddress.Pool.Gives.{put_free_aa-IsReturned}
use compact_fit.AbstractAddress.Pool.Pushes.{IsReturned}
use compact_fit.Heap.{block_at, aa_field}
use compact_fit.Heap.Invariant.{IsHeap, IsKept-IsHeap}
use compact_fit.Heap.Whole.{IsWhole, IsBlock, IsLive, IsApart, size_of, cell, pages_end, word_of}
use compact_fit.Heap.Whole.Frames.{kept-IsPool, cell_outside, block_in_page}
use compact_fit.Heap.Whole.Moves.{IsVacated}
use compact_fit.Heap.Whole.Origins.{IsHeld}
use compact_fit.Heap.Whole.Survives.{IsFrom, origin, after-IsAddressPool, spare_after}

-- The id that `clear_abstract_address` computes from a cell.
pub clear-id :
    (t : Cf) (id : ℕ)
    → cell t.globals id < 2 ^ 32
    → clear_abstract_address t (cell t.globals id) ≡ put_free_aa t id
unfolding clear_abstract_address
clear-id t id small = ap (put_free_aa t) (omega (arith, small))

-- An address leads to a block of the same size with the same words as before.
pub record IsSameBlock (s : Cf) (a : ℕ) (live : IsLive s a) (u : Cf) : Type 0 where
  pub after : IsLive u a
  pub same_size : size_of u after.page ≡ size_of s live.page
  pub words : (n : ℕ) → n < size_of s live.page / 4 → word_of u a n ≡ word_of s a n

module _ (s : Cf) (classes : ℕ → Bool) (ring : ℕ → List ℕ) (pages l k : Tiers)
    (whole : IsWhole s classes ring pages l k) (p i : ℕ)
    (target : IsHeld s classes ring pages l k whole p i) (t : Cf) (v : IsVacated s pages p i t)
    (ring' : ℕ → List ℕ) (heap' : IsHeap t classes ring') where
  abbrev From : ℕ → ℕ → ℕ → ℕ → Type 0
  From = IsFrom s classes ring pages l k whole p i target t v ring' heap'

  abbrev freed : ℕ
  freed = target.block.id

  -- The pools after the address is given back.
  pub returned :
      (u : Cf) × (clear_abstract_address t (cell s.globals freed) ≡ some u)
      × IsReturned t l k freed u
  returned =
      let g = v.same_globals in
      let space = whole.addresses.cells.space in
      let numbered : freed < t.globals.nr_aas =
        subst (λ (h : Globals). freed < h.nr_aas) (sym g) target.block.numbered in
      let small : cell t.globals freed < 2 ^ 32 =
        subst (λ (h : Globals). cell h freed < 2 ^ 32) (sym g)
          (omega (arith, target.block.numbered, space.cells_in)) in
      let (u, runs, r) =
        put_free_aa-IsReturned t l k freed
          (after-IsAddressPool s classes ring pages l k whole p i target t v ring' heap')
          (subst (λ (h : Globals). HasAllBuckets h l k) (sym g) whole.all) numbered
          target.block.taken in
      (
        u,
        ap (λ (h : Globals). clear_abstract_address t (cell h freed)) (sym g)
            ∙ clear-id t freed small
            ∙ runs,
        r,
      )

  module _ (u : Cf) (r : IsReturned t l k freed u) (kept : IsKept t t.page u) where
    same_globals : u.globals ≡ s.globals
    same_globals = r.same_globals ∙ v.same_globals

    -- Words of the pages are not touched any more.
    page_word : (a : ℕ) → s.globals.pages ≤ a → a < pages_end s.globals → u.mem a ≡ t.mem a
    page_word a low high =
        let g = v.same_globals in
        let out : OutsideBuckets s.globals a = elim whole.apart.buckets [
          | inl far ↦ inr (omega (arith, far, low))
          | inr far ↦ inl (omega (arith, far, high))
        ] in
        r.kept a (subst (λ (h : Globals). OutsideBuckets h a) (sym g) out) (
          subst (λ (h : Globals). a ≢ cell h freed) (sym g)
            (λ e. elim (cell_outside s.globals freed whole.apart target.block.numbered) [
              | inl below ↦ omega (arith, below, low, e)
              | inr above ↦ omega (arith, above, high, e)
            ]))

    -- Nor are the cells of other addresses.
    pub cell_word :
        (id : ℕ)
        → id < s.globals.nr_aas
        → id ≢ freed
        → u.mem (cell s.globals id) ≡ t.mem (cell s.globals id)
    cell_word id small other =
        let g = v.same_globals in
        let out : OutsideBuckets s.globals (cell s.globals id) =
          elim whole.addresses.cells.space.apart [
            | inl far ↦ inl (omega (arith, far, small))
            | inr far ↦ inr (omega (arith, far))
          ] in
        r.kept (cell s.globals id)
          (subst (λ (h : Globals). OutsideBuckets h (cell s.globals id)) (sym g) out)
          (subst (λ (h : Globals). cell s.globals id ≢ cell h freed) (sym g)
            (λ e. other (omega (arith, e))))

    pub size_after : (q : ℕ) → size_of u q ≡ size_of t q
    size_after q =
        ap (λ (f : ℕ → Page). (u.size_class (f q).sc).block_size) kept.same_pages
        ∙ ap (λ (f : ℕ → SizeClass). (f (t.page q).sc).block_size) kept.same_classes

    -- A word of a block that is in use.
    pub block_word :
        (q' j' q j : ℕ) (from : From q' j' q j) (n : ℕ)
        → n < size_of s q
        → u.mem (block_at q' j' (size_of t q') + n) ≡ t.mem (block_at q' j' (size_of t q') + n)
    block_word q' j' q j from n less =
        let at = subst (λ (h : Globals). IsPageAt h q') v.same_globals from.at in
        let laid = whole.pool.stocked.laid in
        let inside = block_fits q' j' q j from in
        page_word (block_at q' j' (size_of t q') + n) (omega (arith, at.low))
          (omega (arith, at.high, at.aligned, laid.pages_aligned, inside, less, from.same_size))
      where
        block_fits :
            (q' j' q j : ℕ) (from : From q' j' q j)
            → j' * size_of t q' + size_of t q' ≤ pagedatasize
        block_fits q' j' q j from =
            (block_in_page q' j' (size_of t q') 0
              (subst (λ (h : Globals). IsPageAt h q') v.same_globals from.at).aligned
              (omega (arith, from.same_size, from.was.least)) from.room
              (omega (arith, from.same_size, from.was.least))).1

    used-IsBlock : (q' j' q j : ℕ) → From q' j' q j → IsBlock u r.larger q' j'
    used-IsBlock q' j' q j from =
        let id = from.was.block.id in
        let size = size_of t q' in
        let more = r.more id in
        let other = from.other in
        let last : aa_field q' j' size ≡ block_at q' j' size + (size - 4) =
          let split : (j' + 1) * size ≡ j' * size + size = omega arith in
          omega (arith, split, from.same_size, from.was.least) in
        let names : u.mem (aa_field q' j' size) ≡ cell s.globals id =
          ap u.mem last
          ∙ block_word q' j' q j from (size - 4) (omega (arith, from.same_size, from.was.least))
          ∙ ap t.mem (sym last)
          ∙ from.names in
        let points : u.mem (cell s.globals id) ≡ block_at q' j' size =
          cell_word id from.was.block.numbered other ∙ from.points in
        let g = sym same_globals in
        record {
          at = subst (λ (h : Globals). IsPageAt h q') (sym r.same_globals) from.at;
          room = subst (λ n. j' < pagedatasize / n) (sym (size_after q')) from.room;
          id = id;
          numbered = subst (λ (h : Globals). id < h.nr_aas) g from.was.block.numbered;
          taken = ground (arith, more, other, from.was.block.taken);
          names =
              ap (λ n. u.mem (aa_field q' j' n)) (size_after q')
              ∙ names
              ∙ ap (λ (h : Globals). cell h id) g;
          points =
              ap (λ (h : Globals). u.mem (cell h id)) same_globals
              ∙ points
              ∙ ap (block_at q' j') (sym (size_after q'));
        }

    pub after-IsWhole : IsWhole u classes ring' v.stock r.larger r.free
    after-IsWhole =
        let g = sym same_globals in
        let stocked = v.pool.stocked in
        record {
          heap = IsKept-IsHeap t u classes ring' kept heap';
          pool = kept-IsPool t u v.stock v.pool r.same_globals r.same_pages (λ x listed.
              let at =
                subst (λ (h : Globals). IsPageAt h x) v.same_globals (stocked.placed x listed) in
              let laid = whole.pool.stocked.laid in
              (
                page_word x at.low at.high,
                page_word (x + 4) (omega (arith, at.low))
                    (omega (arith, at.high, at.aligned, laid.pages_aligned)),
              ));
          addresses = r.pool;
          all = λ h at.
              let there = whole.all h (subst (λ (x : Globals). IsBucketAt x h) same_globals at) in
              omega (arith, there, r.same_buckets h);
          apart = subst IsApart g whole.apart;
          words = λ sc here.
              let same : (u.size_class sc).block_size ≡ (s.size_class sc).block_size =
                ap (λ (f : ℕ → SizeClass). (f sc).block_size) kept.same_classes ∙ v.sizes sc in
              ap (λ n. n % 4) same ∙ whole.words sc here;
          off_heads =
              λ x at. whole.off_heads x (subst (λ (h : Globals). IsPageAt h x) same_globals at);
          spare = λ x listed.
              ap (λ (f : ℕ → Page). (f x).nr_used_page_blocks) kept.same_pages
              ∙ spare_after s classes ring pages l k whole p i target t v ring' heap' x listed;
          blocks = λ q j small taken.
              let taken' : used (t.page q) j ≡ true =
                subst (λ (f : ℕ → Page). used (f q) j ≡ true) kept.same_pages taken in
              let (q0, j0, from) =
                origin s classes ring pages l k whole p i target t v ring' heap' q j small taken' in
              used-IsBlock q j q0 j0 from;
        }
