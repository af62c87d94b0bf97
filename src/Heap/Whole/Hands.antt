-- ===== src/Heap/Whole/Hands.antt =====
-- The block and the abstract address that cf_malloc of cf.c hands out, and what becomes of the pools.
use compact_fit.Base.{
  ℕ, ◌+◌, ◌-◌, ◌^◌, ◌<◌, ◌≤◌, ◌≡◌, ◌≢◌, ◌⊎◌, inl, inr, refl, sym, ap, ◌∙◌, arith, true, false, ◌==◌,
  ◌&&◌, ltb, Bool-cases,
}
use mathlib.Core.Path.{subst}
use compact_fit.Page.{is_page_full}
use compact_fit.State.{Cf, Globals, set_word}
use compact_fit.State.Places.{page_places, aa_places, bucket_places}
use compact_fit.FreePages.Pool.{IsPool, IsPageAt}
use compact_fit.FreePages.Pool.Rooms.{page_at}
use compact_fit.AbstractAddress.{get_free_aa, get_abstract_address}
use compact_fit.AbstractAddress.Pool.{OutsideBuckets, bucket_word}
use compact_fit.AbstractAddress.Pool.Takes.{IsAddressPool, IsDrawn, get_free_aa-IsDrawing}
use compact_fit.Pool.Tiers.{Tiers, total}
use compact_fit.Classes.{compaction_on, remove_page_from_nfull_list}
use compact_fit.Classes.Stores.{
  Beside, then_Beside, refiled, add_page_to_full_list-Beside, remove_page_from_nfull_list-Beside,
}
use compact_fit.Heap.{block_at, aa_field, set_abstract_address}
use compact_fit.Heap.Malloc.{file_page, malloc_address}
use compact_fit.Heap.Whole.{IsApart, cell, pages_end}
use compact_fit.Heap.Whole.Frames.{kept-IsPool, kept-IsAddressPool, cell_outside, bucket_outside}

pub file_page-Beside : (s : Cf) (sc p size : ℕ) → Beside s (file_page s sc p size)
unfolding file_page
file_page-Beside s sc p size = elim (Bool-cases (is_page_full (s.page p) size)) [
  | inl e ↦
      let t = remove_page_from_nfull_list s sc p in
      rw e (
        then_Beside s t _ (remove_page_from_nfull_list-Beside s sc p)
          (add_page_to_full_list-Beside t sc p))
  | inr e ↦ rw e (refiled s _ _ _)
]

-- The two words that are written once an address has been taken: the address's cell and the last
-- word of the block.
unfoldable pub write_words : Cf → ℕ → ℕ → ℕ → Cf
write_words v id block field =
    set_word (set_word v (cell v.globals id) block) field (cell v.globals id)

module _ (u : Cf) (l k : Tiers) (pool : IsAddressPool u l k) (some_id : ℕ)
    (free : 0 < total l some_id) where
  -- While an address is free, one is taken.
  pub drawn : IsDrawn u l k (get_free_aa u).0 (get_free_aa u).1
  drawn = elim (get_free_aa-IsDrawing u l k pool) [
    | inl dry ↦ absurd (let none = dry.empty some_id in omega (arith, none, free))
    | inr taken ↦ taken
  ]

  pub drawn_id : (0 < total l (get_free_aa u).1) × ((get_free_aa u).1 < u.globals.nr_aas)
  drawn_id =
      let id = (get_free_aa u).1 in
      let fewer = drawn.fewer id in
      let was : 0 < total l id = ground (arith, fewer) in (was, pool.cells.numbered id was)

  -- cf_malloc's address, where compaction is on and nothing is copied in increments.
  pub malloc_address-words :
      (sc p index size : ℕ)
      → u.globals.incremental_memcpy ≡ 0
      → (u.size_class sc).partial_compaction_bound < 2 ^ 31
      → let (v, id) = get_free_aa u in
        malloc_address u sc p index size
        ≡ (write_words v id (block_at p index size) (aa_field p index size), cell v.globals id)
  unfolding malloc_address compaction_on get_abstract_address set_abstract_address write_words
  malloc_address-words sc p index size direct small =
      let (v, id) = get_free_aa u in
      let g = drawn.same_globals in
      let space = pool.cells.space in
      let on : ((u.size_class sc).partial_compaction_bound == 2 ^ 32 - 1) ≡ false = ground arith in
      let numbered = drawn_id.1 in
      let same : v.globals.nr_aas ≡ u.globals.nr_aas = ap (λ (h : Globals). h.nr_aas) g in
      let base : v.globals.aa_space ≡ u.globals.aa_space = ap (λ (h : Globals). h.aa_space) g in
      let inc : (v.globals.incremental_memcpy == 0) ≡ true =
        ground (arith, ap (λ (h : Globals). h.incremental_memcpy) g, direct) in
      let positive = ltb id (2 ^ 31) && ltb id v.globals.nr_aas in
      let good : positive ≡ true = ground (arith, numbered, same, space.aas_int) in
      let some_address : (cell v.globals id == 0) ≡ false =
        ground (arith, base, space.cells_positive) in
      rw (on, good, some_address, inc) refl

pub written :
    (v : Cf) (id block field : ℕ)
    → cell v.globals id ≢ field
    → let w = write_words v id block field in
      (w.mem field ≡ cell v.globals id) × (w.mem (cell v.globals id) ≡ block)
unfolding write_words
written v id block field apart =
    let e : (field == cell v.globals id) ≡ false = ground (arith, apart) in
    let self : (field == field) ≡ true = ground arith in
    let self' : (cell v.globals id == cell v.globals id) ≡ true = ground arith in
    (rw self refl, rw (e, self') refl)

-- Any other word is as it was.
pub other_word :
    (v : Cf) (id block field a : ℕ)
    → a ≢ cell v.globals id
    → a ≢ field
    → (write_words v id block field).mem a ≡ v.mem a
unfolding write_words
other_word v id block field a far far' =
    let e : (cell v.globals id == a) ≡ false = ground (arith, far) in
    let e' : (field == a) ≡ false = ground (arith, far') in rw (e', e) refl

pub write_words-alike :
    (v : Cf) (id block field : ℕ)
    → let w = write_words v id block field in
      (w.globals ≡ v.globals)
      × (page_places w ≡ page_places v)
      × (aa_places w ≡ aa_places v)
      × (bucket_places w ≡ bucket_places v)
unfolding write_words
write_words-alike v id block field = (refl, refl, refl, refl)

-- The pools of addresses after the two words are written: the cell's address is taken, and the block
-- lies in a page.
pub written-IsAddressPool :
    (v : Cf) (l k : Tiers) (id block field : ℕ)
    → IsAddressPool v l k
    → IsApart v.globals
    → id < v.globals.nr_aas
    → total l id ≡ 0
    → v.globals.pages ≤ field
    → field < pages_end v.globals
    → IsAddressPool (write_words v id block field) l k
written-IsAddressPool v l k id block field pool apart small taken low high =
    let w = write_words v id block field in
    let g = v.globals in
    let cells = pool.cells in
    let (globals, _, aas, boxes) = write_words-alike v id block field in
    let outside : (a : ℕ) → (a < g.pages) ⊎ (pages_end g ≤ a) → a ≢ field = λ a far e. elim far [
      | inl below ↦ omega (arith, below, e, low)
      | inr above ↦ omega (arith, above, e, high)
    ] in
    let word = other_word v id block field in
    kept-IsAddressPool v w l k pool globals aas boxes (record {
      cells = λ c listed.
          word (cell g c)
            (λ e.
              let same : c ≡ id = omega (arith, e) in
              let none : total l c ≡ 0 = ap (total l) same ∙ taken in omega (arith, none, listed))
            (outside (cell g c) (cell_outside g c apart (cells.numbered c listed)));
      words = λ h listed.
          let at = cells.placed h listed in
          let (ne, ne') = bucket_word g h id cells.space at small in
          (
            word h ne (outside h (bucket_outside g h h apart at (inl refl))),
            word (h + 4) ne' (outside (h + 4) (bucket_outside g h (h + 4) apart at (inr refl))),
          );
    })

-- The pool of free pages then: the block's page is not in it.
pub written-IsPool :
    (u v : Cf) (stock : Tiers) (id block field : ℕ)
    → IsPool u stock
    → v.globals ≡ u.globals
    → page_places v ≡ page_places u
    → IsApart u.globals
    → id < u.globals.nr_aas
    → ((a : ℕ) → OutsideBuckets u.globals a → v.mem a ≡ u.mem a)
    → total stock (page_at field) ≡ 0
    → IsPool (write_words v id block field) stock
written-IsPool u v stock id block field pool g places apart small same loose =
    let w = write_words v id block field in
    let (globals, pages, _, _) = write_words-alike v id block field in
    let laid = pool.stocked.laid in
    let word =
      λ (x a : ℕ) (listed : 0 < total stock x) (at : IsPageAt u.globals x) (is : page_at a ≡ x).
        let low : u.globals.pages ≤ a = omega (arith, is, at.low) in
        let high : a < pages_end u.globals =
          omega (arith, is, at.high, at.aligned, laid.pages_aligned) in
        let ne : a ≢ cell v.globals id =
          subst (λ (h : Globals). a ≢ cell h id) (sym g)
            (λ e. elim (cell_outside u.globals id apart small) [
              | inl below ↦ omega (arith, below, low, e)
              | inr above ↦ omega (arith, above, high, e)
            ]) in
        let ne' : a ≢ field = λ e.
          let none : total stock x ≡ 0 = ap (total stock) (sym is ∙ ap page_at e) ∙ loose in
          omega (arith, none, listed) in
        let out : OutsideBuckets u.globals a = elim apart.buckets [
          | inl far ↦ inr (omega (arith, far, low))
          | inr far ↦ inl (omega (arith, far, high))
        ] in
        other_word v id block field a ne ne' ∙ same a out in
    kept-IsPool u w stock pool (globals ∙ g) (pages ∙ places) (λ x listed.
      let at = pool.stocked.placed x listed in
      (
        word x x listed at (omega (arith, at.aligned)),
        word x (x + 4) listed at (omega (arith, at.aligned)),
      ))
