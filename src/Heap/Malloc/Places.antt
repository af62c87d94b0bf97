-- ===== src/Heap/Malloc/Places.antt =====
-- The block that cf_malloc of cf.c hands out of a page.
use compact_fit.Base.{
  ℕ, ◌+◌, ◌/◌, ◌<◌, ◌≤◌, ◌≡◌, ap, ◌∙◌, arith, true, false, ◌==◌, Bool-cases, inl, inr,
}
use compact_fit.Page.{Page, is_page_full, get_free_page_block, pagedatasize}
use compact_fit.Page.Blocks.{used}
use compact_fit.Page.Census.{Counted, get_free-inside}
use compact_fit.State.{Cf, Globals, set_page}
use compact_fit.FreePages.{full_list_flag}
use compact_fit.AbstractAddress.{get_abstract_address}
use compact_fit.AbstractAddress.Keeps.{get_abstract_address-IsKept}
use compact_fit.AbstractAddress.Lifo.{get_abstract_address-points}
use compact_fit.Classes.{compaction_on, remove_page_from_nfull_list, add_page_to_full_list}
use compact_fit.Classes.Refiles.{remove_page_from_nfull_list-Refiles, add_page_to_full_list-Refiles}
use compact_fit.Classes.Touched.{IsTouched, set_page-IsTouched, refiled-IsTouched, kept-IsTouched}
use compact_fit.Heap.{block_at, aa_field, set_abstract_address}
use compact_fit.Heap.Malloc.{file_page, malloc_address, malloc_block}
use compact_fit.Heap.Malloc.Offer.{malloc_address-IsKept}

-- The abstract address leads to the block, where it does not lie in the block itself.
malloc_address-points :
    (s : Cf) (sc p index size : ℕ)
    → s.globals.incremental_memcpy ≡ 0
    → compaction_on s sc ≡ true
    → let (t, address) = malloc_address s sc p index size in
      (address == 0) ≡ false
      → (address == aa_field p index size) ≡ false
      → t.mem address ≡ block_at p index size
unfolding malloc_address set_abstract_address
malloc_address-points s sc p index size direct on =
    let block = block_at p index size in
    let (t, address) = get_abstract_address s block in
    let kept = get_abstract_address-IsKept s block in
    let points = get_abstract_address-points s block in
    let inc : (t.globals.incremental_memcpy == 0) ≡ true =
      ground (arith, ap (λ (g : Globals). g.incremental_memcpy) kept.same_globals, direct) in
    elim (Bool-cases (address == 0)) [
      | inl e ↦ rw (on, e) (λ none. absurd (ground (arith, none)))
      | inr e ↦ rw (on, e, inc) (λ some_address elsewhere. ground (arith, points e, elsewhere))
    ]

pub file_page-IsTouched :
    (s : Cf) (sc p size : ℕ) (r : Page) (t : Cf)
    → IsTouched s p r t
    → IsTouched s p r (file_page t sc p size)
unfolding file_page
file_page-IsTouched s sc p size r t only = elim (Bool-cases (is_page_full (t.page p) size)) [
  | inl e ↦
      let v = remove_page_from_nfull_list t sc p in
      rw e (
        refiled-IsTouched s p r v full_list_flag (add_page_to_full_list v sc p)
          (refiled-IsTouched s p r t 0 v only (remove_page_from_nfull_list-Refiles t sc p))
          (add_page_to_full_list-Refiles v sc p))
  | inr e ↦ rw e only
]

block_inside :
    (p index size : ℕ)
    → 0 < size
    → index < pagedatasize / size
    → block_at p index size + size ≤ p + pagedatasize
block_inside p index size positive small = grind (arith, small)

-- What malloc_block does to the page is what get_free_page_block does, but for the list flags.
pub malloc_block-IsTouched :
    (s : Cf) (sc p size : ℕ)
    → IsTouched s p (get_free_page_block (s.page p)).0 (malloc_block s sc p size).0
unfolding malloc_block
malloc_block-IsTouched s sc p size =
    let (q, index) = get_free_page_block (s.page p) in
    let t = set_page s p q in
    let u = file_page t sc p size in
    kept-IsTouched s p q u (malloc_address u sc p index size).0
      (file_page-IsTouched s sc p size q t (set_page-IsTouched s p q))
      (malloc_address-IsKept u sc p index size)

malloc_block-points :
    (s : Cf) (sc p size : ℕ)
    → s.globals.incremental_memcpy ≡ 0
    → compaction_on s sc ≡ true
    → let (t, address) = malloc_block s sc p size in
      let index = (get_free_page_block (s.page p)).1 in
      (address == 0) ≡ false
      → (address == aa_field p index size) ≡ false
      → t.mem address ≡ block_at p index size
unfolding malloc_block compaction_on
malloc_block-points s sc p size direct on =
    let (q, index) = get_free_page_block (s.page p) in
    let t = set_page s p q in
    let u = file_page t sc p size in
    let only = file_page-IsTouched s sc p size q t (set_page-IsTouched s p q) in
    malloc_address-points u sc p index size
      (ap (λ (g : Globals). g.incremental_memcpy) only.globals ∙ direct) (rw (only.bound sc) on)

-- Without increments and with compaction on, on a page whose count agrees with its marks and that has
-- fewer blocks in use than it can hold, a block that cf_malloc hands out with an abstract address was
-- free before and is marked used after, lies inside the page's data, and is the one that the address
-- leads to. Blocks have 16 to 16200 bytes, and the address is not the block's own last word.
pub malloc_block-inside :
    (s : Cf) (sc p size : ℕ)
    → s.globals.incremental_memcpy ≡ 0
    → compaction_on s sc ≡ true
    → Counted 0 (s.page p)
    → 16 ≤ size
    → size ≤ pagedatasize
    → (s.page p).nr_used_page_blocks < pagedatasize / size
    → ((malloc_block s sc p size).1 == 0) ≡ false
    → ((malloc_block s sc p size).1 == aa_field p (get_free_page_block (s.page p)).1 size) ≡ false
    → let (t, address) = malloc_block s sc p size in
      let index = (get_free_page_block (s.page p)).1 in
      (used (s.page p) index ≡ false)
      × (used (t.page p) index ≡ true)
      × (t.mem address ≡ block_at p index size)
      × (block_at p index size + size ≤ p + pagedatasize)
malloc_block-inside s sc p size direct on counted least most room some_address elsewhere =
    let (q, index) = get_free_page_block (s.page p) in
    let t = (malloc_block s sc p size).0 in
    let few : pagedatasize / size ≤ 1024 = grind (arith, least) in
    let (inside, free, taken, after) =
      get_free-inside (s.page p) counted (pagedatasize / size) room few in
    let same = ap (λ (r : Page). used r index) (malloc_block-IsTouched s sc p size).content in
    (
      free,
      same ∙ taken,
      malloc_block-points s sc p size direct on some_address elsewhere,
      block_inside p index size (omega (arith, least)) inside,
    )
