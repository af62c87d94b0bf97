-- ===== src/Heap/Malloc/Bound.antt =====
-- The partial compaction bound of cf.c: how many pages of a size-class are not full after cf_malloc.
use compact_fit.Base.{
  ℕ, ◌<◌, ◌≤◌, ◌^◌, ◌≡◌, refl, ap, arith, ◌&&◌, ◌==◌, true, false, inl, inr, Bool-cases,
}
use compact_fit.Page.{get_free_page_block}
use compact_fit.ListHead.{list_empty}
use compact_fit.State.{Cf, set_page, head_nfull_pages}
use compact_fit.FreePages.{get_free_page}
use compact_fit.FreePages.Keeps.{get_free_page-size_class}
use compact_fit.AbstractAddress.{get_abstract_address}
use compact_fit.AbstractAddress.Keeps.{get_abstract_address-size_class}
use compact_fit.Classes.{compaction_on, remove_page_from_nfull_list}
use compact_fit.Classes.Counters.{nfull, add_nfull, remove_nfull, add_full}
use compact_fit.Heap.{block_at, is_incremental, set_abstract_address, set_partition_field}
use compact_fit.Heap.Malloc.{malloc_page, file_page, malloc_address, malloc_block, malloc_in}

-- The list of not-full pages and its counter agree on whether there is one.
pub record IsListed (s : Cf) (sc : ℕ) : Type 0 where
  pub none_listed : list_empty s.links (head_nfull_pages sc) ≡ true → nfull s sc ≡ 0
  pub some_listed : list_empty s.links (head_nfull_pages sc) ≡ false → 0 < nfull s sc

malloc_address-size_class :
    (s : Cf) (sc p index size : ℕ) → (malloc_address s sc p index size).0.size_class ≡ s.size_class
unfolding malloc_address set_abstract_address set_partition_field
malloc_address-size_class s sc p index size =
    let (t, address) = get_abstract_address s (block_at p index size) in
    let kept : t.size_class ≡ s.size_class =
      get_abstract_address-size_class s (block_at p index size) in
    elim (Bool-cases (compaction_on s sc)) [
      | inl e ↦ elim (Bool-cases (address == 0)) [
        | inl e' ↦ rw (e, e') kept
        | inr e' ↦ elim (Bool-cases (is_incremental t size)) [
          | inl e'' ↦ rw (e, e', e'') kept
          | inr e'' ↦ rw (e, e', e'') kept
        ]
      ]
      | inr e ↦ rw e refl
    ]

file_page-nfull :
    (s : Cf) (sc p size : ℕ)
    → 0 < nfull s sc
    → nfull s sc < 2 ^ 32
    → nfull (file_page s sc p size) sc ≤ nfull s sc
unfolding file_page
file_page-nfull s sc p size positive small =
    ground (arith, add_full (remove_page_from_nfull_list s sc p) sc p, remove_nfull s sc p)

malloc_block-nfull :
    (s : Cf) (sc p size : ℕ)
    → 0 < nfull s sc
    → nfull s sc < 2 ^ 32
    → nfull (malloc_block s sc p size).0 sc ≤ nfull s sc
unfolding malloc_block
malloc_block-nfull s sc p size positive small =
    let (q, index) = get_free_page_block (s.page p) in
    let t = file_page (set_page s p q) sc p size in
    let kept : nfull (malloc_address t sc p index size).0 sc ≡ nfull t sc =
      ap (λ c. (c sc).nfullentries) (malloc_address-size_class t sc p index size) in
    omega (arith, kept, file_page-nfull (set_page s p q) sc p size positive small)

malloc_page-nfull :
    (s : Cf) (sc k : ℕ)
    → IsListed s sc
    → 0 < k
    → nfull s sc ≤ k
    → (nfull (malloc_page s sc).0 sc ≤ k)
      × ((list_empty s.links (head_nfull_pages sc) && (malloc_page s sc).1 == 0) ≡ false
          → 0 < nfull (malloc_page s sc).0 sc)
unfolding malloc_page
malloc_page-nfull s sc k listed positive bounded =
    let (t, p) = get_free_page s in
    let kept : nfull t sc ≡ nfull s sc =
      ap (λ c. (c sc).nfullentries) (get_free_page-size_class s) in
    elim (Bool-cases (list_empty s.links (head_nfull_pages sc))) [
      | inl e ↦
          let none = listed.none_listed e in
          elim (Bool-cases (p == 0)) [
            | inl e' ↦
                (rw (e, e') (omega (arith, kept, bounded)), rw (e, e') (λ h. ground (arith, h)))
            | inr e' ↦
                let u = set_page t p (record (t.page p) { nr_used_page_blocks = 0; sc = sc }) in
                let one = add_nfull u sc p in
                (
                  rw (e, e') (omega (arith, one, kept, none)),
                  rw (e, e') (λ h. omega (arith, one, kept, none)),
                )
          ]
      | inr e ↦ (rw e bounded, rw e (λ h. listed.some_listed e))
    ]

-- cf_malloc in a size-class leaves at most k not-full pages, where there were at most k before, k is
-- positive and below 2 ^ 31, and the list of not-full pages is empty exactly if its counter is 0.
pub malloc_in-nfull :
    (s : Cf) (sc k : ℕ)
    → IsListed s sc
    → 0 < k
    → k < 2 ^ 31
    → nfull s sc ≤ k
    → nfull (malloc_in s sc).0 sc ≤ k
unfolding malloc_in
malloc_in-nfull s sc k listed positive small bounded =
    let (t, p) = malloc_page s sc in
    let (fits, some) = malloc_page-nfull s sc k listed positive bounded in
    let size = (s.size_class sc).block_size in
    elim (Bool-cases (list_empty s.links (head_nfull_pages sc) && p == 0)) [
      | inl e ↦ rw e fits
      | inr e ↦
          rw e (omega (arith, fits, malloc_block-nfull t sc p size (some e) (omega (arith, fits))))
    ]
