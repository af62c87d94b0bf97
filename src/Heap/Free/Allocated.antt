-- ===== src/Heap/Free/Allocated.antt =====
-- cf_free of cf.c on an address whose block is in use.
use compact_fit.Base.{
  ℕ, arith, ◌<◌, ◌≡◌, refl, Bool, true, List, some, ltb, Bool-cases, inl, inr, ◌^◌,
}
use mathlib.Core.Path.{subst}
use compact_fit.Page.Blocks.{used}
use compact_fit.Page.{Page}
use compact_fit.Page.Census.{count_positive}
use compact_fit.State.{Cf}
use compact_fit.State.Kept.{itself}
use compact_fit.AbstractAddress.Gives.{AllKept, clear_abstract_address-AllKept}
use compact_fit.Heap.{get_page_direct_of_page_block, get_index_direct_of_page_block}
use compact_fit.Heap.Free.{cf_free, block_of, give_back}
use compact_fit.Heap.Free.Keeps.{free_block-IsHeap}
use compact_fit.Heap.Invariant.{IsSettled, IsHeap, IsKept-IsHeap}

abbrev pub page_of : Cf → ℕ → ℕ
page_of s address = get_page_direct_of_page_block (block_of s address)

abbrev pub class_of : Cf → ℕ → ℕ
class_of s address = (s.page (page_of s address)).sc

abbrev pub index_of : Cf → ℕ → ℕ
index_of s address =
    get_index_direct_of_page_block (page_of s address) (block_of s address)
      (s.size_class (class_of s address)).block_size

-- The block at the address is marked as used.
pub record IsAllocated (s : Cf) (address : ℕ) : Type 0 where
  pub inside : index_of s address < 1024
  pub taken : used (s.page (page_of s address)) (index_of s address) ≡ true

-- A page with a used block counts some.
counted_in :
    (q : Page) (index : ℕ)
    → IsSettled q
    → index < 1024
    → used q index ≡ true
    → 0 < q.nr_used_page_blocks
counted_in q index settled inside taken =
    omega (arith, settled.counted.census, count_positive 1024 index (used q) inside taken)

give_back-AllKept : (sc address : ℕ) (s : Cf) → AllKept s (give_back sc address (s, 0))
unfolding give_back
give_back-AllKept sc address s =
    elim (Bool-cases (ltb (s.size_class sc).partial_compaction_bound (2 ^ 31))) [
      | inl e ↦ rw e (clear_abstract_address-AllKept s address)
      | inr e ↦ rw e (itself s)
    ]

-- Without increments, cf_free of an address whose block is in use gets as far as giving the address
-- back, without an abort and with the invariant kept, and giving the address back keeps it too.
pub cf_free-IsHeap :
    (others : Cf → Cf) (s : Cf) (classes : ℕ → Bool) (ring : ℕ → List ℕ) (address : ℕ)
    → IsHeap s classes ring
    → IsAllocated s address
    → (t : Cf) × (ring' : ℕ → List ℕ) × (cf_free others s address
        ≡ give_back (class_of s address) address (t, 0))
      × IsHeap t classes ring'
      × ((u : Cf) → give_back (class_of s address) address (t, 0) ≡ some u → IsHeap u classes ring')
unfolding cf_free
cf_free-IsHeap others s classes ring address heap block =
    let sc = class_of s address in
    let some_used =
      counted_in (s.page (page_of s address)) (index_of s address)
        (heap.settled (page_of s address)) block.inside block.taken in
    let (here, listed) = heap.owned (page_of s address) some_used in
    let (t, ring', runs, after) =
      free_block-IsHeap s classes ring heap sc here (page_of s address) (index_of s address)
        block.inside block.taken listed others address in
    (
      t,
      ring',
      rw runs refl,
      after,
      λ u ends.
          IsKept-IsHeap t u classes ring'
            (subst (λ r. AllKept t r) ends (give_back-AllKept sc address t)) after,
    )
