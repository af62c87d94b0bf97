-- ===== src/Heap/Whole/Vacates.antt =====
-- free_block of cf.c in the whole state: in every state of the size-class and the page it succeeds,
-- and vacates one block.
use compact_fit.Base.{
  ℕ, ◌^◌, ◌<◌, ◌≡◌, inl, inr, refl, ◌∙◌, arith, Bool, true, ◌==◌, List, some, Bool-cases,
}
use compact_fit.Page.{is_page_full}
use compact_fit.Page.Blocks.{used}
use compact_fit.State.{Cf}
use compact_fit.Pool.Tiers.{Tiers, total}
use compact_fit.Classes.{valid_nfull_pages_ratio}
use compact_fit.Classes.Counters.{nfull, in_full_state-nfull}
use compact_fit.Heap.{do_free, do_free_full_state, do_free_nfull_state}
use compact_fit.Heap.Free.{free_block, free_in_full, free_in_nfull}
use compact_fit.Heap.Free.Bound.{not_moving}
use compact_fit.Heap.Free.Compacts.{no_source_listed}
use compact_fit.Heap.Free.Keeps.{compacts, nfull-length}
use compact_fit.Heap.Invariant.Pages.{capacity-bounds}
use compact_fit.Heap.Whole.{IsWhole, size_of}
use compact_fit.Heap.Whole.Frames.{block_counted}
use compact_fit.Heap.Whole.Stores.{
  do_free-IsStored, do_free_full_state-IsStored, do_free_nfull_state-IsStored,
}
use compact_fit.Heap.Whole.Moves.{IsVacated, stored-IsVacated}
use compact_fit.Heap.Whole.Compacts.{compact_into-IsVacated}

module _ (s : Cf) (classes : ℕ → Bool) (ring : ℕ → List ℕ) (pages l k : Tiers)
    (whole : IsWhole s classes ring pages l k) (p i : ℕ) (small : i < 1024)
    (taken : used (s.page p) i ≡ true) where
  pub block_class : classes (s.page p).sc ≡ true
  block_class = (whole.heap.owned p (block_counted s classes ring p i whole.heap small taken)).0

  -- A page with a used block counts at most its capacity, and is in no list of free pages.
  count-bounds :
      (0 < (s.page p).nr_used_page_blocks)
      × ((s.page p).nr_used_page_blocks < 2 ^ 32)
      × (total pages p ≡ 0)
  count-bounds =
      let some_used = block_counted s classes ring p i whole.heap small taken in
      let (here, listed) = whole.heap.owned p some_used in
      let sc = (s.page p).sc in
      let bounds = capacity-bounds (s.size_class sc) (whole.heap.set sc here) in
      (
        some_used,
        elim listed [
          | inl on ↦
              let full = whole.heap.full sc p here on in omega (arith, full.all_used, bounds.1)
          | inr on ↦
              let partly = whole.heap.partly sc p here on in
              omega (arith, partly.some_free, bounds.1)
        ],
        elim (Bool-cases (total pages p == 0)) [
          | inl e ↦ ground arith
          | inr e ↦
              let spare = whole.spare p (ground (arith, e)) in
              absurd (omega (arith, spare, some_used))
        ],
      )

  pub free_block-IsVacated :
      (others : Cf → Cf) (address : ℕ)
      → (t : Cf) × (free_block others s (s.page p).sc p (size_of s p) i address ≡ some (t, 0))
        × IsVacated s pages p i t
  unfolding free_block free_in_full free_in_nfull is_page_full
  free_block-IsVacated others address =
      let heap = whole.heap in
      let sc = (s.page p).sc in
      let size = size_of s p in
      let settled = heap.settled p in
      let (some_used, few, new) = count-bounds in
      let here = block_class in
      let at = (whole.blocks p i small taken).at in
      let on = compacts s classes ring heap sc here in
      let still = not_moving s p i size heap.direct in
      let state = in_full_state-nfull s sc (no_source_listed s classes ring heap sc here) in
      let vacated = λ (t : Cf). stored-IsVacated s pages p i t settled small some_used few in
      elim (Bool-cases (nfull s sc == 0)) [
        | inl e ↦
            let t = do_free_full_state s sc p i in
            (
              t,
              rw (on, state ∙ e, still) refl,
              vacated t (do_free_full_state-IsStored s pages sc p i whole.pool at new),
            )
        | inr e ↦ elim (Bool-cases (valid_nfull_pages_ratio s sc 1)) [
          | inl valid ↦
              let t = do_free s sc p size i in
              (
                t,
                rw (on, state ∙ e, still, valid) refl,
                vacated t (do_free-IsStored s pages sc p i whole.pool at new size settled.pending),
              )
          | inr invalid ↦ elim (Bool-cases (is_page_full (s.page p) size)) [
            | inl full ↦
                let (t, runs, effect) =
                  compact_into-IsVacated s classes ring pages l k whole others p i here small taken
                    (ground (arith, full))
                    (ground (arith, e, nfull-length s classes ring heap sc here)) in
                (t, rw (on, state ∙ e, still, invalid, full) runs, effect)
            | inr room ↦
                let t = do_free_nfull_state s sc p i in
                (
                  t,
                  rw (on, state ∙ e, still, invalid, room) refl,
                  vacated t (
                      do_free_nfull_state-IsStored s pages sc p i whole.pool at new
                        settled.pending),
                )
          ]
        ]
      ]
