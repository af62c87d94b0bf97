-- ===== src/Heap/Whole/Stores.antt =====
-- A free of cf.c that moves no block: which page changes, and what becomes of the pool of free pages.
use compact_fit.Base.{ℕ, ◌≡◌, ap, ◌∙◌, arith, Bool-cases, inl, inr, true, ◌==◌}
use compact_fit.Page.{Page, is_page_full, free_used_page_block, page_clear_used_bit}
use compact_fit.State.{Cf, set_page}
use compact_fit.FreePages.{nfull_list_flag, free_list_flag, add_free_page}
use compact_fit.FreePages.Pool.{IsPool, IsPageAt}
use compact_fit.Pool.Tiers.{Tiers, total}
use compact_fit.Classes.{
  add_page_to_nfull_list, remove_page_from_full_list, remove_page_from_nfull_list,
}
use compact_fit.Classes.Refiles.{
  add_free_page-Refiles, add_page_to_nfull_list-Refiles, remove_page_from_full_list-Refiles,
  remove_page_from_nfull_list-Refiles,
}
use compact_fit.Classes.Touched.{IsTouched, set_page-IsTouched, refiled-IsTouched}
use compact_fit.Classes.Stores.{
  IsStored, Beside-IsStored, emptied-IsStored, then_Beside, refiled, add_page_to_nfull_list-Beside,
  remove_page_from_full_list-Beside, remove_page_from_nfull_list-Beside,
}
use compact_fit.Heap.{do_free, do_free_full_state, do_free_nfull_state}

module _ (s : Cf) (pages : Tiers) (sc p index : ℕ) (pool : IsPool s pages)
    (at : IsPageAt s.globals p) (new : total pages p ≡ 0) where
  pub do_free_full_state-IsStored :
      IsStored s pages p (do_free_full_state s sc p index)
      × IsTouched s p (free_used_page_block (s.page p) index) (do_free_full_state s sc p index)
  unfolding do_free_full_state
  do_free_full_state-IsStored =
      let r = free_used_page_block (s.page p) index in
      let s1 = set_page s p r in
      let t = remove_page_from_full_list s1 sc p in
      let beside =
        then_Beside s s1 t (refiled s _ _ _) (remove_page_from_full_list-Beside s1 sc p) in
      let only =
        refiled-IsTouched s p r s1 0 t (set_page-IsTouched s p r)
          (remove_page_from_full_list-Refiles s1 sc p) in
      elim (Bool-cases ((t.page p).nr_used_page_blocks == 0)) [
        | inl e ↦ rw e (
          emptied-IsStored s t pages p beside pool at new (ground arith),
          refiled-IsTouched s p r t free_list_flag (add_free_page t p) only
              (add_free_page-Refiles t p),
        )
        | inr e ↦
            let u = add_page_to_nfull_list t sc p in
            rw e (
              Beside-IsStored s u pages p
                  (then_Beside s t u beside (add_page_to_nfull_list-Beside t sc p)) pool,
              refiled-IsTouched s p r t nfull_list_flag u only
                  (add_page_to_nfull_list-Refiles t sc p),
            )
      ]

  pub do_free_nfull_state-IsStored :
      (s.page p).sourceentries ≡ 0
      → IsStored s pages p (do_free_nfull_state s sc p index)
        × IsTouched s p (free_used_page_block (s.page p) index) (do_free_nfull_state s sc p index)
  unfolding do_free_nfull_state free_used_page_block page_clear_used_bit
  do_free_nfull_state-IsStored pending =
      let r = free_used_page_block (s.page p) index in
      let s1 = set_page s p r in
      let t = remove_page_from_nfull_list s1 sc p in
      let beside =
        then_Beside s s1 t (refiled s _ _ _) (remove_page_from_nfull_list-Beside s1 sc p) in
      let first = set_page-IsTouched s p r in
      let only =
        refiled-IsTouched s p r s1 0 t first (remove_page_from_nfull_list-Refiles s1 sc p) in
      let pending' : ((s1.page p).sourceentries == 0) ≡ true =
        let same : (s1.page p).sourceentries ≡ (s.page p).sourceentries =
          ap (λ (q : Page). q.sourceentries) first.content in
        ground (arith, pending, same) in
      elim (Bool-cases ((s.page p).nr_used_page_blocks == 1)) [
        | inl e ↦
            let count : (t.page p).nr_used_page_blocks ≡ r.nr_used_page_blocks =
              ap (λ (q : Page). q.nr_used_page_blocks) only.content in
            let none_left : r.nr_used_page_blocks ≡ 0 = ground (arith, e) in
            rw (e, pending')
              (
                emptied-IsStored s t pages p beside pool at new (count ∙ none_left),
                refiled-IsTouched s p r t free_list_flag (add_free_page t p) only
                    (add_free_page-Refiles t p),
              )
        | inr e ↦ rw e (Beside-IsStored s s1 pages p (refiled s _ _ _) pool, first)
      ]

  pub do_free-IsStored :
      (size : ℕ)
      → (s.page p).sourceentries ≡ 0
      → IsStored s pages p (do_free s sc p size index)
        × IsTouched s p (free_used_page_block (s.page p) index) (do_free s sc p size index)
  unfolding do_free
  do_free-IsStored size pending = elim (Bool-cases (is_page_full (s.page p) size)) [
    | inl e ↦ rw e do_free_full_state-IsStored
    | inr e ↦ rw e (do_free_nfull_state-IsStored pending)
  ]
