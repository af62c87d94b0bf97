-- ===== src/Heap/Free/Local.antt =====
-- A free in cf.c that moves no block: the page goes to the ring that its count says.
use compact_fit.Base.{
  ℕ, ◌+◌, ◌<◌, ◌≤◌, ◌≡◌, ap, ◌∙◌, arith, true, ◌==◌, Bool, Bool-cases, inl, inr, List,
}
use compact_fit.Page.{Page, free_used_page_block}
use compact_fit.Page.Blocks.{used}
use compact_fit.ListHead.Ring.{has}
use compact_fit.ListHead.Without.{length}
use compact_fit.State.{Cf, set_page, head_full_pages, head_nfull_pages, list_of_page}
use compact_fit.State.Kept.{IsKept}
use compact_fit.FreePages.{add_free_page, nfull_list_flag, free_list_flag}
use compact_fit.FreePages.Keeps.{reflag, add_free_page-IsKept}
use compact_fit.Classes.{
  add_page_to_nfull_list, remove_page_from_full_list, remove_page_from_nfull_list,
}
use compact_fit.Classes.Filed.{IsFiled, full_is_head, nfull_is_head}
use compact_fit.Classes.Moves.{
  put_in, take_out, remove_page_from_full_list-IsFiled, remove_page_from_nfull_list-IsFiled,
  add_page_to_nfull_list-IsFiled,
}
use compact_fit.Classes.Refiles.{
  add_free_page-Refiles, add_page_to_nfull_list-Refiles, remove_page_from_full_list-Refiles,
  remove_page_from_nfull_list-Refiles,
}
use compact_fit.Heap.{do_free_full_state, do_free_nfull_state}
use compact_fit.Heap.Invariant.{IsHeap, IsClean, IsPartlyUsed}
use compact_fit.Classes.Touched.{IsTouched, set_page-IsTouched, refiled-IsTouched}
use compact_fit.Heap.Invariant.Pages.{capacity-bounds, freed-IsSettled}
use compact_fit.Heap.Invariant.Lifted.{IsLifted, take_out-IsLifted, stays-IsHeap}
use compact_fit.Heap.Invariant.Placed.{lifted-IsHeap, partly-IsHeap}

pub IsKept-IsFiled :
    (s : Cf) (page : ℕ → Page) (t : Cf) (classes : ℕ → Bool) (ring : ℕ → List ℕ)
    → IsKept s page t
    → IsFiled s.links s.size_class classes ring
    → IsFiled t.links t.size_class classes ring
IsKept-IsFiled s page t classes ring kept filed = rw (kept.same_links, kept.same_classes) filed

module _ (s : Cf) (classes : ℕ → Bool) (ring : ℕ → List ℕ) (heap : IsHeap s classes ring) (sc p : ℕ)
    (here : classes sc ≡ true) where
  -- An emptied page that is off its ring goes to the free pages.
  pub emptied-IsHeap :
      (t : Cf) (lifted : ℕ → List ℕ) (r : Page)
      → IsLifted s classes ring p lifted
      → IsTouched s p r t
      → IsFiled t.links t.size_class classes lifted
      → IsClean r
      → IsHeap (add_free_page t p) classes lifted
  emptied-IsHeap t lifted r up only filed clean =
      let u = add_free_page t p in
      lifted-IsHeap s classes ring p heap u lifted up r
        (refiled-IsTouched s p r t free_list_flag u only (add_free_page-Refiles t p))
        (IsKept-IsFiled t (reflag t.page p free_list_flag) u classes lifted
          (add_free_page-IsKept t p) filed)
        clean

  -- A page off its ring with free and used blocks goes to the not-full pages, where there is room.
  pub refiled-IsHeap :
      (t : Cf) (lifted : ℕ → List ℕ) (r : Page)
      → IsLifted s classes ring p lifted
      → IsTouched s p r t
      → IsFiled t.links t.size_class classes lifted
      → length (lifted (head_nfull_pages sc)) + 1 ≤ (s.size_class sc).partial_compaction_bound
      → IsPartlyUsed r sc (s.size_class sc)
      → IsHeap (add_page_to_nfull_list t sc p) classes (put_in lifted (head_nfull_pages sc) p)
  refiled-IsHeap t lifted r up only filed room partly =
      let u = add_page_to_nfull_list t sc p in
      partly-IsHeap s classes ring p heap u lifted up r
        (refiled-IsTouched s p r t nfull_list_flag u only (add_page_to_nfull_list-Refiles t sc p))
        sc here (add_page_to_nfull_list-IsFiled t classes lifted sc p filed here up.fresh) room
        partly

  module _ (index : ℕ) (small : index < 1024) (taken : used (s.page p) index ≡ true) where
    -- A block of a full page is freed, where the class has room for one more not-full page.
    pub do_free_full_state-IsHeap :
        has (list_of_page p) (ring (head_full_pages sc)) ≡ true
        → length (ring (head_nfull_pages sc)) + 1 ≤ (s.size_class sc).partial_compaction_bound
        → (ring' : ℕ → List ℕ) × IsHeap (do_free_full_state s sc p index) classes ring'
    unfolding do_free_full_state
    do_free_full_state-IsHeap i room =
        let there = full_is_head classes sc here in
        let full = heap.full sc p here i in
        let bounds = capacity-bounds (s.size_class sc) (heap.set sc here) in
        let r = free_used_page_block (s.page p) index in
        let s1 = set_page s p r in
        let t = remove_page_from_full_list s1 sc p in
        let lifted = take_out ring (head_full_pages sc) p in
        let up = take_out-IsLifted s classes ring p heap (head_full_pages sc) there i in
        let (settled, n, class) =
          freed-IsSettled (s.page p) full.settled index small taken
            (omega (arith, full.all_used, bounds.0)) (omega (arith, full.all_used, bounds.1)) in
        let only =
          refiled-IsTouched s p r s1 0 t (set_page-IsTouched s p r)
            (remove_page_from_full_list-Refiles s1 sc p) in
        let filed = remove_page_from_full_list-IsFiled s1 classes ring sc p heap.filed here i in
        let used_count : (t.page p).nr_used_page_blocks ≡ r.nr_used_page_blocks =
          ap (λ (q : Page). q.nr_used_page_blocks) only.content in
        elim (Bool-cases ((t.page p).nr_used_page_blocks == 0)) [
          | inl e ↦ (
            lifted,
            rw e (
                emptied-IsHeap t lifted r up only filed
                  (record { settled = settled; none_used = ground (arith, used_count) })),
          )
          | inr e ↦ (
            put_in lifted (head_nfull_pages sc) p,
            rw e (
                refiled-IsHeap t lifted r up only filed (omega (arith, up.shorter sc here, room))
                  (record {
                    settled = settled;
                    class = class ∙ full.class;
                    some_used = ground (arith, used_count);
                    some_free = omega (arith, n, full.all_used);
                  })),
          )
        ]

    -- A block of a page that is not full is freed.
    pub do_free_nfull_state-IsHeap :
        has (list_of_page p) (ring (head_nfull_pages sc)) ≡ true
        → (ring' : ℕ → List ℕ) × IsHeap (do_free_nfull_state s sc p index) classes ring'
    unfolding do_free_nfull_state
    do_free_nfull_state-IsHeap i =
        let there = nfull_is_head classes sc here in
        let partly = heap.partly sc p here i in
        let bounds = capacity-bounds (s.size_class sc) (heap.set sc here) in
        let r = free_used_page_block (s.page p) index in
        let s1 = set_page s p r in
        let t = remove_page_from_nfull_list s1 sc p in
        let lifted = take_out ring (head_nfull_pages sc) p in
        let up = take_out-IsLifted s classes ring p heap (head_nfull_pages sc) there i in
        let (settled, n, class) =
          freed-IsSettled (s.page p) partly.settled index small taken partly.some_used
            (omega (arith, partly.some_free, bounds.1)) in
        let first = set_page-IsTouched s p r in
        let only =
          refiled-IsTouched s p r s1 0 t first (remove_page_from_nfull_list-Refiles s1 sc p) in
        let filed = remove_page_from_nfull_list-IsFiled s1 classes ring sc p heap.filed here i in
        let pending : (s1.page p).sourceentries ≡ 0 =
          ap (λ (q : Page). q.sourceentries) first.content ∙ settled.pending in
        let pending' : ((s1.page p).sourceentries == 0) ≡ true = ground (arith, pending) in
        elim (Bool-cases ((s.page p).nr_used_page_blocks == 1)) [
          | inl e ↦ (
            lifted,
            rw (e, pending')
                (emptied-IsHeap t lifted r up only filed
                  (record { settled = settled; none_used = ground (arith, n) })),
          )
          | inr e ↦ (
            ring,
            rw e (
                stays-IsHeap s classes ring p heap s1 r sc here i first heap.filed (record {
                  settled = settled;
                  class = class ∙ partly.class;
                  some_used = ground (arith, n, partly.some_used);
                  some_free = omega (arith, n, partly.some_free);
                })),
          )
        ]
