-- ===== src/Heap/Malloc/Offer.antt =====
-- The page that cf_malloc of cf.c takes a block from, and where the page goes then.
use compact_fit.Base.{
  ℕ, ◌+◌, ◌<◌, ◌≡◌, refl, ap, ◌∙◌, arith, true, ◌==◌, Bool, Bool-cases, inl, inr, List,
}
use mathlib.Core.Path.{subst}
use compact_fit.Page.{Page, is_page_full, get_free_page_block}
use compact_fit.ListHead.Ring.{has}
use compact_fit.State.{Cf, set_page, head_full_pages, head_nfull_pages, list_of_page}
use compact_fit.State.Kept.{IsKept, itself, through}
use compact_fit.FreePages.{full_list_flag}
use compact_fit.AbstractAddress.Keeps.{get_abstract_address-IsKept}
use compact_fit.AbstractAddress.{get_abstract_address}
use compact_fit.Classes.{compaction_on, remove_page_from_nfull_list, add_page_to_full_list}
use compact_fit.Classes.Filed.{IsFiled}
use compact_fit.Classes.Moves.{
  put_in, take_out, remove_page_from_nfull_list-IsFiled, add_page_to_full_list-IsFiled,
}
use compact_fit.Classes.Refiles.{remove_page_from_nfull_list-Refiles, add_page_to_full_list-Refiles}
use compact_fit.Classes.Touched.{IsTouched, changed-IsTouched, refiled-IsTouched}
use compact_fit.Heap.{block_at, is_incremental, set_abstract_address, set_partition_field}
use compact_fit.Heap.Malloc.{file_page, malloc_address, malloc_block}
use compact_fit.Heap.Invariant.{IsHeap, IsKept-IsHeap, IsSettled, IsPartlyUsed, capacity}
use compact_fit.Heap.Invariant.Pages.{capacity-bounds, handed-IsSettled}
use compact_fit.Heap.Invariant.Lifted.{IsLifted}
use compact_fit.Heap.Invariant.Placed.{full-IsHeap}

pub malloc_address-IsKept :
    (s : Cf) (sc p index size : ℕ) → IsKept s s.page (malloc_address s sc p index size).0
unfolding malloc_address set_abstract_address set_partition_field
malloc_address-IsKept s sc p index size =
    let (t, address) = get_abstract_address s (block_at p index size) in
    let kept : IsKept s s.page t = get_abstract_address-IsKept s (block_at p index size) in
    elim (Bool-cases (compaction_on s sc)) [
      | inl e ↦ elim (Bool-cases (address == 0)) [
        | inl e' ↦ rw (e, e') kept
        | inr e' ↦
            let u = set_abstract_address t p index size address in
            elim (Bool-cases (is_incremental u size)) [
              | inl e'' ↦ rw (e, e', e'') (through s t _ kept (itself _))
              | inr e'' ↦ rw (e, e', e'') (through s t _ kept (itself _))
            ]
      ]
      | inr e ↦ rw e (itself s)
    ]

-- The page at `p`, which is `r`, is among the not-full pages of `t` and has a block to hand out. Off
-- its ring the others are `lifted`, and with some blocks used it may stay.
pub record IsOffered (s : Cf) (classes : ℕ → Bool) (ring : ℕ → List ℕ) (sc p : ℕ) (r : Page)
    (t : Cf) : Type 1 where
  pub lifted : ℕ → List ℕ
  pub on : ℕ → List ℕ
  pub up : IsLifted s classes ring p lifted
  pub off : take_out on (head_nfull_pages sc) p ≡ lifted
  pub listed : has (list_of_page p) (on (head_nfull_pages sc)) ≡ true
  pub filed : IsFiled t.links t.size_class classes on
  pub touched : IsTouched s p r t
  pub settled : IsSettled r
  pub class : r.sc ≡ sc
  pub room : r.nr_used_page_blocks < capacity (s.size_class sc)
  pub stays :
      (u : Cf) (r' : Page)
      → IsTouched s p r' u
      → IsFiled u.links u.size_class classes on
      → IsPartlyUsed r' sc (s.size_class sc)
      → IsHeap u classes on

hand_out : Page → Page
hand_out q = (get_free_page_block q).0

hand_out-blind :
    (q : Page) (flags : ℕ)
    → hand_out (record q { list_flags = flags }) ≡ record (hand_out q) { list_flags = flags }
unfolding hand_out get_free_page_block
hand_out-blind q flags = refl

module _ (s : Cf) (classes : ℕ → Bool) (ring : ℕ → List ℕ) (heap : IsHeap s classes ring) (sc : ℕ)
    (here : classes sc ≡ true) (p : ℕ) (r : Page) (t : Cf)
    (offer : IsOffered s classes ring sc p r t) where
  file_page-IsHeap :
      (ring' : ℕ → List ℕ) × IsHeap
        (file_page (set_page t p (hand_out (t.page p))) sc p (s.size_class sc).block_size)
        classes
        ring'
  unfolding file_page is_page_full hand_out
  file_page-IsHeap =
      let bounds = capacity-bounds (s.size_class sc) (heap.set sc here) in
      let (settled, n, class, _, _, _) =
        handed-IsSettled r offer.settled (capacity (s.size_class sc)) offer.room
          (omega (arith, bounds.1)) in
      let u = set_page t p (hand_out (t.page p)) in
      let only = changed-IsTouched s p r t hand_out hand_out-blind offer.touched in
      let same : (u.page p).nr_used_page_blocks ≡ r.nr_used_page_blocks + 1 =
        ap (λ (q : Page). q.nr_used_page_blocks) only.content ∙ n in
      elim (Bool-cases (is_page_full (u.page p) (s.size_class sc).block_size)) [
        | inl e ↦
            let v = remove_page_from_nfull_list u sc p in
            let w = add_page_to_full_list v sc p in
            let only' =
              refiled-IsTouched s p (hand_out r) u 0 v only
                (remove_page_from_nfull_list-Refiles u sc p) in
            let only'' =
              refiled-IsTouched s p (hand_out r) v full_list_flag w only'
                (add_page_to_full_list-Refiles v sc p) in
            let gone =
              remove_page_from_nfull_list-IsFiled u classes offer.on sc p offer.filed here
                offer.listed in
            let gone' : IsFiled v.links v.size_class classes offer.lifted =
              subst (λ rings. IsFiled v.links v.size_class classes rings) offer.off gone in
            (
              put_in offer.lifted (head_full_pages sc) p,
              rw e (
                  full-IsHeap s classes ring p heap w offer.lifted offer.up (hand_out r) only'' sc
                    here
                    (add_page_to_full_list-IsFiled v classes offer.lifted sc p gone' here
                      offer.up.fresh)
                    (record {
                      settled = settled;
                      class = class ∙ offer.class;
                      all_used = ground (arith, e, same, n);
                    })),
            )
        | inr e ↦ (
          offer.on,
          rw e (
              offer.stays u (hand_out r) only offer.filed (record {
                settled = settled;
                class = class ∙ offer.class;
                some_used = omega (arith, n);
                some_free = ground (arith, e, same, n, offer.room);
              })),
        )
      ]

  -- A block of the page is handed out, and the page filed.
  pub malloc_block-IsHeap :
      (ring' : ℕ → List ℕ) × IsHeap
        (malloc_block t sc p (s.size_class sc).block_size).0
        classes
        ring'
  unfolding malloc_block hand_out
  malloc_block-IsHeap =
      let (ring', after) = file_page-IsHeap in
      let size = (s.size_class sc).block_size in
      let u = file_page (set_page t p (hand_out (t.page p))) sc p size in
      let index = (get_free_page_block (t.page p)).1 in
      (
        ring',
        IsKept-IsHeap u (malloc_address u sc p index size).0 classes ring'
            (malloc_address-IsKept u sc p index size) after,
      )
