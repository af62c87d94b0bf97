-- ===== src/Heap/Free/Compacts.antt =====
-- A free in cf.c that moves a block: the first not-full page lends its lowest used block.
use compact_fit.Base.{
  ℕ, ◌+◌, ◌^◌, ◌<◌, ◌≤◌, ◌≡◌, refl, ap, ◌∙◌, arith, true, ◌==◌, Bool, Bool-cases, inl, inr, List,
  [], ◌∷◌, some, Option,
}
use mathlib.Core.Path.{subst}
use compact_fit.Page.{Page, u32, find_used_page_block, free_used_page_block, page_clear_used_bit}
use compact_fit.Page.Blocks.{used, find_used-lowest}
use compact_fit.Page.Census.{some_taken}
use compact_fit.ListHead.{Links, list_empty}
use compact_fit.ListHead.Ring.{has, IsRing}
use compact_fit.ListHead.Without.{length, length-without}
use compact_fit.State.{
  Cf, Globals, set_page, head_source_pages, head_nfull_pages, list_of_page, page_of_list,
}
use compact_fit.State.Kept.{IsKept}
use compact_fit.FreePages.{add_free_page}
use compact_fit.Classes.{get_source_page, do_free_source_state, add_page_to_nfull_list}
use compact_fit.Classes.Filed.{nfull_is_head, source_is_head}
use compact_fit.Classes.Moves.{put_in, take_out}
use compact_fit.Classes.Sources.{
  discounted, lent_at, IsLent, get_source_page-IsLent, do_free_source_state-lifted,
}
use compact_fit.Classes.Touched.{changed-IsTouched, kept-IsTouched}
use compact_fit.Heap.Compaction.Move.{do_compaction-direct, lent_page}
use compact_fit.Heap.Free.{compact_into}
use compact_fit.Heap.Free.Local.{IsKept-IsFiled, emptied-IsHeap, refiled-IsHeap}
use compact_fit.Heap.Invariant.{IsHeap, IsPartlyUsed, IsSettled}
use compact_fit.Heap.Invariant.Pages.{capacity-bounds, freed-IsSettled}
use compact_fit.Heap.Invariant.Lifted.{take_out-IsLifted}

-- A page once its lowest used block is counted out and gone.
lend_lowest : Page → Page
lend_lowest q = lent_page (record (discounted q) { sourceentries = u32 (q.sourceentries + 1) })

lend_lowest-freed :
    (q : Page)
    → IsSettled q
    → IsSettled (free_used_page_block q (find_used_page_block q))
    → IsSettled (lend_lowest q)
      × ((lend_lowest q).nr_used_page_blocks
          ≡ (free_used_page_block q (find_used_page_block q)).nr_used_page_blocks)
      × ((lend_lowest q).sc ≡ q.sc)
unfolding lend_lowest free_used_page_block page_clear_used_bit find_used_page_block
lend_lowest-freed q before after = (
  record {
    counted = record { bitmap = after.counted.bitmap; census = after.counted.census };
    pending = omega (arith, before.pending);
  },
  refl,
  refl,
)

lent_page-blind :
    (q : Page) (flags : ℕ)
    → lent_page (record q { list_flags = flags }) ≡ record (lent_page q) { list_flags = flags }
unfolding page_clear_used_bit find_used_page_block
lent_page-blind q flags = refl

counted_out : Page → Page
counted_out q = record (discounted q) { sourceentries = u32 (q.sourceentries + 1) }

-- After the move the page still stands on the ring it lends from.
moved-IsLent :
    (s : Cf) (classes : ℕ → Bool) (lifted : ℕ → List ℕ) (sc p : ℕ) (q : Page) (t u : Cf)
    → IsLent s classes lifted sc p (counted_out q) t
    → IsKept (set_page t p (lent_page (t.page p))) (set_page t p (lent_page (t.page p))).page u
    → IsLent s classes lifted sc p (lend_lowest q) u
unfolding lend_lowest counted_out page_clear_used_bit
moved-IsLent s classes lifted sc p q t u lent kept =
    let v = set_page t p (lent_page (t.page p)) in
    record {
      touched =
          kept-IsTouched s p (lend_lowest q) v u
            (changed-IsTouched s p (counted_out q) t lent_page lent_page-blind lent.touched) kept;
      filed =
          IsKept-IsFiled v v.page u classes (put_in lifted (lent_at sc (counted_out q)) p) kept
            lent.filed;
    }

-- The entry that a ring with entries begins with.
pub first_of :
    (l : Links) (h : ℕ) (xs : List ℕ) → IsRing l h xs → 0 < length xs → has (l.next h) xs ≡ true
first_of l h [] r listed = absurd (omega arith)
first_of l h (x ∷ xs) r listed = ground (arith, r.chain.0)

empty_of : (l : Links) (h : ℕ) → IsRing l h [] → list_empty l h ≡ true
unfolding list_empty
empty_of l h r = ground (arith, r.chain.0)

ends_as : (r : Option (Cf × ℕ)) (a b : Cf) → r ≡ some (a, 0) → a ≡ b → r ≡ some (b, 0)
ends_as r a b runs same = runs ∙ ap (λ (x : Cf). some (x, 0)) same

module _ (s : Cf) (classes : ℕ → Bool) (ring : ℕ → List ℕ) (heap : IsHeap s classes ring) (sc : ℕ)
    (here : classes sc ≡ true) where
  pub no_source_listed : list_empty s.links (head_source_pages sc) ≡ true
  no_source_listed =
      let r = heap.filed.shelf.rings (head_source_pages sc) (source_is_head classes sc here) in
      empty_of s.links (head_source_pages sc)
        (subst (λ xs. IsRing s.links (head_source_pages sc) xs) (heap.no_source sc here) r)

  -- The lowest used block of a page of the class is freed.
  lowest_freed :
      (q : Page)
      → IsPartlyUsed q sc (s.size_class sc)
      → IsSettled (lend_lowest q)
        × ((lend_lowest q).nr_used_page_blocks + 1 ≡ q.nr_used_page_blocks)
        × ((lend_lowest q).sc ≡ sc)
  lowest_freed q partly =
      let bounds = capacity-bounds (s.size_class sc) (heap.set sc here) in
      let (k, small, taken) =
        some_taken 1024 (used q) (omega (arith, partly.settled.counted.census, partly.some_used)) in
      let (inside, there, rest) = find_used-lowest q partly.settled.counted.bitmap k small taken in
      let (after, n, class) =
        freed-IsSettled q partly.settled (find_used_page_block q) inside there partly.some_used
          (omega (arith, partly.some_free, bounds.1)) in
      let (settled, same, class') = lend_lowest-freed q partly.settled after in
      (settled, omega (arith, n, same), class' ∙ partly.class)

  -- A compaction into a page, with a not-full page to take a block from.
  pub compact_into-IsHeap :
      (others : Cf → Cf) (page index size : ℕ)
      → 0 < size
      → size < 2 ^ 31
      → 0 < length (ring (head_nfull_pages sc))
      → (t : Cf) × (ring' : ℕ → List ℕ) × (compact_into others s sc page index size ≡ some (t, 0))
        × IsHeap t classes ring'
  unfolding compact_into counted_out
  compact_into-IsHeap others page index size positive small listed =
      let there = nfull_is_head classes sc here in
      let x = s.links.next (head_nfull_pages sc) in
      let p = page_of_list x in
      let i =
        first_of s.links (head_nfull_pages sc) (ring (head_nfull_pages sc))
          (heap.filed.shelf.rings (head_nfull_pages sc) there) listed in
      let (low, high) = heap.placed (head_nfull_pages sc) x there i in
      let place : list_of_page p ≡ x = omega (arith, low, high) in
      let i' : has (list_of_page p) (ring (head_nfull_pages sc)) ≡ true = rw place i in
      let q = s.page p in
      let partly = heap.partly sc p here i' in
      let up = take_out-IsLifted s classes ring p heap (head_nfull_pages sc) there i' in
      let lifted = take_out ring (head_nfull_pages sc) p in
      let (at, lent) =
        get_source_page-IsLent s classes ring sc p heap.filed here i' up.fresh no_source_listed
          refl in
      let t = (get_source_page s sc).0 in
      let (u, runs, kept) =
        do_compaction-direct others t sc page index p size
          (ap (λ (g : Globals). g.incremental_memcpy) lent.touched.globals ∙ heap.direct)
          (omega
            (arith, ap (λ (g : Globals). g.memcpy_multiplicator) lent.touched.globals, heap.rounds))
          positive small in
      let lent' = moved-IsLent s classes lifted sc p q t u lent kept in
      let (settled, n, class) = lowest_freed q partly in
      let (v, only, filed, ends) =
        do_free_source_state-lifted s classes ring sc p heap.filed here i' up.fresh lifted
          (lend_lowest q) u lent' settled.pending in
      let self : (head_nfull_pages sc == head_nfull_pages sc) ≡ true = ground arith in
      let fewer = length-without (list_of_page p) (ring (head_nfull_pages sc)) i' in
      let room : length (lifted (head_nfull_pages sc)) + 1
          ≤ (s.size_class sc).partial_compaction_bound =
        rw self (omega (arith, fewer, heap.bounded sc here)) in
      let run : compact_into others s sc page index size ≡ some (do_free_source_state u sc p, 0) =
        rw at runs in
      elim (Bool-cases ((lend_lowest q).nr_used_page_blocks == 0)) [
        | inl e ↦ (
          add_free_page v p,
          lifted,
          ends_as (compact_into others s sc page index size) (do_free_source_state u sc p)
              (add_free_page v p) run (ends ∙ rw e refl),
          emptied-IsHeap s classes ring heap sc p here v lifted (lend_lowest q) up only filed
              (record { settled = settled; none_used = ground arith }),
        )
        | inr e ↦ (
          add_page_to_nfull_list v sc p,
          put_in lifted (head_nfull_pages sc) p,
          ends_as (compact_into others s sc page index size) (do_free_source_state u sc p)
              (add_page_to_nfull_list v sc p) run (ends ∙ rw e refl),
          refiled-IsHeap s classes ring heap sc p here v lifted (lend_lowest q) up only filed room
              (record {
                settled = settled;
                class = class;
                some_used = ground arith;
                some_free = omega (arith, n, partly.some_free);
              }),
        )
      ]
