-- ===== src/Heap/Malloc/Keeps.antt =====
-- cf_malloc of cf.c keeps the state of the size-classes and pages, and gives null or a block of a page.
use compact_fit.Base.{
  ℕ, ◌^◌, ◌<◌, ◌≡◌, refl, arith, true, false, ◌==◌, Bool, Bool-cases, inl, inr, List, [], ◌∷◌, some,
}
use compact_fit.Page.{Page}
use compact_fit.ListHead.{Links, list_empty}
use compact_fit.ListHead.Ring.{has, IsRing, Chain}
use compact_fit.ListHead.Without.{length}
use compact_fit.State.{Cf, set_page, head_nfull_pages, list_of_page, page_of_list}
use compact_fit.State.Kept.{IsKept}
use compact_fit.FreePages.{get_free_page, nfull_list_flag}
use compact_fit.FreePages.Keeps.{reflag, get_free_page-TakesPage}
use compact_fit.Classes.{get_size_class, get_nfull_pages_tail, add_page_to_nfull_list}
use compact_fit.Classes.Filed.{heads, nfull_is_head}
use compact_fit.Classes.Moves.{IsFresh, put_in, take_out, add_page_to_nfull_list-IsFiled}
use compact_fit.Classes.Refiles.{IsKept-Refiles, add_page_to_nfull_list-Refiles}
use compact_fit.Classes.Sources.{in_and_out}
use compact_fit.Classes.Touched.{itself-IsTouched, changed-IsTouched, refiled-IsTouched}
use compact_fit.Heap.Malloc.{cf_malloc, gross_size, malloc_page, malloc_in}
use compact_fit.Heap.Malloc.Offer.{IsOffered, malloc_block-IsHeap}
use compact_fit.Heap.Invariant.{IsHeap, IsKept-IsHeap, IsClean, IsSettled}
use compact_fit.Heap.Invariant.Fresh.{none_used-IsFresh}
use compact_fit.Heap.Invariant.Pages.{capacity-bounds}
use compact_fit.Heap.Invariant.Lifted.{fresh-IsLifted, take_out-IsLifted, stays-IsHeap}
use compact_fit.Heap.Invariant.Placed.{partly-IsHeap}
use compact_fit.Heap.Free.Local.{IsKept-IsFiled}

-- The page that the free pages would hand out next, if any, has no block in use, and its list field is
-- no list head.
abbrev pub HasSpare : Cf → (ℕ → Bool) → Type 0
HasSpare s classes =
    let p = (get_free_page s).1 in
    (p == 0) ≡ false
    → ((s.page p).nr_used_page_blocks ≡ 0)
      × (heads classes (list_of_page p) ≡ false)
      × (list_of_page p < 2 ^ 32)

last_of :
    (l : Links) (a b : ℕ) (xs : List ℕ) → Chain l a xs b → 0 < length xs → has (l.prev b) xs ≡ true
last_of l a b [] c listed = absurd (omega arith)
last_of l a b (x ∷ []) c listed = ground (arith, c.2.1)
last_of l a b (x ∷ y ∷ ys) c listed =
    let rest = last_of l x b (y ∷ ys) c.2 (omega arith) in ground (arith, rest)

not_empty :
    (l : Links) (h : ℕ) (xs : List ℕ) → IsRing l h xs → list_empty l h ≡ false → 0 < length xs
unfolding list_empty
not_empty l h [] r e = absurd (ground (arith, r.chain.0, e))
not_empty l h (x ∷ xs) r e = omega arith

none_of : (l : Links) (h : ℕ) (xs : List ℕ) → IsRing l h xs → list_empty l h ≡ true → length xs ≡ 0
unfolding list_empty
none_of l h [] r e = refl
none_of l h (x ∷ xs) r e = absurd (ground (arith, r.chain.0, r.apart, e))

cleared-IsSettled :
    (q : Page) (sc : ℕ) → IsClean q → IsSettled (record q { nr_used_page_blocks = 0; sc = sc })
cleared-IsSettled q sc clean = record {
  counted = record {
    bitmap = clean.settled.counted.bitmap;
    census = omega (arith, clean.settled.counted.census, clean.none_used);
  };
  pending = clean.settled.pending;
}

module _ (s : Cf) (classes : ℕ → Bool) (ring : ℕ → List ℕ) (heap : IsHeap s classes ring) (sc : ℕ)
    (here : classes sc ≡ true) where
  -- The last page of a not-full ring that is not empty is on it.
  pub tail_listed :
      list_empty s.links (head_nfull_pages sc) ≡ false
      → has (list_of_page (get_nfull_pages_tail s sc)) (ring (head_nfull_pages sc)) ≡ true
  unfolding get_nfull_pages_tail
  tail_listed listed =
      let there = nfull_is_head classes sc here in
      let r = heap.filed.shelf.rings (head_nfull_pages sc) there in
      let x = s.links.prev (head_nfull_pages sc) in
      let p = page_of_list x in
      let i =
        last_of s.links (head_nfull_pages sc) (head_nfull_pages sc) (ring (head_nfull_pages sc))
          r.chain (not_empty s.links (head_nfull_pages sc) (ring (head_nfull_pages sc)) r listed) in
      let (low, high) = heap.placed (head_nfull_pages sc) x there i in
      let place : list_of_page p ≡ x = omega (arith, low, high) in rw place i

  -- It may lend a block.
  tail-IsOffered :
      let p = get_nfull_pages_tail s sc in
      list_empty s.links (head_nfull_pages sc) ≡ false → IsOffered s classes ring sc p (s.page p) s
  tail-IsOffered listed =
      let there = nfull_is_head classes sc here in
      let p = get_nfull_pages_tail s sc in
      let i' = tail_listed listed in
      let partly = heap.partly sc p here i' in
      record {
        lifted = take_out ring (head_nfull_pages sc) p;
        on = ring;
        up = take_out-IsLifted s classes ring p heap (head_nfull_pages sc) there i';
        off = refl;
        listed = i';
        filed = heap.filed;
        touched = itself-IsTouched s p;
        settled = partly.settled;
        class = partly.class;
        room = partly.some_free;
        stays = λ u r' only filed' partly'.
            stays-IsHeap s classes ring p heap u r' sc here i' only filed' partly';
      }

  -- So may a fresh page, once it is filed.
  pub fresh-IsOffered :
      (t : Cf) (p : ℕ)
      → list_empty s.links (head_nfull_pages sc) ≡ true
      → IsKept s (reflag s.page p 0) t
      → IsFresh classes ring p
      → list_of_page p < 2 ^ 32
      → IsOffered s classes ring sc p
          (record (s.page p) { nr_used_page_blocks = 0; sc = sc })
          (add_page_to_nfull_list
            (set_page t p (record (t.page p) { nr_used_page_blocks = 0; sc = sc }))
            sc
            p)
  fresh-IsOffered t p empty kept fresh placed =
      let there = nfull_is_head classes sc here in
      let r = heap.filed.shelf.rings (head_nfull_pages sc) there in
      let none = none_of s.links (head_nfull_pages sc) (ring (head_nfull_pages sc)) r empty in
      let set = heap.set sc here in
      let up = fresh-IsLifted s classes ring p heap fresh placed in
      let f = λ (q : Page). record q { nr_used_page_blocks = 0; sc = sc } in
      let taken =
        refiled-IsTouched s p (s.page p) s 0 t (itself-IsTouched s p)
          (IsKept-Refiles s (reflag s.page p 0) t kept) in
      let t0 = set_page t p (f (t.page p)) in
      let reset = changed-IsTouched s p (s.page p) t f (λ q flags. refl) taken in
      let filed = IsKept-IsFiled s (reflag s.page p 0) t classes ring kept heap.filed in
      let self : (head_nfull_pages sc == head_nfull_pages sc) ≡ true = ground arith in
      record {
        lifted = ring;
        on = put_in ring (head_nfull_pages sc) p;
        up = up;
        off = in_and_out ring (head_nfull_pages sc) p;
        listed = rw self (ground arith);
        filed = add_page_to_nfull_list-IsFiled t0 classes ring sc p filed here fresh;
        touched =
            refiled-IsTouched s p (f (s.page p)) t0 nfull_list_flag (add_page_to_nfull_list t0 sc p)
              reset (add_page_to_nfull_list-Refiles t0 sc p);
        settled = cleared-IsSettled (s.page p) sc (heap.clean p fresh);
        class = refl;
        room = (capacity-bounds (s.size_class sc) set).0;
        stays = λ u r' only filed' partly'.
            partly-IsHeap s classes ring p heap u ring up r' only sc here filed'
              (omega (arith, none, set.bound_positive)) partly';
      }

  -- On a heap that satisfies the invariant, cf_malloc in a size-class leaves a heap that satisfies it,
  -- also where no page or no abstract address is left, while the next free page has no block in use,
  -- lies below 2 ^ 32, and does not overlap the list heads.
  pub malloc_in-IsHeap :
      HasSpare s classes → (ring' : ℕ → List ℕ) × IsHeap (malloc_in s sc).0 classes ring'
  unfolding malloc_in malloc_page
  malloc_in-IsHeap spare = elim (Bool-cases (list_empty s.links (head_nfull_pages sc))) [
    | inl e ↦
        let (t, p) = get_free_page s in
        elim (get_free_page-TakesPage s) [
          | inl (e', kept) ↦ (ring, rw (e, e') (IsKept-IsHeap s t classes ring kept heap))
          | inr (e', kept) ↦
              let (none_used, apart, placed) = spare e' in
              let fresh = none_used-IsFresh s classes ring heap p none_used apart in
              rw (e, e', e')
                (malloc_block-IsHeap s classes ring heap sc here p
                  (record (s.page p) { nr_used_page_blocks = 0; sc = sc }) _
                  (fresh-IsOffered t p e kept fresh placed))
        ]
    | inr e ↦
        let p = get_nfull_pages_tail s sc in
        rw e (malloc_block-IsHeap s classes ring heap sc here p (s.page p) s (tail-IsOffered e))
  ]

-- cf_malloc, when its size has a class, is a block of that class.
pub cf_malloc-class :
    (s : Cf) (size sc : ℕ)
    → get_size_class s (gross_size s size) ≡ some sc
    → cf_malloc s size ≡ some (malloc_in s sc)
unfolding cf_malloc
cf_malloc-class s size sc e = rw e refl
