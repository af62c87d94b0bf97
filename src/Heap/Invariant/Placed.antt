-- ===== src/Heap/Invariant/Placed.antt =====
-- Where a page of cf.c that was taken off its ring goes: to the free, the full or the not-full pages.
use compact_fit.Base.{
  ℕ, ◌+◌, ◌%◌, ◌≤◌, ◌≡◌, arith, Bool, true, false, ◌==◌, List, ◌∷◌, Bool-cases, inl, inr,
}
use mathlib.Core.Path.{subst}
use compact_fit.ListHead.Ring.{has}
use compact_fit.ListHead.Without.{length}
use compact_fit.Page.{Page}
use compact_fit.State.{Cf, head_full_pages, head_nfull_pages, list_of_page}
use compact_fit.Classes.Filed.{heads, IsFiled, full_is_head, nfull_is_head}
use compact_fit.Classes.Moves.{put_in}
use compact_fit.Heap.Invariant.Settles.{Settles-IsHeap}
use compact_fit.Classes.Touched.{IsTouched}
use compact_fit.Heap.Invariant.Touched.{touched-IsClean, touched-IsFullPage, touched-IsPartlyUsed}
use compact_fit.Heap.Invariant.{IsHeap, IsClean, IsFullPage, IsPartlyUsed}
use compact_fit.Heap.Invariant.Lifted.{IsLifted, listed-IsOwned}

module _ (s : Cf) (classes : ℕ → Bool) (ring : ℕ → List ℕ) (p : ℕ)
    (heap : IsHeap s classes ring) where
  aligned : (sc : ℕ) → classes sc ≡ true → sc % 128 ≡ heap.filed.offset
  aligned = heap.filed.aligned

  module _ (t : Cf) (lifted : ℕ → List ℕ) (up : IsLifted s classes ring p lifted) (r : Page)
      (only : IsTouched s p r t) where
    bounded_lifted :
        (sc : ℕ)
        → classes sc ≡ true
        → length (lifted (head_nfull_pages sc)) ≤ (s.size_class sc).partial_compaction_bound
    bounded_lifted sc here = omega (arith, up.shorter sc here, heap.bounded sc here)

    -- The page goes to the free pages.
    pub lifted-IsHeap :
        IsFiled t.links t.size_class classes lifted → IsClean r → IsHeap t classes lifted
    lifted-IsHeap filed clean = Settles-IsHeap s classes ring t lifted p heap (record {
      filed = filed;
      globals = only.globals;
      block_size = λ sc here. only.block_size sc;
      bound = λ sc here. only.bound sc;
      others = only.others;
      same = up.same;
      placed = up.placed;
      no_source = up.no_source;
      no_emptying = up.no_emptying;
      bounded = bounded_lifted;
      full = λ sc here i.
          let out = up.fresh (head_full_pages sc) (full_is_head classes sc here) in
          absurd (ground (arith, out));
      partly = λ sc here i.
          let out = up.fresh (head_nfull_pages sc) (nfull_is_head classes sc here) in
          absurd (ground (arith, out));
      clean = λ fresh. touched-IsClean s p r t only clean;
      settled = (touched-IsClean s p r t only clean).settled;
      owned = λ some_used.
          let none = (touched-IsClean s p r t only clean).none_used in
          absurd (omega (arith, some_used, none));
    })

    -- Where the page stands after it went in front of the ring at `a`.
    put_in-at :
        (a h : ℕ)
        → heads classes h ≡ true
        → has (list_of_page p) (put_in lifted a p h) ≡ true
        → a ≡ h
    put_in-at a h there i = elim (Bool-cases (a == h)) [
      | inl e ↦ ground arith
      | inr e ↦ let out = up.fresh h there in let i' = rw e at i in absurd (ground (arith, out, i'))
    ]

    in_front : (a : ℕ) → has (list_of_page p) (a ∷ put_in lifted a p a) ≡ false → ⊥
    in_front a out =
        let e : (a == a) ≡ true = ground arith in let out' = rw e at out in ground (arith, out')

    put_in-same :
        (a h x : ℕ)
        → heads classes h ≡ true
        → (list_of_page p == x) ≡ false
        → has x (put_in lifted a p h) ≡ has x (ring h)
    put_in-same a h x there ne = elim (Bool-cases (a == h)) [
      | inl e ↦
          let same : a ≡ h = ground arith in
          let kept = up.same h x there ne in
          let ne' : (x == list_of_page p) ≡ false = ground arith in rw (e, same, ne') kept
      | inr e ↦ rw e (up.same h x there ne)
    ]

    module _ (sc : ℕ) (here : classes sc ≡ true) where
      -- The page goes to the full pages of a class.
      pub full-IsHeap :
          IsFiled t.links t.size_class classes (put_in lifted (head_full_pages sc) p)
          → IsFullPage r sc (s.size_class sc)
          → IsHeap t classes (put_in lifted (head_full_pages sc) p)
      full-IsHeap filed full' =
          let full = touched-IsFullPage s p r t only sc (s.size_class sc) full' in
          Settles-IsHeap s classes ring t (put_in lifted (head_full_pages sc) p) p heap (record {
            filed = filed;
            globals = only.globals;
            block_size = λ sc here. only.block_size sc;
            bound = λ sc here. only.bound sc;
            others = only.others;
            same = put_in-same (head_full_pages sc);
            placed = up.placed;
            no_source = λ sc' there.
                let ne : (sc == sc' + 16) ≡ false =
                  ground (arith, aligned sc here, aligned sc' there) in
                rw ne (up.no_source sc' there);
            no_emptying = λ sc' there.
                let ne : (sc == sc' + 24) ≡ false =
                  ground (arith, aligned sc here, aligned sc' there) in
                rw ne (up.no_emptying sc' there);
            bounded = λ sc' there.
                let ne : (sc == sc' + 8) ≡ false =
                  ground (arith, aligned sc here, aligned sc' there) in
                rw ne (bounded_lifted sc' there);
            full = λ sc' there i.
                let same =
                  put_in-at (head_full_pages sc) (head_full_pages sc')
                    (full_is_head classes sc' there) i in
                subst (λ c. IsFullPage (t.page p) c (s.size_class c)) same full;
            partly = λ sc' there i.
                let same =
                  put_in-at (head_full_pages sc) (head_nfull_pages sc')
                    (nfull_is_head classes sc' there) i in
                absurd (omega (arith, same, aligned sc here, aligned sc' there));
            clean = λ fresh. absurd (
                let out = fresh (head_full_pages sc) (full_is_head classes sc here) in
                in_front (head_full_pages sc) out);
            settled = full.settled;
            owned = λ some_used.
                let self : (head_full_pages sc == head_full_pages sc) ≡ true = ground arith in
                listed-IsOwned classes sc p (t.page p) (put_in lifted (head_full_pages sc) p)
                  full.class here (inl (rw self (ground arith)));
          })

      -- The page goes to the not-full pages of a class that has room for one more.
      pub partly-IsHeap :
          IsFiled t.links t.size_class classes (put_in lifted (head_nfull_pages sc) p)
          → length (lifted (head_nfull_pages sc)) + 1 ≤ (s.size_class sc).partial_compaction_bound
          → IsPartlyUsed r sc (s.size_class sc)
          → IsHeap t classes (put_in lifted (head_nfull_pages sc) p)
      partly-IsHeap filed room partly' =
          let partly = touched-IsPartlyUsed s p r t only sc (s.size_class sc) partly' in
          Settles-IsHeap s classes ring t (put_in lifted (head_nfull_pages sc) p) p heap (record {
            filed = filed;
            globals = only.globals;
            block_size = λ sc here. only.block_size sc;
            bound = λ sc here. only.bound sc;
            others = only.others;
            same = put_in-same (head_nfull_pages sc);
            placed = up.placed;
            no_source = λ sc' there.
                let ne : (sc + 8 == sc' + 16) ≡ false =
                  ground (arith, aligned sc here, aligned sc' there) in
                rw ne (up.no_source sc' there);
            no_emptying = λ sc' there.
                let ne : (sc + 8 == sc' + 24) ≡ false =
                  ground (arith, aligned sc here, aligned sc' there) in
                rw ne (up.no_emptying sc' there);
            bounded = λ sc' there. elim (Bool-cases (sc + 8 == sc' + 8)) [
              | inl e ↦ let same : sc ≡ sc' = ground arith in rw (e, ← same) (omega (arith, room))
              | inr e ↦ rw e (bounded_lifted sc' there)
            ];
            full = λ sc' there i.
                let same =
                  put_in-at (head_nfull_pages sc) (head_full_pages sc')
                    (full_is_head classes sc' there) i in
                absurd (omega (arith, same, aligned sc here, aligned sc' there));
            partly = λ sc' there i.
                let same =
                  put_in-at (head_nfull_pages sc) (head_nfull_pages sc')
                    (nfull_is_head classes sc' there) i in
                let same' : sc ≡ sc' = omega (arith, same) in
                subst (λ c. IsPartlyUsed (t.page p) c (s.size_class c)) same' partly;
            clean = λ fresh. absurd (
                let out = fresh (head_nfull_pages sc) (nfull_is_head classes sc here) in
                in_front (head_nfull_pages sc) out);
            settled = partly.settled;
            owned = λ some_used.
                let self : (head_nfull_pages sc == head_nfull_pages sc) ≡ true = ground arith in
                listed-IsOwned classes sc p (t.page p) (put_in lifted (head_nfull_pages sc) p)
                  partly.class here (inr (rw self (ground arith)));
          })
