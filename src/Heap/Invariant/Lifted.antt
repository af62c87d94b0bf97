-- ===== src/Heap/Invariant/Lifted.antt =====
-- One page of cf.c taken off its ring, and where it may go.
use compact_fit.Base.{
  ℕ, ◌+◌, ◌%◌, ◌^◌, ◌<◌, ◌≤◌, ◌≡◌, ap, refl, ◌∙◌, arith, sym, Bool, true, false, ◌==◌, List, [],
  ◌∷◌, Bool-cases, inl, inr,
}
use mathlib.Core.Path.{subst}
use compact_fit.ListHead.Ring.{has}
use compact_fit.ListHead.Without.{length, without, length-without, has-without}
use compact_fit.Page.{Page}
use compact_fit.State.{
  Cf, head_full_pages, head_nfull_pages, head_source_pages, head_emptying_pages, list_of_page,
}
use compact_fit.Classes.Filed.{heads, IsFiled, full_is_head, nfull_is_head}
use compact_fit.Classes.Moves.{IsFresh, take_out}
use compact_fit.Heap.Invariant.Settles.{Settles-IsHeap}
use compact_fit.Classes.Touched.{IsTouched}
use compact_fit.Heap.Invariant.Touched.{touched-IsPartlyUsed}
use compact_fit.Heap.Invariant.{IsListed, IsOwned, IsHeap, IsPartlyUsed}

-- The rings with the page at `p` on none, and the others where they were.
pub record IsLifted (s : Cf) (classes : ℕ → Bool) (ring : ℕ → List ℕ) (p : ℕ) (lifted : ℕ → List ℕ)
    : Type 0 where
  pub fresh : IsFresh classes lifted p
  pub same :
      (h x : ℕ)
      → heads classes h ≡ true
      → (list_of_page p == x) ≡ false
      → has x (lifted h) ≡ has x (ring h)
  pub placed : list_of_page p < 2 ^ 32
  pub no_source : (sc : ℕ) → classes sc ≡ true → lifted (head_source_pages sc) ≡ []
  pub no_emptying : (sc : ℕ) → classes sc ≡ true → lifted (head_emptying_pages sc) ≡ []
  pub shorter :
      (sc : ℕ)
      → classes sc ≡ true
      → length (lifted (head_nfull_pages sc)) ≤ length (ring (head_nfull_pages sc))

pub listed-IsOwned :
    (classes : ℕ → Bool) (sc p : ℕ) (q : Page) (rings : ℕ → List ℕ)
    → q.sc ≡ sc
    → classes sc ≡ true
    → IsListed rings sc p
    → IsOwned classes rings q p
listed-IsOwned classes sc p q rings class here listed =
    subst (λ c. (classes c ≡ true) × IsListed rings c p) (sym class) (here, listed)

module _ (s : Cf) (classes : ℕ → Bool) (ring : ℕ → List ℕ) (p : ℕ)
    (heap : IsHeap s classes ring) where
  aligned : (sc : ℕ) → classes sc ≡ true → sc % 128 ≡ heap.filed.offset
  aligned = heap.filed.aligned

  pub fresh-IsLifted :
      IsFresh classes ring p → list_of_page p < 2 ^ 32 → IsLifted s classes ring p ring
  fresh-IsLifted fresh placed = record {
    fresh = fresh;
    same = λ h x here e. refl;
    placed = placed;
    no_source = heap.no_source;
    no_emptying = heap.no_emptying;
    shorter = λ sc here. omega arith;
  }

  module _ (h : ℕ) (there : heads classes h ≡ true) (i : has (list_of_page p) (ring h) ≡ true) where
    not_head : (a : ℕ) → has a (ring h) ≡ false → (list_of_page p == a) ≡ false
    not_head a out = elim (Bool-cases (list_of_page p == a)) [
      | inl e ↦ let same : list_of_page p ≡ a = ground arith in absurd (cc (out, i, same))
      | inr e ↦ e
    ]

    emptied : (h' : ℕ) → ring h' ≡ [] → take_out ring h p h' ≡ []
    emptied h' none = elim (Bool-cases (h == h')) [
      | inl e ↦
          let same : h ≡ h' = ground arith in
          let empty : ring h ≡ [] = ap ring same ∙ none in rw (e, empty) refl
      | inr e ↦ rw e none
    ]

    take_out-IsFresh : IsFresh classes (take_out ring h p) p
    take_out-IsFresh h' here =
        let shelf = heap.filed.shelf in
        let own = shelf.rings h there in
        elim (Bool-cases (h == h')) [
          | inl e ↦
              let same : h ≡ h' = ground arith in
              let self : (list_of_page p == list_of_page p) ≡ true = ground arith in
              let gone : has (list_of_page p) (without (list_of_page p) (ring h)) ≡ false =
                has-without (list_of_page p) (list_of_page p) (ring h) own.distinct
                ∙ rw self refl in
              rw (e, ← same, gone, not_head h own.apart) refl
          | inr e ↦ rw e (shelf.apart h h' (list_of_page p) there here e (ground (arith, i)))
        ]

    pub take_out-IsLifted : IsLifted s classes ring p (take_out ring h p)
    take_out-IsLifted =
        let own = heap.filed.shelf.rings h there in
        let small = heap.placed h (list_of_page p) there i in
        let less = length-without (list_of_page p) (ring h) i in
        record {
          fresh = take_out-IsFresh;
          same = λ h' x here ne. elim (Bool-cases (h == h')) [
            | inl e ↦
                let same : h ≡ h' = ground arith in
                rw (e, ← same) (has-without x (list_of_page p) (ring h) own.distinct ∙ rw ne refl)
            | inr e ↦ rw e refl
          ];
          placed = small.1;
          no_source = λ sc here. emptied (head_source_pages sc) (heap.no_source sc here);
          no_emptying = λ sc here. emptied (head_emptying_pages sc) (heap.no_emptying sc here);
          shorter = λ sc here. elim (Bool-cases (h == head_nfull_pages sc)) [
            | inl e ↦
                let same : h ≡ head_nfull_pages sc = ground arith in
                rw (e, ← same) (omega (arith, less))
            | inr e ↦ rw e (omega arith)
          ];
        }

  -- The page stays where it is among the not-full pages of its class.
  pub stays-IsHeap :
      (t : Cf) (r : Page) (sc : ℕ)
      → classes sc ≡ true
      → has (list_of_page p) (ring (head_nfull_pages sc)) ≡ true
      → IsTouched s p r t
      → IsFiled t.links t.size_class classes ring
      → IsPartlyUsed r sc (s.size_class sc)
      → IsHeap t classes ring
  stays-IsHeap t r sc here i only filed partly' =
      let partly = touched-IsPartlyUsed s p r t only sc (s.size_class sc) partly' in
      let there = nfull_is_head classes sc here in
      let apart = heap.filed.shelf.apart in
      let inside : has (list_of_page p) (head_nfull_pages sc ∷ ring (head_nfull_pages sc)) ≡ true =
        ground (arith, i) in
      Settles-IsHeap s classes ring t ring p heap (record {
        filed = filed;
        globals = only.globals;
        block_size = λ sc here. only.block_size sc;
        bound = λ sc here. only.bound sc;
        others = only.others;
        same = λ h x there ne. refl;
        placed = (heap.placed (head_nfull_pages sc) (list_of_page p) there i).1;
        no_source = heap.no_source;
        no_emptying = heap.no_emptying;
        bounded = heap.bounded;
        full = λ sc' here' i'.
            let ne : (sc + 8 == sc') ≡ false = ground (arith, aligned sc here, aligned sc' here') in
            let out =
              apart (head_nfull_pages sc) (head_full_pages sc') (list_of_page p) there
                (full_is_head classes sc' here') ne inside in
            absurd (ground (arith, out, i'));
        partly = λ sc' here' i'. elim (Bool-cases (sc == sc')) [
          | inl e ↦
              let same : sc ≡ sc' = ground arith in
              subst (λ c. IsPartlyUsed (t.page p) c (s.size_class c)) same partly
          | inr e ↦
              let ne : (sc + 8 == sc' + 8) ≡ false = ground arith in
              let out =
                apart (head_nfull_pages sc) (head_nfull_pages sc') (list_of_page p) there
                  (nfull_is_head classes sc' here') ne inside in
              absurd (ground (arith, out, i'))
        ];
        clean = λ fresh.
            let out = fresh (head_nfull_pages sc) there in absurd (ground (arith, out, inside));
        settled = partly.settled;
        owned = λ some_used. listed-IsOwned classes sc p (t.page p) ring partly.class here (inr i);
      })
