-- ===== src/Heap/Invariant/Settles.antt =====
-- A step of cf.c that touches one page keeps the invariant if it leaves that page and the rings so.
use compact_fit.Base.{
  ℕ, ◌/◌, ◌^◌, ◌<◌, ◌≤◌, ◌≡◌, ap, sym, ◌∙◌, arith, Bool, true, false, ◌==◌, List, [], Bool-cases,
  inl, inr,
}
use mathlib.Core.Path.{subst}
use compact_fit.Page.{Page, pagedatasize}
use compact_fit.ListHead.Ring.{has}
use compact_fit.ListHead.Without.{length}
use compact_fit.State.{
  Cf, Globals, head_full_pages, head_nfull_pages, head_source_pages, head_emptying_pages,
  list_of_page,
}
use compact_fit.Classes.Filed.{heads, IsFiled, full_is_head, nfull_is_head}
use compact_fit.Classes.Moves.{IsFresh}
use compact_fit.Heap.Invariant.{
  IsSettled, IsFullPage, IsPartlyUsed, IsClean, IsConfigured, IsOwned, IsHeap,
}

-- What an operation that touches the page at `p` alone must do to keep the invariant.
pub record Settles (s : Cf) (classes : ℕ → Bool) (ring : ℕ → List ℕ) (t : Cf) (ring' : ℕ → List ℕ)
    (p : ℕ) : Type 0 where
  pub filed : IsFiled t.links t.size_class classes ring'
  pub globals : t.globals ≡ s.globals
  pub block_size :
      (sc : ℕ) → classes sc ≡ true → (t.size_class sc).block_size ≡ (s.size_class sc).block_size
  pub bound :
      (sc : ℕ)
      → classes sc ≡ true
      → (t.size_class sc).partial_compaction_bound ≡ (s.size_class sc).partial_compaction_bound
  pub others : (q : ℕ) → (p == q) ≡ false → t.page q ≡ s.page q
  pub same :
      (h x : ℕ)
      → heads classes h ≡ true
      → (list_of_page p == x) ≡ false
      → has x (ring' h) ≡ has x (ring h)
  pub placed : list_of_page p < 2 ^ 32
  pub no_source : (sc : ℕ) → classes sc ≡ true → ring' (head_source_pages sc) ≡ []
  pub no_emptying : (sc : ℕ) → classes sc ≡ true → ring' (head_emptying_pages sc) ≡ []
  pub bounded :
      (sc : ℕ)
      → classes sc ≡ true
      → length (ring' (head_nfull_pages sc)) ≤ (s.size_class sc).partial_compaction_bound
  pub full :
      (sc : ℕ)
      → classes sc ≡ true
      → has (list_of_page p) (ring' (head_full_pages sc)) ≡ true
      → IsFullPage (t.page p) sc (s.size_class sc)
  pub partly :
      (sc : ℕ)
      → classes sc ≡ true
      → has (list_of_page p) (ring' (head_nfull_pages sc)) ≡ true
      → IsPartlyUsed (t.page p) sc (s.size_class sc)
  pub clean : IsFresh classes ring' p → IsClean (t.page p)
  pub settled : IsSettled (t.page p)
  pub owned : 0 < (t.page p).nr_used_page_blocks → IsOwned classes ring' (t.page p) p

other_place : (p q : ℕ) → (p == q) ≡ false → (list_of_page p == list_of_page q) ≡ false
other_place p q e = ground arith

module _ (s : Cf) (classes : ℕ → Bool) (ring : ℕ → List ℕ) (t : Cf) (ring' : ℕ → List ℕ) (p : ℕ)
    (heap : IsHeap s classes ring) (by : Settles s classes ring t ring' p) where
  IsConfigured-kept : (sc : ℕ) → classes sc ≡ true → IsConfigured (t.size_class sc)
  IsConfigured-kept sc here =
      let set = heap.set sc here in
      let size = by.block_size sc here in
      let bound = by.bound sc here in
      record {
        least = omega (arith, set.least, size);
        most = omega (arith, set.most, size);
        bound_positive = omega (arith, set.bound_positive, bound);
        bound_int = omega (arith, set.bound_int, bound);
      }

  -- Both predicates read the size-class for the block size alone.
  IsFullPage-kept :
      (q : Page) (sc : ℕ)
      → classes sc ≡ true
      → IsFullPage q sc (s.size_class sc)
      → IsFullPage q sc (t.size_class sc)
  IsFullPage-kept q sc here f = record {
    settled = f.settled;
    class = f.class;
    all_used = f.all_used ∙ ap (λ n. pagedatasize / n) (sym (by.block_size sc here));
  }

  IsPartlyUsed-kept :
      (q : Page) (sc : ℕ)
      → classes sc ≡ true
      → IsPartlyUsed q sc (s.size_class sc)
      → IsPartlyUsed q sc (t.size_class sc)
  IsPartlyUsed-kept q sc here f = record {
    settled = f.settled;
    class = f.class;
    some_used = f.some_used;
    some_free =
        subst (λ n. q.nr_used_page_blocks < pagedatasize / n) (sym (by.block_size sc here))
          f.some_free;
  }

  -- Another page is on the rings it was on.
  other-ring :
      (h q : ℕ)
      → heads classes h ≡ true
      → (p == q) ≡ false
      → has (list_of_page q) (ring' h) ≡ has (list_of_page q) (ring h)
  other-ring h q there e = by.same h (list_of_page q) there (other_place p q e)

  IsFullPage-kept_after :
      (sc q : ℕ)
      → classes sc ≡ true
      → has (list_of_page q) (ring' (head_full_pages sc)) ≡ true
      → IsFullPage (t.page q) sc (t.size_class sc)
  IsFullPage-kept_after sc q here i = elim (Bool-cases (p == q)) [
    | inl e ↦
        let same : p ≡ q = ground arith in
        IsFullPage-kept (t.page q) sc here (
          subst (λ r. IsFullPage (t.page r) sc (s.size_class sc)) same
            (by.full sc here (rw same i)))
    | inr e ↦
        subst (λ r. IsFullPage r sc (t.size_class sc)) (sym (by.others q e))
          (IsFullPage-kept (s.page q) sc here (
            heap.full sc q here
              (sym (other-ring (head_full_pages sc) q (full_is_head classes sc here) e) ∙ i)))
  ]

  IsPartlyUsed-kept_after :
      (sc q : ℕ)
      → classes sc ≡ true
      → has (list_of_page q) (ring' (head_nfull_pages sc)) ≡ true
      → IsPartlyUsed (t.page q) sc (t.size_class sc)
  IsPartlyUsed-kept_after sc q here i = elim (Bool-cases (p == q)) [
    | inl e ↦
        let same : p ≡ q = ground arith in
        IsPartlyUsed-kept (t.page q) sc here (
          subst (λ r. IsPartlyUsed (t.page r) sc (s.size_class sc)) same
            (by.partly sc here (rw same i)))
    | inr e ↦
        subst (λ r. IsPartlyUsed r sc (t.size_class sc)) (sym (by.others q e))
          (IsPartlyUsed-kept (s.page q) sc here (
            heap.partly sc q here
              (sym (other-ring (head_nfull_pages sc) q (nfull_is_head classes sc here) e) ∙ i)))
  ]

  IsClean-kept : (q : ℕ) → IsFresh classes ring' q → IsClean (t.page q)
  IsClean-kept q fresh = elim (Bool-cases (p == q)) [
    | inl e ↦
        let same : p ≡ q = ground arith in
        subst (λ r. IsClean (t.page r)) same
          (by.clean (subst (λ r. IsFresh classes ring' r) (sym same) fresh))
    | inr e ↦ subst IsClean (sym (by.others q e)) (
        heap.clean q (λ h there.
          let kept = other-ring h q there e in let out = fresh h there in rw (← kept) out))
  ]

  IsSettled-kept : (q : ℕ) → IsSettled (t.page q)
  IsSettled-kept q = elim (Bool-cases (p == q)) [
    | inl e ↦ let same : p ≡ q = ground arith in subst (λ r. IsSettled (t.page r)) same by.settled
    | inr e ↦ subst IsSettled (sym (by.others q e)) (heap.settled q)
  ]

  IsOwned-other :
      (q : ℕ)
      → (p == q) ≡ false
      → IsOwned classes ring (s.page q) q
      → IsOwned classes ring' (s.page q) q
  IsOwned-other q e (here, listed) =
      let sc = (s.page q).sc in
      let aligned = by.filed.aligned sc here in
      (
        here,
        elim listed [
          | inl i ↦ inl (other-ring (head_full_pages sc) q (full_is_head classes sc here) e ∙ i)
          | inr i ↦ inr (other-ring (head_nfull_pages sc) q (nfull_is_head classes sc here) e ∙ i)
        ],
      )

  IsOwned-kept : (q : ℕ) → 0 < (t.page q).nr_used_page_blocks → IsOwned classes ring' (t.page q) q
  IsOwned-kept q some_used = elim (Bool-cases (p == q)) [
    | inl e ↦
        let same : p ≡ q = ground arith in
        subst (λ r. IsOwned classes ring' (t.page r) r) same (by.owned (rw same some_used))
    | inr e ↦
        let kept = by.others q e in
        subst (λ r. IsOwned classes ring' r q) (sym kept)
          (IsOwned-other q e (
            heap.owned q (omega (arith, some_used, ap (λ (r : Page). r.nr_used_page_blocks) kept))))
  ]

  pub Settles-IsHeap : IsHeap t classes ring'
  Settles-IsHeap = record {
    filed = by.filed;
    direct = ap (λ (g : Globals). g.incremental_memcpy) by.globals ∙ heap.direct;
    rounds = omega (arith, ap (λ (g : Globals). g.memcpy_multiplicator) by.globals, heap.rounds);
    set = IsConfigured-kept;
    placed = λ h x here i. elim (Bool-cases (list_of_page p == x)) [
      | inl e ↦ ground (arith, by.placed)
      | inr e ↦ heap.placed h x here (sym (by.same h x here e) ∙ i)
    ];
    no_source = by.no_source;
    no_emptying = by.no_emptying;
    bounded = λ sc here. omega (arith, by.bounded sc here, by.bound sc here);
    full = IsFullPage-kept_after;
    partly = IsPartlyUsed-kept_after;
    clean = IsClean-kept;
    settled = IsSettled-kept;
    owned = IsOwned-kept;
  }
