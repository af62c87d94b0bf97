-- ===== src/Heap/Invariant/Fresh.antt =====
-- A page of cf.c with no used block stands on no ring.
use compact_fit.Base.{
  ℕ, ◌+◌, ◌%◌, ◌<◌, ◌≡◌, refl, sym, arith, Bool, true, false, ◌==◌, List, Bool-cases, inl, inr,
}
use compact_fit.ListHead.Ring.{has}
use compact_fit.State.{Cf, list_of_page}
use compact_fit.Classes.Filed.{heads, head_parts, four}
use compact_fit.Classes.Moves.{IsFresh}
use compact_fit.Heap.Invariant.{IsHeap}
use compact_fit.Heap.Invariant.Pages.{capacity-bounds}

module _ (s : Cf) (classes : ℕ → Bool) (ring : ℕ → List ℕ) (heap : IsHeap s classes ring) (p : ℕ)
    (none_used : (s.page p).nr_used_page_blocks ≡ 0) where
  off_ring :
      (sc m : ℕ)
      → classes sc ≡ true
      → m < 32
      → m % 8 ≡ 0
      → has (list_of_page p) (ring (sc + m)) ≡ false
  off_ring sc m here small even = elim (Bool-cases (has (list_of_page p) (ring (sc + m)))) [
    | inr out ↦ out
    | inl i ↦ elim (four m small even) [
      | inl e ↦
          let at : sc + m ≡ sc = omega (arith, e) in
          let full = heap.full sc p here (rw at at i) in
          let bounds = capacity-bounds (s.size_class sc) (heap.set sc here) in
          absurd (omega (arith, full.all_used, none_used, bounds.0))
      | inr (inl e) ↦
          let partly = heap.partly sc p here (rw e at i) in
          absurd (omega (arith, partly.some_used, none_used))
      | inr (inr (inl e)) ↦
          let none = heap.no_source sc here in
          let i' = rw (e, none) at i in absurd (ground (arith, i'))
      | inr (inr (inr e)) ↦
          let none = heap.no_emptying sc here in
          let i' = rw (e, none) at i in absurd (ground (arith, i'))
    ]
  ]

  pub none_used-IsFresh : heads classes (list_of_page p) ≡ false → IsFresh classes ring p
  none_used-IsFresh apart h there =
      let (sc, m, here, small, even, at) = head_parts classes h there in
      let out = rw (sym at) at (off_ring sc m here small even) in
      let ne : (list_of_page p == h) ≡ false = elim (Bool-cases (list_of_page p == h)) [
        | inr e ↦ e
        | inl e ↦ let same : list_of_page p ≡ h = ground arith in absurd (cc (apart, there, same))
      ] in
      rw (ne, out) refl
