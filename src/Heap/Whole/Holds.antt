-- ===== src/Heap/Whole/Holds.antt =====
-- After cf_free of cf.c the addresses of the other blocks are held, of the same words.
use compact_fit.Base.{
  ℕ, ◌+◌, ◌-◌, ◌*◌, ◌<◌, ◌≡◌, ◌≢◌, ◌⊎◌, inl, inr, sym, ap, ◌∙◌, arith, Bool, true, false, ◌==◌,
  List, Bool-cases,
}
use mathlib.Core.Path.{subst}
use compact_fit.Page.{Page}
use compact_fit.Page.Blocks.{used}
use compact_fit.State.{Cf}
use compact_fit.State.Kept.{IsKept}
use compact_fit.Pool.Tiers.{Tiers}
use compact_fit.AbstractAddress.Pool.Pushes.{IsReturned}
use compact_fit.Heap.{block_at, aa_field}
use compact_fit.Heap.Invariant.{IsHeap}
use compact_fit.Heap.Whole.{IsWhole, IsLive, size_of, cell}
use compact_fit.Heap.Whole.Moves.{IsVacated}
use compact_fit.Heap.Whole.Origins.{IsHeld, held}
use compact_fit.Heap.Whole.Survives.{IsFrom, whereabouts}
use compact_fit.Heap.Whole.Frees.{IsSameBlock, size_after, cell_word, block_word}

module _ (s : Cf) (classes : ℕ → Bool) (ring : ℕ → List ℕ) (pages l k : Tiers)
    (whole : IsWhole s classes ring pages l k) (p i : ℕ)
    (target : IsHeld s classes ring pages l k whole p i) (t : Cf) (v : IsVacated s pages p i t)
    (ring' : ℕ → List ℕ) (heap' : IsHeap t classes ring') (u : Cf)
    (r : IsReturned t l k target.block.id u) (kept : IsKept t t.page u) where
  abbrev From : ℕ → ℕ → ℕ → ℕ → Type 0
  From = IsFrom s classes ring pages l k whole p i target t v ring' heap'

  -- A block's address leads to the same words wherever the block is.
  block_kept :
      (b : ℕ) (live : IsLive s b) (q' j' : ℕ)
      → From q' j' live.page live.index
      → IsSameBlock s b live u
  block_kept b live q' j' from =
      let id = from.was.block.id in
      let b_is : cell s.globals id ≡ b = sym from.was.block.names ∙ live.names in
      let size = size_of t q' in
      let same : size_of u q' ≡ size =
        size_after s classes ring pages l k whole p i target t v ring' heap' u r kept q' in
      let last : aa_field q' j' size ≡ block_at q' j' size + (size - 4) =
        let split : (j' + 1) * size ≡ j' * size + size = omega arith in
        omega (arith, split, from.same_size, from.was.least) in
      let word = λ (n : ℕ) (less : n < size_of s live.page).
        block_word s classes ring pages l k whole p i target t v ring' heap' u r kept q' j'
          live.page live.index from n less in
      let leads : u.mem b ≡ block_at q' j' size =
        ap u.mem (sym b_is)
        ∙ cell_word s classes ring pages l k whole p i target t v ring' heap' u r kept id
            from.was.block.numbered from.other
        ∙ from.points in
      let was_at : s.mem b ≡ block_at live.page live.index (size_of s live.page) =
        ap s.mem (sym b_is) ∙ from.was.block.points in
      record {
        after = record {
          page = q';
          index = j';
          inside = from.small;
          taken = subst (λ (f : ℕ → Page). used (f q') j' ≡ true) (sym kept.same_pages) from.taken;
          names =
              ap (λ n. u.mem (aa_field q' j' n)) same
              ∙ ap u.mem last
              ∙ word (size - 4) (omega (arith, from.same_size, from.was.least))
              ∙ ap t.mem (sym last)
              ∙ from.names
              ∙ b_is;
        };
        same_size = same ∙ from.same_size;
        words = λ n less.
            ap (λ x. u.mem (x + 4 * n)) leads
            ∙ word (4 * n) (omega (arith, less, from.was.words))
            ∙ from.words n less
            ∙ ap (λ x. s.mem (x + 4 * n)) (sym was_at);
      }

  -- A block with another address is another block.
  other_block :
      (b : ℕ) (live : IsLive s b)
      → b ≢ cell s.globals target.block.id
      → ((live.page == p) ≡ false) ⊎ ((i == live.index) ≡ false)
  other_block b live other = elim (Bool-cases (live.page == p)) [
    | inr e ↦ inl e
    | inl e ↦ elim (Bool-cases (i == live.index)) [
      | inr e' ↦ inr e'
      | inl e' ↦
          let same_page : p ≡ live.page = ground arith in
          let same_index : i ≡ live.index = ground arith in
          let named = λ (x : ℕ × ℕ).
            s.mem (aa_field x.0 x.1 (size_of s x.0)) ≡ cell s.globals target.block.id in
          let names = subst named (λ n. (same_page n, same_index n)) target.block.names in
          absurd (other (sym live.names ∙ names))
    ]
  ]

  -- Another address leads to the same words.
  pub still_held :
      (b : ℕ) (live : IsLive s b) → b ≢ cell s.globals target.block.id → IsSameBlock s b live u
  still_held b live other =
      let h = held s classes ring pages l k whole live.page live.index live.inside live.taken in
      let (q', j', from) =
        whereabouts s classes ring pages l k whole p i target t v ring' heap' live.page live.index h
          (other_block b live other) in
      block_kept b live q' j' from
