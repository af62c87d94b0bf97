-- ===== src/Heap/Whole/Origins.antt =====
-- Where each used block of cf.c was before a free: at its place, or where it was moved from; its
-- words and its abstract address are the same.
use compact_fit.Base.{
  ℕ, ◌+◌, ◌*◌, ◌%◌, ◌^◌, ◌<◌, ◌≤◌, ◌≡◌, ◌⊎◌, inl, inr, refl, sym, ap, ◌∙◌, arith, Bool, true, false,
  ◌==◌, leb, List, Bool-cases,
}
use native.Mathlib.Nat.{mul-le-mul_right}
use compact_fit.Page.{pagedatasize}
use compact_fit.Page.Blocks.{used}
use compact_fit.State.{Cf}
use compact_fit.Pool.Tiers.{Tiers}
use compact_fit.Heap.{block_at}
use compact_fit.Heap.Compaction.Move.{Outside}
use compact_fit.Heap.Whole.{IsWhole, IsBlock, size_of, cell}
use compact_fit.Heap.Whole.Frames.{block_in_page}
use compact_fit.Heap.Whole.Vacates.{block_class}

-- Blocks of one size at different indices do not overlap.
indices_apart :
    (i j size : ℕ) → (i == j) ≡ false → (i * size + size ≤ j * size) ⊎ (j * size + size ≤ i * size)
indices_apart i j size ne =
    let split : (i + 1) * size ≡ i * size + size = omega arith in
    let split' : (j + 1) * size ≡ j * size + size = omega arith in
    elim (Bool-cases (leb i j)) [
      | inl e ↦
          let h : (i + 1) * size ≤ j * size = mul-le-mul_right size (ground (arith, e, ne)) in
          inl (omega (arith, h, split))
      | inr e ↦
          let h : (j + 1) * size ≤ i * size = mul-le-mul_right size (ground (arith, e)) in
          inr (omega (arith, h, split'))
    ]

-- A word of one block is not in another.
pub far_word :
    (p i size q j size' n : ℕ)
    → p % 2 ^ 14 ≡ 0
    → q % 2 ^ 14 ≡ 0
    → i * size + size ≤ pagedatasize
    → j * size' + size' ≤ pagedatasize
    → n < size'
    → ((q == p) ≡ true → size' ≡ size)
    → (q == p) ≡ false ⊎ ((i == j) ≡ false)
    → Outside (block_at q j size' + n) (block_at p i size) size
far_word p i size q j size' n a a' fits fits' less same other = elim (Bool-cases (q == p)) [
  | inl e ↦
      let at : q ≡ p = ground arith in
      let sizes = same e in
      let ne : (i == j) ≡ false = elim other [
        | inl h ↦ absurd (ground (arith, e, h))
        | inr h ↦ h
      ] in
      elim (indices_apart i j size ne) [
        | inl below ↦ inr (rw (at, sizes) (omega (arith, below)))
        | inr above ↦ inl (rw (at, sizes) (omega (arith, above, less, sizes)))
      ]
  | inr e ↦ elim (Bool-cases (leb q p)) [
    | inl below ↦ inl (ground (arith, e, below, a, a', fits', less))
    | inr above ↦ inr (ground (arith, e, above, a, a', fits))
  ]
]

module _ (s : Cf) (classes : ℕ → Bool) (ring : ℕ → List ℕ) (pages l k : Tiers)
    (whole : IsWhole s classes ring pages l k) where
  -- A used block, its size and its page.
  pub record IsHeld (q j : ℕ) : Type 0 where
    pub small : j < 1024
    pub taken : used (s.page q) j ≡ true
    pub block : IsBlock s l q j
    pub least : 16 ≤ size_of s q
    pub words : size_of s q % 4 ≡ 0
    pub fits : j * size_of s q + size_of s q ≤ pagedatasize

  pub held : (q j : ℕ) → j < 1024 → used (s.page q) j ≡ true → IsHeld q j
  held q j small taken =
      let b = whole.blocks q j small taken in
      let here = block_class s classes ring pages l k whole q j small taken in
      let set = whole.heap.set (s.page q).sc here in
      record {
        small = small;
        taken = taken;
        block = b;
        least = set.least;
        words = whole.words (s.page q).sc here;
        fits =
            (block_in_page q j (size_of s q) 0 b.at.aligned (omega (arith, set.least)) b.room
              (omega (arith, set.least))).1;
      }

  -- Two used blocks with one abstract address are one block.
  pub one_block :
      (q j p i : ℕ) (h : IsHeld q j) (h' : IsHeld p i)
      → h.block.id ≡ h'.block.id
      → (q ≡ p) × (j ≡ i)
  one_block q j p i h h' same =
      let size = size_of s q in
      let blocks : block_at q j size ≡ block_at p i (size_of s p) =
        sym h.block.points ∙ ap (λ n. s.mem (cell s.globals n)) same ∙ h'.block.points in
      let a = h.block.at.aligned in
      let a' = h'.block.at.aligned in
      let pages_same : q ≡ p = omega (arith, blocks, a, a', h.fits, h'.fits, h.least, h'.least) in
      let sizes : size_of s q ≡ size_of s p = ap (size_of s) pages_same in
      let offsets : j * size ≡ i * size =
        let e : block_at q j size ≡ block_at q i size = blocks ∙ rw (sizes, pages_same) refl in
        omega (arith, e) in
      (
        pages_same,
        elim (Bool-cases (j == i)) [
          | inl e ↦ ground arith
          | inr e ↦ elim (indices_apart j i size e) [
            | inl below ↦ absurd (omega (arith, below, offsets, h.least))
            | inr above ↦ absurd (omega (arith, above, offsets, h.least))
          ]
        ],
      )
