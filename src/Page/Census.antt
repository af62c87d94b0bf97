-- ===== src/Page/Census.antt =====
-- The page's count of used blocks against the marks of its bitmap.
use native.Mathlib.Decide.{dec_lt}
use compact_fit.Base.{
  ℕ, zero, suc, ◌+◌, ◌<◌, ◌≤◌, ◌^◌, Bool, true, false, ◌≡◌, refl, arith, ◌==◌, if◌then◌else◌, inl,
  inr, Bool-cases,
}
use mathlib.Core.Path.{subst}
use compact_fit.Page.{Page, get_free_page_block, free_used_page_block, page_clear_used_bit}
use compact_fit.Page.Marks.{IsBitmap}
use compact_fit.Page.Blocks.{used, get_free-lowest, free_used-clears}

-- How many of the first `n` marks are set.
pub count : ℕ → (ℕ → Bool) → ℕ
count zero f = 0
count (suc n) f = count n f + (if f n then 1 else 0)

count_same : (n : ℕ) (f g : ℕ → Bool) → ((k : ℕ) → k < n → f k ≡ g k) → count n f ≡ count n g
unfolding count
count_same zero f g h = refl
count_same (suc n) f g h = ground (arith, h n, count_same n f g (λ k l. h k (omega arith)))

count_flip :
    (n i : ℕ) (f g : ℕ → Bool) (b : Bool)
    → i < n
    → ((k : ℕ) → g k ≡ (if i == k then b else f k))
    → count n g + (if f i then 1 else 0) ≡ count n f + (if b then 1 else 0)
unfolding count
count_flip zero i f g b l h = absurd (omega arith)
count_flip (suc n) i f g b l h = elim (Bool-cases (i == n)) [
  | inl e ↦ ground (arith, h n, count_same n f g (λ k l. ground (arith, h k)))
  | inr e ↦ ground (arith, h n, count_flip n i f g b)
]

count_full : (n m : ℕ) (f : ℕ → Bool) → m ≤ n → ((k : ℕ) → k < m → f k ≡ true) → m ≤ count n f
unfolding count
count_full zero m f l h = omega arith
count_full (suc n) m f l h = elim (dec_lt n m) [
  | yes top ↦ ground (arith, h n, count_full n n f (omega arith) (λ k l. h k (omega arith)))
  | no low ↦ ground (arith, count_full n m f (omega arith) h)
]

pub some_free : (n : ℕ) (f : ℕ → Bool) → count n f < n → (k : ℕ) × (k < n) × (f k ≡ false)
unfolding count
some_free zero f l = absurd (omega arith)
some_free (suc n) f l = elim (Bool-cases (f n)) [
  | inl e ↦ let (k, m, h) = some_free n f (ground arith) in (k, omega arith, h)
  | inr e ↦ (n, omega arith, e)
]

pub some_taken : (n : ℕ) (f : ℕ → Bool) → 0 < count n f → (k : ℕ) × (k < n) × (f k ≡ true)
unfolding count
some_taken zero f l = absurd (omega arith)
some_taken (suc n) f l = elim (Bool-cases (f n)) [
  | inl e ↦ (n, omega arith, e)
  | inr e ↦ let (k, m, h) = some_taken n f (ground arith) in (k, omega arith, h)
]

pub count_positive : (n k : ℕ) (f : ℕ → Bool) → k < n → f k ≡ true → 0 < count n f
unfolding count
count_positive zero k f l h = absurd (omega arith)
count_positive (suc n) k f l h = elim (Bool-cases (k == n)) [
  | inl e ↦
      let same : k ≡ n = ground arith in
      let at : f n ≡ true = subst (λ j. f j ≡ true) same h in rw at (omega arith)
  | inr e ↦ let rest = count_positive n k f (ground (arith, l, e)) h in omega (arith, rest)
]

-- `pending` marks are still set of blocks that have been counted out.
pub record Counted (pending : ℕ) (p : Page) : Type 0 where
  pub bitmap : IsBitmap p.used_page_block_bitmap
  pub census : count 1024 (used p) ≡ p.nr_used_page_blocks + pending

module _ (p : Page) (ok : Counted 0 p) where
  -- A page that holds at most 1024 blocks, with fewer in use than it can hold, yields a free block
  -- inside the page and marks it, and the count goes on agreeing with the marks as it did before.
  pub get_free-inside :
      (capacity : ℕ)
      → p.nr_used_page_blocks < capacity
      → capacity ≤ 1024
      → let (q, index) = get_free_page_block p in
        (index < capacity) × (used p index ≡ false) × (used q index ≡ true) × Counted 0 q
  get_free-inside capacity room most =
      let (k, small, free) = some_free 1024 (used p) (omega (arith, ok.census)) in
      let (here, below, marks, n, bitmap) = get_free-lowest p ok.bitmap k small free in
      let index = (get_free_page_block p).1 in
      let inside : index < capacity = elim (dec_lt index capacity) [
        | yes h ↦ h
        | no h ↦ absurd (
            omega (
              arith,
              ok.census,
              count_full 1024 capacity (used p) most (λ j l. below j (omega arith)),
            ))
      ] in
      (
        inside,
        here,
        ground (arith, marks index),
        record {
          bitmap = bitmap;
          census = ground (
            arith,
            ok.census,
            n,
            here,
            count_flip 1024 index (used p) (used (get_free_page_block p).0) true (omega arith)
                marks,
          );
        },
      )

module _ (p : Page) (pending : ℕ) (ok : Counted pending p) where
  -- Freeing a block in use, at an index below 1024, keeps a positive count below 2 ^ 32 in step with
  -- the marks, up to the blocks that are counted out already.
  pub free_used-Counted :
      (index : ℕ)
      → index < 1024
      → used p index ≡ true
      → 0 < p.nr_used_page_blocks
      → p.nr_used_page_blocks < 2 ^ 32
      → Counted pending (free_used_page_block p index)
  free_used-Counted index small taken pos fits =
      let (marks, n, bitmap) = free_used-clears p ok.bitmap index small pos fits in
      record {
        bitmap = bitmap;
        census = ground (
          arith,
          ok.census,
          count_flip 1024 index (used p) (used (free_used_page_block p index)) false small marks,
        );
      }

-- On a page with a well-formed bitmap, a free block among its 1024 and a count below 2 ^ 32 - 1,
-- giving back the block just handed out restores every mark and the count.
pub free_used-get_free :
    (p : Page)
    → IsBitmap p.used_page_block_bitmap
    → (k : ℕ) → k < 1024
    → used p k ≡ false
    → p.nr_used_page_blocks + 1 < 2 ^ 32
    → let (q, index) = get_free_page_block p in
      let r = free_used_page_block q index in
      ((j : ℕ) → used r j ≡ used p j) × (r.nr_used_page_blocks ≡ p.nr_used_page_blocks)
free_used-get_free p ok k small free fits =
    let (here, below, marks, n, bitmap) = get_free-lowest p ok k small free in
    let (q, index) = get_free_page_block p in
    let low : index < 1024 = elim (dec_lt k index) [
      | yes h ↦ cc (below k h, free)
      | no h ↦ omega arith
    ] in
    let (marks', n', _) =
      free_used-clears q bitmap index low (omega (arith, n)) (omega (arith, n)) in
    (λ j. ground (arith, marks j, marks' j, here), omega (arith, n, n'))

pub free_used-rest :
    (p : Page) (index : ℕ)
    → let q = free_used_page_block p index in (q.sc ≡ p.sc) × (q.sourceentries ≡ p.sourceentries)
unfolding free_used_page_block page_clear_used_bit
free_used-rest p index = (refl, refl)

pub get_free-rest :
    (p : Page)
    → let q = (get_free_page_block p).0 in (q.sc ≡ p.sc) × (q.sourceentries ≡ p.sourceentries)
unfolding get_free_page_block
get_free-rest p = (refl, refl)
