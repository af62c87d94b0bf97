-- ===== src/Page/Blocks.antt =====
-- Page-blocks are handed out at the lowest free index, and found again at the lowest used one.
use native.Mathlib.Decide.{dec_lt}
use compact_fit.Base.{
  ℕ, ◌+◌, ◌*◌, ◌/◌, ◌%◌, ◌^◌, ◌<◌, bit_xor, Bool, true, false, ◌≡◌, refl, ap, ◌∙◌, ◌≢◌, arith, ◌==◌,
  if◌then◌else◌,
}
use mathlib.Core.Path.{subst}
use compact_fit.Bits.{bit, bit-ones, bit-zero}
use compact_fit.Arch.{ffs}
use compact_fit.Arch.Scan.{ffs-least, ffs-lt}
use compact_fit.Page.{
  Page, set_bit, clear_bit, all_ones, u32, get_free_page_block, find_used_page_block,
  free_used_page_block, page_clear_used_bit,
}
use compact_fit.Page.Words.{bit-not, not-lt, not-ne-zero}
use compact_fit.Page.Marks.{
  IsBitmap, set_bit-block, set_bit-IsBitmap, clear_bit-block, clear_bit-IsBitmap,
}

-- Whether page-block `k` is in use.
abbrev pub used : Page → ℕ → Bool
used p k = bit (p.used_page_block_bitmap (k / 32 + 2)) (k % 32)

-- The lowest zero of a word, as `_ffs` of its complement finds it.
record Zero (x j : ℕ) : Type 0 where
  inside : j < 32
  clear : bit x j ≡ false
  below : (b : ℕ) → b < j → bit x b ≡ true

lowest-Zero : (x : ℕ) → x < 2 ^ 32 → x ≢ all_ones → Zero x (ffs (bit_xor x all_ones))
lowest-Zero x small ne =
    let lt = ffs-lt (bit_xor x all_ones) (not-lt x small) (not-ne-zero x small ne) in
    let (hit, low) = ffs-least (bit_xor x all_ones) (not-lt x small) (not-ne-zero x small ne) in
    record {
      inside = lt;
      clear = ground (arith, bit-not x (ffs (bit_xor x all_ones)) lt);
      below = λ b l. ground (arith, bit-not x b (omega arith), low b l);
    }

record One (x j : ℕ) : Type 0 where
  inside : j < 32
  set : bit x j ≡ true
  below : (b : ℕ) → b < j → bit x b ≡ false

lowest-One : (x : ℕ) → x < 2 ^ 32 → x ≢ 0 → One x (ffs x)
lowest-One x small ne =
    let (hit, low) = ffs-least x small ne in
    record { inside = ffs-lt x small ne; set = hit; below = low }

module _ (p : Page) (ok : IsBitmap p.used_page_block_bitmap) where
  word_not_full : (k : ℕ) → k < 1024 → used p k ≡ false → p.used_page_block_bitmap 1 ≢ all_ones
  word_not_full k small free e =
      ground (arith, ok.all_used (k / 32) (omega arith), bit-ones (k / 32) 32, bit-ones (k % 32) 32)

  word_not_empty : (k : ℕ) → k < 1024 → used p k ≡ true → p.used_page_block_bitmap 0 ≢ 0
  word_not_empty k small taken e =
      ground (arith, ok.some_used (k / 32) (omega arith), bit-zero (k / 32), bit-zero (k % 32))

  module _ (i j : ℕ) (hi : i < 32) (hj : j < 32) where
    used_at : (b : Bool) → bit (p.used_page_block_bitmap (i + 2)) j ≡ b → used p (i * 32 + j) ≡ b
    used_at b h =
        let q : (i * 32 + j) / 32 ≡ i = omega arith in
        let r : (i * 32 + j) % 32 ≡ j = omega arith in rw (q, r) h

    used_below :
        (b : Bool)
        → ((a c : ℕ) → a < i → c < 32 → bit (p.used_page_block_bitmap (a + 2)) c ≡ b)
        → ((c : ℕ) → c < j → bit (p.used_page_block_bitmap (i + 2)) c ≡ b)
        → (k : ℕ) → k < i * 32 + j
        → used p k ≡ b
    used_below b before here k l = elim (dec_lt (k / 32) i) [
      | yes h ↦ before (k / 32) (k % 32) h (omega arith)
      | no h ↦ let e : i ≡ k / 32 = omega arith in rw e at (here (k % 32) (omega arith))
    ]

    used_set :
        (k : ℕ)
        → used (record p { used_page_block_bitmap = set_bit p.used_page_block_bitmap i j }) k
          ≡ (if i * 32 + j == k then true else used p k)
    used_set k = ground (arith, set_bit-block p.used_page_block_bitmap i j hi hj (k / 32) (k % 32))

    used_clear :
        (k : ℕ)
        → used (record p { used_page_block_bitmap = clear_bit p.used_page_block_bitmap i j }) k
          ≡ (if i * 32 + j == k then false else used p k)
    used_clear k = ground (
      arith,
      clear_bit-block p.used_page_block_bitmap i j hi hj (k / 32) (k % 32) (ok.small (i + 2)),
    )

  -- While one of the 1024 page-blocks of a well-formed bitmap is free, `get_free_page_block` returns the
  -- lowest free index, marks exactly that one, counts it, and keeps the bitmap well formed.
  pub get_free-lowest :
      (k : ℕ)
      → k < 1024
      → used p k ≡ false
      → let (q, index) = get_free_page_block p in
        (used p index ≡ false)
        × ((j : ℕ) → j < index → used p j ≡ true)
        × ((j : ℕ) → used q j ≡ (if index == j then true else used p j))
        × (q.nr_used_page_blocks ≡ u32 (p.nr_used_page_blocks + 1))
        × IsBitmap q.used_page_block_bitmap
  unfolding get_free_page_block
  get_free-lowest k small free =
      let i = ffs (bit_xor (p.used_page_block_bitmap 1) all_ones) in
      let x = p.used_page_block_bitmap (u32 (i + 2)) in
      let j = ffs (bit_xor x all_ones) in
      let z = lowest-Zero _ (ok.small 1) (word_not_full k small free) in
      let e : u32 (i + 2) ≡ i + 2 = omega (arith, z.inside) in
      let full = ok.all_used i z.inside in
      let z' = lowest-Zero x (ok.small _) (ground (arith, z.clear)) in
      let at : u32 (i * 32 + j) ≡ i * 32 + j = omega (arith, z.inside, z'.inside) in
      let here : bit (p.used_page_block_bitmap (i + 2)) j ≡ false =
        subst (λ w. bit (p.used_page_block_bitmap w) j ≡ false) e z'.clear in
      rw at (
        used_at i j z.inside z'.inside false here,
        used_below i j z.inside z'.inside true
            (λ a c l m.
              ground (arith, ok.all_used a (omega (arith, z.inside)), z.below a l, bit-ones c 32))
            (subst (λ w. (b : ℕ) → b < j → bit (p.used_page_block_bitmap w) b ≡ true) e z'.below),
        used_set i j z.inside z'.inside,
        refl,
        set_bit-IsBitmap _ i j z.inside z'.inside ok,
      )

  -- While one of the 1024 page-blocks of a well-formed bitmap is in use, `find_used_page_block`
  -- returns the lowest index in use.
  pub find_used-lowest :
      (k : ℕ)
      → k < 1024
      → used p k ≡ true
      → let index = find_used_page_block p in
        (index < 1024) × (used p index ≡ true) × ((j : ℕ) → j < index → used p j ≡ false)
  unfolding find_used_page_block
  find_used-lowest k small taken =
      let i = ffs (p.used_page_block_bitmap 0) in
      let x = p.used_page_block_bitmap (u32 (i + 2)) in
      let j = ffs x in
      let z = lowest-One _ (ok.small 0) (word_not_empty k small taken) in
      let e : u32 (i + 2) ≡ i + 2 = omega (arith, z.inside) in
      let some = ok.some_used i z.inside in
      let z' = lowest-One x (ok.small _) (ground (arith, z.set)) in
      let at : u32 (i * 32 + j) ≡ i * 32 + j = omega (arith, z.inside, z'.inside) in
      let here : bit (p.used_page_block_bitmap (i + 2)) j ≡ true =
        subst (λ w. bit (p.used_page_block_bitmap w) j ≡ true) e z'.set in
      rw at (
        omega (arith, z.inside, z'.inside),
        used_at i j z.inside z'.inside true here,
        used_below i j z.inside z'.inside false
            (λ a c l m.
              ground (arith, ok.some_used a (omega (arith, z.inside)), z.below a l, bit-zero c))
            (subst (λ w. (b : ℕ) → b < j → bit (p.used_page_block_bitmap w) b ≡ false) e z'.below),
      )

  -- At an index below 1024, on a page with a positive count below 2 ^ 32 and a well-formed bitmap,
  -- `free_used_page_block` takes the mark off the block at the index and off no other, counts it out,
  -- and keeps the bitmap well formed.
  pub free_used-clears :
      (index : ℕ)
      → index < 1024
      → 0 < p.nr_used_page_blocks
      → p.nr_used_page_blocks < 2 ^ 32
      → let q = free_used_page_block p index in
        ((j : ℕ) → used q j ≡ (if index == j then false else used p j))
        × (q.nr_used_page_blocks + 1 ≡ p.nr_used_page_blocks)
        × IsBitmap q.used_page_block_bitmap
  unfolding free_used_page_block page_clear_used_bit
  free_used-clears index small some_used fits =
      let e : index / 32 * 32 + index % 32 ≡ index = omega arith in
      let hi : index / 32 < 32 = omega arith in
      let hj : index % 32 < 32 = omega arith in
      (
        λ j.
            used_clear (index / 32) (index % 32) hi hj j
            ∙ ap (λ (t : ℕ). if t == j then false else used p j) e,
        omega arith,
        clear_bit-IsBitmap _ (index / 32) (index % 32) hi hj ok,
      )
