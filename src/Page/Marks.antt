-- ===== src/Page/Marks.antt =====
-- The invariant of the bitmap, and what a mark set or cleared does to it.
use compact_fit.Base.{
  ℕ, ◌+◌, ◌%◌, ◌^◌, ◌<◌, bit_xor, true, false, ◌&&◌, ◌≡◌, arith, ◌==◌, if◌then◌else◌,
}
use compact_fit.Bits.{bit, flip, and-lt, or-lt, bit-zero, bit-ones}
use compact_fit.Page.{Bitmap, set_bit, clear_bit, all_ones, u32}
use compact_fit.Page.Words.{bit-set, bit-clear, one-lt, set-ones}

pub record IsBitmap (mem : Bitmap) : Type 0 where
  pub small : (w : ℕ) → mem w < 2 ^ 32
  pub some_used : (i : ℕ) → i < 32 → bit (mem 0) i ≡ flip (mem (i + 2) == 0)
  pub all_used : (i : ℕ) → i < 32 → bit (mem 1) i ≡ (mem (i + 2) == all_ones)

word_index : (i : ℕ) → i < 32 → u32 (i + 2) ≡ i + 2
word_index i h = omega arith

module _ (mem : Bitmap) (i j : ℕ) (hi : i < 32) (hj : j < 32) where
  pub set_bit-block :
      (a b : ℕ)
      → bit (set_bit mem i j (a + 2)) b
        ≡ (if (i == a) && (j == b) then true else bit (mem (a + 2)) b)
  unfolding set_bit
  set_bit-block a b = ground (arith, bit-set (mem (i + 2)) j b hj)

  pub clear_bit-block :
      (a b : ℕ)
      → mem (i + 2) < 2 ^ 32
      → bit (clear_bit mem i j (a + 2)) b
        ≡ (if (i == a) && (j == b) then false else bit (mem (a + 2)) b)
  unfolding clear_bit
  clear_bit-block a b small = ground (arith, bit-clear (mem (i + 2)) j b small hj)

  pub set_bit-IsBitmap : IsBitmap mem → IsBitmap (set_bit mem i j)
  unfolding set_bit
  set_bit-IsBitmap h = record {
    small = λ w. ground (
      arith,
      h.small w,
      h.small 0,
      h.small 1,
      h.small (i + 2),
      one-lt i,
      one-lt j,
      or-lt 32 (mem 0) (2 ^ (i % 32)),
      or-lt 32 (mem 1) (2 ^ (i % 32)),
      or-lt 32 (mem (i + 2)) (2 ^ (j % 32)),
    );
    some_used = λ a l.
        ground (
          arith,
          h.some_used a l,
          bit-set (mem 0) i a hi,
          bit-set (mem (i + 2)) j j hj,
          bit-zero j,
        );
    all_used = λ a l. ground (
      arith,
      h.all_used a l,
      bit-set (mem 1) i a hi,
      bit-set (mem (i + 2)) j j hj,
      set-ones j hj,
    );
  }

  pub clear_bit-IsBitmap : IsBitmap mem → IsBitmap (clear_bit mem i j)
  unfolding clear_bit
  clear_bit-IsBitmap h = record {
    small = λ w. ground (
      arith,
      h.small w,
      h.small 0,
      h.small 1,
      h.small (i + 2),
      and-lt 32 (mem 0) (bit_xor (2 ^ (i % 32)) all_ones),
      and-lt 32 (mem 1) (bit_xor (2 ^ (i % 32)) all_ones),
      and-lt 32 (mem (i + 2)) (bit_xor (2 ^ (j % 32)) all_ones),
    );
    some_used = λ a l. ground (
      arith,
      h.some_used a l,
      bit-clear (mem 0) i a (h.small 0) hi,
      and-lt 0 (mem (i + 2)) (bit_xor (2 ^ (j % 32)) all_ones),
    );
    all_used = λ a l. ground (
      arith,
      h.all_used a l,
      bit-clear (mem 1) i a (h.small 1) hi,
      bit-clear (mem (i + 2)) j j (h.small (i + 2)) hj,
      bit-ones j 32,
    );
  }
