-- ===== src/Page/Words.antt =====
-- One word of the bitmap: a bit set, a bit cleared, a word turned round.
use native.Mathlib.Nat.{mod-eq_of_lt, pow-le-pow_right}
use compact_fit.Base.{
  ℕ, ◌%◌, ◌^◌, ◌<◌, bit_and, bit_or, bit_xor, true, false, ◌≡◌, ◌≢◌, arith, ◌==◌, if◌then◌else◌,
}
use compact_fit.Bits.{
  bit, flip, bit-or, bit-and, bit-xor, bit-pow, bit-ones, bit-zero, bit_below, bit_ext, or-lt,
  xor-lt,
}

abbrev ones : ℕ
ones = 0xffff_ffff

bit-one : (i k : ℕ) → k < 32 → bit (2 ^ (k % 32)) i ≡ (k == i)
bit-one i k h = rw (mod-eq_of_lt h) (bit-pow i k)

pub one-lt : (k : ℕ) → 2 ^ (k % 32) < 2 ^ 32
one-lt k = omega (arith, pow-le-pow_right {n = 2} (omega arith) {i = k % 32} {j = 31} (omega arith))

pub bit-set :
    (x k i : ℕ) → k < 32 → bit (bit_or x (2 ^ (k % 32))) i ≡ (if k == i then true else bit x i)
bit-set x k i h = rw (bit-or i x (2 ^ (k % 32)), bit-one i k h) (ground arith)

pub bit-clear :
    (x k i : ℕ)
    → x < 2 ^ 32
    → k < 32
    → bit (bit_and x (bit_xor (2 ^ (k % 32)) ones)) i ≡ (if k == i then false else bit x i)
bit-clear x k i small h =
    rw (bit-and i x (bit_xor (2 ^ (k % 32)) ones), bit-xor i (2 ^ (k % 32)) ones, bit-one i k h)
      (ground (arith, bit-ones i 32, bit_below i 32 x small))

pub bit-not : (x i : ℕ) → i < 32 → bit (bit_xor x ones) i ≡ flip (bit x i)
bit-not x i h = rw (bit-xor i x ones) (ground (arith, bit-ones i 32))

pub not-lt : (x : ℕ) → x < 2 ^ 32 → bit_xor x ones < 2 ^ 32
not-lt x h = xor-lt 32 x ones h (omega arith)

pub not-ne-zero : (x : ℕ) → x < 2 ^ 32 → x ≢ ones → bit_xor x ones ≢ 0
not-ne-zero x small h e = h (
    bit_ext 32 x ones small (omega arith)
      λ i l. ground (arith, bit-not x i l, bit-ones i 32, bit-zero i))

pub set-ones : (k : ℕ) → k < 32 → bit_or ones (2 ^ (k % 32)) ≡ ones
set-ones k h =
    bit_ext 32 _ ones (or-lt 32 ones (2 ^ (k % 32)) (omega arith) (one-lt k)) (omega arith)
      λ i l. ground (arith, bit-set ones k i h, bit-ones i 32)
