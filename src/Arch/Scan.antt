-- ===== src/Arch/Scan.antt =====
-- `ffs` finds the lowest set bit, and `fls` the highest.
use native.Mathlib.Decide.{dec_lt}
use native.Mathlib.Nat.{two-pow-succ}
use compact_fit.Base.{
  ℕ, zero, suc, ◌+◌, ◌-◌, ◌*◌, ◌/◌, ◌%◌, ◌^◌, ◌<◌, bit_and, ◌≡◌, ◌≢◌, refl, ap, true, false, arith,
  ◌==◌, ◌⊎◌, inl, inr,
}
use compact_fit.Bits.{bit, and-mask, bit_scaled, bit_scaled_low, bit_below}
use compact_fit.Arch.{asr, narrow, ffs}

pow-add : (a b : ℕ) → 2 ^ (a + b) ≡ 2 ^ a * 2 ^ b
pow-add a zero = let e : a + 0 ≡ a = omega arith in rw e (omega arith)
pow-add a (suc b) =
    let e : a + suc b ≡ suc (a + b) = omega arith in
    rw e
      (omega (arith, two-pow-succ (a + b), pow-add a b, ap (λ (t : ℕ). 2 ^ a * t) (two-pow-succ b)))

shift_whole : (w y r k : ℕ) → w ≡ y * 2 ^ r → y ≡ y / 2 ^ k * 2 ^ k → w ≡ y / 2 ^ k * 2 ^ (r + k)
shift_whole w y r k h e = rw (pow-add r k) (omega (arith, h, ap (λ (t : ℕ). t * 2 ^ r) e))

-- What is left of the word is `y`, of which `x` shows the low bits, at least one of them set.
record Window (m word : ℕ) (s : ℕ × ℕ) : Type 0 where
  y : ℕ
  shown : s.0 % m ≡ y % m
  live : s.0 % m ≢ 0
  small : s.0 < 2 ^ 32
  whole : word ≡ y * 2 ^ s.1

-- The arithmetic of one halving, which holds at each of the five widths.
abbrev Halves : (m big k : ℕ) → Type 0
Halves m big k =
    (x y : ℕ)
    → x < 2 ^ 32
    → x % big ≢ 0
    → x % big ≡ y % big
    → ((x % m ≡ 0)
        × (asr x k % m ≡ y / m % m)
        × (asr x k % m ≢ 0)
        × (asr x k < 2 ^ 32)
        × (y ≡ y / m * m))
      ⊎ ((x % m ≢ 0) × (x % m ≡ y % m))

narrow-Window :
    (k big w : ℕ) (s : ℕ × ℕ)
    → Halves (2 ^ k) big k
    → Window big w s
    → Window (2 ^ k) w (narrow (2 ^ k - 1) k s)
narrow-Window k big w (x, r) halves win = elim (halves x win.y win.small win.live win.shown) [
  | inl (z, shown, live, small, cut) ↦
      let e : bit_and x (2 ^ k - 1) ≡ 0 = ground (arith, and-mask k x) in
      rw e (record {
        y = win.y / 2 ^ k;
        shown = shown;
        live = live;
        small = small;
        whole = shift_whole w win.y r k win.whole cut;
      })
  | inr (nz, shown) ↦
      let e : (bit_and x (2 ^ k - 1) == 0) ≡ false = ground (arith, and-mask k x) in
      rw e (record { y = win.y; shown = shown; live = nz; small = win.small; whole = win.whole })
]

ffs-Window : (x : ℕ) → x < 2 ^ 32 → x ≢ 0 → (s : ℕ × ℕ) × (ffs x ≡ s.1) × Window 2 x s
unfolding ffs
ffs-Window x small nz = (
  _,
  (let e : (x == 0) ≡ false = ground arith in rw e refl),
  narrow-Window 1 4 x _ (λ x y a b c. ground arith)
      (narrow-Window 2 16 x _ (λ x y a b c. ground arith)
        (narrow-Window 4 256 x _ (λ x y a b c. ground arith)
          (narrow-Window 8 65536 x _ (λ x y a b c. ground arith)
            (narrow-Window 16 (2 ^ 32) x (x, 0) (λ x y a b c. ground arith)
              (record {
                y = x;
                shown = refl;
                live = omega arith;
                small = small;
                whole = omega arith;
              }))))),
)

-- On a 32-bit word with a set bit, `_ffs` returns the index of the lowest one.
pub ffs-least :
    (x : ℕ) → x < 2 ^ 32 → x ≢ 0 → (bit x (ffs x) ≡ true) × ((j : ℕ) → j < ffs x → bit x j ≡ false)
ffs-least x small nz =
    let (s, e, win) = ffs-Window x small nz in
    let odd : win.y % 2 ≡ 1 = omega (arith, win.shown, win.live) in
    rw (e, win.whole) (bit_scaled s.1 win.y odd, bit_scaled_low s.1 win.y)

pub ffs-lt : (x : ℕ) → x < 2 ^ 32 → x ≢ 0 → ffs x < 32
ffs-lt x small nz = elim (dec_lt (ffs x) 32) [
  | yes h ↦ h
  | no h ↦ cc ((ffs-least x small nz).0, bit_below (ffs x) 32 x small (omega arith))
]
