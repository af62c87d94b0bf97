-- ===== src/Bits.antt =====
-- The bits of a machine word, and the bit operations of C read bit by bit.
mod Step
use Step.{bit_or_step, bit_and_step, bit_xor_step}
use Prim.Native.Nat.{bit_and-bitwise, bit_or-bitwise}
use native.Mathlib.Nat.{
  two-pow-succ, one-le-pow, mod-eq_of_lt, div-div-eq-div-mul, mul-add-mod_self_right, div-add-mod',
}
use compact_fit.Base.{
  ℕ, zero, suc, ◌+◌, ◌-◌, ◌*◌, ◌/◌, ◌%◌, ◌^◌, ◌≤◌, ◌<◌, min, max, bit_and, bit_or, bit_xor, ◌≡◌,
  refl, ◌≢◌, Bool, true, false, not, ◌&&◌, ◌||◌, arith, ◌==◌, ltb, ◌⊎◌, inl, inr, Bool-cases, ap,
  ◌∙◌, if◌then◌else◌,
}

abbrev pub flip : Bool → Bool
flip true = false
flip false = true

-- Bit `i` of a word.
pub bit : ℕ → ℕ → Bool
bit x zero = x % 2 == 1
bit x (suc i) = bit (x / 2) i

pub bit-or : (i a b : ℕ) → bit (bit_or a b) i ≡ (bit a i || bit b i)
unfolding bit
bit-or zero a b = ground (arith, bit_or_step a b)
bit-or (suc i) a b =
    let e : bit_or a b / 2 ≡ bit_or (a / 2) (b / 2) = omega (arith, bit_or_step a b) in
    rw e (bit-or i (a / 2) (b / 2))

pub bit-and : (i a b : ℕ) → bit (bit_and a b) i ≡ (bit a i && bit b i)
unfolding bit
bit-and zero a b = ground (arith, bit_and_step a b)
bit-and (suc i) a b =
    let e : bit_and a b / 2 ≡ bit_and (a / 2) (b / 2) = omega (arith, bit_and_step a b) in
    rw e (bit-and i (a / 2) (b / 2))

pub bit-xor : (i a b : ℕ) → bit (bit_xor a b) i ≡ (if bit a i then flip (bit b i) else bit b i)
unfolding bit
bit-xor zero a b = ground (arith, bit_xor_step a b)
bit-xor (suc i) a b =
    let e : bit_xor a b / 2 ≡ bit_xor (a / 2) (b / 2) = omega (arith, bit_xor_step a b) in
    rw e (bit-xor i (a / 2) (b / 2))

pub bit-zero : (i : ℕ) → bit 0 i ≡ false
unfolding bit
bit-zero zero = refl
bit-zero (suc i) = bit-zero i

pub bit-pow : (i k : ℕ) → bit (2 ^ k) i ≡ (k == i)
unfolding bit
bit-pow zero zero = refl
bit-pow zero (suc k) = ground (arith, two-pow-succ k)
bit-pow (suc i) zero = ground (arith, bit-zero i)
bit-pow (suc i) (suc k) =
    let e : 2 ^ suc k / 2 ≡ 2 ^ k = omega (arith, two-pow-succ k) in
    rw e (ground (arith, bit-pow i k))

-- The low `n` bits of a mask are set, and no other.
pub bit-ones : (i n : ℕ) → bit (2 ^ n - 1) i ≡ ltb i n
unfolding bit
bit-ones zero zero = refl
bit-ones zero (suc n) = ground (arith, two-pow-succ n, one-le-pow n 2)
bit-ones (suc i) zero = ground (arith, bit-zero i)
bit-ones (suc i) (suc n) =
    let e : (2 ^ suc n - 1) / 2 ≡ 2 ^ n - 1 = omega (arith, two-pow-succ n, one-le-pow n 2) in
    rw e (ground (arith, bit-ones i n))

pub bit_below : (i n x : ℕ) → x < 2 ^ n → n ≤ i → bit x i ≡ false
unfolding bit
bit_below i zero x h le = let e : x ≡ 0 = omega arith in rw e (bit-zero i)
bit_below zero (suc n) x h le = absurd (omega arith)
bit_below (suc i) (suc n) x h le =
    bit_below i n (x / 2) (omega (arith, two-pow-succ n)) (omega arith)

-- A word below `2 ^ n` is known by its first `n` bits.
pub bit_ext : (n x y : ℕ) → x < 2 ^ n → y < 2 ^ n → ((i : ℕ) → i < n → bit x i ≡ bit y i) → x ≡ y
unfolding bit
bit_ext zero x y p q h = omega arith
bit_ext (suc n) x y p q h =
    let e : x / 2 ≡ y / 2 =
      bit_ext n (x / 2) (y / 2) (omega (arith, two-pow-succ n)) (omega (arith, two-pow-succ n))
        (λ i l. h (suc i) (omega arith)) in
    let z : (x % 2 == 1) ≡ (y % 2 == 1) = h 0 (omega arith) in ground arith

pub and-lt : (n a b : ℕ) → a < 2 ^ n → bit_and a b < 2 ^ n
and-lt zero a b h =
    let e : a ≡ 0 = omega arith in rw e (omega (arith, bit_and_step 0 b, bit_and-bitwise 0 b))
and-lt (suc n) a b h = omega (
  arith,
  bit_and_step a b,
  two-pow-succ n,
  and-lt n (a / 2) (b / 2) (omega (arith, two-pow-succ n)),
)

pub or-lt : (n a b : ℕ) → a < 2 ^ n → b < 2 ^ n → bit_or a b < 2 ^ n
or-lt zero a b h k =
    let e : a ≡ 0 = omega arith in let e' : b ≡ 0 = omega arith in rw (e, e') (omega arith)
or-lt (suc n) a b h k = omega (
  arith,
  bit_or_step a b,
  two-pow-succ n,
  or-lt n (a / 2) (b / 2) (omega (arith, two-pow-succ n)) (omega (arith, two-pow-succ n)),
)

pub xor-lt : (n a b : ℕ) → a < 2 ^ n → b < 2 ^ n → bit_xor a b < 2 ^ n
xor-lt zero a b h k =
    let e : a ≡ 0 = omega arith in let e' : b ≡ 0 = omega arith in rw (e, e') (omega arith)
xor-lt (suc n) a b h k = omega (
  arith,
  bit_xor_step a b,
  two-pow-succ n,
  xor-lt n (a / 2) (b / 2) (omega (arith, two-pow-succ n)) (omega (arith, two-pow-succ n)),
)

and-zero : (n a : ℕ) → a ≤ n → bit_and a 0 ≡ 0
and-zero n zero h = refl
and-zero zero (suc a) h = elim h [ ]
and-zero (suc n) (suc a) h =
    omega (arith, bit_and_step (suc a) 0, and-zero n (suc a / 2) (omega arith))

mod_double : (m a : ℕ) → 0 < m → a % (m + m) ≡ a / 2 % m * 2 + a % 2
mod_double m a h =
    ap (λ (t : ℕ). t % (m + m)) split
    ∙ mul-add-mod_self_right (a / 2 / m) (m + m) _
    ∙ mod-eq_of_lt (omega arith)
  where
    split : a ≡ a / 2 / m * (m + m) + (a / 2 % m * 2 + a % 2)
    split = omega (arith, div-add-mod' (a / 2) m)

-- A mask of `n` low bits takes the remainder by `2 ^ n`.
pub and-mask : (n a : ℕ) → bit_and a (2 ^ n - 1) ≡ a % 2 ^ n
and-mask zero a = omega (arith, and-zero a a (omega arith))
and-mask (suc n) a = omega (
  arith,
  bit_and_step a (2 ^ suc n - 1),
  two-pow-succ n,
  one-le-pow n 2,
  mod_double (2 ^ n) a (one-le-pow n 2 (omega arith)),
  ap (λ (t : ℕ). a % t) (two-pow-succ n),
  ap (λ (t : ℕ). bit_and (a / 2) t) half,
  and-mask n (a / 2),
)
  where
    half : (2 ^ suc n - 1) / 2 ≡ 2 ^ n - 1
    half = omega (arith, two-pow-succ n, one-le-pow n 2)

-- A word that ends in `k` zeros and then a one.
pub bit_scaled : (k y : ℕ) → y % 2 ≡ 1 → bit (y * 2 ^ k) k ≡ true
unfolding bit
bit_scaled zero y h = ground arith
bit_scaled (suc k) y h =
    let e : y * 2 ^ suc k / 2 ≡ y * 2 ^ k = omega (arith, ap (λ (t : ℕ). y * t) (two-pow-succ k)) in
    rw e (bit_scaled k y h)

pub bit_scaled_low : (k y j : ℕ) → j < k → bit (y * 2 ^ k) j ≡ false
unfolding bit
bit_scaled_low zero y j h = elim h [ ]
bit_scaled_low (suc k) y zero h = ground (arith, ap (λ (t : ℕ). y * t) (two-pow-succ k))
bit_scaled_low (suc k) y (suc j) h =
    let e : y * 2 ^ suc k / 2 ≡ y * 2 ^ k = omega (arith, ap (λ (t : ℕ). y * t) (two-pow-succ k)) in
    rw e (bit_scaled_low k y j (omega arith))

-- `r | (q << k)` is a sum when `r` fits in `k` bits.
pub or-fields : (k q r : ℕ) → r < 2 ^ k → bit_or r (q * 2 ^ k) ≡ r + q * 2 ^ k
or-fields zero q r h = let e : r ≡ 0 = omega arith in rw e (omega (arith, bit_or-bitwise 0 (q * 1)))
or-fields (suc k) q r h =
    let e : q * 2 ^ suc k / 2 ≡ q * 2 ^ k = omega (arith, ap (λ (t : ℕ). q * t) (two-pow-succ k)) in
    omega (
      arith,
      bit_or_step r (q * 2 ^ suc k),
      ap (λ (t : ℕ). bit_or (r / 2) t) e,
      e,
      ap (λ (t : ℕ). q * t) (two-pow-succ k),
      two-pow-succ k,
      or-fields k q (r / 2) (omega (arith, two-pow-succ k)),
    )

pub and-high : (k a c : ℕ) → bit_and a (c * 2 ^ k) ≡ bit_and (a / 2 ^ k) c * 2 ^ k
and-high zero a c =
    let e : c * 1 ≡ c = omega arith in let e' : a / 1 ≡ a = omega arith in rw (e, e') (omega arith)
and-high (suc k) a c =
    let e : c * 2 ^ suc k / 2 ≡ c * 2 ^ k = omega (arith, ap (λ (t : ℕ). c * t) (two-pow-succ k)) in
    let even : c * 2 ^ suc k % 2 ≡ 0 = omega (arith, ap (λ (t : ℕ). c * t) (two-pow-succ k)) in
    let rest : bit_and (a / 2) (c * 2 ^ k) ≡ bit_and (a / 2 / 2 ^ k) c * 2 ^ k =
      and-high k (a / 2) c in
    let halves : a / 2 / 2 ^ k ≡ a / 2 ^ suc k =
      div-div-eq-div-mul a 2 (2 ^ k) ∙ ap (λ (t : ℕ). a / t) (omega (arith, two-pow-succ k)) in
    let m = bit_and (a / 2 ^ suc k) c in
    let half : bit_and (a / 2) (c * 2 ^ suc k / 2) ≡ m * 2 ^ k =
      rw e (rest ∙ ap (λ (t : ℕ). bit_and t c * 2 ^ k) halves) in
    let double : m * 2 ^ suc k ≡ m * 2 ^ k * 2 =
      omega (arith, ap (λ (t : ℕ). m * t) (two-pow-succ k)) in
    omega (arith, bit_and_step a (c * 2 ^ suc k), even, half, double)
