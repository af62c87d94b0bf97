-- ===== src/Pool/Counting.antt =====
-- Counting argument on pools: distinct numbers below a bound, and a bucket for every place.
use native.Mathlib.Nat.{suc-mul}
use compact_fit.Base.{
  ℕ, zero, suc, ◌+◌, ◌*◌, ◌<◌, ◌≤◌, ◌≡◌, refl, arith, List, [], ◌∷◌, ◌==◌, Bool-cases, inl, inr,
}
use compact_fit.ListHead.Without.{length}
use compact_fit.Pool.Lists.{Bucket, Words, Chained, tick, count, items, heads, number}

abbrev pub sum : ℕ → (ℕ → ℕ) → ℕ
sum zero f = 0
sum (suc n) f = f n + sum n f

sum-zero : (n : ℕ) (f : ℕ → ℕ) → ((c : ℕ) → c < n → f c ≡ 0) → sum n f ≡ 0
sum-zero zero f none_there = refl
sum-zero (suc n) f none_there =
    omega (arith, none_there n, sum-zero n f (λ c i. none_there c (omega arith)))

pub sum-add : (n : ℕ) (f g h : ℕ → ℕ) → ((c : ℕ) → h c ≡ f c + g c) → sum n h ≡ sum n f + sum n g
sum-add zero f g h same = refl
sum-add (suc n) f g h same = omega (arith, same n, sum-add n f g h same)

sum-tick : (n x : ℕ) → x < n → sum n (λ c. tick c x) ≡ 1
sum-tick zero x small = absurd (omega arith)
sum-tick (suc n) x small = elim (Bool-cases (n == x)) [
  | inl e ↦
      let rest = sum-zero n (λ c. tick c x) (λ c i. ground (arith, e, i)) in
      rw e (omega (arith, rest))
  | inr e ↦ let rest = sum-tick n x (ground (arith, e)) in rw e (omega (arith, rest))
]

pub sum-count :
    (n : ℕ) (xs : List ℕ) → ((c : ℕ) → 0 < count c xs → c < n) → sum n (λ c. count c xs) ≡ length xs
sum-count n [] small = sum-zero n (λ c. 0) (λ c i. refl)
sum-count n (x ∷ xs) small =
    let rest = sum-count n xs (λ c i. small c (omega (arith, i))) in
    let first = sum-tick n x (small x (ground arith)) in
    omega (
      arith,
      rest,
      first,
      sum-add n (λ c. tick c x) (λ c. count c xs) (λ c. count c (x ∷ xs)) (λ c. refl),
    )

pub sum-below : (n : ℕ) (f : ℕ → ℕ) → ((c : ℕ) → f c < 2) → sum n f ≤ n
sum-below zero f once = omega arith
sum-below (suc n) f once = let t = once n in omega (arith, t, sum-below n f once)

pub sum_missing : (n : ℕ) (f : ℕ → ℕ) (x : ℕ) → ((c : ℕ) → f c < 2) → x < n → f x ≡ 0 → sum n f < n
sum_missing zero f x once small gone = absurd (omega arith)
sum_missing (suc n) f x once small gone = elim (Bool-cases (x == n)) [
  | inl e ↦
      let same : x ≡ n = ground arith in
      let gone' : f n ≡ 0 = rw same at gone in omega (arith, gone', sum-below n f once)
  | inr e ↦ let t = once n in omega (arith, t, sum_missing n f x once (ground (arith, e)) gone)
]

sum_some : (n : ℕ) (f : ℕ → ℕ) → ((c : ℕ) → c < n → 0 < f c) → n ≤ sum n f
sum_some zero f some_there = omega arith
sum_some (suc n) f some_there =
    omega (arith, some_there n, sum_some n f (λ c i. some_there c (omega arith)))

-- One bucket is at one place at most.
sum-place : (n base h : ℕ) → sum n (λ i. tick (base + 8 * i) h) ≤ 1
sum-place zero base h = omega arith
sum-place (suc n) base h = elim (Bool-cases (base + 8 * n == h)) [
  | inl e ↦
      let rest = sum-zero n (λ i. tick (base + 8 * i) h) (λ i small. ground (arith, e, small)) in
      rw e (omega (arith, rest))
  | inr e ↦ rw e (omega (arith, sum-place n base h))
]

sum-heads : (n base : ℕ) (bs : List Bucket) → sum n (λ i. heads (base + 8 * i) bs) ≤ number bs
sum-heads n base [] = omega (arith, sum-zero n (λ i. 0) (λ c i. refl))
sum-heads n base ((h, xs) ∷ bs) =
    let rest = sum-heads n base bs in
    let first = sum-place n base h in
    let both =
      sum-add n (λ i. tick (base + 8 * i) h) (λ i. heads (base + 8 * i) bs)
        (λ i. heads (base + 8 * i) ((h, xs) ∷ bs)) (λ i. refl) in
    omega (arith, rest, first, both)

-- With a bucket at each of `n` places there are `n` buckets.
pub places_filled :
    (n base : ℕ) (own shared : List Bucket)
    → ((i : ℕ) → i < n → 0 < heads (base + 8 * i) own + heads (base + 8 * i) shared)
    → n ≤ number own + number shared
places_filled n base own shared filled = omega (
  arith,
  sum_some n (λ i. heads (base + 8 * i) own + heads (base + 8 * i) shared) filled,
  sum-heads n base own,
  sum-heads n base shared,
  sum-add n (λ i. heads (base + 8 * i) own) (λ i. heads (base + 8 * i) shared)
      (λ i. heads (base + 8 * i) own + heads (base + 8 * i) shared) (λ i. refl),
)

-- Full buckets hold as many items as there are buckets, each times the size.
pub sum-items :
    (n : ℕ) (w : Words) (size a : ℕ) (bs : List Bucket) (b : ℕ)
    → Chained w size a bs b
    → ((c : ℕ) → 0 < items c bs → c < n)
    → sum n (λ c. items c bs) ≡ number bs * size
sum-items n w size a [] b chain small = omega (arith, sum-zero n (λ c. 0) (λ c i. refl))
sum-items n w size a ((h, xs) ∷ bs) b chain small =
    let rest = sum-items n w size (w.next h) bs b chain.2 (λ c i. small c (omega (arith, i))) in
    let first = sum-count n xs (λ c i. small c (omega (arith, i))) in
    let both =
      sum-add n (λ c. count c xs) (λ c. items c bs) (λ c. items c ((h, xs) ∷ bs)) (λ c. refl) in
    let one_more : suc (number bs) * size ≡ number bs * size + size = suc-mul (number bs) size in
    omega (arith, rest, first, both, one_more, chain.1.1)
