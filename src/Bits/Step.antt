-- ===== src/Bits/Step.antt =====
-- The native bit operations are recursions on binary digits with fuel. Here the fuel is dropped:
-- one equation for the lowest digit of each.
use Prim.Native.Nat.{differ, digits, bit_and-bitwise, bit_or-bitwise, bit_xor-bitwise}
use compact_fit.Base.{
  ℕ, zero, suc, ◌+◌, ◌*◌, ◌/◌, ◌%◌, ◌≤◌, ◌<◌, min, max, bit_and, bit_or, bit_xor, ◌≡◌, refl, arith,
}

module _ (z : ℕ → ℕ) (f : ℕ → ℕ → ℕ) where
  -- Fuel beyond the first number changes nothing.
  enough : (u v n m : ℕ) → u ≤ n → u ≤ m → digits z f n u v ≡ digits z f m u v
  enough zero v zero zero p q = refl
  enough zero v zero (suc m) p q = refl
  enough zero v (suc n) zero p q = refl
  enough zero v (suc n) (suc m) p q = refl
  enough (suc u) v zero m p q = elim p [ ]
  enough (suc u) v (suc n) zero p q = elim q [ ]
  enough (suc u) v (suc n) (suc m) p q =
      rw (enough (suc u / 2) (v / 2) n m (omega arith) (omega arith))

  halve :
      (u v : ℕ)
      → digits z f (suc u) (suc u) v
        ≡ digits z f (suc u / 2) (suc u / 2) (v / 2) * 2 + f (suc u % 2) (v % 2)
  halve u v = rw (enough (suc u / 2) (v / 2) u (suc u / 2) (omega arith) (omega arith))

pub bit_or_step : (u v : ℕ) → bit_or u v ≡ max (u % 2) (v % 2) + 2 * bit_or (u / 2) (v / 2)
bit_or_step zero v = omega (arith, bit_or-bitwise 0 v, bit_or-bitwise 0 (v / 2))
bit_or_step (suc u) v =
    omega
      (arith, bit_or-bitwise (suc u) v, bit_or-bitwise (suc u / 2) (v / 2), halve (λ t. t) max u v)

pub bit_and_step : (u v : ℕ) → bit_and u v ≡ min (u % 2) (v % 2) + 2 * bit_and (u / 2) (v / 2)
bit_and_step zero v = omega (arith, bit_and-bitwise 0 v, bit_and-bitwise 0 (v / 2))
bit_and_step (suc u) v =
    omega (
      arith,
      bit_and-bitwise (suc u) v,
      bit_and-bitwise (suc u / 2) (v / 2),
      halve (λ t. 0) min u v,
    )

digit_sum : (x y : ℕ) → x < 2 → y < 2 → differ x y ≡ (x + y) % 2
digit_sum zero zero p q = refl
digit_sum zero (suc zero) p q = refl
digit_sum zero (suc (suc y)) p q = absurd (omega arith)
digit_sum (suc zero) zero p q = refl
digit_sum (suc zero) (suc zero) p q = refl
digit_sum (suc zero) (suc (suc y)) p q = absurd (omega arith)
digit_sum (suc (suc x)) y p q = absurd (omega arith)

pub bit_xor_step : (u v : ℕ) → bit_xor u v ≡ (u + v) % 2 + 2 * bit_xor (u / 2) (v / 2)
bit_xor_step zero v = omega (arith, bit_xor-bitwise 0 v, bit_xor-bitwise 0 (v / 2))
bit_xor_step (suc u) v = omega (
  arith,
  bit_xor-bitwise (suc u) v,
  bit_xor-bitwise (suc u / 2) (v / 2),
  halve (λ t. t) differ u v,
  digit_sum (suc u % 2) (v % 2) (omega arith) (omega arith),
)
