-- ===== src/ListHead/Ring.antt =====
-- What a ring of links stands for: the entries behind its head, in order.
use compact_fit.Base.{ℕ, ◌≡◌, refl, ◌↔◌, Bool, true, false, ◌||◌, List, [], ◌∷◌, ◌++◌, arith, ◌==◌}
use compact_fit.ListHead.{Links, list_empty}

abbrev pub has : ℕ → List ℕ → Bool
has a [] = false
has a (x ∷ xs) = (a == x) || has a xs

abbrev pub Distinct : List ℕ → Type 0
Distinct [] = Unit {0}
Distinct (x ∷ xs) = (has x xs ≡ false) × Distinct xs

-- From `a` the pointers lead through `xs` to `b`, and back.
abbrev pub Chain : Links → ℕ → List ℕ → ℕ → Type 0
Chain l a [] b = (l.next a ≡ b) × (l.prev b ≡ a)
Chain l a (x ∷ xs) b = (l.next a ≡ x) × (l.prev x ≡ a) × Chain l x xs b

pub record IsRing (l : Links) (head : ℕ) (xs : List ℕ) : Type 0 where
  pub chain : Chain l head xs head
  pub apart : has head xs ≡ false
  pub distinct : Distinct xs

pub has-append : (a : ℕ) (xs ys : List ℕ) → has a (xs ++ ys) ≡ (has a xs || has a ys)
has-append a [] ys = refl
has-append a (x ∷ xs) ys = ground (arith, has-append a xs ys)

-- A chain survives a change that spares the pointers it is made of.
pub frame :
    (l m : Links) (a : ℕ) (xs : List ℕ) (b : ℕ)
    → Chain l a xs b
    → ((c : ℕ) → has c (a ∷ xs) ≡ true → m.next c ≡ l.next c)
    → ((c : ℕ) → has c (b ∷ xs) ≡ true → m.prev c ≡ l.prev c)
    → Chain m a xs b
frame l m a [] b h n p = ground (arith, n a, p b)
frame l m a (x ∷ xs) b h n p = (
  ground (arith, n a),
  ground (arith, p x),
  frame l m x xs b h.2 (λ c i. ground (arith, n c)) (λ c i. ground (arith, p c)),
)

-- `list_empty` tells the ring with no entry.
pub list_empty-IsRing :
    (l : Links) (head : ℕ) (xs : List ℕ) → IsRing l head xs → (list_empty l head ≡ true) ↔ (xs ≡ [])
unfolding list_empty
list_empty-IsRing l head [] r = ground (arith, r.chain)
list_empty-IsRing l head (x ∷ xs) r = ground (arith, r.chain, r.apart)
