-- ===== src/ListHead/Without.antt =====
-- A ring's list of entries with one entry taken out, its length and its members.
use compact_fit.Base.{
  ℕ, suc, ◌+◌, ◌≡◌, refl, ap, Bool, true, false, List, [], ◌∷◌, ◌++◌, arith, ◌==◌, if◌then◌else◌,
  update, Bool-cases, inl, inr,
}
use compact_fit.ListHead.{Links, list_del}
use compact_fit.ListHead.Ring.{has, Distinct}
use compact_fit.ListHead.Shelf.{IsShelf, list_del-IsShelf}

abbrev pub length : List ℕ → ℕ
length [] = 0
length (x ∷ xs) = suc (length xs)

abbrev pub without : ℕ → List ℕ → List ℕ
without x [] = []
without x (z ∷ zs) = if x == z then zs else z ∷ without x zs

split_at :
    (x : ℕ) (zs : List ℕ)
    → has x zs ≡ true
    → (xs : List ℕ) × (ys : List ℕ) × (zs ≡ xs ++ x ∷ ys) × (without x zs ≡ xs ++ ys)
split_at x [] h = cc
split_at x (z ∷ zs) h = elim (Bool-cases (x == z)) [
  | inl e ↦ let same : z ≡ x = ground arith in ([], zs, ap (λ (a : ℕ). a ∷ zs) same, rw e refl)
  | inr e ↦
      let (xs, ys, split, rest) = split_at x zs (rw e at h) in
      (z ∷ xs, ys, ap (λ (r : List ℕ). z ∷ r) split, rw e (ap (λ (r : List ℕ). z ∷ r) rest))
]

pub length-without : (x : ℕ) (zs : List ℕ) → has x zs ≡ true → length (without x zs) + 1 ≡ length zs
length-without x [] h = cc
length-without x (z ∷ zs) h = ground (arith, length-without x zs)

-- Of distinct entries, taking one out leaves exactly the others.
pub has-without :
    (c x : ℕ) (zs : List ℕ)
    → Distinct zs
    → has c (without x zs) ≡ (if x == c then false else has c zs)
has-without c x [] d = ground arith
has-without c x (z ∷ zs) d = ground (arith, has-without c x zs d.1, d.0)

pub not-has-without : (c x : ℕ) (zs : List ℕ) → has c zs ≡ false → has c (without x zs) ≡ false
not-has-without c x [] h = refl
not-has-without c x (z ∷ zs) h = ground (arith, not-has-without c x zs)

-- An entry of one ring of many is taken out of it.
pub list_del-IsShelf-without :
    (l : Links) (is_head : ℕ → Bool) (ring : ℕ → List ℕ) (h x : ℕ)
    → IsShelf l is_head ring
    → is_head h ≡ true
    → has x (ring h) ≡ true
    → IsShelf (list_del l x) is_head (update ring h (without x (ring h)))
list_del-IsShelf-without l is_head ring h x shelf here i =
    let (xs, ys, split, rest) = split_at x (ring h) i in
    rw rest (list_del-IsShelf l is_head ring shelf h here xs x ys split)
