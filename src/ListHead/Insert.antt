-- ===== src/ListHead/Insert.antt =====
-- `list_add` puts an entry in front.
use compact_fit.Base.{ℕ, ◌≡◌, refl, ◌≢◌, true, false, List, [], ◌∷◌, ◌++◌, arith}
use compact_fit.ListHead.{Links, list_add, list_add_tail, init_list_head}
use compact_fit.ListHead.Ring.{has, Distinct, Chain, IsRing, frame, has-append}

-- `INIT_LIST_HEAD` makes an empty ring.
pub init_list_head-IsRing : (l : Links) (head : ℕ) → IsRing (init_list_head l head) head []
unfolding init_list_head
init_list_head-IsRing l head = record { chain = ground arith; apart = refl; distinct = tt }

list_add-Chain :
    (l : Links) (head new : ℕ) (xs : List ℕ)
    → IsRing l head xs
    → has new (head ∷ xs) ≡ false
    → Chain (list_add l head new) head (new ∷ xs) head
unfolding list_add
list_add-Chain l head new [] r out = ground (arith, r.chain)
list_add-Chain l head new (x ∷ xs) r out = (
  ground arith,
  ground (arith, r.chain),
  (
    ground (arith, r.chain, r.apart),
    ground (arith, r.chain),
    frame l (list_add l head new) x xs head r.chain.2 (λ c i. ground (arith, r.chain, r.apart))
        (λ c i. ground (arith, r.chain, r.apart, r.distinct)),
  ),
)

-- `list_add` puts an entry that is not in the ring in front of the others, behind the head.
pub list_add-cons :
    (l : Links) (head new : ℕ) (xs : List ℕ)
    → IsRing l head xs
    → has new (head ∷ xs) ≡ false
    → IsRing (list_add l head new) head (new ∷ xs)
list_add-cons l head new xs r out = record {
  chain = list_add-Chain l head new xs r out;
  apart = ground (arith, r.apart);
  distinct = ground (arith, r.distinct);
}

-- The last entry of a chain that starts at `a`.
abbrev last : ℕ → List ℕ → ℕ
last a [] = a
last a (x ∷ xs) = last x xs

has-last : (a : ℕ) (xs : List ℕ) → has (last a xs) (a ∷ xs) ≡ true
has-last a [] = ground arith
has-last a (x ∷ xs) = ground (arith, has-last x xs)

prev-last : (l : Links) (a : ℕ) (xs : List ℕ) (b : ℕ) → Chain l a xs b → l.prev b ≡ last a xs
prev-last l a [] b h = h.1
prev-last l a (x ∷ xs) b h = prev-last l x xs b h.2

append-Chain :
    (l m : Links) (a : ℕ) (xs : List ℕ) (b new : ℕ)
    → Chain l a xs b
    → has b xs ≡ false
    → Distinct (a ∷ xs)
    → m.next (last a xs) ≡ new
    → m.prev new ≡ last a xs
    → m.next new ≡ b
    → m.prev b ≡ new
    → ((c : ℕ) → c ≢ last a xs → has c (a ∷ xs) ≡ true → m.next c ≡ l.next c)
    → ((c : ℕ) → has c xs ≡ true → m.prev c ≡ l.prev c)
    → Chain m a (xs ++ new ∷ []) b
append-Chain l m a [] b new h o d e1 e2 e3 e4 n p = (e1, e2, (e3, e4))
append-Chain l m a (x ∷ xs) b new h o d e1 e2 e3 e4 n p = (
  ground (arith, n a, has-last x xs),
  ground (arith, p x),
  append-Chain l m x xs b new h.2 (ground arith) d.1 e1 e2 e3 e4 (λ c ne i. ground (arith, n c ne))
      (λ c i. ground (arith, p c)),
)

Distinct-snoc : (xs : List ℕ) (x : ℕ) → Distinct xs → has x xs ≡ false → Distinct (xs ++ x ∷ [])
Distinct-snoc [] x d o = (refl, tt)
Distinct-snoc (y ∷ xs) x d o =
    (ground (arith, d, has-append y xs (x ∷ [])), Distinct-snoc xs x d.1 (ground arith))

-- `list_add_tail` puts an entry that is not in the ring behind the others.
pub list_add_tail-snoc :
    (l : Links) (head new : ℕ) (xs : List ℕ)
    → IsRing l head xs
    → has new (head ∷ xs) ≡ false
    → IsRing (list_add_tail l head new) head (xs ++ new ∷ [])
unfolding list_add_tail
list_add_tail-snoc l head new xs r out =
    let e = prev-last l head xs head r.chain in
    let i = has-last head xs in
    record {
      chain =
          append-Chain l _ head xs head new r.chain r.apart (r.apart, r.distinct)
            (ground (arith, e, i)) (ground (arith, e, i)) (ground (arith, e, i))
            (ground (arith, e, i)) (λ c ne i'. ground (arith, e, i))
            (λ c i'. ground (arith, e, i, r.apart));
      apart = ground (arith, r.apart, has-append head xs (new ∷ []));
      distinct = Distinct-snoc xs new r.distinct (ground arith);
    }

-- The heads and entries of two rings that have no place in common.
abbrev pub Apart : List ℕ → List ℕ → Type 0
Apart xs ys = (c : ℕ) → has c xs ≡ true → has c ys ≡ false

first-has :
    (l : Links) (a : ℕ) (xs : List ℕ) (b : ℕ) → Chain l a xs b → has (l.next a) (b ∷ xs) ≡ true
first-has l a [] b h = ground arith
first-has l a (x ∷ xs) b h = ground arith

-- An entry added to one ring leaves another, apart from both, as it was.
pub list_add-IsRing_other :
    (l : Links) (head new : ℕ) (xs : List ℕ) (other : ℕ) (ys : List ℕ)
    → IsRing l head xs
    → IsRing l other ys
    → Apart (other ∷ ys) (new ∷ head ∷ xs)
    → IsRing (list_add l head new) other ys
unfolding list_add
list_add-IsRing_other l head new xs other ys r s out = record {
  chain =
      frame l _ other ys other s.chain (λ c i. ground (arith, out c i))
        (λ c i. ground (arith, out c i, first-has l head xs head r.chain));
  apart = s.apart;
  distinct = s.distinct;
}
