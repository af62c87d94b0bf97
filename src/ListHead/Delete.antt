-- ===== src/ListHead/Delete.antt =====
-- `list_del` takes an entry out, wherever it stands.
use compact_fit.Base.{ℕ, ◌≡◌, refl, ◌≢◌, true, false, List, [], ◌∷◌, ◌++◌, arith}
use compact_fit.ListHead.{Links, list_del, list_move}
use compact_fit.ListHead.Ring.{has, Distinct, Chain, IsRing, frame, has-append}

has-prev :
    (l : Links) (a : ℕ) (xs : List ℕ) (x : ℕ) (ys : List ℕ) (b : ℕ)
    → Chain l a (xs ++ x ∷ ys) b
    → has (l.prev x) (a ∷ xs) ≡ true
has-prev l a [] x ys b h = ground arith
has-prev l a (z ∷ xs) x ys b h = ground (arith, has-prev l z xs x ys b h.2)

has-next :
    (l : Links) (a : ℕ) (xs : List ℕ) (x : ℕ) (ys : List ℕ) (b : ℕ)
    → Chain l a (xs ++ x ∷ ys) b
    → has (l.next x) (b ∷ ys) ≡ true
has-next l a [] x [] b h = ground arith
has-next l a [] x (y ∷ ys) b h = ground arith
has-next l a (z ∷ xs) x ys b h = has-next l z xs x ys b h.2

-- `m` is `l` with the entry `x` bridged over.
record Bridged (l m : Links) (x : ℕ) : Type 0 where
  forth : m.next (l.prev x) ≡ l.next x
  back : m.prev (l.next x) ≡ l.prev x
  next : (c : ℕ) → c ≢ l.prev x → c ≢ x → m.next c ≡ l.next c
  prev : (c : ℕ) → c ≢ l.next x → c ≢ x → m.prev c ≡ l.prev c

module _ (l m : Links) (x : ℕ) (br : Bridged l m x) where
  Bridged-Chain :
      (a : ℕ) (xs ys : List ℕ) (b : ℕ)
      → Chain l a (xs ++ x ∷ ys) b
      → has a (xs ++ x ∷ ys) ≡ false
      → has b (xs ++ x ∷ ys) ≡ false
      → Distinct (xs ++ x ∷ ys)
      → Chain m a (xs ++ ys) b
  Bridged-Chain a [] [] b h ha hb d = ground (arith, br.forth, br.back)
  Bridged-Chain a [] (y ∷ ys) b h ha hb d = (
    ground (arith, br.forth),
    ground (arith, br.back),
    frame l m y ys b h.2.2 (λ c i. ground (arith, br.next c)) (λ c i. ground (arith, br.prev c)),
  )
  Bridged-Chain a (z ∷ xs) ys b h ha hb d = (
    ground (arith, br.next a, has-prev l z xs x ys b h.2, has-append a xs (x ∷ ys)),
    ground (arith, br.prev z, has-next l z xs x ys b h.2, has-append z xs (x ∷ ys)),
    Bridged-Chain z xs ys b h.2 d.0 (ground arith) d.1,
  )

Distinct-middle :
    (xs : List ℕ) (x : ℕ) (ys : List ℕ)
    → Distinct (xs ++ x ∷ ys)
    → (has x (xs ++ ys) ≡ false) × Distinct (xs ++ ys)
Distinct-middle [] x ys d = d
Distinct-middle (z ∷ xs) x ys d =
    let (o, e) = Distinct-middle xs x ys d.1 in
    (
      ground (arith, d.0, o, has-append z xs (x ∷ ys)),
      (ground (arith, d.0, has-append z xs (x ∷ ys), has-append z xs ys), e),
    )

module _ (l : Links) (head : ℕ) (xs : List ℕ) (x : ℕ) (ys : List ℕ)
    (r : IsRing l head (xs ++ x ∷ ys)) where
  list_del-Bridged : Bridged l (list_del l x) x
  unfolding list_del
  list_del-Bridged =
      let p = has-prev l head xs x ys head r.chain in
      let n = has-next l head xs x ys head r.chain in
      let (out, d) = Distinct-middle xs x ys r.distinct in
      let o = has-append x xs ys in
      let o' = has-append head xs (x ∷ ys) in
      record {
        forth = ground (arith, p, n, out, o, o', r.apart);
        back = ground (arith, p, n, out, o, o', r.apart);
        next = λ c a b. ground arith;
        prev = λ c a b. ground arith;
      }

  -- `list_del` takes its entry out of the ring that it is in, and keeps the others in order.
  pub list_del-IsRing : IsRing (list_del l x) head (xs ++ ys)
  list_del-IsRing = record {
    chain =
        Bridged-Chain l (list_del l x) x list_del-Bridged head xs ys head r.chain r.apart r.apart
          r.distinct;
    apart = ground (arith, r.apart, has-append head xs (x ∷ ys), has-append head xs ys);
    distinct = (Distinct-middle xs x ys r.distinct).1;
  }

  -- An entry deleted from its ring leaves a ring apart from that one as it was.
  pub list_del-IsRing_other :
      (other : ℕ) (zs : List ℕ)
      → IsRing l other zs
      → ((c : ℕ) → has c (other ∷ zs) ≡ true → has c (head ∷ xs ++ x ∷ ys) ≡ false)
      → IsRing (list_del l x) other zs
  list_del-IsRing_other other zs s out =
      let p = has-prev l head xs x ys head r.chain in
      let n = has-next l head xs x ys head r.chain in
      record {
        chain =
            frame l _ other zs other s.chain
              (λ c i.
                list_del-Bridged.next c
                  (λ e. ground (arith, out c i, p, n, has-append c xs (x ∷ ys)))
                  (ground (arith, out c i, has-append c xs (x ∷ ys))))
              (λ c i.
                list_del-Bridged.prev c
                  (λ e. ground (arith, out c i, p, n, has-append c xs (x ∷ ys)))
                  (ground (arith, out c i, has-append c xs (x ∷ ys))));
        apart = s.apart;
        distinct = s.distinct;
      }

-- From `a` the `next` pointers lead through `xs` to `b`.
abbrev pub Forward : Links → ℕ → List ℕ → ℕ → Type 0
Forward l a [] b = l.next a ≡ b
Forward l a (x ∷ xs) b = (l.next a ≡ x) × Forward l x xs b

Chain-Forward :
    (l m : Links) (a : ℕ) (xs : List ℕ) (b : ℕ)
    → Chain l a xs b
    → ((c : ℕ) → has c (a ∷ xs) ≡ true → m.next c ≡ l.next c)
    → Forward m a xs b
Chain-Forward l m a [] b h n = ground (arith, n a)
Chain-Forward l m a (x ∷ xs) b h n =
    (ground (arith, n a), Chain-Forward l m x xs b h.2 (λ c i. ground (arith, n c)))

tail-Chain :
    (l : Links) (a : ℕ) (xs : List ℕ) (x : ℕ) (ys : List ℕ) (b : ℕ)
    → Chain l a (xs ++ x ∷ ys) b
    → Chain l x ys b
tail-Chain l a [] x ys b h = h.2
tail-Chain l a (z ∷ xs) x ys b h = tail-Chain l z xs x ys b h.2

Distinct-halves :
    (xs : List ℕ) (x : ℕ) (ys : List ℕ) (c : ℕ)
    → Distinct (xs ++ x ∷ ys)
    → has c ys ≡ true
    → (c ≢ x) × (has c xs ≡ false)
Distinct-halves [] x ys c d i = (λ e. ground arith, refl)
Distinct-halves (z ∷ xs) x ys c d i =
    let (ne, o) = Distinct-halves xs x ys c d.1 i in
    (ne, ground (arith, o, d.0, has-append z xs (x ∷ ys)))

-- `list_move` on an entry of a ring and the ring's own head does not put the entry in front: the
-- walk from the head finds the entries behind the moved one alone, and neither it nor any before it.
pub list_move-loses :
    (l : Links) (head : ℕ) (xs : List ℕ) (x : ℕ) (ys : List ℕ)
    → IsRing l head (xs ++ x ∷ ys)
    → Forward (list_move l head x) head ys head
unfolding list_move
list_move-loses l head xs x [] r = ground (
  arith,
  tail-Chain l head xs x [] head r.chain,
  r.apart,
  has-append head xs (x ∷ []),
  has-prev l head xs x [] head r.chain,
)
list_move-loses l head xs x (y ∷ ys) r =
    let t = tail-Chain l head xs x (y ∷ ys) head r.chain in
    let p = has-prev l head xs x (y ∷ ys) head r.chain in
    let o = has-append head xs (x ∷ y ∷ ys) in
    (
      ground (arith, t, p, r.apart, o),
      Chain-Forward l (list_move l head x) y ys head t.2
          λ c i. ground (arith, p, r.apart, o, Distinct-halves xs x (y ∷ ys) c r.distinct i),
    )
