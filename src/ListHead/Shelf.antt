-- ===== src/ListHead/Shelf.antt =====
-- Many rings at once: what adding an entry to one of them, or taking it out, makes of all.
use mathlib.Core.Path.{subst}
use compact_fit.Base.{
  ℕ, ◌≡◌, ap, Bool, true, false, List, ◌∷◌, ◌++◌, arith, ◌==◌, update, Bool-cases, inl, inr,
}
use compact_fit.ListHead.{Links, list_add, list_del}
use compact_fit.ListHead.Ring.{has, IsRing, has-append}
use compact_fit.ListHead.Insert.{list_add-cons, list_add-IsRing_other}
use compact_fit.ListHead.Delete.{list_del-IsRing, list_del-IsRing_other}

-- At each head a ring with the entries that `ring` names, and no two of them share a place.
pub record IsShelf (l : Links) (is_head : ℕ → Bool) (ring : ℕ → List ℕ) : Type 0 where
  pub rings : (h : ℕ) → is_head h ≡ true → IsRing l h (ring h)
  pub apart :
      (h h' c : ℕ)
      → is_head h ≡ true
      → is_head h' ≡ true
      → (h == h') ≡ false
      → has c (h ∷ ring h) ≡ true
      → has c (h' ∷ ring h') ≡ false

eq_of : (a b : ℕ) → (a == b) ≡ true → a ≡ b
eq_of a b e = ground arith

module _ (l : Links) (is_head : ℕ → Bool) (ring : ℕ → List ℕ) (shelf : IsShelf l is_head ring)
    (h : ℕ) (here : is_head h ≡ true) where
  -- An entry that stands on no ring goes in front of the ring at `h`.
  pub list_add-IsShelf :
      (new : ℕ)
      → ((h' : ℕ) → is_head h' ≡ true → has new (h' ∷ ring h') ≡ false)
      → IsShelf (list_add l h new) is_head (update ring h (new ∷ ring h))
  list_add-IsShelf new fresh = record {
    rings = λ h' there. elim (Bool-cases (h == h')) [
      | inl e ↦
          let same = eq_of h h' e in
          rw e (
            subst (λ x. IsRing (list_add l h new) x (new ∷ ring h)) same
              (list_add-cons l h new (ring h) (shelf.rings h here) (fresh h here)))
      | inr e ↦ rw e (
          list_add-IsRing_other l h new (ring h) h' (ring h') (shelf.rings h here)
            (shelf.rings h' there)
            (λ c i. ground (arith, fresh h' there, shelf.apart h' h c there here (ground arith) i)))
    ];
    apart = λ x y c i j ne k. ground (arith, shelf.apart x y c i j ne, fresh x i, fresh y j, k);
  }

  -- An entry of the ring at `h` is taken out of it.
  pub list_del-IsShelf :
      (xs : List ℕ) (x : ℕ) (ys : List ℕ)
      → ring h ≡ xs ++ x ∷ ys
      → IsShelf (list_del l x) is_head (update ring h (xs ++ ys))
  list_del-IsShelf xs x ys split =
      let r : IsRing l h (xs ++ x ∷ ys) = rw split at (shelf.rings h here) in
      record {
        rings = λ h' there. elim (Bool-cases (h == h')) [
          | inl e ↦ rw e (
              subst (λ a. IsRing (list_del l x) a (xs ++ ys)) (eq_of h h' e)
                (list_del-IsRing l h xs x ys r))
          | inr e ↦ rw e (
              list_del-IsRing_other l h xs x ys r h' (ring h') (shelf.rings h' there)
                (λ c i. rw split at (shelf.apart h' h c there here (ground arith) i)))
        ];
        apart = λ a b c i j ne k. ground (
          arith,
          shelf.apart a b c i j ne,
          ap (λ (zs : List ℕ). has c zs) split,
          has-append c xs ys,
          has-append c xs (x ∷ ys),
          eq_of h a,
          eq_of h b,
          k,
        );
      }
