-- ===== src/Classes/Moves.antt =====
-- A page put into one of the rings of its size-class in cf.c, or taken out of it, is counted.
use compact_fit.Base.{
  ℕ, ◌≡◌, refl, ap, sym, fun_ext, arith, Bool, true, false, ◌==◌, update, List, ◌∷◌, Bool-cases,
  inl, inr,
}
use mathlib.Core.Path.{subst}
use compact_fit.ListHead.Ring.{has}
use compact_fit.ListHead.Without.{without, length-without}
use compact_fit.State.{
  Cf, SizeClass, head_full_pages, head_nfull_pages, head_source_pages, head_emptying_pages,
  list_of_page,
}
use compact_fit.Classes.{
  add_page_to_list, remove_page_from_list, add_page_to_nfull_list, remove_page_from_nfull_list,
  add_page_to_full_list, remove_page_from_full_list, add_page_to_source_list,
  remove_page_from_source_list, add_page_to_emptying_list, remove_page_from_emptying_list,
}
use compact_fit.Classes.Filed.{heads, IsFiled, add-IsFiled, del-IsFiled}

as_update :
    (f g : ℕ → SizeClass) (sc : ℕ)
    → ((q : ℕ) → (sc == q) ≡ false → g q ≡ f q)
    → update f sc (g sc) ≡ g
as_update f g sc same = fun_ext (λ q. elim (Bool-cases (sc == q)) [
  | inl e ↦ let there : sc ≡ q = ground arith in rw e (ap g there)
  | inr e ↦ rw e (sym (same q e))
])

-- A page that stands on none of the rings.
abbrev pub IsFresh : (ℕ → Bool) → (ℕ → List ℕ) → ℕ → Type 0
IsFresh classes ring p =
    (h : ℕ) → heads classes h ≡ true → has (list_of_page p) (h ∷ ring h) ≡ false

-- The rings with a page in front of one, and with a page taken out of one.
abbrev pub put_in : (ℕ → List ℕ) → ℕ → ℕ → ℕ → List ℕ
put_in ring h p = update ring h (list_of_page p ∷ ring h)

abbrev pub take_out : (ℕ → List ℕ) → ℕ → ℕ → ℕ → List ℕ
take_out ring h p = update ring h (without (list_of_page p) (ring h))

module _ (s : Cf) (classes : ℕ → Bool) (ring : ℕ → List ℕ) (sc p : ℕ)
    (filed : IsFiled s.links s.size_class classes ring) (here : classes sc ≡ true) where
  module _ (fresh : IsFresh classes ring p) where
    pub add_page_to_full_list-IsFiled :
        let t = add_page_to_full_list s sc p in
        IsFiled t.links t.size_class classes (put_in ring (head_full_pages sc) p)
    unfolding add_page_to_full_list add_page_to_list
    add_page_to_full_list-IsFiled =
        let t = add_page_to_full_list s sc p in
        let n = filed.counts sc here in
        let aligned = filed.aligned sc here in
        subst (λ f. IsFiled t.links f classes (put_in ring (head_full_pages sc) p))
          (as_update s.size_class t.size_class sc (λ q e. rw e refl))
          (add-IsFiled s.links s.size_class classes ring filed sc (head_full_pages sc) 0 here
            (omega arith) (omega arith) refl (t.size_class sc) (list_of_page p) fresh
            (record {
              nfull = ground (arith, n.nfull);
              source = ground (arith, n.source);
              total = ground (arith, n.total);
            }))

    -- Where every size-class keeps its four rings and counts them, a page on none of the rings goes in
    -- front of the not-full pages of a class: that ring has the page first, every other ring is as
    -- before, and the counters agree with the rings.
    pub add_page_to_nfull_list-IsFiled :
        let t = add_page_to_nfull_list s sc p in
        IsFiled t.links t.size_class classes (put_in ring (head_nfull_pages sc) p)
    unfolding add_page_to_nfull_list add_page_to_list
    add_page_to_nfull_list-IsFiled =
        let t = add_page_to_nfull_list s sc p in
        let n = filed.counts sc here in
        let aligned = filed.aligned sc here in
        subst (λ f. IsFiled t.links f classes (put_in ring (head_nfull_pages sc) p))
          (as_update s.size_class t.size_class sc (λ q e. rw e refl))
          (add-IsFiled s.links s.size_class classes ring filed sc (head_nfull_pages sc) 8 here
            (omega arith) (omega arith) refl (t.size_class sc) (list_of_page p) fresh
            (record {
              nfull = ground (arith, n.nfull);
              source = ground (arith, n.source);
              total = ground (arith, n.total);
            }))

    pub add_page_to_source_list-IsFiled :
        let t = add_page_to_source_list s sc p in
        IsFiled t.links t.size_class classes (put_in ring (head_source_pages sc) p)
    unfolding add_page_to_source_list add_page_to_list
    add_page_to_source_list-IsFiled =
        let t = add_page_to_source_list s sc p in
        let n = filed.counts sc here in
        let aligned = filed.aligned sc here in
        subst (λ f. IsFiled t.links f classes (put_in ring (head_source_pages sc) p))
          (as_update s.size_class t.size_class sc (λ q e. rw e refl))
          (add-IsFiled s.links s.size_class classes ring filed sc (head_source_pages sc) 16 here
            (omega arith) (omega arith) refl (t.size_class sc) (list_of_page p) fresh
            (record {
              nfull = ground (arith, n.nfull);
              source = ground (arith, n.source);
              total = ground (arith, n.total);
            }))

    pub add_page_to_emptying_list-IsFiled :
        let t = add_page_to_emptying_list s sc p in
        IsFiled t.links t.size_class classes (put_in ring (head_emptying_pages sc) p)
    unfolding add_page_to_emptying_list add_page_to_list
    add_page_to_emptying_list-IsFiled =
        let t = add_page_to_emptying_list s sc p in
        let n = filed.counts sc here in
        let aligned = filed.aligned sc here in
        subst (λ f. IsFiled t.links f classes (put_in ring (head_emptying_pages sc) p))
          (as_update s.size_class t.size_class sc (λ q e. rw e refl))
          (add-IsFiled s.links s.size_class classes ring filed sc (head_emptying_pages sc) 24 here
            (omega arith) (omega arith) refl (t.size_class sc) (list_of_page p) fresh
            (record {
              nfull = ground (arith, n.nfull);
              source = ground (arith, n.source);
              total = ground (arith, n.total);
            }))

  pub remove_page_from_full_list-IsFiled :
      has (list_of_page p) (ring (head_full_pages sc)) ≡ true
      → let t = remove_page_from_full_list s sc p in
        IsFiled t.links t.size_class classes (take_out ring (head_full_pages sc) p)
  unfolding remove_page_from_full_list remove_page_from_list
  remove_page_from_full_list-IsFiled i =
      let t = remove_page_from_full_list s sc p in
      let n = filed.counts sc here in
      let aligned = filed.aligned sc here in
      let less = length-without (list_of_page p) (ring (head_full_pages sc)) i in
      subst (λ f. IsFiled t.links f classes (take_out ring (head_full_pages sc) p))
        (as_update s.size_class t.size_class sc (λ q e. rw e refl))
        (del-IsFiled s.links s.size_class classes ring filed sc (head_full_pages sc) 0 here
          (omega arith) (omega arith) refl (t.size_class sc) (list_of_page p) i
          (record {
            nfull = ground (arith, n.nfull, less);
            source = ground (arith, n.source, less);
            total = ground (arith, n.total, less);
          }))

  pub remove_page_from_nfull_list-IsFiled :
      has (list_of_page p) (ring (head_nfull_pages sc)) ≡ true
      → let t = remove_page_from_nfull_list s sc p in
        IsFiled t.links t.size_class classes (take_out ring (head_nfull_pages sc) p)
  unfolding remove_page_from_nfull_list remove_page_from_list
  remove_page_from_nfull_list-IsFiled i =
      let t = remove_page_from_nfull_list s sc p in
      let n = filed.counts sc here in
      let aligned = filed.aligned sc here in
      let less = length-without (list_of_page p) (ring (head_nfull_pages sc)) i in
      subst (λ f. IsFiled t.links f classes (take_out ring (head_nfull_pages sc) p))
        (as_update s.size_class t.size_class sc (λ q e. rw e refl))
        (del-IsFiled s.links s.size_class classes ring filed sc (head_nfull_pages sc) 8 here
          (omega arith) (omega arith) refl (t.size_class sc) (list_of_page p) i
          (record {
            nfull = ground (arith, n.nfull, less);
            source = ground (arith, n.source, less);
            total = ground (arith, n.total, less);
          }))

  pub remove_page_from_source_list-IsFiled :
      has (list_of_page p) (ring (head_source_pages sc)) ≡ true
      → let t = remove_page_from_source_list s sc p in
        IsFiled t.links t.size_class classes (take_out ring (head_source_pages sc) p)
  unfolding remove_page_from_source_list remove_page_from_list
  remove_page_from_source_list-IsFiled i =
      let t = remove_page_from_source_list s sc p in
      let n = filed.counts sc here in
      let aligned = filed.aligned sc here in
      let less = length-without (list_of_page p) (ring (head_source_pages sc)) i in
      subst (λ f. IsFiled t.links f classes (take_out ring (head_source_pages sc) p))
        (as_update s.size_class t.size_class sc (λ q e. rw e refl))
        (del-IsFiled s.links s.size_class classes ring filed sc (head_source_pages sc) 16 here
          (omega arith) (omega arith) refl (t.size_class sc) (list_of_page p) i
          (record {
            nfull = ground (arith, n.nfull, less);
            source = ground (arith, n.source, less);
            total = ground (arith, n.total, less);
          }))

  pub remove_page_from_emptying_list-IsFiled :
      has (list_of_page p) (ring (head_emptying_pages sc)) ≡ true
      → let t = remove_page_from_emptying_list s sc p in
        IsFiled t.links t.size_class classes (take_out ring (head_emptying_pages sc) p)
  unfolding remove_page_from_emptying_list remove_page_from_list
  remove_page_from_emptying_list-IsFiled i =
      let t = remove_page_from_emptying_list s sc p in
      let n = filed.counts sc here in
      let aligned = filed.aligned sc here in
      let less = length-without (list_of_page p) (ring (head_emptying_pages sc)) i in
      subst (λ f. IsFiled t.links f classes (take_out ring (head_emptying_pages sc) p))
        (as_update s.size_class t.size_class sc (λ q e. rw e refl))
        (del-IsFiled s.links s.size_class classes ring filed sc (head_emptying_pages sc) 24 here
          (omega arith) (omega arith) refl (t.size_class sc) (list_of_page p) i
          (record {
            nfull = ground (arith, n.nfull, less);
            source = ground (arith, n.source, less);
            total = ground (arith, n.total, less);
          }))
