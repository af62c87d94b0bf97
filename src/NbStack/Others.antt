-- ===== src/NbStack/Others.antt =====
-- What other threads do to a stack of nb_stack.c, as runs of the same code: they complete a put or a
-- get, and write words of elements that they have taken off or not yet put.
use compact_fit.Base.{
  ℕ, ◌+◌, ◌<◌, ◌≡◌, ◌^◌, ◌-◌, refl, sym, ap, ◌∙◌, arith, List, [], ◌∷◌, ◌++◌, ◌||◌, true, false,
  ◌==◌, update, Bool-cases, inl, inr,
}
use mathlib.Core.Path.{subst}
use compact_fit.NbStack.{
  Format, Store, lifo_to_elem, nb_stack_put, nb_stack_get, put_round, cmpxchg64,
}
use compact_fit.NbStack.Layout.{IsFormat}
use compact_fit.NbStack.Chain.{IsStack, Room, Own, Outside, has, Linked-frame, nb_stack_put-append}
use compact_fit.NbStack.Take.{nb_stack_get-cons, nb_stack_get-nil}

-- `put p ps last` puts the chain from `p` through `ps` to `last`.
pub data Act : Type 0 where
  put : ℕ → List ℕ → ℕ → Act
  get : Act
  write : ℕ → ℕ → Act

-- What an act does to the store. An operation of another thread takes effect at its successful
-- compare-and-swap, with the word that it loaded.
pub act : Format → Act → Store → Store
act f (put p ps last) s = nb_stack_put f [] s p last
act f get s = (nb_stack_get f [] s).0
act f (write a v) s = record s { mem = update s.mem a v }

pub acts : Format → List Act → Store → Store
acts f [] s = s
acts f (x ∷ rest) s = acts f rest (act f x s)

-- What an act does to the list of elements, and how many operations it completes on the stack.
abbrev pub elems_after : Act → List ℕ → List ℕ
elems_after (put p ps last) xs = ps ++ last ∷ xs
elems_after get [] = []
elems_after get (x ∷ xs) = xs
elems_after (write a v) xs = xs

abbrev pub completes : Act → List ℕ → ℕ
completes (put p ps last) xs = 1
completes get [] = 0
completes get (x ∷ xs) = 1
completes (write a v) xs = 0

abbrev pub all_after : List Act → List ℕ → List ℕ
all_after [] xs = xs
all_after (x ∷ rest) xs = all_after rest (elems_after x xs)

abbrev pub completed : List Act → List ℕ → ℕ
completed [] xs = 0
completed (x ∷ rest) xs = completes x xs + completed rest (elems_after x xs)

-- A put is of a chain of its own that is not on the stack; a write is not to an element on the stack;
-- neither is to the words at `own`.
abbrev pub IsAllowed : Format → List ℕ → Act → Store → List ℕ → Type 0
IsAllowed f own (put p ps last) s xs =
    Own f s.mem p ps last × Outside (last ∷ ps) xs × Outside own (last ∷ ps)
IsAllowed f own get s xs = Unit {0}
IsAllowed f own (write a v) s xs = (has a xs ≡ false) × (has a own ≡ false)

abbrev pub AllAllowed : Format → List ℕ → List Act → Store → List ℕ → Type 0
AllAllowed f own [] s xs = Unit {0}
AllAllowed f own (x ∷ rest) s xs =
    IsAllowed f own x s xs × AllAllowed f own rest (act f x s) (elems_after x xs)

-- The store `t` is a stack again, after `n` operations, with the words at `own` untouched, and with
-- the same word if there were none.
pub record IsRun (f : Format) (own : List ℕ) (s : Store) (xs : List ℕ) (count : ℕ) (t : Store)
    (ys : List ℕ) (n : ℕ) : Type 0 where
  pub stack : IsStack f t ys (count + n)
  pub outside : Outside own ys
  pub kept : (c : ℕ) → has c own ≡ true → t.mem c ≡ s.mem c
  pub steady : n ≡ 0 → (t.stack ≡ s.stack) × (ys ≡ xs)

-- A put writes the last word of its chain alone.
put_mem :
    (f : Format) (s : Store) (p last c : ℕ)
    → (last == c) ≡ false
    → (nb_stack_put f [] s p last).mem c ≡ s.mem c
unfolding nb_stack_put put_round cmpxchg64
put_mem f s p last c ne = let e : (s.stack == s.stack) ≡ true = ground arith in rw (e, ne) refl

has-append : (c : ℕ) (xs ys : List ℕ) → has c (xs ++ ys) ≡ (has c xs || has c ys)
has-append c [] ys = refl
has-append c (x ∷ xs) ys = let rest = has-append c xs ys in ground (arith, rest)

module _ (f : Format) (law : IsFormat f) (own : List ℕ) where
  idle-IsRun :
      (s : Store) (xs : List ℕ) (count : ℕ)
      → IsStack f s xs count
      → Outside own xs
      → IsRun f own s xs count s xs 0
  idle-IsRun s xs count st out = record {
    stack = record { path = st.path; version = st.version ∙ omega arith };
    outside = out;
    kept = λ c i. refl;
    steady = λ e. (refl, refl);
  }

  act-IsRun :
      (x : Act) (s : Store) (xs : List ℕ) (count : ℕ)
      → IsAllowed f own x s xs
      → IsStack f s xs count
      → Room f count
      → Outside own xs
      → IsRun f own s xs count (act f x s) (elems_after x xs) (completes x xs)
  unfolding act
  act-IsRun (put p ps last) s xs count (mine, off, apart) st room out = record {
    stack = nb_stack_put-append f law s xs count p ps last st room mine off;
    outside = λ c i.
        let no = apart c i in
        let rest = out c i in rw (has-append c ps (last ∷ xs)) (ground (arith, no, rest));
    kept = λ c i. let no = apart c i in put_mem f s p last c (ground (arith, no));
    steady = λ e. absurd (omega (arith, e));
  }
  act-IsRun get s [] count allowed st room out =
      subst (λ (r : Store × ℕ). IsRun f own s [] count r.0 [] 0)
        (sym (nb_stack_get-nil f law s count st)) (idle-IsRun s [] count st out)
  act-IsRun get s (x ∷ xs) count allowed st room out =
      let (first, same, rest) = nb_stack_get-cons f law s x xs count st room in
      record {
        stack = rest;
        outside = λ c i. let no = out c i in ground (arith, no);
        kept = λ c i. ap (λ (m : ℕ → ℕ). m c) same;
        steady = λ e. absurd (omega (arith, e));
      }
  act-IsRun (write a v) s xs count (off, apart) st room out = record {
    stack = record {
      path =
          Linked-frame f s.mem (update s.mem a v) (lifo_to_elem f s.stack) xs 0 st.path
            (λ c i. written c xs off i);
      version = st.version ∙ omega arith;
    };
    outside = out;
    kept = λ c i. written c own apart i;
    steady = λ e. (refl, refl);
  }
    where
      written :
          (c : ℕ) (ys : List ℕ) → has a ys ≡ false → has c ys ≡ true → update s.mem a v c ≡ s.mem c
      written c ys off i = elim (Bool-cases (a == c)) [
        | inl e ↦ let same : a ≡ c = ground arith in absurd (cc (off, i, same))
        | inr e ↦ rw e refl
      ]

  -- The acts of other threads one after the other.
  pub acts-IsRun :
      (xs : List Act) (s : Store) (ys : List ℕ) (count : ℕ)
      → AllAllowed f own xs s ys
      → IsStack f s ys count
      → count + completed xs ys + 1 < 2 ^ (64 - f.bits)
      → Outside own ys
      → IsRun f own s ys count (acts f xs s) (all_after xs ys) (completed xs ys)
  unfolding acts
  acts-IsRun [] s ys count allowed st room out = idle-IsRun s ys count st out
  acts-IsRun (x ∷ xs) s ys count (allowed, later) st room out =
      let first = act-IsRun x s ys count allowed st (omega (arith, room)) out in
      let then =
        acts-IsRun xs (act f x s) (elems_after x ys) (count + completes x ys) later first.stack
          (omega (arith, room)) first.outside in
      record {
        stack = record { path = then.stack.path; version = then.stack.version ∙ omega arith };
        outside = then.outside;
        kept = λ c i. then.kept c i ∙ first.kept c i;
        steady = λ none.
            let (word, elems) = then.steady (omega (arith, none)) in
            let (word', elems') = first.steady (omega (arith, none)) in
            (word ∙ word', elems ∙ elems');
      }
