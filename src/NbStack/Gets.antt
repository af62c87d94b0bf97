-- ===== src/NbStack/Gets.antt =====
-- nb_stack_get of nb_stack.c while other threads work on the same stack, also on the element that it
-- is about to take.
use compact_fit.Base.{
  ℕ, ◌+◌, ◌<◌, ◌≡◌, ◌^◌, ◌-◌, ◌%◌, refl, sym, ap, ◌∙◌, arith, List, [], ◌∷◌, true, false, ◌==◌,
  Bool-cases, inl, inr, if◌then◌else◌,
}
use mathlib.Core.Path.{subst}
use compact_fit.NbStack.{Format, Store, lifo_to_elem, lifo_to_count, get_round, nb_stack_get}
use compact_fit.NbStack.Layout.{IsFormat}
use compact_fit.NbStack.Chain.{IsStack, Linked, next_version}
use compact_fit.NbStack.Take.{Linked-start, get_swap, nb_stack_get-cons, nb_stack_get-nil}
use compact_fit.NbStack.Others.{Act, acts, all_after, completed, AllAllowed, IsRun, acts-IsRun}
use compact_fit.NbStack.Puts.{version_of}

-- What the others do in a round: before the element's next word is read, and after.
abbrev pub Both : Type 0
Both = List Act × List Act

abbrev pub both_after : Both → List ℕ → List ℕ
both_after (d, d') xs = all_after d' (all_after d xs)

abbrev pub both_completed : Both → List ℕ → ℕ
both_completed (d, d') xs = completed d xs + completed d' (all_after d xs)

-- The loop ends when it loads the null pointer, or in the first round in which the others complete
-- nothing. What it finds then on the stack that held `xs`, and how many operations the others have
-- completed before.
abbrev pub found : List Both → List ℕ → List ℕ
found [] xs = xs
found (d ∷ rest) [] = []
found (d ∷ rest) (x ∷ xs) =
    if both_completed d (x ∷ xs) == 0 then x ∷ xs else found rest (both_after d (x ∷ xs))

abbrev pub passed : List Both → List ℕ → ℕ
passed [] xs = 0
passed (d ∷ rest) [] = 0
passed (d ∷ rest) (x ∷ xs) =
    if both_completed d (x ∷ xs) == 0
    then 0
    else both_completed d (x ∷ xs) + passed rest (both_after d (x ∷ xs))

abbrev pub disturbances : Format → List Both → List ((Store → Store) × (Store → Store))
disturbances f [] = []
disturbances f ((d, d') ∷ rest) = (acts f d, acts f d') ∷ disturbances f rest

-- The element on top, null if there is none, the others, and one operation unless there is none.
abbrev pub top : List ℕ → ℕ
top [] = 0
top (x ∷ xs) = x

abbrev pub below : List ℕ → List ℕ
below [] = []
below (x ∷ xs) = xs

abbrev pub taken : List ℕ → ℕ
taken [] = 0
taken (x ∷ xs) = 1

module _ (f : Format) where
  -- The others do in each round that takes place what they may.
  abbrev pub IsDisturbed : List Both → Store → List ℕ → Type 0
  IsDisturbed [] s xs = Unit {0}
  IsDisturbed (d ∷ rest) s [] = Unit {0}
  IsDisturbed ((d, d') ∷ rest) s (x ∷ xs) =
      AllAllowed f [] d s (x ∷ xs)
      × AllAllowed f [] d' (acts f d s) (all_after d (x ∷ xs))
      × ((both_completed (d, d') (x ∷ xs) == 0) ≡ false
          → IsDisturbed rest (get_round f (acts f d, acts f d') s).0 (both_after (d, d') (x ∷ xs)))

module _ (f : Format) (law : IsFormat f) (d d' : List Act) (s : Store) (x : ℕ) (xs : List ℕ)
    (count : ℕ) (allowed : AllAllowed f [] d s (x ∷ xs))
    (allowed' : AllAllowed f [] d' (acts f d s) (all_after d (x ∷ xs)))
    (st : IsStack f s (x ∷ xs) count)
    (room : count + both_completed (d, d') (x ∷ xs) + 1 < 2 ^ (64 - f.bits)) where
  run : IsRun f [] s (x ∷ xs) count (acts f d s) (all_after d (x ∷ xs)) (completed d (x ∷ xs))
  run = acts-IsRun f law [] d s (x ∷ xs) count allowed st (omega (arith, room)) (λ c i. cc)

  run' :
      IsRun f []
        (acts f d s)
        (all_after d (x ∷ xs))
        (count + completed d (x ∷ xs))
        (acts f d' (acts f d s))
        (both_after (d, d') (x ∷ xs))
        (completed d' (all_after d (x ∷ xs)))
  run' =
      acts-IsRun f law [] d' (acts f d s) (all_after d (x ∷ xs)) (count + completed d (x ∷ xs))
        allowed' run.stack (omega (arith, room)) (λ c i. cc)

  some_elem : (lifo_to_elem f s.stack == 0) ≡ false
  some_elem = ground (arith, st.path.0, st.path.1.0)

  -- The word differs exactly if the others have completed an operation.
  word_differs :
      ((acts f d' (acts f d s)).stack == s.stack) ≡ (both_completed (d, d') (x ∷ xs) == 0)
  word_differs =
      let t = acts f d' (acts f d s) in
      elim (Bool-cases (both_completed (d, d') (x ∷ xs) == 0)) [
        | inl e ↦
            let word = (run.steady (ground (arith, e))).0 in
            let word' = (run'.steady (ground (arith, e))).0 in rw e (ground (arith, word, word'))
        | inr e ↦ elim (Bool-cases (t.stack == s.stack)) [
          | inr ne ↦ rw (e, ne) refl
          | inl eq ↦
              let same : t.stack ≡ s.stack = ground (arith, eq) in
              let versions : lifo_to_count f t.stack ≡ lifo_to_count f s.stack =
                ap (lifo_to_count f) same in
              absurd (ground (arith, versions, run'.stack.version, st.version, e))
        ]
      ]

  ending :
      (both_completed (d, d') (x ∷ xs) == 0) ≡ true
      → let (u, p, ended) = get_round f (acts f d, acts f d') s in
        (ended ≡ true) × (p ≡ x) × IsStack f u xs (count + 1)
  unfolding get_round
  ending none =
      let t = acts f d' (acts f d s) in
      let elems = (run.steady (ground (arith, none))).1 in
      let elems' = (run'.steady (ground (arith, none))).1 ∙ elems in
      let v : (lifo_to_count f s.stack + 1) % 2 ^ 64 ≡ count + 1 =
        rw st.version (next_version f count (omega (arith, room))) in
      let e = word_differs ∙ none in
      let path : Linked f (acts f d s).mem (lifo_to_elem f (acts f d s).stack) (x ∷ xs) 0 =
        rw elems at run.stack.path in
      let path' : Linked f t.mem (lifo_to_elem f t.stack) (x ∷ xs) 0 =
        rw elems' at run'.stack.path in
      let next =
        Linked-start f (acts f d s).mem t.mem ((acts f d s).mem x) (t.mem x) xs 0 path.2 path'.2 in
      rw (v, some_elem, e, st.path.0)
        (
          refl,
          refl,
          get_swap f law t ((acts f d s).mem x) x xs count (omega (arith, room))
              (record { path = path'; version = run'.stack.version ∙ ground (arith, none) }) next,
        )

  going_on :
      (both_completed (d, d') (x ∷ xs) == 0) ≡ false
      → let (u, p, ended) = get_round f (acts f d, acts f d') s in
        (ended ≡ false)
        × IsStack f u (both_after (d, d') (x ∷ xs)) (count + both_completed (d, d') (x ∷ xs))
  unfolding get_round
  going_on some_done =
      let e = word_differs ∙ some_done in
      rw (some_elem, e)
        (refl, record { path = run'.stack.path; version = run'.stack.version ∙ omega arith })

  -- A round of nb_stack_get on a stack that is not empty ends the loop exactly if the other threads
  -- have completed no operation on the stack meanwhile, and the version grows by one for each
  -- operation completed, theirs and that of the round. The others complete puts and gets and write to
  -- elements that are not on the stack, before and after the round reads the element's next word; the
  -- version has room for their operations and the round's.
  pub get_round-progress :
      let (u, p, ended) = get_round f (acts f d, acts f d') s in
      (ended ≡ (both_completed (d, d') (x ∷ xs) == 0))
      × (version_of f u
          ≡ version_of f s
            + both_completed (d, d') (x ∷ xs)
            + (if both_completed (d, d') (x ∷ xs) == 0 then 1 else 0))
  get_round-progress = elim (Bool-cases (both_completed (d, d') (x ∷ xs) == 0)) [
    | inl e ↦
        let (ends, _, after) = ending e in
        rw (ends, e) (refl, ground (arith, after.version, st.version, e))
    | inr e ↦
        let (ends, after) = going_on e in
        rw (ends, e) (refl, ground (arith, after.version, st.version))
  ]

null_round :
    (f : Format) (o o' : Store → Store) (s : Store) (count : ℕ)
    → IsStack f s [] count
    → let (u, p, ended) = get_round f (o, o') s in (ended ≡ true) × (p ≡ 0) × (u ≡ s)
unfolding get_round
null_round f o o' s count st = rw st.path (refl, refl, refl)

-- Whatever finitely many disturbances other threads cause, by completing puts and gets and by writing
-- to elements that are not on the stack, nb_stack_get ends with the first of exactly the elements that
-- they have left, or null if they have left none; the others stay on the stack in order, and the
-- version is one higher for each operation completed, theirs and its own. The version has room for
-- these operations.
pub nb_stack_get-disturbed :
    (f : Format) (law : IsFormat f) (disturb : List Both) (s : Store) (xs : List ℕ) (count : ℕ)
    → IsDisturbed f disturb s xs
    → IsStack f s xs count
    → count + passed disturb xs + 1 < 2 ^ (64 - f.bits)
    → let (u, p) = nb_stack_get f (disturbances f disturb) s in
      let ys = found disturb xs in
      (p ≡ top ys) × IsStack f u (below ys) (count + passed disturb xs + taken ys)
unfolding nb_stack_get
nb_stack_get-disturbed f law [] s [] count allowed st room =
    let calm = nb_stack_get-nil f law s count st in
    subst (λ (r : Store × ℕ). (r.1 ≡ 0) × IsStack f r.0 [] (count + 0 + 0)) (sym calm)
      (refl, record { path = st.path; version = st.version ∙ omega arith })
nb_stack_get-disturbed f law [] s (x ∷ xs) count allowed st room =
    let (first, _, left) = nb_stack_get-cons f law s x xs count st (omega (arith, room)) in
    (first, record { path = left.path; version = left.version ∙ omega arith })
nb_stack_get-disturbed f law ((d, d') ∷ rest) s [] count allowed st room =
    let (ends, null, same) = null_round f (acts f d) (acts f d') s count st in
    rw (ends, nb_stack_get)
      (
        null,
        subst (λ (u : Store). IsStack f u [] (count + 0 + 0)) (sym same)
            (record { path = st.path; version = st.version ∙ omega arith }),
      )
nb_stack_get-disturbed f law ((d, d') ∷ rest) s (x ∷ xs) count (allowed, allowed', later) st room =
    elim (Bool-cases (both_completed (d, d') (x ∷ xs) == 0)) [
      | inl e ↦
          let (ends, first, left) =
            ending f law d d' s x xs count allowed allowed' st (ground (arith, room, e)) e in
          rw (e, ends, nb_stack_get)
            (first, record { path = left.path; version = left.version ∙ omega arith })
      | inr e ↦
          let room' = rw e at room in
          let (goes_on, st') =
            going_on f law d d' s x xs count allowed allowed' st (omega (arith, room')) e in
          let (first, left) =
            nb_stack_get-disturbed f law rest _ (both_after (d, d') (x ∷ xs))
              (count + both_completed (d, d') (x ∷ xs)) (later e) st' (omega (arith, room')) in
          rw (e, goes_on, nb_stack_get)
            (first, record { path = left.path; version = left.version ∙ omega arith })
    ]
