-- ===== src/NbStack/Puts.antt =====
-- nb_stack_put of nb_stack.c while other threads work on the same stack.
use compact_fit.Base.{
  ℕ, ◌+◌, ◌<◌, ◌≡◌, ◌^◌, ◌-◌, ◌%◌, refl, sym, ap, ◌∙◌, arith, List, [], ◌∷◌, ◌++◌, true, false,
  ◌==◌, update, Bool-cases, inl, inr, if◌then◌else◌,
}
use compact_fit.NbStack.{Format, Store, lifo_to_elem, lifo_to_count, put_round, nb_stack_put}
use compact_fit.NbStack.Layout.{IsFormat}
use compact_fit.NbStack.Chain.{
  IsStack, Own, Outside, Linked-frame, next_version, put_swap, Own-link, Own-kept,
  nb_stack_put-append,
}
use compact_fit.NbStack.Others.{Act, acts, all_after, completed, AllAllowed, IsRun, acts-IsRun}

-- The version of the stack.
abbrev pub version_of : Format → Store → ℕ
version_of f s = lifo_to_count f s.stack

-- The store in which the others act: the chain is linked to the top that was loaded.
abbrev pub linked : Format → Store → ℕ → Store
linked f s last = record s { mem = update s.mem last (lifo_to_elem f s.stack) }

-- The loop ends in the first round in which the others complete nothing. What it finds then on the
-- stack that held `xs`, and how many operations the others have completed before.
abbrev pub found : List (List Act) → List ℕ → List ℕ
found [] xs = xs
found (d ∷ rest) xs = if completed d xs == 0 then xs else found rest (all_after d xs)

abbrev pub passed : List (List Act) → List ℕ → ℕ
passed [] xs = 0
passed (d ∷ rest) xs =
    if completed d xs == 0 then 0 else completed d xs + passed rest (all_after d xs)

abbrev pub disturbances : Format → List (List Act) → List (Store → Store)
disturbances f [] = []
disturbances f (d ∷ rest) = acts f d ∷ disturbances f rest

module _ (f : Format) (p last : ℕ) (ps : List ℕ) where
  -- The others do in each round that takes place what they may.
  abbrev pub IsDisturbed : List (List Act) → Store → List ℕ → Type 0
  IsDisturbed [] s xs = Unit {0}
  IsDisturbed (d ∷ rest) s xs =
      AllAllowed f (last ∷ ps) d (linked f s last) xs
      × ((completed d xs == 0) ≡ false
          → IsDisturbed rest (put_round f (acts f d) s p last).0 (all_after d xs))

module _ (f : Format) (law : IsFormat f) (d : List Act) (s : Store) (xs : List ℕ) (count p : ℕ)
    (ps : List ℕ) (last : ℕ) (allowed : AllAllowed f (last ∷ ps) d (linked f s last) xs)
    (st : IsStack f s xs count) (room : count + completed d xs + 1 < 2 ^ (64 - f.bits))
    (own : Own f s.mem p ps last) (out : Outside (last ∷ ps) xs) where
  linked-IsStack : IsStack f (linked f s last) xs count
  linked-IsStack = record {
    path =
        Linked-frame f s.mem (update s.mem last (lifo_to_elem f s.stack)) (lifo_to_elem f s.stack)
          xs 0 st.path (λ c i. ground (arith, out last));
    version = st.version;
  }

  run :
      IsRun f
        (last ∷ ps)
        (linked f s last)
        xs
        count
        (acts f d (linked f s last))
        (all_after d xs)
        (completed d xs)
  run = acts-IsRun f law (last ∷ ps) d (linked f s last) xs count allowed linked-IsStack room out

  chain-Own : Own f (acts f d (linked f s last)).mem p ps last
  chain-Own =
      let first = lifo_to_elem f s.stack in
      Own-kept f law (update s.mem last first) (acts f d (linked f s last)).mem p ps last run.kept
        (Own-link f law s.mem p ps last first own)

  -- The word differs exactly if the others have completed an operation.
  word_differs : ((acts f d (linked f s last)).stack == s.stack) ≡ (completed d xs == 0)
  word_differs =
      let t = acts f d (linked f s last) in
      elim (Bool-cases (completed d xs == 0)) [
        | inl e ↦
            let same : t.stack ≡ s.stack = (run.steady (ground (arith, e))).0 in
            rw e (ground (arith, same))
        | inr e ↦ elim (Bool-cases (t.stack == s.stack)) [
          | inr ne ↦ rw (e, ne) refl
          | inl eq ↦
              let same : t.stack ≡ s.stack = ground (arith, eq) in
              let versions : lifo_to_count f t.stack ≡ lifo_to_count f s.stack =
                ap (lifo_to_count f) same in
              absurd (ground (arith, versions, run.stack.version, st.version, e))
        ]
      ]

  ending :
      (completed d xs == 0) ≡ true
      → let (t, ended) = put_round f (acts f d) s p last in
        (ended ≡ true) × IsStack f t (ps ++ last ∷ xs) (count + 1)
  unfolding put_round
  ending none =
      let t = acts f d (linked f s last) in
      let (word, elems) = run.steady (ground (arith, none)) in
      let v : (lifo_to_count f s.stack + 1) % 2 ^ 64 ≡ count + 1 =
        rw st.version (next_version f count (omega (arith, room))) in
      let e : (t.stack == s.stack) ≡ true = word_differs ∙ none in
      let link : t.mem last ≡ lifo_to_elem f t.stack =
        run.kept last (ground arith) ∙ (ground arith) ∙ ap (lifo_to_elem f) (sym word) in
      rw (e, v)
        (
          refl,
          put_swap f law t xs count p ps last
              (record {
                path = rw elems at run.stack.path;
                version = run.stack.version ∙ ground (arith, none);
              })
              (omega (arith, room)) chain-Own out link,
        )

  going_on :
      (completed d xs == 0) ≡ false
      → let (t, ended) = put_round f (acts f d) s p last in
        (ended ≡ false)
        × IsStack f t (all_after d xs) (count + completed d xs)
        × Own f t.mem p ps last
        × Outside (last ∷ ps) (all_after d xs)
  unfolding put_round
  going_on some_done =
      let e : ((acts f d (linked f s last)).stack == s.stack) ≡ false = word_differs ∙ some_done in
      rw e (refl, run.stack, chain-Own, run.outside)

  -- A round of nb_stack_put ends the loop exactly if the other threads have completed no operation on
  -- the stack meanwhile, and the version grows by one for each operation completed, theirs and that of
  -- the round. The others complete puts and gets and write to elements that are not on the stack; the
  -- version has room for their operations and the round's; and the chain is the caller's own, not on
  -- the stack, and left alone by the others.
  pub put_round-progress :
      let (t, ended) = put_round f (acts f d) s p last in
      (ended ≡ (completed d xs == 0))
      × (version_of f t ≡ version_of f s + completed d xs + (if completed d xs == 0 then 1 else 0))
  put_round-progress = elim (Bool-cases (completed d xs == 0)) [
    | inl e ↦
        let (ends, after) = ending e in
        rw (ends, e) (refl, ground (arith, after.version, st.version, e))
    | inr e ↦
        let (ends, after, _, _) = going_on e in
        rw (ends, e) (refl, ground (arith, after.version, st.version))
  ]

-- Whatever finitely many disturbances other threads cause, by completing puts and gets and by writing
-- to elements that are not on the stack, nb_stack_put ends with its whole chain on top of exactly the
-- elements that they have left, its version one higher for each operation completed, theirs and its
-- own. The version has room for these operations, and the chain is the caller's own, not on the stack,
-- and left alone by the others.
pub nb_stack_put-disturbed :
    (f : Format) (law : IsFormat f) (disturb : List (List Act)) (s : Store) (xs : List ℕ)
    (count p : ℕ) (ps : List ℕ) (last : ℕ)
    → IsDisturbed f p last ps disturb s xs
    → IsStack f s xs count
    → count + passed disturb xs + 1 < 2 ^ (64 - f.bits)
    → Own f s.mem p ps last
    → Outside (last ∷ ps) xs
    → IsStack f
        (nb_stack_put f (disturbances f disturb) s p last)
        (ps ++ last ∷ found disturb xs)
        (count + passed disturb xs + 1)
unfolding nb_stack_put
nb_stack_put-disturbed f law [] s xs count p ps last allowed st room own out =
    let st' = nb_stack_put-append f law s xs count p ps last st (omega (arith, room)) own out in
    record { path = st'.path; version = st'.version ∙ omega arith }
nb_stack_put-disturbed f law (d ∷ rest) s xs count p ps last (allowed, later) st room own out =
    elim (Bool-cases (completed d xs == 0)) [
      | inl e ↦
          let (ends, st') =
            ending f law d s xs count p ps last allowed st (ground (arith, room, e)) own out e in
          rw (e, ends, nb_stack_put)
            (record { path = st'.path; version = st'.version ∙ omega arith })
      | inr e ↦
          let room' = rw e at room in
          let (goes_on, st', own', out') =
            going_on f law d s xs count p ps last allowed st (omega (arith, room')) own out e in
          let done =
            nb_stack_put-disturbed f law rest _ (all_after d xs) (count + completed d xs) p ps last
              (later e) st' (omega (arith, room')) own' out' in
          rw (e, goes_on, nb_stack_put)
            (record { path = done.path; version = done.version ∙ omega arith })
    ]
