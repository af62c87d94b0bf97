-- ===== src/NbStack/Mutex.antt =====
-- nb_stack.c where there is no double word compare-and-swap: a stack behind a mutex, of which every
-- operation is one step. An element's first word is its `next`.
use compact_fit.Base.{
  ℕ, ◌≡◌, ◌≢◌, refl, arith, true, false, ◌==◌, List, [], ◌∷◌, if◌then◌else◌, update,
}
use compact_fit.NbStack.Chain.{has}

pub record MutexStack : Type 0 where
  pub mem : ℕ → ℕ
  pub head : ℕ

pub mutex_put : MutexStack → ℕ → MutexStack
mutex_put s p = record { mem = update s.mem p s.head; head = p }

-- The stack, and the element or null.
pub mutex_get : MutexStack → MutexStack × ℕ
mutex_get s =
    let retval = s.head in (if retval == 0 then s else record s { head = s.mem retval }, retval)

pub mutex_peek : MutexStack → ℕ
mutex_peek s = s.head

-- From `a` the pointers lead through the elements to null.
abbrev pub Leads : (ℕ → ℕ) → ℕ → List ℕ → Type 0
Leads mem a [] = a ≡ 0
Leads mem a (x ∷ xs) = (a ≡ x) × (x ≢ 0) × Leads mem (mem x) xs

Leads-update :
    (mem : ℕ → ℕ) (a : ℕ) (xs : List ℕ) (p v : ℕ)
    → Leads mem a xs
    → has p xs ≡ false
    → Leads (update mem p v) a xs
Leads-update mem a [] p v h out = h
Leads-update mem a (x ∷ xs) p v h out =
    let ne : (p == x) ≡ false = ground (arith, out) in
    let rest = Leads-update mem (mem x) xs p v h.2 (ground (arith, out)) in (h.0, h.1, rw ne rest)

-- On a stack of the elements xs, mutex_put of an element that is not null and not among them makes
-- the stack of p and xs: mutex_peek finds p on it, and mutex_get returns p and leaves a stack of xs.
pub mutex_get-mutex_put :
    (s : MutexStack) (xs : List ℕ) (p : ℕ)
    → Leads s.mem s.head xs
    → p ≢ 0
    → has p xs ≡ false
    → let t = mutex_put s p in
      let (u, q) = mutex_get t in
      Leads t.mem t.head (p ∷ xs) × (mutex_peek t ≡ p) × (q ≡ p) × Leads u.mem u.head xs
unfolding mutex_put mutex_get mutex_peek
mutex_get-mutex_put s xs p leads some_elem out =
    let rest = Leads-update s.mem s.head xs p s.head leads out in
    let self : (p == p) ≡ true = ground arith in
    let not_null : (p == 0) ≡ false = ground arith in
    ((refl, some_elem, rw self rest), refl, refl, rw (not_null, self) rest)
