-- ===== src/Tests/Stacks.antt =====
-- The stack, also under disturbance, and the copying loop at concrete inputs.
use compact_fit.Base.{
  ℕ, ◌≡◌, refl, arith, List, [], ◌∷◌, ◌==◌, if◌then◌else◌, ◌+◌, ◌^◌, false, Bool-cases, inl, inr,
}
use compact_fit.NbStack.{
  put_round, get_round, Store, page_format, nb_stack_put, nb_stack_get, lifo_to_elem, lifo_to_count,
}
use compact_fit.NbStack.Layout.{page-IsFormat}
use compact_fit.NbStack.Chain.{IsStack, IsElem, Own, has}
use compact_fit.NbStack.Mutex.{
  MutexStack, mutex_put, mutex_get, mutex_peek, Leads, mutex_get-mutex_put,
}
use compact_fit.NbStack.Others.{Act, acts, AllAllowed}
use compact_fit.NbStack.Puts.{version_of, put_round-progress, nb_stack_put-disturbed}
use compact_fit.NbStack.Gets.{get_round-progress, nb_stack_get-disturbed}

abbrev empty_store : Store
empty_store = record { mem = λ a. 0; stack = 0 }

empty-IsStack : IsStack page_format empty_store [] 0
unfolding lifo_to_elem lifo_to_count
empty-IsStack = record { path = refl; version = refl }

-- The chain of two pages at 16384 and 32768, linked by the first word of the first.
abbrev two_pages : Store
two_pages = record { mem = λ a. if a == 16384 then 32768 else 0; stack = 0 }

-- The page at 16384 alone, with version 1.
abbrev one_page : Store
one_page = record { mem = λ a. 0; stack = 2 ^ 18 + 1 }

one-IsStack : IsStack page_format one_page (16384 ∷ []) 1
unfolding lifo_to_elem lifo_to_count
one-IsStack = record {
  path = (refl, (λ e. omega (arith, e), refl, omega arith), refl);
  version = refl;
}

-- Another thread takes the page, writes to it, and puts it back: the same address is on top again.
abbrev taken_and_put_back : List Act
taken_and_put_back = Act.get ∷ Act.write 16384 7 ∷ Act.put 16384 [] 16384 ∷ []

abbrev new_page : ℕ
new_page = 49152

is_page : (x : ℕ) → x ≡ 16384 → IsElem page_format x
is_page x e = rw e ((λ z. omega (arith, z)), refl, omega arith)

one-Own : (mem : ℕ → ℕ) (x : ℕ) → IsElem page_format x → Own page_format mem x [] x
one-Own mem x elem = record { chain = refl; elem = elem; apart = refl }

new_page-IsElem : IsElem page_format new_page
new_page-IsElem = (λ z. omega (arith, z), refl, omega arith)

put_back-AllAllowed :
    (own : List ℕ) (s : Store)
    → has 16384 own ≡ false
    → AllAllowed page_format own taken_and_put_back s (16384 ∷ [])
put_back-AllAllowed own s off = (
  tt,
  (
    (refl, off),
    (
      (
        one-Own _ 16384 (is_page 16384 refl),
        λ c i. refl,
        λ c i. elim (Bool-cases (c == 16384)) [
          | inr e ↦ rw e refl
          | inl e ↦ let at : c ≡ 16384 = ground arith in absurd (cc (i, off, at))
        ],
      ),
      tt,
    ),
  ),
)

put_round-progress_example :
    let (t, ended) =
      put_round page_format (acts page_format taken_and_put_back) one_page new_page new_page in
    (ended ≡ false) × (version_of page_format t ≡ version_of page_format one_page + 2 + 0)
put_round-progress_example =
    put_round-progress page_format page-IsFormat taken_and_put_back one_page (16384 ∷ []) 1 new_page
      [] new_page (put_back-AllAllowed (new_page ∷ []) _ refl) one-IsStack (omega arith)
      (one-Own _ new_page new_page-IsElem) (λ c i. ground (arith, i))

get_round-progress_example :
    let (t, p, ended) =
      get_round page_format (acts page_format taken_and_put_back, acts page_format []) one_page in
    (ended ≡ false) × (version_of page_format t ≡ version_of page_format one_page + 2 + 0)
get_round-progress_example =
    get_round-progress page_format page-IsFormat taken_and_put_back [] one_page 16384 [] 1
      (put_back-AllAllowed [] _ refl) tt one-IsStack (omega arith)

-- One such disturbance, and then none.
nb_stack_put-disturbed_example :
    IsStack page_format
      (nb_stack_put page_format
        (acts page_format taken_and_put_back ∷ [])
        one_page
        new_page
        new_page)
      (new_page ∷ 16384 ∷ [])
      4
nb_stack_put-disturbed_example =
    nb_stack_put-disturbed page_format page-IsFormat (taken_and_put_back ∷ []) one_page (16384 ∷ [])
      1 new_page [] new_page (put_back-AllAllowed (new_page ∷ []) _ refl, λ some_done. tt)
      one-IsStack (omega arith) (one-Own _ new_page new_page-IsElem) (λ c i. ground (arith, i))

nb_stack_get-disturbed_example :
    let (u, p) =
      nb_stack_get page_format
        ((acts page_format taken_and_put_back, acts page_format []) ∷ [])
        one_page in
    (p ≡ 16384) × IsStack page_format u [] 4
nb_stack_get-disturbed_example =
    nb_stack_get-disturbed page_format page-IsFormat ((taken_and_put_back, []) ∷ []) one_page
      (16384 ∷ []) 1 (put_back-AllAllowed [] _ refl, tt, λ some_done. tt) one-IsStack (omega arith)

-- The page at 16384 alone, behind the mutex.
abbrev locked : MutexStack
locked = record { mem = λ a. 0; head = 16384 }

mutex_get-mutex_put_example :
    let t = mutex_put locked 32768 in
    let (u, q) = mutex_get t in
    Leads t.mem t.head (32768 ∷ 16384 ∷ [])
    × (mutex_peek t ≡ 32768)
    × (q ≡ 32768)
    × Leads u.mem u.head (16384 ∷ [])
mutex_get-mutex_put_example =
    mutex_get-mutex_put locked (16384 ∷ []) 32768 (refl, (λ e. omega (arith, e)), refl)
      (λ e. omega (arith, e)) refl
