-- ===== src/NbStack.antt =====
-- nb_stack.c with a double word compare-and-swap, and its uses page_stack.c, aa_stack.c and
-- aa_bucket_stack.c: a stack of linked elements behind one 64-bit word, whose low bits hold the
-- address of the first element and whose high bits a version.
pub mod Layout
pub mod Chain
pub mod Take
pub mod Others
pub mod Puts
pub mod Gets
pub mod Mutex
pub mod Alone
use compact_fit.Base.{
  ℕ, ◌+◌, ◌-◌, ◌*◌, ◌/◌, ◌%◌, ◌^◌, bit_and, bit_or, Bool, true, false, List, [], ◌∷◌, ◌==◌,
  if◌then◌else◌, update,
}

-- The word at each address, and the word of the stack. An element's `next` is its first word.
pub record Store : Type 0 where
  pub mem : ℕ → ℕ
  pub stack : ℕ

-- The `bits`, `mask` and `shift` that a user of the stack passes.
pub record Format : Type 0 where
  pub bits : ℕ
  pub mask : ℕ
  pub shift : ℕ

-- page_stack.c: pages are 16k.
abbrev pub page_format : Format
page_format = record { bits = 18; mask = 2 ^ 18 - 1; shift = 32 - 18 }

-- aa_stack.c and aa_bucket_stack.c: buckets are aligned to words.
abbrev pub aa_format : Format
aa_format = record { bits = 30; mask = 2 ^ 30 - 1; shift = 32 - 30 }

abbrev u32 : ℕ → ℕ
u32 n = n % 2 ^ 32

abbrev u64 : ℕ → ℕ
u64 n = n % 2 ^ 64

abbrev pub nb_stack_initializer : ℕ
nb_stack_initializer = 0

unfoldable pub lifo_to_elem : Format → ℕ → ℕ
lifo_to_elem f stack = u32 (bit_and (u32 stack) f.mask * 2 ^ f.shift)

unfoldable pub lifo_to_count : Format → ℕ → ℕ
lifo_to_count f stack = stack / 2 ^ f.bits

unfoldable pub pack : Format → ℕ → ℕ → ℕ
pack f p count = bit_or (u32 p / 2 ^ f.shift) (u64 (count * 2 ^ f.bits))

-- `cmpxchg64` of arch_dep.h: the store after it, and the word that stood there.
unfoldable pub cmpxchg64 : Store → ℕ → ℕ → Store × ℕ
cmpxchg64 s old new = (if s.stack == old then record s { stack = new } else s, s.stack)

-- One round of the loop of `nb_stack_put`. What other threads do between the load of the word and
-- the compare-and-swap is `others`; the flag says whether the loop ends.
unfoldable pub put_round : Format → (Store → Store) → Store → ℕ → ℕ → Store × Bool
unfolding cmpxchg64
put_round f others s p last =
    let old = s.stack in
    let first = lifo_to_elem f old in
    let version = u64 (lifo_to_count f old + 1) in
    let linked = record s { mem = update s.mem last first } in
    let new = pack f p version in
    let (s', seen) = cmpxchg64 (others linked) old new in (s', seen == old)

-- The loop, disturbed in each of its first rounds as the list says, and then no more.
pub nb_stack_put : Format → List (Store → Store) → Store → ℕ → ℕ → Store
unfolding put_round
nb_stack_put f [] s p last = (put_round f (λ t. t) s p last).0
nb_stack_put f (others ∷ rest) s p last = elim (put_round f others s p last).1 [
  | true ↦ (put_round f others s p last).0
  | false ↦ nb_stack_put f rest (put_round f others s p last).0 p last
]

-- One round of the loop of `nb_stack_get`: the store, the element loaded, and whether the loop ends.
-- Other threads act between the load of the word and that of the element's `next`, and again before
-- the compare-and-swap.
unfoldable pub get_round : Format → (Store → Store) × (Store → Store) → Store → Store × ℕ × Bool
unfolding cmpxchg64
get_round f (others, others') s =
    let old = s.stack in
    let p = lifo_to_elem f old in
    let version = u64 (lifo_to_count f old + 1) in
    let t = others s in
    let new = pack f (t.mem p) version in
    let (s', seen) = cmpxchg64 (others' t) old new in
    if p == 0 then (s, p, true) else (s', p, seen == old)

unfoldable pub nb_stack_get : Format → List ((Store → Store) × (Store → Store)) → Store → Store × ℕ
unfolding get_round
nb_stack_get f [] s = ((get_round f (λ t. t, λ t. t) s).0, (get_round f (λ t. t, λ t. t) s).1)
nb_stack_get f (others ∷ rest) s = elim (get_round f others s).2 [
  | true ↦ ((get_round f others s).0, (get_round f others s).1)
  | false ↦ nb_stack_get f rest (get_round f others s).0
]

pub nb_stack_peek : Format → Store → ℕ
unfolding lifo_to_elem
nb_stack_peek f s = lifo_to_elem f s.stack
