-- ===== src/NbStack/Alone.antt =====
-- The stack with nobody else at work: what its word leads to after each operation, whatever the
-- version in it.
use compact_fit.Base.{
  ℕ, ◌+◌, ◌*◌, ◌/◌, ◌%◌, ◌^◌, ◌<◌, ◌≡◌, refl, arith, [], true, false, ◌==◌, update, bit_or,
}
use compact_fit.Bits.{and-mask, or-fields}
use compact_fit.NbStack.{
  Format, Store, page_format, aa_format, lifo_to_elem, pack, nb_stack_put, nb_stack_get, put_round,
  get_round, cmpxchg64,
}

-- Null or an address of an element.
pub record IsPlace (f : Format) (p : ℕ) : Type 0 where
  pub aligned : p % 2 ^ f.shift ≡ 0
  pub address : p < 2 ^ 32

-- The word leads to the address packed into it, also where the version has wrapped around.
abbrev pub LeadsBack : Format → Type 0
LeadsBack f = (p count : ℕ) → IsPlace f p → lifo_to_elem f (pack f p count) ≡ p

pub page-LeadsBack : LeadsBack page_format
unfolding lifo_to_elem pack
page-LeadsBack p count at =
    let e : p % 2 ^ 32 ≡ p = omega (arith, at.address) in
    let e' : count * 2 ^ 18 % 2 ^ 64 ≡ count % 2 ^ 46 * 2 ^ 18 = omega arith in
    let sum : bit_or (p / 2 ^ 14) (count % 2 ^ 46 * 2 ^ 18) ≡ p / 2 ^ 14 + count % 2 ^ 46 * 2 ^ 18 =
      or-fields 18 (count % 2 ^ 46) (p / 2 ^ 14) (omega (arith, at.address)) in
    rw (e, e', sum, and-mask 18 ((p / 2 ^ 14 + count % 2 ^ 46 * 2 ^ 18) % 2 ^ 32))
      (omega (arith, at.aligned, at.address))

pub aa-LeadsBack : LeadsBack aa_format
unfolding lifo_to_elem pack
aa-LeadsBack p count at =
    let e : p % 2 ^ 32 ≡ p = omega (arith, at.address) in
    let e' : count * 2 ^ 30 % 2 ^ 64 ≡ count % 2 ^ 34 * 2 ^ 30 = omega arith in
    let sum : bit_or (p / 2 ^ 2) (count % 2 ^ 34 * 2 ^ 30) ≡ p / 2 ^ 2 + count % 2 ^ 34 * 2 ^ 30 =
      or-fields 30 (count % 2 ^ 34) (p / 2 ^ 2) (omega (arith, at.address)) in
    rw (e, e', sum, and-mask 30 ((p / 2 ^ 2 + count % 2 ^ 34 * 2 ^ 30) % 2 ^ 32))
      (omega (arith, at.aligned, at.address))

module _ (f : Format) (law : LeadsBack f) (s : Store) where
  pub nb_stack_put-first :
      (p last : ℕ)
      → IsPlace f p
      → (lifo_to_elem f (nb_stack_put f [] s p last).stack ≡ p)
        × ((nb_stack_put f [] s p last).mem ≡ update s.mem last (lifo_to_elem f s.stack))
  unfolding nb_stack_put put_round cmpxchg64
  nb_stack_put-first p last at =
      let self : (s.stack == s.stack) ≡ true = ground arith in rw self (law p _ at, refl)

  pub nb_stack_get-first :
      IsPlace f (s.mem (lifo_to_elem f s.stack))
      → (lifo_to_elem f s.stack == 0) ≡ false
      → ((nb_stack_get f [] s).1 ≡ lifo_to_elem f s.stack)
        × (lifo_to_elem f (nb_stack_get f [] s).0.stack ≡ s.mem (lifo_to_elem f s.stack))
        × ((nb_stack_get f [] s).0.mem ≡ s.mem)
  unfolding nb_stack_get get_round cmpxchg64
  nb_stack_get-first at some_there =
      let self : (s.stack == s.stack) ≡ true = ground arith in
      rw (some_there, self) (refl, law (s.mem (lifo_to_elem f s.stack)) _ at, refl)

  pub nb_stack_get-null :
      (lifo_to_elem f s.stack == 0) ≡ true
      → ((nb_stack_get f [] s).1 ≡ 0) × ((nb_stack_get f [] s).0 ≡ s)
  unfolding nb_stack_get get_round cmpxchg64
  nb_stack_get-null none_there =
      let e : lifo_to_elem f s.stack ≡ 0 = ground arith in rw none_there (e, refl)
