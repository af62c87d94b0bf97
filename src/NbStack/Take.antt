-- ===== src/NbStack/Take.antt =====
-- `nb_stack_get` takes the first element, with nobody else at work.
use compact_fit.Base.{
  ℕ, ◌+◌, ◌%◌, ◌^◌, ◌≡◌, refl, sym, ◌∙◌, arith, List, [], ◌∷◌, true, false, ◌==◌,
}
use compact_fit.NbStack.{Format, Store, lifo_to_count, pack, get_round, nb_stack_get}
use compact_fit.NbStack.Layout.{IsFormat}
use compact_fit.NbStack.Chain.{Linked, Linked-Fits, next_version, IsStack, Room}

-- A list of elements says where its path starts.
pub Linked-start :
    (f : Format) (mem mem' : ℕ → ℕ) (a a' : ℕ) (xs : List ℕ) (b : ℕ)
    → Linked f mem a xs b
    → Linked f mem' a' xs b
    → a ≡ a'
Linked-start f mem mem' a a' [] b h k = h ∙ sym k
Linked-start f mem mem' a a' (x ∷ xs) b h k = h.0 ∙ sym k.0

module _ (f : Format) (law : IsFormat f) where
  pub get_swap :
      (t : Store) (next x : ℕ) (xs : List ℕ) (count : ℕ)
      → Room f count
      → IsStack f t (x ∷ xs) count
      → next ≡ t.mem x
      → IsStack f (record t { stack = pack f next (count + 1) }) xs (count + 1)
  get_swap t next x xs count room st e =
      let path : Linked f t.mem next xs 0 = rw e st.path.2 in
      let fits = Linked-Fits f t.mem next xs (count + 1) path room in
      record {
        path = rw (law.elem_pack next (count + 1) fits) path;
        version = law.count_pack next (count + 1) fits;
      }

  -- With nobody else at work, `nb_stack_get` takes the first element off a stack that has one, and
  -- changes no word of memory, while the version has room to grow.
  pub nb_stack_get-cons :
      (s : Store) (x : ℕ) (xs : List ℕ) (count : ℕ)
      → IsStack f s (x ∷ xs) count
      → Room f count
      → let (u, p) = nb_stack_get f [] s in (p ≡ x) × (u.mem ≡ s.mem) × IsStack f u xs (count + 1)
  unfolding nb_stack_get get_round
  nb_stack_get-cons s x xs count st room =
      let v : (lifo_to_count f s.stack + 1) % 2 ^ 64 ≡ count + 1 =
        rw st.version (next_version f count room) in
      let e : (s.stack == s.stack) ≡ true = ground arith in
      let z : (x == 0) ≡ false = ground (arith, st.path.1.0) in
      rw (v, e, st.path.0, z) (refl, refl, get_swap s (s.mem x) x xs count room st refl)

  -- On an empty stack it returns null and changes nothing.
  pub nb_stack_get-nil :
      (s : Store) (count : ℕ) → IsStack f s [] count → nb_stack_get f [] s ≡ (s, 0)
  unfolding nb_stack_get get_round
  nb_stack_get-nil s count st = rw st.path
