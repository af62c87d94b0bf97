-- ===== src/NbStack/Chain.antt =====
-- The list of elements that the stack stands for, and nb_stack_put with nobody else at work.
use native.Mathlib.Nat.{zero-mod, pow-le-pow_right, mod-eq_of_lt}
use compact_fit.Base.{
  ℕ, ◌+◌, ◌-◌, ◌%◌, ◌^◌, ◌<◌, ◌≡◌, ◌≢◌, refl, arith, List, [], ◌∷◌, ◌++◌, ◌||◌, Bool, true, false,
  ◌==◌, update,
}
use compact_fit.NbStack.{Format, Store, lifo_to_elem, lifo_to_count, pack, put_round, nb_stack_put}
use compact_fit.NbStack.Layout.{Fits, IsFormat}

-- An address of an element.
abbrev pub IsElem : Format → ℕ → Type 0
IsElem f x = (x ≢ 0) × (x % 2 ^ f.shift ≡ 0) × (x < 2 ^ 32)

-- From `a` the `next` words lead through the elements `xs` to `b`.
abbrev pub Linked : Format → (ℕ → ℕ) → ℕ → List ℕ → ℕ → Type 0
Linked f mem a [] b = a ≡ b
Linked f mem a (x ∷ xs) b = (a ≡ x) × IsElem f x × Linked f mem (mem x) xs b

abbrev pub has : ℕ → List ℕ → Bool
has a [] = false
has a (x ∷ xs) = (a == x) || has a xs

pub record IsStack (f : Format) (s : Store) (xs : List ℕ) (count : ℕ) : Type 0 where
  pub path : Linked f s.mem (lifo_to_elem f s.stack) xs 0
  pub version : lifo_to_count f s.stack ≡ count

-- The version has not run up to its end.
abbrev pub Room : Format → ℕ → Type 0
Room f count = count + 1 < 2 ^ (64 - f.bits)

pub Linked-frame :
    (f : Format) (mem mem' : ℕ → ℕ) (a : ℕ) (xs : List ℕ) (b : ℕ)
    → Linked f mem a xs b
    → ((c : ℕ) → has c xs ≡ true → mem' c ≡ mem c)
    → Linked f mem' a xs b
Linked-frame f mem mem' a [] b h same = h
Linked-frame f mem mem' a (x ∷ xs) b h same = (
  h.0,
  h.1,
  Linked-frame f mem mem' (mem' x) xs b (rw (same x (ground arith)) h.2)
      (λ c i. same c (ground arith)),
)

Linked-append :
    (f : Format) (mem : ℕ → ℕ) (a : ℕ) (xs : List ℕ) (b : ℕ) (ys : List ℕ) (c : ℕ)
    → Linked f mem a xs b
    → Linked f mem b ys c
    → Linked f mem a (xs ++ ys) c
Linked-append f mem a [] b ys c h k = rw h k
Linked-append f mem a (x ∷ xs) b ys c h k = (h.0, h.1, Linked-append f mem (mem x) xs b ys c h.2 k)

-- Where a path to null starts can be packed.
pub Linked-Fits :
    (f : Format) (mem : ℕ → ℕ) (a : ℕ) (xs : List ℕ) (count : ℕ)
    → Linked f mem a xs 0
    → count < 2 ^ (64 - f.bits)
    → Fits f a count
Linked-Fits f mem a [] count h l = record {
  aligned = rw h (zero-mod (2 ^ f.shift));
  address = omega arith;
  version = l;
}
Linked-Fits f mem a (x ∷ xs) count h l = record {
  aligned = rw h.0 h.1.1;
  address = rw h.0 h.1.2;
  version = l;
}

abbrev pub Outside : List ℕ → List ℕ → Type 0
Outside own xs = (c : ℕ) → has c own ≡ true → has c xs ≡ false

-- The chain from `p` to `last` that a thread is about to put: its own.
pub record Own (f : Format) (mem : ℕ → ℕ) (p : ℕ) (ps : List ℕ) (last : ℕ) : Type 0 where
  pub chain : Linked f mem p ps last
  pub elem : IsElem f last
  pub apart : has last ps ≡ false

Own-Fits :
    (f : Format) (mem : ℕ → ℕ) (p : ℕ) (ps : List ℕ) (last count : ℕ)
    → Own f mem p ps last
    → count < 2 ^ (64 - f.bits)
    → Fits f p count
Own-Fits f mem p [] last count o l = record {
  aligned = rw o.chain o.elem.1;
  address = rw o.chain o.elem.2;
  version = l;
}
Own-Fits f mem p (x ∷ ps) last count o l = record {
  aligned = rw o.chain.0 o.chain.1.1;
  address = rw o.chain.0 o.chain.1.2;
  version = l;
}

pub next_version : (f : Format) (count : ℕ) → Room f count → (count + 1) % 2 ^ 64 ≡ count + 1
next_version f count r = mod-eq_of_lt (
    omega
      (arith, r, pow-le-pow_right {n = 2} (omega arith) {i = 64 - f.bits} {j = 64} (omega arith)))

module _ (f : Format) (law : IsFormat f) where
  -- The compare-and-swap of a put that succeeds, in the store `t` that it finds.
  pub put_swap :
      (t : Store) (xs : List ℕ) (count p : ℕ) (ps : List ℕ) (last : ℕ)
      → IsStack f t xs count
      → Room f count
      → Own f t.mem p ps last
      → Outside (last ∷ ps) xs
      → t.mem last ≡ lifo_to_elem f t.stack
      → IsStack f (record t { stack = pack f p (count + 1) }) (ps ++ last ∷ xs) (count + 1)
  put_swap t xs count p ps last st room own out link =
      let fits = Own-Fits f t.mem p ps last (count + 1) own room in
      record {
        path = rw (law.elem_pack p (count + 1) fits) (
            Linked-append f t.mem p ps last (last ∷ xs) 0 own.chain
              (refl, own.elem, rw link st.path));
        version = law.count_pack p (count + 1) fits;
      }

  -- After a `last->next = first` the chain is still the thread's own.
  pub Own-link :
      (mem : ℕ → ℕ) (p : ℕ) (ps : List ℕ) (last first : ℕ)
      → Own f mem p ps last
      → Own f (update mem last first) p ps last
  Own-link mem p ps last first own = record {
    chain = Linked-frame f mem _ p ps last own.chain (λ c i. ground (arith, own.apart));
    elem = own.elem;
    apart = own.apart;
  }

  pub Own-kept :
      (mem mem' : ℕ → ℕ) (p : ℕ) (ps : List ℕ) (last : ℕ)
      → ((c : ℕ) → has c (last ∷ ps) ≡ true → mem' c ≡ mem c)
      → Own f mem p ps last
      → Own f mem' p ps last
  Own-kept mem mem' p ps last same own = record {
    chain = Linked-frame f mem mem' p ps last own.chain (λ c i. same c (ground arith));
    elem = own.elem;
    apart = own.apart;
  }

  pub nb_stack_put-append :
      (s : Store) (xs : List ℕ) (count p : ℕ) (ps : List ℕ) (last : ℕ)
      → IsStack f s xs count
      → Room f count
      → Own f s.mem p ps last
      → Outside (last ∷ ps) xs
      → IsStack f (nb_stack_put f [] s p last) (ps ++ last ∷ xs) (count + 1)
  unfolding nb_stack_put put_round
  nb_stack_put-append s xs count p ps last st room own out =
      let first = lifo_to_elem f s.stack in
      let linked = record s { mem = update s.mem last first } in
      let v : (lifo_to_count f s.stack + 1) % 2 ^ 64 ≡ count + 1 =
        rw st.version (next_version f count room) in
      let e : (s.stack == s.stack) ≡ true = ground arith in
      rw (e, v)
        (put_swap linked xs count p ps last
          (record {
            path =
                Linked-frame f s.mem (update s.mem last first) first xs 0 st.path
                  (λ c i. ground (arith, out last));
            version = st.version;
          })
          room (Own-link s.mem p ps last first own) out (ground arith))
