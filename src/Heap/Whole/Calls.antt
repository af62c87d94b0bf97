-- ===== src/Heap/Whole/Calls.antt =====
-- What a program sees of an address that it holds over any sequence of calls of cf_malloc and cf_free.
use compact_fit.Base.{ℕ, ◌/◌, ◌<◌, ◌≡◌, ◌≢◌, inl, inr, refl, sym, ap, ◌∙◌, Bool, true, some}
use mathlib.Core.Path.{subst}
use mathlib.Core.Option.{some-injective}
use compact_fit.State.{Cf}
use compact_fit.AbstractAddress.{get_free_aa, no_aa}
use compact_fit.Classes.{get_size_class}
use compact_fit.Heap.Malloc.{cf_malloc, gross_size}
use compact_fit.Heap.Free.{cf_free}
use compact_fit.Heap.Whole.{IsLive}
use compact_fit.Heap.Whole.Frees.{IsSameBlock}
use compact_fit.Heap.Whole.Client.{Intact, cf_free-IsFreed}
use compact_fit.Heap.Whole.Grants.{IsServed, cf_malloc-IsServed}

-- Calls that leave the address `b` alone: cf_malloc of a size with a class, while an address is free,
-- and cf_free of another address that is held.
pub data Calls (classes : ℕ → Bool) (b : ℕ) (s : Cf) : Cf → Type 0 where
  start : Calls classes b s s
  malloc :
      {t u : Cf} (size sc a : ℕ)
      → Calls classes b s t
      → get_size_class t (gross_size t size) ≡ some sc
      → classes sc ≡ true
      → (get_free_aa t).1 ≢ no_aa
      → cf_malloc t size ≡ some (u, a)
      → Calls classes b s u
  free :
      {t u : Cf} (others : Cf → Cf) (a : ℕ)
      → Calls classes b s t
      → classes t.thread.size_classes ≡ true
      → IsLive t a
      → b ≢ a
      → cf_free others t a ≡ some u
      → Calls classes b s u

itself-IsSameBlock : (s : Cf) (b : ℕ) (live : IsLive s b) → IsSameBlock s b live s
itself-IsSameBlock s b live = record { after = live; same_size = refl; words = λ n less. refl }

then-IsSameBlock :
    (s t u : Cf) (b : ℕ) (live : IsLive s b) (first : IsSameBlock s b live t)
    → IsSameBlock t b first.after u
    → IsSameBlock s b live u
then-IsSameBlock s t u b live first second = record {
  after = second.after;
  same_size = second.same_size ∙ first.same_size;
  words = λ n less.
      second.words n (subst (λ m. n < m / 4) (sym first.same_size) less) ∙ first.words n less;
}

served_others :
    (classes : ℕ → Bool) (s : Cf) (size : ℕ) (r : Cf × ℕ)
    → IsServed classes s size r
    → Intact classes r.0 × ((b : ℕ) (held : IsLive s b) → IsSameBlock s b held r.0)
served_others classes s size r (inl denied) = (denied.intact, denied.others)
served_others classes s size r (inr granted) = (granted.intact, granted.others)

-- From an intact heap, without increments, any number of calls of cf_malloc and cf_free leaves an
-- intact heap, in which an address that was held and is not freed is held, of a block of the same size
-- with the same words, wherever compactions have moved the block. The calls of cf_malloc are of sizes
-- with a class, while get_free_aa would find an address; those of cf_free are of addresses that are
-- held, while the thread's first size-class is one of the heap's.
pub Calls-IsSameBlock :
    {classes : ℕ → Bool} {b : ℕ} {s u : Cf}
    → Intact classes s
    → (live : IsLive s b) → Calls classes b s u
    → Intact classes u × IsSameBlock s b live u
Calls-IsSameBlock {classes} {b} {s} intact live start = (intact, itself-IsSameBlock s b live)
Calls-IsSameBlock {classes} {b} {s} {u} intact live
      (malloc {t} size sc a before class here found runs) =
    let (intact', same) = Calls-IsSameBlock intact live before in
    let (r, gives, served) = cf_malloc-IsServed t classes size sc intact' class here found in
    let (after, others) = served_others classes t _ r served in
    let end : r.0 ≡ u = ap (λ (x : Cf × ℕ). x.0) (some-injective r (u, a) (sym gives ∙ runs)) in
    (
      subst (Intact classes) end after,
      then-IsSameBlock s t u b live same
          (subst (IsSameBlock t b same.after) end (others b same.after)),
    )
Calls-IsSameBlock {classes} {b} {s} {u} intact live (free {t} others a before own held other runs) =
    let (intact', same) = Calls-IsSameBlock intact live before in
    let (v, gives, freed) = cf_free-IsFreed others t classes a intact' own held in
    let end : v ≡ u = some-injective v u (sym gives ∙ runs) in
    (
      subst (Intact classes) end freed.intact,
      then-IsSameBlock s t u b live same
          (subst (IsSameBlock t b same.after) end (freed.others b same.after other)),
    )
