-- ===== src/Heap/Whole/Client.antt =====
-- What a program that holds abstract addresses sees of cf_free of cf.c.
use compact_fit.Base.{
  ℕ, ◌-◌, ◌^◌, ◌<◌, ◌≡◌, ◌≢◌, refl, sym, ap, ◌∙◌, arith, Bool, true, false, ◌==◌, ltb, List, some,
  Option,
}
use mathlib.Core.Path.{subst}
use mathlib.Core.Option.{some-injective}
use compact_fit.State.{Cf, Globals}
use compact_fit.State.Kept.{IsKept}
use compact_fit.Pool.Lists.{tick}
use compact_fit.Pool.Tiers.{Tiers, total}
use compact_fit.AbstractAddress.{◌>>=◌, clear_abstract_address}
use compact_fit.AbstractAddress.Gives.{AllKept, clear_abstract_address-AllKept}
use compact_fit.Classes.{compaction_on}
use compact_fit.Heap.{block_at, get_page_direct_of_page_block, get_index_direct_of_page_block}
use compact_fit.Heap.Address.{page_and_index-block_at}
use compact_fit.Heap.Free.{cf_free, free_block, give_back, block_of}
use compact_fit.Heap.Free.Keeps.{free_block-IsHeap}
use compact_fit.Heap.Invariant.{IsHeap}
use compact_fit.Heap.Whole.{IsWhole, IsLive, size_of, cell}
use compact_fit.Heap.Whole.Frames.{block_counted}
use compact_fit.Heap.Whole.Moves.{IsVacated}
use compact_fit.Heap.Whole.Vacates.{free_block-IsVacated}
use compact_fit.Heap.Whole.Origins.{IsHeld, held}
use compact_fit.Heap.Whole.Frees.{IsSameBlock, returned, after-IsWhole}
use compact_fit.Heap.Whole.Holds.{still_held}

abbrev pub Intact : (ℕ → Bool) → Cf → Type 0
Intact classes s =
    (ring : ℕ → List ℕ) × (pages : Tiers) × (l : Tiers) × (k : Tiers) × IsWhole s classes ring pages
      l k

cf_free-parts :
    (others : Cf → Cf) (s : Cf) (a p i : ℕ)
    → block_of s a ≡ block_at p i (size_of s p)
    → get_page_direct_of_page_block (block_at p i (size_of s p)) ≡ p
    → get_index_direct_of_page_block p (block_at p i (size_of s p)) (size_of s p) ≡ i
    → cf_free others s a
      ≡ (free_block others s (s.page p).sc p (size_of s p) i a >>= give_back (s.page p).sc a)
unfolding cf_free
cf_free-parts others s a p i block at index = rw (block, at, index) refl

give_back-clears :
    (t : Cf) (sc a : ℕ)
    → (t.size_class sc).partial_compaction_bound < 2 ^ 31
    → give_back sc a (t, 0) ≡ clear_abstract_address t a
unfolding give_back
give_back-clears t sc a small =
    let e : ltb (t.size_class sc).partial_compaction_bound (2 ^ 31) ≡ true = ground arith in
    rw e refl

-- An address in the pool of free ones is not held.
pub free_not-IsLive :
    (s : Cf) (classes : ℕ → Bool) (ring : ℕ → List ℕ) (pages l k : Tiers) (id : ℕ)
    → IsWhole s classes ring pages l k
    → 0 < total l id
    → ¬ IsLive s (cell s.globals id)
free_not-IsLive s classes ring pages l k id whole free live =
    let b = whole.blocks live.page live.index live.inside live.taken in
    let same : id ≡ b.id = omega (arith, live.names, b.names) in
    let none_there : total l id ≡ 0 = ap (total l) same ∙ b.taken in omega (arith, free, none_there)

bind_some :
    (o : Option (Cf × ℕ)) (f : Cf × ℕ → Option Cf) (x : Cf × ℕ) (u : Cf)
    → o ≡ some x
    → f x ≡ some u
    → (o >>= f) ≡ some u
bind_some o f x u runs ends = ap (λ (r : Option (Cf × ℕ)). r >>= f) runs ∙ ends

-- What cf_free leaves: the heap is intact, the address is no longer held, and the others are.
pub record IsFreed (classes : ℕ → Bool) (s : Cf) (a : ℕ) (u : Cf) : Type 0 where
  pub intact : Intact classes u
  pub gone : ¬ IsLive u a
  pub others : (b : ℕ) (live : IsLive s b) → b ≢ a → IsSameBlock s b live u

module _ (others : Cf → Cf) (s : Cf) (classes : ℕ → Bool) (ring : ℕ → List ℕ) (pages l k : Tiers)
    (whole : IsWhole s classes ring pages l k) where
  -- Once the block is freed, the address is given back.
  give_back-IsFreed :
      (p i : ℕ) (target : IsHeld s classes ring pages l k whole p i) (t : Cf)
      (v : IsVacated s pages p i t) (ring' : ℕ → List ℕ)
      → IsHeap t classes ring'
      → (u : Cf) × (clear_abstract_address t (cell s.globals target.block.id) ≡ some u)
        × IsFreed classes s (cell s.globals target.block.id) u
  give_back-IsFreed p i target t v ring' heap' =
      let id = target.block.id in
      let (u, clears, r) = returned s classes ring pages l k whole p i target t v ring' heap' in
      let kept : IsKept t t.page u =
        subst (λ (o : Option Cf). AllKept t o) clears
          (clear_abstract_address-AllKept t (cell s.globals id)) in
      let after =
        after-IsWhole s classes ring pages l k whole p i target t v ring' heap' u r kept in
      let more = r.more id in
      let self : tick id id ≡ 1 = ground arith in
      let globals : u.globals ≡ s.globals = r.same_globals ∙ v.same_globals in
      (
        u,
        clears,
        record {
          intact = (ring', v.stock, r.larger, r.free, after);
          gone =
              subst (λ (g : Globals). ¬ IsLive u (cell g id)) globals
                (free_not-IsLive u classes ring' v.stock r.larger r.free id after
                  (omega (arith, more, self)));
          others = still_held s classes ring pages l k whole p i target t v ring' heap' u r kept;
        },
      )

  -- The block is found from its address.
  finds :
      (a p i : ℕ) (target : IsHeld s classes ring pages l k whole p i)
      → classes s.thread.size_classes ≡ true
      → a ≡ cell s.globals target.block.id
      → cf_free others s a
        ≡ (free_block others s (s.page p).sc p (size_of s p) i a >>= give_back (s.page p).sc a)
  unfolding block_of compaction_on
  finds a p i target own named =
      let size = size_of s p in
      let at = target.block.at in
      let laid = whole.pool.stocked.laid in
      let (page_is, index_is) =
        page_and_index-block_at p i size at.aligned (omega (arith, at.high, laid.end))
          (omega (arith, target.least)) (omega (arith, target.fits, target.least)) in
      let set = whole.heap.set s.thread.size_classes own in
      let on : ((s.size_class s.thread.size_classes).partial_compaction_bound == 2 ^ 32 - 1)
          ≡ false =
        ground (arith, set.bound_int) in
      let block : block_of s a ≡ block_at p i size = rw on (ap s.mem named ∙ target.block.points) in
      cf_free-parts others s a p i block page_is index_is

  cf_free-IsFreed_at :
      (a p i : ℕ) (target : IsHeld s classes ring pages l k whole p i)
      → classes s.thread.size_classes ≡ true
      → a ≡ cell s.globals target.block.id
      → (u : Cf) × (cf_free others s a ≡ some u)
        × IsFreed classes s (cell s.globals target.block.id) u
  cf_free-IsFreed_at a p i target own named =
      let sc = (s.page p).sc in
      let some_used = block_counted s classes ring p i whole.heap target.small target.taken in
      let (here, listed) = whole.heap.owned p some_used in
      let (t0, ring', runs0, heap0) =
        free_block-IsHeap s classes ring whole.heap sc here p i target.small target.taken listed
          others a in
      let (t, runs, v) =
        free_block-IsVacated s classes ring pages l k whole p i target.small target.taken others
          a in
      let same_t : (t0, 0) ≡ (t, 0) = some-injective (t0, 0) (t, 0) (sym runs0 ∙ runs) in
      finish t runs v ring' (subst (λ (x : Cf × ℕ). IsHeap x.0 classes ring') same_t heap0) here
    where
      finish :
          (t : Cf)
          → free_block others s (s.page p).sc p (size_of s p) i a ≡ some (t, 0)
          → IsVacated s pages p i t
          → (ring' : ℕ → List ℕ) → IsHeap t classes ring'
          → classes (s.page p).sc ≡ true
          → (u : Cf) × (cf_free others s a ≡ some u)
            × IsFreed classes s (cell s.globals target.block.id) u
      finish t runs v ring' heap' here =
          let sc = (s.page p).sc in
          let (u, clears, freed) = give_back-IsFreed p i target t v ring' heap' in
          (
            u,
            finds a p i target own named
                ∙ bind_some (free_block others s sc p (size_of s p) i a) (give_back sc a) (t, 0) u
                    runs
                    (give_back-clears t sc a (heap'.set sc here).bound_int
                      ∙ ap (clear_abstract_address t) named
                      ∙ clears),
            freed,
          )

-- On an intact heap, without increments, cf_free of an address that is held succeeds, follows no null
-- pointer and aborts nothing. It leaves an intact heap in which the address is no longer held, and in
-- which every other address that was held is held, of a block of the same size with the same words,
-- wherever a compaction has moved the block. The thread's first size-class is one of the heap's.
pub cf_free-IsFreed :
    (others : Cf → Cf) (s : Cf) (classes : ℕ → Bool) (a : ℕ)
    → Intact classes s
    → classes s.thread.size_classes ≡ true
    → IsLive s a
    → (u : Cf) × (cf_free others s a ≡ some u) × IsFreed classes s a u
cf_free-IsFreed others s classes a (ring, pages, l, k, whole) own live =
    let p = live.page in
    let i = live.index in
    let target = held s classes ring pages l k whole p i live.inside live.taken in
    let named : a ≡ cell s.globals target.block.id = sym live.names ∙ target.block.names in
    let (u, runs, freed) =
      cf_free-IsFreed_at others s classes ring pages l k whole a p i target own named in
    (u, runs, subst (λ x. IsFreed classes s x u) (sym named) freed)
