-- ===== src/Heap/Reach.antt =====
-- What holds in cf.c after any number of calls of cf_malloc and cf_free, without increments.
use compact_fit.Base.{ℕ, ◌≤◌, ◌≡◌, ◌∙◌, sym, Bool, true, List, some, arith}
use mathlib.Core.Path.{subst}
use mathlib.Core.Option.{some-injective}
use compact_fit.State.{Cf}
use compact_fit.Classes.{get_size_class}
use compact_fit.Classes.Counters.{nfull}
use compact_fit.Heap.Malloc.{cf_malloc, gross_size, malloc_in}
use compact_fit.Heap.Malloc.Keeps.{HasSpare, malloc_in-IsHeap, cf_malloc-class}
use compact_fit.Heap.Free.{cf_free}
use compact_fit.Heap.Free.Keeps.{nfull-length}
use compact_fit.Heap.Free.Allocated.{IsAllocated, cf_free-IsHeap}
use compact_fit.Heap.Invariant.{IsHeap}

-- A call that returns: cf_malloc of a size with a class, where the next free page has no block in use,
-- or cf_free of an address whose block is in use.
pub data Step (classes : ℕ → Bool) : Cf → Cf → Type 0 where
  malloc :
      {s t : Cf} (size sc address : ℕ)
      → get_size_class s (gross_size s size) ≡ some sc
      → classes sc ≡ true
      → HasSpare s classes
      → cf_malloc s size ≡ some (t, address)
      → Step classes s t
  free :
      {s t : Cf} (others : Cf → Cf) (address : ℕ)
      → IsAllocated s address
      → cf_free others s address ≡ some t
      → Step classes s t

pub data Reach (classes : ℕ → Bool) (s : Cf) : Cf → Type 0 where
  start : Reach classes s s
  next : {t u : Cf} → Reach classes s t → Step classes t u → Reach classes s u

abbrev pub Keeps : (ℕ → Bool) → Cf → Type 0
Keeps classes s = (ring : ℕ → List ℕ) × IsHeap s classes ring

Step-Keeps : {classes : ℕ → Bool} {s t : Cf} → Step classes s t → Keeps classes s → Keeps classes t
Step-Keeps {classes} {s} {t} (malloc size sc address found here spare runs) (ring, heap) =
    let (ring', after) = malloc_in-IsHeap s classes ring heap sc here spare in
    let same =
      some-injective (malloc_in s sc) (t, address) (sym (cf_malloc-class s size sc found) ∙ runs) in
    (ring', subst (λ (r : Cf × ℕ). IsHeap r.0 classes ring') same after)
Step-Keeps {classes} {s} {t} (free others address block runs) (ring, heap) =
    let (u, ring', ends, after, given) = cf_free-IsHeap others s classes ring address heap block in
    (ring', given t (sym ends ∙ runs))

-- From a heap that satisfies the invariant, any number of calls of cf_malloc and cf_free that return
-- leads to a heap that satisfies it. The calls of cf_malloc are of sizes with a class, while the next
-- free page has no block in use, lies below 2 ^ 32 and does not overlap the list heads; those of
-- cf_free are of addresses whose block is marked used.
pub Reach-IsHeap :
    {classes : ℕ → Bool} {s t : Cf} → Keeps classes s → Reach classes s t → Keeps classes t
Reach-IsHeap h start = h
Reach-IsHeap h (next r step) = Step-Keeps step (Reach-IsHeap h r)

-- From a heap that satisfies the invariant, any number of calls of cf_malloc and cf_free that return
-- leaves at most k pages of each size-class not full, where k is the partial compaction bound of the
-- class. The calls of cf_malloc are of sizes with a class, while the next free page has no block in
-- use, lies below 2 ^ 32 and does not overlap the list heads; those of cf_free are of addresses whose
-- block is marked used.
pub Reach-nfull :
    {classes : ℕ → Bool} {s t : Cf} (sc : ℕ)
    → Keeps classes s
    → Reach classes s t
    → classes sc ≡ true
    → nfull t sc ≤ (t.size_class sc).partial_compaction_bound
Reach-nfull {classes} {s} {t} sc h r here =
    let (ring, heap) = Reach-IsHeap h r in
    omega (arith, nfull-length t classes ring heap sc here, heap.bounded sc here)
