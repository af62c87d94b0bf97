-- ===== src/AbstractAddress/Pool/Rooms.antt =====
-- put_free_aa of cf.c makes room in the thread's list of addresses: a full list goes into a free
-- bucket, and enough buckets go to the shared stack.
use compact_fit.Base.{
  ℕ, ◌<◌, ◌≡◌, ◌⊎◌, inl, inr, refl, ap, ◌∙◌, arith, List, [], ◌∷◌, ◌==◌, true, false, Option, none,
  some,
}
use compact_fit.NbStack.{aa_format, lifo_to_elem, nb_stack_get}
use compact_fit.NbStack.Alone.{aa-LeadsBack, nb_stack_get-first, nb_stack_get-null}
use compact_fit.State.{Cf}
use compact_fit.State.Places.{bucket_places}
use compact_fit.State.Stacks.{aa_bucket_get, store_of}
use compact_fit.FreePages.Pool.{page_words}
use compact_fit.Pool.Lists.{Bucket, items, number}
use compact_fit.Pool.Tiers.{Tiers, tiers, total, buckets}
use compact_fit.Pool.Turns.{refill_shared-IsTiered}
use compact_fit.AbstractAddress.{need_free_bucket}
use compact_fit.AbstractAddress.Pool.{
  IsCells, bucket_total, bucket-IsPlace, start-IsPlace, free_listed,
}
use compact_fit.AbstractAddress.Pool.Buckets.{IsShifted}

-- The thread has a free bucket, the first of its list.
pub record HasBucket (s : Cf) (l k : Tiers) (t : Cf) : Type 0 where
  pub first : ℕ
  pub front : List ℕ
  pub own : List Bucket
  pub shared : List Bucket
  pub shifted : IsShifted s l k t l (tiers (first ∷ front) own shared)
  pub same_counts : t.thread.abuckets_count ≡ s.thread.abuckets_count
  pub same_buckets :
      (b : ℕ) → bucket_total l (tiers (first ∷ front) own shared) b ≡ bucket_total l k b

-- No bucket is free, or the thread has one.
abbrev pub IsNeeded : Cf → Tiers → Tiers → Option Cf → Type 0
IsNeeded s l k o =
    ((o ≡ none) × ((b : ℕ) → total k b ≡ 0)) ⊎ ((t : Cf) × (o ≡ some t) × HasBucket s l k t)

no_own : (bs : List Bucket) (c : ℕ) → 0 ≡ number bs → items c bs ≡ 0
no_own [] c e = refl
no_own (b ∷ bs) c e = absurd (omega arith)

from_stack :
    (s : Cf) (l : Tiers) (own shared : List Bucket)
    → IsCells s l (tiers [] own shared)
    → IsNeeded s l (tiers [] own shared) (need_free_bucket s)
unfolding need_free_bucket aa_bucket_get
from_stack s l own [] cells =
    let at : lifo_to_elem aa_format s.free_aa_buckets_head ≡ 0 = cells.free.shared in
    let (null, same) =
      nb_stack_get-null aa_format aa-LeadsBack (store_of s s.free_aa_buckets_head) (ground arith) in
    let none_there : (s.thread.free_abuckets_count == 0) ≡ true =
      ground (arith, cells.free.counts) in
    rw (none_there, null) (inl (refl, λ b. omega (arith, no_own own b cells.free.own_counts)))
from_stack s l own ((h, []) ∷ shared) cells =
    absurd (omega (arith, cells.free.shared.1.1, cells.space.free_positive))
from_stack s l own ((h, x ∷ xs) ∷ shared) cells =
    let k = tiers [] own ((h, x ∷ xs) ∷ shared) in
    let k' = tiers (x ∷ xs) own shared in
    let g = s.globals in
    let w = page_words s.mem in
    let bucket = lifo_to_elem aa_format s.free_aa_buckets_head in
    let at : bucket ≡ h = cells.free.shared.0 in
    let listed : 0 < total k h =
      let self : 0 < buckets k h = ground arith in
      omega (arith, self, free_listed s k h cells.space cells.free) in
    let place = bucket-IsPlace g h cells.space (cells.placed h (omega (arith, listed))) in
    let some_there : (bucket == 0) ≡ false = rw at place.1 in
    let second =
      start-IsPlace g w g.nr_local_free_abuckets (s.mem h) shared cells.space cells.free.shared.2
        (λ b i. cells.placed b (omega (arith, free_listed s k b cells.space cells.free, i))) in
    let (got, next, mem) =
      nb_stack_get-first aa_format aa-LeadsBack (store_of s s.free_aa_buckets_head) (rw at second)
        some_there in
    let t = (nb_stack_get aa_format [] (store_of s s.free_aa_buckets_head)).0 in
    let u = record s {
      mem = t.mem;
      free_aa_buckets_head = t.stack;
      thread = record (s.thread) {
        free_abuckets = bucket;
        free_abuckets_count = g.nr_local_free_abuckets;
      };
    } in
    let none_there : (s.thread.free_abuckets_count == 0) ≡ true =
      ground (arith, cells.free.counts) in
    let refilled =
      refill_shared-IsTiered w (bucket_places s) (x ∷ xs) own shared h bucket
        (lifo_to_elem aa_format t.stack) cells.free at (next ∙ ap s.mem at) in
    let has : HasBucket s l k u = record {
      first = x;
      front = xs;
      own = own;
      shared = shared;
      shifted = record {
        cells = record {
          space = cells.space;
          ids = rw mem cells.ids;
          free = rw mem refilled;
          numbered = cells.numbered;
          placed = λ b i. cells.placed b (omega (arith, i));
          apart = λ b. let t = cells.apart b in omega (arith, t);
        };
        same_globals = refl;
        same_pages = refl;
        alike = λ c. refl;
        kept = λ a far. ap (λ (m : ℕ → ℕ). m a) mem;
      };
      same_counts = refl;
      same_buckets = λ b. omega arith;
    } in
    rw (none_there, got, some_there) (inr (u, refl, has))

pub need_free_bucket-IsNeeded :
    (s : Cf) (l k : Tiers) → IsCells s l k → IsNeeded s l k (need_free_bucket s)
unfolding need_free_bucket
need_free_bucket-IsNeeded s l k cells = split k.front k.own k.shared cells
  where
    split :
        (front : List ℕ) (own shared : List Bucket)
        → IsCells s l (tiers front own shared)
        → IsNeeded s l (tiers front own shared) (need_free_bucket s)
    split [] own shared there = from_stack s l own shared there
    split (x ∷ xs) own shared there =
        let some_there : (s.thread.free_abuckets_count == 0) ≡ false =
          ground (arith, there.free.counts) in
        let has : HasBucket s l (tiers (x ∷ xs) own shared) s = record {
          first = x;
          front = xs;
          own = own;
          shared = shared;
          shifted = record {
            cells = there;
            same_globals = refl;
            same_pages = refl;
            alike = λ c. refl;
            kept = λ a far. refl;
          };
          same_counts = refl;
          same_buckets = λ b. refl;
        } in
        rw some_there (inr (s, refl, has))
