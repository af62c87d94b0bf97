-- ===== src/FreePages/Pool/Takes.antt =====
-- get_free_page of cf.c takes one page out of the pool, and fails only if the pool is empty.
use compact_fit.Base.{
  ℕ, suc, ◌+◌, ◌-◌, ◌^◌, ◌≡◌, ◌⊎◌, refl, ap, ◌∙◌, arith, List, [], ◌∷◌, ◌==◌, true, false, inl, inr,
}
use compact_fit.Page.{u32}
use compact_fit.ListHead.Without.{length}
use compact_fit.NbStack.{page_format, lifo_to_elem, nb_stack_get}
use compact_fit.NbStack.Alone.{page-LeadsBack, nb_stack_get-first, nb_stack_get-null}
use compact_fit.State.{Cf}
use compact_fit.State.Places.{page_places, aa_places, bucket_places}
use compact_fit.State.Stacks.{page_get, store_of}
use compact_fit.FreePages.{get_free_page, take_page, refill_shared, refill_local}
use compact_fit.Pool.Lists.{Bucket, tick, count, items, number}
use compact_fit.Pool.Tiers.{Tiers, tiers, total}
use compact_fit.Pool.Turns.{pop-IsTiered, refill_own-IsTiered, refill_shared-IsTiered}
use compact_fit.FreePages.Pool.{IsPool, page_words, page-IsPlace, first-IsPlace, bucket_is_page}

-- A page, and the pool without it; no word of memory is written.
pub record IsPopped (s : Cf) (l : Tiers) (t : Cf) (p : ℕ) : Type 0 where
  pub left : Tiers
  pub pool : IsPool t left
  pub same_mem : t.mem ≡ s.mem
  pub same_globals : t.globals ≡ s.globals
  pub same_aas : aa_places t ≡ aa_places s
  pub same_buckets : bucket_places t ≡ bucket_places s
  pub some_page : (p == 0) ≡ false
  pub fewer : (c : ℕ) → total l c ≡ tick c p + total left c

-- Null, and an empty pool.
pub record IsExhausted (s : Cf) (l : Tiers) (t : Cf) (p : ℕ) : Type 0 where
  pub pool : IsPool t l
  pub same_mem : t.mem ≡ s.mem
  pub same_globals : t.globals ≡ s.globals
  pub same_aas : aa_places t ≡ aa_places s
  pub same_buckets : bucket_places t ≡ bucket_places s
  pub no_page : (p == 0) ≡ true
  pub empty : (c : ℕ) → total l c ≡ 0

abbrev pub IsTaken : Cf → Tiers → Cf × ℕ → Type 0
IsTaken s l (t, p) = IsExhausted s l t p ⊎ IsPopped s l t p

take_page-IsPopped :
    (s : Cf) (x : ℕ) (xs : List ℕ) (own shared : List Bucket)
    → IsPool s (tiers (x ∷ xs) own shared)
    → IsPopped s (tiers (x ∷ xs) own shared) (take_page s).0 (take_page s).1
unfolding take_page
take_page-IsPopped s x xs own shared pool =
    let d = s.thread in
    let l = tiers (x ∷ xs) own shared in
    let at : d.pages ≡ x = pool.stocked.tiered.leads.0 in
    let there = pool.stocked.placed x (ground arith) in
    let some_page = (page-IsPlace s.globals x pool.stocked.laid there).1 in
    let n = u32 (d.pages_count + 2 ^ 32 - 1) in
    let fewer : suc n ≡ d.pages_count =
      omega (
        arith, pool.stocked.tiered.counts, pool.stocked.tiered.short, pool.stocked.laid.local_int,
      ) in
    rw (at, some_page)
      (record {
        left = tiers xs own shared;
        pool = record {
          stocked = record {
            laid = pool.stocked.laid;
            tiered =
                pop-IsTiered (page_words s.mem) (page_words s.mem) (page_places s) xs own shared x n
                  pool.stocked.tiered fewer;
            placed = λ c i. pool.stocked.placed c (omega (arith, i));
          };
          few = pool.few;
        };
        same_mem = refl;
        same_globals = refl;
        same_aas = refl;
        same_buckets = refl;
        some_page = some_page;
        fewer = λ c. omega arith;
      })

-- The pool of one state is the pool of the other.
repopped :
    (s u : Cf) (l k : Tiers) {t : Cf} {p : ℕ}
    → u.mem ≡ s.mem
    → u.globals ≡ s.globals
    → aa_places u ≡ aa_places s
    → bucket_places u ≡ bucket_places s
    → ((c : ℕ) → total l c ≡ total k c)
    → IsPopped u k t p
    → IsPopped s l t p
repopped s u l k same same' aas buckets alike r = record {
  left = r.left;
  pool = r.pool;
  same_mem = r.same_mem ∙ same;
  same_globals = r.same_globals ∙ same';
  same_aas = r.same_aas ∙ aas;
  same_buckets = r.same_buckets ∙ buckets;
  some_page = r.some_page;
  fewer = λ c. alike c ∙ r.fewer c;
}

refill_local-IsPopped :
    (s : Cf) (h : ℕ) (xs : List ℕ) (own shared : List Bucket)
    → IsPool s (tiers [] ((h, xs) ∷ own) shared)
    → IsPopped s (tiers [] ((h, xs) ∷ own) shared) (refill_local s).0 (refill_local s).1
unfolding refill_local
refill_local-IsPopped s h [] own shared pool =
    absurd (omega (arith, pool.stocked.tiered.own.1.1, pool.stocked.laid.local_positive))
refill_local-IsPopped s h (x ∷ xs) own shared pool =
    let d = s.thread in
    let at : d.pbuckets ≡ h = pool.stocked.tiered.own.0 in
    let n = u32 (d.pbuckets_count + 2 ^ 32 - 1) in
    let fewer : suc n ≡ d.pbuckets_count =
      omega (arith, pool.stocked.tiered.own_counts, pool.few, pool.stocked.laid.buckets_int) in
    let u = record s {
      thread = record d {
        pages = d.pbuckets;
        pages_count = s.globals.nr_local_pages;
        pbuckets = s.mem d.pbuckets;
        pbuckets_count = n;
      };
    } in
    let refilled : IsPool u (tiers (x ∷ xs) own shared) = record {
      stocked = record {
        laid = pool.stocked.laid;
        tiered =
            refill_own-IsTiered (page_words s.mem) (page_places s) (x ∷ xs) own shared h n
              d.pbuckets (s.mem d.pbuckets) pool.stocked.tiered fewer at (ap s.mem at);
        placed = λ c i. pool.stocked.placed c (omega (arith, i));
      };
      few = omega (arith, pool.few);
    } in
    repopped s u (tiers [] ((h, x ∷ xs) ∷ own) shared) (tiers (x ∷ xs) own shared) refl refl refl
      refl (λ c. omega arith) (take_page-IsPopped u x xs own shared refilled)

empty_front : (xs : List ℕ) (n c : ℕ) → n ≡ length xs → n ≡ 0 → count c xs ≡ 0
empty_front [] n c same none_there = refl
empty_front (x ∷ xs) n c same none_there = absurd (omega arith)

empty_own : (bs : List Bucket) (n c : ℕ) → n ≡ number bs → n ≡ 0 → items c bs ≡ 0
empty_own [] n c same none_there = refl
empty_own (b ∷ bs) n c same none_there = absurd (omega arith)

refill_shared-IsTaken :
    (s : Cf) (own shared : List Bucket)
    → IsPool s (tiers [] own shared)
    → s.thread.pbuckets_count ≡ 0
    → IsTaken s (tiers [] own shared) (refill_shared s)
unfolding refill_shared page_get take_page
refill_shared-IsTaken s own [] pool none_own =
    let at : lifo_to_elem page_format s.free_page_head ≡ 0 = pool.stocked.tiered.shared in
    let (null, same) =
      nb_stack_get-null page_format page-LeadsBack (store_of s s.free_page_head) (ground arith) in
    let none_there = empty_own own s.thread.pbuckets_count in
    rw (null, same)
      (inl (record {
        pool = pool;
        same_mem = refl;
        same_globals = refl;
        same_aas = refl;
        same_buckets = refl;
        no_page = refl;
        empty = λ c. omega (arith, none_there c pool.stocked.tiered.own_counts none_own);
      }))
refill_shared-IsTaken s own ((h, []) ∷ shared) pool none_own =
    absurd (omega (arith, pool.stocked.tiered.shared.1.1, pool.stocked.laid.local_positive))
refill_shared-IsTaken s own ((h, x ∷ xs) ∷ shared) pool none_own =
    let l = tiers [] own ((h, x ∷ xs) ∷ shared) in
    let at : lifo_to_elem page_format s.free_page_head ≡ h = pool.stocked.tiered.shared.0 in
    let place =
      page-IsPlace s.globals h pool.stocked.laid
        (pool.stocked.placed h (bucket_is_page s l h pool.stocked (ground arith))) in
    let some_there : (lifo_to_elem page_format s.free_page_head == 0) ≡ false = rw at place.1 in
    let second =
      first-IsPlace s l (s.mem h) shared pool.stocked pool.stocked.tiered.shared.2
        (λ k i. omega (arith, i)) in
    let (got, next, mem) =
      nb_stack_get-first page_format page-LeadsBack (store_of s s.free_page_head) (rw at second)
        some_there in
    let t = (nb_stack_get page_format [] (store_of s s.free_page_head)).0 in
    let u = record s {
      mem = t.mem;
      free_page_head = t.stack;
      thread = record (s.thread) {
        pages_count = s.globals.nr_local_pages;
        pages = lifo_to_elem page_format s.free_page_head;
      };
    } in
    let refilled : IsPool u (tiers (x ∷ xs) own shared) = record {
      stocked = record {
        laid = pool.stocked.laid;
        tiered = rw mem (
            refill_shared-IsTiered (page_words s.mem) (page_places s) (x ∷ xs) own shared h
              (lifo_to_elem page_format s.free_page_head) (lifo_to_elem page_format t.stack)
              pool.stocked.tiered at (next ∙ ap s.mem at));
        placed = λ c i. pool.stocked.placed c (omega (arith, i));
      };
      few = pool.few;
    } in
    let popped =
      repopped s u l (tiers (x ∷ xs) own shared) mem refl refl refl (λ c. omega arith)
        (take_page-IsPopped u x xs own shared refilled) in
    rw (got, some_there) (inr (rw some_there at popped))

empty_count : (n : ℕ) → n ≡ 0 → (n == 0) ≡ true
empty_count n e = ground arith

get_free_page-IsTaken_split :
    (s : Cf) (front : List ℕ) (own shared : List Bucket)
    → IsPool s (tiers front own shared)
    → IsTaken s (tiers front own shared) (get_free_page s)
unfolding get_free_page
get_free_page-IsTaken_split s (x ∷ xs) own shared pool =
    let some_there : (s.thread.pages_count == 0) ≡ false =
      ground (arith, pool.stocked.tiered.counts) in
    rw some_there (inr (take_page-IsPopped s x xs own shared pool))
get_free_page-IsTaken_split s [] (b ∷ own) shared pool =
    let none_there = empty_count s.thread.pages_count pool.stocked.tiered.counts in
    let some_there : (s.thread.pbuckets_count == 0) ≡ false =
      ground (arith, pool.stocked.tiered.own_counts) in
    rw (none_there, some_there) (inr (refill_local-IsPopped s b.0 b.1 own shared pool))
get_free_page-IsTaken_split s [] [] shared pool =
    let none_there = empty_count s.thread.pages_count pool.stocked.tiered.counts in
    let none_own = empty_count s.thread.pbuckets_count pool.stocked.tiered.own_counts in
    rw (none_there, none_own)
      (refill_shared-IsTaken s [] shared pool pool.stocked.tiered.own_counts)

-- get_free_page takes exactly the page that it returns out of the pool of free pages, and returns
-- null only if the pool is empty; it keeps the pool's lists and writes no memory.
pub get_free_page-IsTaken : (s : Cf) (l : Tiers) → IsPool s l → IsTaken s l (get_free_page s)
get_free_page-IsTaken s l pool = get_free_page-IsTaken_split s l.front l.own l.shared pool
