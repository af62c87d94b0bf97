-- ===== src/AbstractAddress/Pool/Takes.antt =====
-- get_free_aa of cf.c takes one address out of the pool, and fails only if the pool is empty.
use compact_fit.Base.{
  ℕ, suc, ◌+◌, ◌-◌, ◌^◌, ◌≤◌, ◌≡◌, ◌⊎◌, inl, inr, refl, sym, ap, ◌∙◌, arith, List, [], ◌∷◌, ◌==◌,
  true, false, if◌then◌else◌,
}
use mathlib.Core.Path.{subst}
use compact_fit.Page.{u32}
use compact_fit.NbStack.{aa_format, lifo_to_elem, nb_stack_get}
use compact_fit.NbStack.Alone.{aa-LeadsBack, nb_stack_get-first, nb_stack_get-null}
use compact_fit.State.{Cf, Globals}
use compact_fit.State.Places.{page_places, aa_places}
use compact_fit.State.Stacks.{aa_get, store_of}
use compact_fit.Pool.Lists.{Bucket, tick, items, number}
use compact_fit.Pool.Tiers.{Tiers, tiers, total}
use compact_fit.Pool.Turns.{pop-IsTiered, refill_own-IsTiered, refill_shared-IsTiered}
use compact_fit.AbstractAddress.{get_free_aa, open_bucket, pop_aa, set_thread, no_aa, next_of}
use compact_fit.AbstractAddress.Pool.{
  IsCells, OutsideBuckets, aa_words, bucket_total, bucket-IsPlace, start-IsPlace,
}
use compact_fit.AbstractAddress.Pool.Buckets.{
  IsLoose, list_bucket, push_free, give_free, open_bucket-parts, opened-IsShifted,
}

pub record IsAddressPool (s : Cf) (l k : Tiers) : Type 0 where
  pub cells : IsCells s l k
  pub few : number l.own ≤ s.globals.nr_local_abuckets

-- An address, and the pool without it; no word outside the buckets is written.
pub record IsDrawn (s : Cf) (l k : Tiers) (t : Cf) (id : ℕ) : Type 0 where
  pub left : Tiers
  pub free : Tiers
  pub pool : IsAddressPool t left free
  pub same_globals : t.globals ≡ s.globals
  pub same_pages : page_places t ≡ page_places s
  pub fewer : (c : ℕ) → total l c ≡ tick c id + total left c
  pub same_buckets : (b : ℕ) → bucket_total left free b ≡ bucket_total l k b
  pub kept : (a : ℕ) → OutsideBuckets s.globals a → t.mem a ≡ s.mem a

-- No address, and an empty pool.
pub record IsDry (s : Cf) (l k : Tiers) (t : Cf) (id : ℕ) : Type 0 where
  pub pool : IsAddressPool t l k
  pub same_globals : t.globals ≡ s.globals
  pub same_pages : page_places t ≡ page_places s
  pub none_left : id ≡ no_aa
  pub empty : (c : ℕ) → total l c ≡ 0
  pub kept : (a : ℕ) → OutsideBuckets s.globals a → t.mem a ≡ s.mem a

abbrev pub IsDrawing : Cf → Tiers → Tiers → Cf × ℕ → Type 0
IsDrawing s l k (t, id) = IsDry s l k t id ⊎ IsDrawn s l k t id

pop_aa-IsDrawn :
    (s : Cf) (x : ℕ) (front : List ℕ) (own shared : List Bucket) (k : Tiers)
    → IsAddressPool s (tiers (x ∷ front) own shared) k
    → IsDrawn s (tiers (x ∷ front) own shared) k (pop_aa s).0 (pop_aa s).1
unfolding pop_aa
pop_aa-IsDrawn s x front own shared k pool =
    let d = s.thread in
    let cells = pool.cells in
    let w = aa_words s.globals.aa_space s.mem in
    let at : d.aas ≡ x = cells.ids.leads.0 in
    let n = u32 (d.aas_count + 2 ^ 32 - 1) in
    let fewer : suc n ≡ d.aas_count =
      omega (arith, cells.ids.counts, cells.ids.short, cells.space.local_int) in
    let popped = pop-IsTiered w w (aa_places s) front own shared x n cells.ids fewer in
    rw at (record {
      left = tiers front own shared;
      free = k;
      pool = record {
        cells = record {
          space = cells.space;
          ids = popped;
          free = cells.free;
          numbered = λ c i. cells.numbered c (omega (arith, i));
          placed = cells.placed;
          apart = cells.apart;
        };
        few = pool.few;
      };
      same_globals = refl;
      same_pages = refl;
      fewer = λ c. omega arith;
      same_buckets = λ b. refl;
      kept = λ a far. refl;
    })

-- After a bucket's addresses became the thread's list, the bucket is freed and the first of its
-- addresses taken.
rest_popped :
    (s v : Cf) (l : Tiers) (x : ℕ) (front : List ℕ) (own shared : List Bucket) (k : Tiers) (h : ℕ)
    → IsAddressPool v (tiers (x ∷ front) own shared) k
    → IsLoose v (tiers (x ∷ front) own shared) k h
    → v.mem ≡ s.mem
    → v.globals ≡ s.globals
    → page_places v ≡ page_places s
    → ((c : ℕ) → total l c ≡ total (tiers (x ∷ front) own shared) c)
    → ((b : ℕ) → bucket_total l k b ≡ tick b h + bucket_total (tiers (x ∷ front) own shared) k b)
    → let t = push_free (give_free v) h in IsDrawn s l k (pop_aa t).0 (pop_aa t).1
rest_popped s v l x front own shared k h pool loose mem globals pages alike boxes =
    let t = push_free (give_free v) h in
    let (k', shifted, more) =
      opened-IsShifted v (tiers (x ∷ front) own shared) k h pool.cells loose in
    let g = shifted.same_globals in
    let few : number own ≤ t.globals.nr_local_abuckets =
      omega (arith, pool.few, ap (λ (g : Globals). g.nr_local_abuckets) g) in
    let drawn =
      pop_aa-IsDrawn t x front own shared k' (record { cells = shifted.cells; few = few }) in
    record {
      left = drawn.left;
      free = drawn.free;
      pool = drawn.pool;
      same_globals = drawn.same_globals ∙ g ∙ globals;
      same_pages = drawn.same_pages ∙ shifted.same_pages ∙ pages;
      fewer = λ c. alike c ∙ drawn.fewer c;
      same_buckets = λ b. omega (arith, drawn.same_buckets b, more b, boxes b);
      kept = λ a far.
          let far' = subst (λ (g : Globals). OutsideBuckets g a) (sym globals) far in
          drawn.kept a (subst (λ (g : Globals). OutsideBuckets g a) (sym g) far')
          ∙ shifted.kept a far'
          ∙ ap (λ (m : ℕ → ℕ). m a) mem;
    }

from_own :
    (s : Cf) (h : ℕ) (xs : List ℕ) (own shared : List Bucket) (k : Tiers)
    → IsAddressPool s (tiers [] ((h, xs) ∷ own) shared) k
    → let d = s.thread in
      let u = set_thread s (record d {
        abuckets = s.mem (next_of d.abuckets);
        abuckets_count = u32 (d.abuckets_count + 2 ^ 32 - 1);
      }) in
      let t = open_bucket u d.abuckets in
      IsDrawn s (tiers [] ((h, xs) ∷ own) shared) k (pop_aa t).0 (pop_aa t).1
from_own s h [] own shared k pool =
    absurd (omega (arith, pool.cells.ids.own.1.1, pool.cells.space.local_positive))
from_own s h (x ∷ xs) own shared k pool =
    let d = s.thread in
    let cells = pool.cells in
    let w = aa_words s.globals.aa_space s.mem in
    let l = tiers [] ((h, x ∷ xs) ∷ own) shared in
    let l' = tiers (x ∷ xs) own shared in
    let at : d.abuckets ≡ h = cells.ids.own.0 in
    let n = u32 (d.abuckets_count + 2 ^ 32 - 1) in
    let u = set_thread s (record d { abuckets = s.mem d.abuckets; abuckets_count = n }) in
    let fewer : suc n ≡ d.abuckets_count =
      omega (arith, cells.ids.own_counts, pool.few, cells.space.abuckets_int) in
    let self : tick h h ≡ 1 = ground arith in
    let once = cells.apart h in
    let v = list_bucket u d.abuckets in
    let pool' : IsAddressPool v l' k = record {
      cells = record {
        space = cells.space;
        ids =
            refill_own-IsTiered w (aa_places s) (x ∷ xs) own shared h n (s.mem (d.abuckets + 4))
              (s.mem d.abuckets) cells.ids fewer (ap (λ b. s.mem (b + 4)) at) (ap s.mem at);
        free = cells.free;
        numbered = λ c i. cells.numbered c (omega (arith, i));
        placed = λ b i. cells.placed b (omega (arith, i));
        apart = λ b. let t = cells.apart b in omega (arith, t);
      };
      few = omega (arith, pool.few);
    } in
    let loose : IsLoose v l' k d.abuckets = record {
      at = rw at (cells.placed h (omega (arith, self)));
      loose = rw at (omega (arith, self, once));
    } in
    rw (open_bucket-parts u d.abuckets) (
      rest_popped s v l x xs own shared k d.abuckets pool' loose refl refl refl (λ c. omega arith)
        (λ b. rw at (omega arith)))

-- An address from the shared stack of buckets.
take_shared : Cf → Cf × ℕ
take_shared s =
    let (t, maa) = aa_get s in if maa == 0 then (t, no_aa) else pop_aa (open_bucket t maa)

from_shared :
    (s : Cf) (own shared : List Bucket) (k : Tiers)
    → IsAddressPool s (tiers [] own shared) k
    → number own ≡ 0
    → IsDrawing s (tiers [] own shared) k (take_shared s)
unfolding take_shared aa_get
from_shared s own [] k pool none_own =
    let at : lifo_to_elem aa_format s.free_aa_head ≡ 0 = pool.cells.ids.shared in
    let (null, same) =
      nb_stack_get-null aa_format aa-LeadsBack (store_of s s.free_aa_head) (ground arith) in
    rw (null, same)
      (inl (record {
        pool = pool;
        same_globals = refl;
        same_pages = refl;
        none_left = refl;
        empty = λ c. omega (arith, no_items own c none_own);
        kept = λ a far. refl;
      }))
  where
    no_items : (bs : List Bucket) (c : ℕ) → number bs ≡ 0 → items c bs ≡ 0
    no_items [] c e = refl
    no_items (b ∷ bs) c e = absurd (omega arith)
from_shared s own ((h, []) ∷ shared) k pool none_own =
    absurd (omega (arith, pool.cells.ids.shared.1.1, pool.cells.space.local_positive))
from_shared s own ((h, x ∷ xs) ∷ shared) k pool none_own =
    let cells = pool.cells in
    let w = aa_words s.globals.aa_space s.mem in
    let l = tiers [] own ((h, x ∷ xs) ∷ shared) in
    let l' = tiers (x ∷ xs) own shared in
    let maa = lifo_to_elem aa_format s.free_aa_head in
    let at : maa ≡ h = cells.ids.shared.0 in
    let self : tick h h ≡ 1 = ground arith in
    let once = cells.apart h in
    let placed = cells.placed h (omega (arith, self)) in
    let place = bucket-IsPlace s.globals h cells.space placed in
    let some_there : (maa == 0) ≡ false = rw at place.1 in
    let second =
      start-IsPlace s.globals w s.globals.nr_local_aas (s.mem h) shared cells.space
        cells.ids.shared.2 (λ b i. cells.placed b (omega (arith, i))) in
    let (got, next, mem) =
      nb_stack_get-first aa_format aa-LeadsBack (store_of s s.free_aa_head) (rw at second)
        some_there in
    let t = (nb_stack_get aa_format [] (store_of s s.free_aa_head)).0 in
    let u = record s { mem = t.mem; free_aa_head = t.stack } in
    let v = list_bucket u maa in
    let refilled =
      refill_shared-IsTiered w (aa_places s) (x ∷ xs) own shared h (s.mem (maa + 4))
        (lifo_to_elem aa_format t.stack) cells.ids (ap (λ b. s.mem (b + 4)) at)
        (next ∙ ap s.mem at) in
    let pool' : IsAddressPool v l' k = record {
      cells = record {
        space = cells.space;
        ids = rw mem refilled;
        free = rw mem cells.free;
        numbered = λ c i. cells.numbered c (omega (arith, i));
        placed = λ b i. cells.placed b (omega (arith, i));
        apart = λ b. let t = cells.apart b in omega (arith, t);
      };
      few = pool.few;
    } in
    let loose : IsLoose v l' k maa = record {
      at = rw at placed;
      loose = rw at (omega (arith, self, once));
    } in
    rw (got, some_there, open_bucket-parts u maa)
      (inr (
        rest_popped s v l x xs own shared k maa pool' loose mem refl refl (λ c. omega arith)
          (λ b. rw at (omega arith))))

get_free_aa-IsDrawing_split :
    (s : Cf) (front : List ℕ) (own shared : List Bucket) (k : Tiers)
    → IsAddressPool s (tiers front own shared) k
    → IsDrawing s (tiers front own shared) k (get_free_aa s)
unfolding get_free_aa take_shared
get_free_aa-IsDrawing_split s (x ∷ front) own shared k pool =
    let some_there : (s.thread.aas_count == 0) ≡ false = ground (arith, pool.cells.ids.counts) in
    rw some_there (inr (pop_aa-IsDrawn s x front own shared k pool))
get_free_aa-IsDrawing_split s [] ((h, xs) ∷ own) shared k pool =
    let none_there : (s.thread.aas_count == 0) ≡ true = ground (arith, pool.cells.ids.counts) in
    let some_there : (s.thread.abuckets_count == 0) ≡ false =
      ground (arith, pool.cells.ids.own_counts) in
    rw (none_there, some_there) (inr (from_own s h xs own shared k pool))
get_free_aa-IsDrawing_split s [] [] shared k pool =
    let none_there : (s.thread.aas_count == 0) ≡ true = ground (arith, pool.cells.ids.counts) in
    let none_own : (s.thread.abuckets_count == 0) ≡ true =
      ground (arith, pool.cells.ids.own_counts) in
    rw (none_there, none_own) (from_shared s [] shared k pool refl)

-- get_free_aa takes exactly the address that it returns out of the pool of free addresses, and fails
-- only if the pool is empty; it keeps the lists of addresses and of free buckets, each bucket in one
-- of the two pools as before, and writes no word outside the buckets.
pub get_free_aa-IsDrawing :
    (s : Cf) (l k : Tiers) → IsAddressPool s l k → IsDrawing s l k (get_free_aa s)
get_free_aa-IsDrawing s l k pool = get_free_aa-IsDrawing_split s l.front l.own l.shared k pool
