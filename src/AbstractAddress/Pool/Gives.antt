-- ===== src/AbstractAddress/Pool/Gives.antt =====
-- put_free_aa of cf.c puts one address into the pool, and writes no other cell.
use compact_fit.Base.{
  ℕ, ◌+◌, ◌*◌, ◌<◌, ◌≤◌, ◌≡◌, inl, inr, refl, sym, ap, ◌∙◌, arith, List, [], ◌∷◌, ◌++◌, ◌==◌, leb,
  if◌then◌else◌, Bool-cases, Option, some, Option-cases, ◌/◌,
}
use mathlib.Core.Path.{subst}
use native.Mathlib.Nat.{mul-le-mul_right, add-mul}
use compact_fit.ListHead.Without.{length}
use compact_fit.State.{Cf, Globals}
use compact_fit.State.Places.{aa_places}
use compact_fit.Pool.Lists.{Bucket, count, items, number, heads-append}
use compact_fit.Pool.Counting.{sum-add, sum-count, sum-items, sum_missing, places_filled}
use compact_fit.Pool.Tiers.{Tiers, tiers, total}
use compact_fit.AbstractAddress.{
  ◌>>=◌, put_free_aa, need_free_bucket, install_bucket, return_buckets, push_aa,
}
use compact_fit.AbstractAddress.Pool.{
  HasAllBuckets, IsCells, OutsideBuckets, aa_words, bucket_total,
}
use compact_fit.AbstractAddress.Pool.Buckets.{IsShifted}
use compact_fit.AbstractAddress.Pool.Takes.{IsAddressPool}
use compact_fit.AbstractAddress.Pool.Rooms.{HasBucket, need_free_bucket-IsNeeded}
use compact_fit.AbstractAddress.Pool.Installs.{install-IsShifted, release-IsShifted}
use compact_fit.AbstractAddress.Pool.Pushes.{IsReturned, push_aa-IsReturned}

-- The list of the pool has room for an address.
record HasRoom (s : Cf) (l k : Tiers) (t : Cf) : Type 0 where
  roomy : Tiers
  free : Tiers
  shifted : IsShifted s l k t roomy free
  few : number roomy.own ≤ s.globals.nr_local_abuckets
  room : length roomy.front < s.globals.nr_local_aas
  same_buckets : (b : ℕ) → bucket_total roomy free b ≡ bucket_total l k b

then_IsShifted :
    (s : Cf) (l k : Tiers) (t : Cf) (l' k' : Tiers) (u : Cf) (l'' k'' : Tiers)
    → IsShifted s l k t l' k'
    → IsShifted t l' k' u l'' k''
    → IsShifted s l k u l'' k''
then_IsShifted s l k t l' k' u l'' k'' first second = record {
  cells = second.cells;
  same_globals = second.same_globals ∙ first.same_globals;
  same_pages = second.same_pages ∙ first.same_pages;
  alike = λ c. second.alike c ∙ first.alike c;
  kept = λ a far.
      second.kept a (subst (λ (g : Globals). OutsideBuckets g a) (sym first.same_globals) far)
      ∙ first.kept a far;
}

-- The full list goes into the thread's first free bucket.
installed-HasRoom :
    (s : Cf) (ids : List ℕ) (own shared : List Bucket) (front : List ℕ) (own' shared' : List Bucket)
    → let x = s.thread.free_abuckets in
      let l = tiers ids own shared in
      let k = tiers (x ∷ front) own' shared' in
      IsAddressPool s l k
      → length ids ≡ s.globals.nr_local_aas
      → HasRoom s l k (return_buckets (install_bucket s))
unfolding return_buckets
installed-HasRoom s ids own shared front own' shared' pool full =
    let x = s.thread.free_abuckets in
    let l = tiers ids own shared in
    let k = tiers (x ∷ front) own' shared' in
    let k' = tiers front own' shared' in
    let t = install_bucket s in
    let bs = (x, ids) ∷ own in
    let first =
      install-IsShifted s ids own shared front own' shared' pool.cells full
        (omega (arith, pool.few, pool.cells.space.abuckets_int)) in
    let positive = pool.cells.space.local_positive in
    let same : t.globals.nr_local_abuckets ≡ s.globals.nr_local_abuckets =
      ap (λ (g : Globals). g.nr_local_abuckets) first.same_globals in
    elim (Bool-cases (leb t.globals.nr_local_abuckets t.thread.abuckets_count)) [
      | inl e ↦ record {
        roomy = tiers [] [] (bs ++ shared);
        free = k';
        shifted =
            then_IsShifted s l k t (tiers [] bs shared) k' _ _ k' first
              (release-IsShifted t [] bs shared k' first.cells (omega arith) e);
        few = omega arith;
        room = positive;
        same_buckets = λ b. omega (arith, heads-append b bs shared);
      }
      | inr e ↦ record {
        roomy = tiers [] bs shared;
        free = k';
        shifted = rw e first;
        few = ground (arith, e, same, first.cells.ids.own_counts);
        room = positive;
        same_buckets = λ b. omega arith;
      }
    ]

-- While an address is not in the pool, not every bucket can be full of addresses.
bucket_left :
    (s : Cf) (l k : Tiers) (id : ℕ)
    → IsCells s l k
    → HasAllBuckets s.globals l k
    → length l.front ≡ s.globals.nr_local_aas
    → id < s.globals.nr_aas
    → total l id ≡ 0
    → ¬ ((b : ℕ) → total k b ≡ 0)
bucket_left s l k id cells all full small new empty =
    let g = s.globals in
    let w = aa_words g.aa_space s.mem in
    let p = aa_places s in
    let n = g.nr_local_aas in
    let many = g.nr_aas / n in
    let filled = places_filled many g.aa_buckets l.own l.shared (λ i below.
      let h = g.aa_buckets + 8 * i in
      omega (
        arith,
        empty h,
        all h (record { low = omega arith; high = omega arith; aligned = omega arith }),
      )) in
    let front = sum-count g.nr_aas l.front (λ c i. cells.numbered c (omega (arith, i))) in
    let own =
      sum-items g.nr_aas w n p.own_first l.own 0 cells.ids.own
        (λ c i. cells.numbered c (omega (arith, i))) in
    let shared =
      sum-items g.nr_aas w n p.shared_first l.shared 0 cells.ids.shared
        (λ c i. cells.numbered c (omega (arith, i))) in
    let some_items = λ (c : ℕ). items c l.own + items c l.shared in
    let both =
      sum-add g.nr_aas (λ c. items c l.own) (λ c. items c l.shared) some_items (λ c. refl) in
    let sums = sum-add g.nr_aas (λ c. count c l.front) some_items (total l) (λ c. omega arith) in
    let fewer = sum_missing g.nr_aas (total l) id cells.ids.once small new in
    let products : many * n ≤ (number l.own + number l.shared) * n = mul-le-mul_right n filled in
    let distributes : (number l.own + number l.shared) * n
        ≡ number l.own * n + number l.shared * n =
      add-mul (number l.own) (number l.shared) n in
    omega (
      arith, front, own, shared, both, sums, fewer, products, distributes, full,
      cells.space.multiple,
    )

make_room : Cf → Option Cf
make_room s =
    if s.thread.aas_count == s.globals.nr_local_aas
    then need_free_bucket s >>= (λ t. some (return_buckets (install_bucket t)))
    else some s

put_free_aa-parts :
    (s : Cf) (id : ℕ) → put_free_aa s id ≡ (make_room s >>= (λ t. some (push_aa t id)))
unfolding put_free_aa make_room
put_free_aa-parts s id = elim (Bool-cases (s.thread.aas_count == s.globals.nr_local_aas)) [
  | inl e ↦ elim (Option-cases (need_free_bucket s)) [
    | inl e' ↦ rw (e, e') refl
    | inr (t, e') ↦ rw (e, e') refl
  ]
  | inr e ↦ rw e refl
]

make_room-HasRoom :
    (s : Cf) (l k : Tiers) (id : ℕ)
    → IsAddressPool s l k
    → HasAllBuckets s.globals l k
    → id < s.globals.nr_aas
    → total l id ≡ 0
    → (t : Cf) × (make_room s ≡ some t) × HasRoom s l k t
unfolding make_room
make_room-HasRoom s l k id pool all small new =
    let cells = pool.cells in
    elim (Bool-cases (s.thread.aas_count == s.globals.nr_local_aas)) [
      | inl e ↦
          let full : length l.front ≡ s.globals.nr_local_aas =
            ground (arith, e, cells.ids.counts) in
          elim (need_free_bucket-IsNeeded s l k cells) [
            | inl (_, empty) ↦ absurd (bucket_left s l k id cells all full small new empty)
            | inr (t, e', has) ↦
                (return_buckets (install_bucket t), rw (e, e') refl, in_bucket t has full)
          ]
      | inr e ↦ (
        s,
        rw e refl,
        record {
          roomy = l;
          free = k;
          shifted = record {
            cells = cells;
            same_globals = refl;
            same_pages = refl;
            alike = λ c. refl;
            kept = λ a far. refl;
          };
          few = pool.few;
          room = ground (arith, e, cells.ids.counts, cells.ids.short);
          same_buckets = λ b. refl;
        },
      )
    ]
  where
    in_bucket :
        (t : Cf)
        → HasBucket s l k t
        → length l.front ≡ s.globals.nr_local_aas
        → HasRoom s l k (return_buckets (install_bucket t))
    in_bucket t has full =
        let shifted = has.shifted in
        let g = shifted.same_globals in
        let x = t.thread.free_abuckets in
        let at : has.first ≡ x = sym shifted.cells.free.leads.0 in
        let k' = tiers (x ∷ has.front) has.own has.shared in
        let shifted' : IsShifted s l k t l k' =
          subst (λ y. IsShifted s l k t l (tiers (y ∷ has.front) has.own has.shared)) at shifted in
        let few : number l.own ≤ t.globals.nr_local_abuckets =
          omega (arith, pool.few, ap (λ (g : Globals). g.nr_local_abuckets) g) in
        let full' : length l.front ≡ t.globals.nr_local_aas =
          full ∙ sym (ap (λ (g : Globals). g.nr_local_aas) g) in
        let r =
          installed-HasRoom t l.front l.own l.shared has.front has.own has.shared
            (record { cells = shifted'.cells; few = few }) full' in
        let more : (b : ℕ) → bucket_total l k' b ≡ bucket_total l k b =
          subst
            (λ y.
              (b : ℕ)
              → bucket_total l (tiers (y ∷ has.front) has.own has.shared) b ≡ bucket_total l k b)
            at has.same_buckets in
        record {
          roomy = r.roomy;
          free = r.free;
          shifted = then_IsShifted s l k t l k' _ r.roomy r.free shifted' r.shifted;
          few = omega (arith, r.few, ap (λ (g : Globals). g.nr_local_abuckets) g);
          room = omega (arith, r.room, ap (λ (g : Globals). g.nr_local_aas) g);
          same_buckets = λ b. omega (arith, r.same_buckets b, more b);
        }

-- put_free_aa of an address that is not in the pool never follows a null pointer, while the two pools
-- hold every bucket: it puts exactly that address into the pool of free addresses, keeps the lists of
-- addresses and of free buckets, and writes no word outside the buckets but the address's own cell.
pub put_free_aa-IsReturned :
    (s : Cf) (l k : Tiers) (id : ℕ)
    → IsAddressPool s l k
    → HasAllBuckets s.globals l k
    → id < s.globals.nr_aas
    → total l id ≡ 0
    → (t : Cf) × (put_free_aa s id ≡ some t) × IsReturned s l k id t
put_free_aa-IsReturned s l k id pool all small new =
    let (t, runs, has) = make_room-HasRoom s l k id pool all small new in
    let shifted = has.shifted in
    let g = shifted.same_globals in
    let few : number has.roomy.own ≤ t.globals.nr_local_abuckets =
      omega (arith, has.few, ap (λ (g : Globals). g.nr_local_abuckets) g) in
    let r =
      push_aa-IsReturned t has.roomy has.free id (record { cells = shifted.cells; few = few })
        (omega (arith, has.room, ap (λ (g : Globals). g.nr_local_aas) g))
        (omega (arith, small, ap (λ (g : Globals). g.nr_aas) g)) (shifted.alike id ∙ new) in
    (
      push_aa t id,
      put_free_aa-parts s id ∙ rw runs refl,
      record {
        larger = r.larger;
        free = r.free;
        pool = r.pool;
        same_globals = r.same_globals ∙ g;
        same_pages = r.same_pages ∙ shifted.same_pages;
        more = λ c. omega (arith, r.more c, shifted.alike c);
        same_buckets = λ b. omega (arith, r.same_buckets b, has.same_buckets b);
        kept = λ a far ne.
            r.kept a (subst (λ (g : Globals). OutsideBuckets g a) (sym g) far)
              (λ e. ne (e ∙ ap (λ (g : Globals). g.aa_space + 4 * id) g))
            ∙ shifted.kept a far;
      },
    )
