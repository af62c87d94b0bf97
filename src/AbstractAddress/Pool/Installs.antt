-- ===== src/AbstractAddress/Pool/Installs.antt =====
-- put_free_aa of cf.c files a full list: it goes into a free bucket, and enough buckets go to the
-- shared stack.
use compact_fit.Base.{
  ℕ, suc, ◌+◌, ◌-◌, ◌^◌, ◌<◌, ◌≡◌, inl, inr, refl, ◌∙◌, arith, List, [], ◌∷◌, ◌++◌, ◌==◌, leb, true,
  if◌then◌else◌, update,
}
use compact_fit.Page.{u32}
use compact_fit.ListHead.Without.{length}
use compact_fit.NbStack.{aa_format, lifo_to_elem}
use compact_fit.NbStack.Alone.{aa-LeadsBack, nb_stack_put-first}
use compact_fit.State.{Cf, Globals}
use compact_fit.State.Places.{aa_places, bucket_places}
use compact_fit.State.Stacks.{aa_put, store_of}
use compact_fit.FreePages.Pool.{page_words}
use compact_fit.Pool.Lists.{Bucket, tick, number, items-append, heads-append, last_listed}
use compact_fit.Pool.Tiers.{Tiers, tiers, Same-IsTiered}
use compact_fit.Pool.Turns.{pop-IsTiered, stash-IsTiered, release-IsTiered}
use compact_fit.AbstractAddress.{install_bucket, return_buckets}
use compact_fit.AbstractAddress.Pool.{
  IsCells, IsBucketAt, aa_words, bucket_total, start-IsPlace, Untouched, Untouched-ids,
  Untouched-free, loose_word, bucket_word, two_buckets, free_listed,
}
use compact_fit.AbstractAddress.Pool.Buckets.{IsShifted}

-- Two words written one after the other.
pub twice :
    (g : Globals) (mem mem' mem'' : ℕ → ℕ) (l k : Tiers)
    → Untouched g mem mem' l k
    → Untouched g mem' mem'' l k
    → Untouched g mem mem'' l k
twice g mem mem' mem'' l k first second = record {
  cells = λ c i. second.cells c i ∙ first.cells c i;
  words =
      λ h i. let (a, b) = first.words h i in let (a', b') = second.words h i in (a' ∙ a, b' ∙ b);
}

pub install-IsShifted :
    (s : Cf) (ids : List ℕ) (own shared : List Bucket) (front : List ℕ) (own' shared' : List Bucket)
    → let x = s.thread.free_abuckets in
      let l = tiers ids own shared in
      let k = tiers (x ∷ front) own' shared' in
      IsCells s l k
      → length ids ≡ s.globals.nr_local_aas
      → number own + 1 < 2 ^ 32
      → IsShifted s l k
          (install_bucket s)
          (tiers [] ((x, ids) ∷ own) shared)
          (tiers front own' shared')
unfolding install_bucket
install-IsShifted s ids own shared front own' shared' cells full small =
    let d = s.thread in
    let x = d.free_abuckets in
    let g = s.globals in
    let l = tiers ids own shared in
    let k = tiers (x ∷ front) own' shared' in
    let k' = tiers front own' shared' in
    let w = page_words s.mem in
    let self : tick x x ≡ 1 = ground arith in
    let once = cells.apart x in
    let at = cells.placed x (omega (arith, self)) in
    let n = u32 (d.free_abuckets_count + 2 ^ 32 - 1) in
    let fewer : suc n ≡ d.free_abuckets_count =
      omega (arith, cells.free.counts, cells.free.short, cells.space.free_int) in
    let popped = pop-IsTiered w w (bucket_places s) front own' shared' x n cells.free fewer in
    let placed' : (b : ℕ) → 0 < bucket_total l k' b → IsBucketAt g b =
      λ b i. cells.placed b (omega (arith, i)) in
    let loose : bucket_total l k' x ≡ 0 = omega (arith, self, once) in
    let mem' = update s.mem x d.abuckets in
    let mem'' = update mem' (x + 4) d.aas in
    let same =
      twice g s.mem mem' mem'' l k'
        (loose_word g s.mem l k' x x d.abuckets cells.space cells.numbered placed' at loose
          (inl refl))
        (loose_word g mem' l k' x (x + 4) d.aas cells.space cells.numbered placed' at loose
          (inr refl)) in
    let popped_state = record s {
      thread = record d { free_abuckets = s.mem (x + 4); free_abuckets_count = n };
    } in
    let same' = Untouched-free popped_state mem'' l k' cells.space popped same in
    let free' = Same-IsTiered w (page_words mem'') (bucket_places popped_state) k' same' popped in
    let v = aa_words g.aa_space s.mem in
    let v' = aa_words g.aa_space mem'' in
    let ids' = Untouched-ids g s.mem mem'' l k' same in
    let leads = (Same-IsTiered v v' (aa_places s) l ids' cells.ids).leads in
    let count' = u32 (d.abuckets_count + 1) in
    let starts : mem'' (x + 4) ≡ d.aas = ground arith in
    let stashed =
      stash-IsTiered v v' (aa_places s) ids own shared x d.aas count'
        (if count' == 1 then x else d.last_abucket) cells.ids ids' (rw starts leads) (ground arith)
        full (omega (arith, loose)) (omega (arith, cells.ids.own_counts)) refl in
    record {
      cells = record {
        space = cells.space;
        ids = stashed;
        free = free';
        numbered = λ c i. cells.numbered c (omega (arith, i));
        placed = λ b i. cells.placed b (omega (arith, i));
        apart = λ b. let t = cells.apart b in omega (arith, t);
      };
      same_globals = refl;
      same_pages = refl;
      alike = λ c. omega arith;
      kept = λ b outside. elim outside [
        | inl far ↦ ground (arith, far, at.low)
        | inr far ↦ ground (arith, far, at.high)
      ];
    }

pub release-IsShifted :
    (s : Cf) (ids : List ℕ) (own shared : List Bucket) (k : Tiers)
    → IsCells s (tiers ids own shared) k
    → 0 < number own
    → leb s.globals.nr_local_abuckets s.thread.abuckets_count ≡ true
    → IsShifted s (tiers ids own shared) k (return_buckets s) (tiers ids [] (own ++ shared)) k
unfolding return_buckets aa_put
release-IsShifted s ids own shared k cells some_there enough =
    let d = s.thread in
    let g = s.globals in
    let l = tiers ids own shared in
    let last = d.last_abucket in
    let listed = last_listed own last some_there cells.ids.own_ends in
    let at = cells.placed last (omega (arith, listed)) in
    let once = cells.apart last in
    let start =
      start-IsPlace g (aa_words g.aa_space s.mem) g.nr_local_aas d.abuckets own cells.space
        cells.ids.own (λ b i. cells.placed b (omega (arith, i))) in
    let (elem, mem) =
      nb_stack_put-first aa_format aa-LeadsBack (store_of s s.free_aa_head) d.abuckets last start in
    let v = lifo_to_elem aa_format s.free_aa_head in
    let mem' = update s.mem last v in
    let released =
      release-IsTiered (aa_words g.aa_space s.mem) (aa_words g.aa_space mem') (aa_places s) ids own
        shared cells.ids some_there
        (λ c i.
          let (low, high) = bucket_word g last c cells.space at (cells.numbered c i) in
          ground (arith, low))
        (λ h i.
          let (low, high) = two_buckets g last h at (cells.placed h (omega (arith, i))) in
          ground (arith, low))
        (λ h ne i. ground (arith, ne)) (ground arith) (omega (arith, listed, once)) in
    let free =
      Same-IsTiered (page_words s.mem) (page_words mem') (bucket_places s) k
        (record {
          links = λ c i.
              let (low, high) = two_buckets g last c at (cells.placed c (omega (arith, i))) in
              ground (arith, low);
          begin = λ h i. refl;
          nexts = λ h i.
              let there = free_listed s k h cells.space cells.free in
              ground (arith, i, there, once, listed);
        })
        cells.free in
    rw enough (record {
      cells = record {
        space = cells.space;
        ids = rw (elem, mem) released;
        free = rw mem free;
        numbered = λ c i. cells.numbered c (omega (arith, i, items-append c own shared));
        placed = λ b i. cells.placed b (omega (arith, i, heads-append b own shared));
        apart = λ b. let t = cells.apart b in omega (arith, t, heads-append b own shared);
      };
      same_globals = refl;
      same_pages = refl;
      alike = λ c. omega (arith, items-append c own shared);
      kept = λ b outside. elim outside [
        | inl far ↦ rw mem (ground (arith, far, at.low))
        | inr far ↦ rw mem (ground (arith, far, at.high))
      ];
    })
