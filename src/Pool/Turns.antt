-- ===== src/Pool/Turns.antt =====
-- The moves between the tiers of a pool of cf.c: an item taken or put, the list made a bucket, the
-- buckets released, and a bucket made the list.
use compact_fit.Base.{
  ℕ, suc, ◌+◌, ◌<◌, ◌≡◌, refl, sym, ◌∙◌, arith, List, [], ◌∷◌, ◌++◌, ◌==◌, if◌then◌else◌, false,
}
use compact_fit.ListHead.Without.{length}
use compact_fit.Pool.Lists.{
  Bucket, heads, number, Words, Leads, IsLast, Leads-frame, Chained-frame, Chained-relink,
  Chained-append, items-append, heads-append,
}
use compact_fit.Pool.Tiers.{Places, total, buckets, IsTiered, Same, Same-IsTiered, tiers}

module _ (w w' : Words) (p : Places) (front : List ℕ) (own shared : List Bucket) where
  -- The first item is taken.
  pub pop-IsTiered :
      (x n : ℕ)
      → IsTiered w p (tiers (x ∷ front) own shared)
      → suc n ≡ p.front_count
      → IsTiered w (record p { front_first = w.link x; front_count = n }) (tiers front own shared)
  pop-IsTiered x n tiered fewer = record {
    leads = tiered.leads.1;
    counts = omega (arith, fewer, tiered.counts);
    short = omega (arith, tiered.short);
    own = tiered.own;
    own_counts = tiered.own_counts;
    own_ends = tiered.own_ends;
    shared = tiered.shared;
    once = λ c. let t = tiered.once c in omega (arith, t);
    apart = tiered.apart;
  }

  -- An item that is not in the pool is put first.
  pub push-IsTiered :
      (x n : ℕ)
      → IsTiered w p (tiers front own shared)
      → Same w w' (tiers front own shared)
      → total (tiers front own shared) x ≡ 0
      → length front < p.size
      → n ≡ p.front_count + 1
      → (0 < p.front_count → w'.link x ≡ p.front_first)
      → IsTiered w' (record p { front_first = x; front_count = n }) (tiers (x ∷ front) own shared)
  push-IsTiered x n tiered same new room more linked =
      let kept = Same-IsTiered w w' p (tiers front own shared) same tiered in
      record {
        leads = (
          refl,
          leads_on (w'.link x) front kept.leads (λ i. linked (omega (arith, i, tiered.counts))),
        );
        counts = omega (arith, more, tiered.counts);
        short = omega (arith, room);
        own = kept.own;
        own_counts = kept.own_counts;
        own_ends = kept.own_ends;
        shared = kept.shared;
        once = λ c. let t = tiered.once c in ground (arith, new, t);
        apart = kept.apart;
      }
    where
      leads_on :
          (a : ℕ) (xs : List ℕ)
          → Leads w'.link p.front_first xs
          → (0 < length xs → a ≡ p.front_first)
          → Leads w'.link a xs
      leads_on a [] h at = tt
      leads_on a (y ∷ ys) h at = (at (omega arith) ∙ h.0, h.1)

  -- The full list becomes the first of the thread's buckets.
  pub stash-IsTiered :
      (h first n last : ℕ)
      → IsTiered w p (tiers front own shared)
      → Same w w' (tiers front own shared)
      → Leads w'.link (w'.begins h) front
      → w'.next h ≡ p.own_first
      → length front ≡ p.size
      → buckets (tiers front own shared) h ≡ 0
      → n ≡ p.own_count + 1
      → last ≡ (if n == 1 then h else p.own_last)
      → IsTiered w'
          (record p {
            front_first = first;
            front_count = 0;
            own_count = n;
            own_first = h;
            own_last = last;
          })
          (tiers [] ((h, front) ∷ own) shared)
  stash-IsTiered h first n last tiered same leads next full new more ends =
      let kept = Same-IsTiered w w' p (tiers front own shared) same tiered in
      record {
        leads = tt;
        counts = refl;
        short = omega arith;
        own = (refl, (leads, full), rw next kept.own);
        own_counts = omega (arith, more, kept.own_counts);
        own_ends =
            ends_so own kept.own_ends (λ i. ground (arith, i, more, ends, kept.own_counts))
              (λ i. ground (arith, i, more, ends, kept.own_counts));
        shared = kept.shared;
        once = λ c. let t = kept.once c in omega (arith, t);
        apart = λ c. let t = kept.apart c in ground (arith, new, t);
      }
    where
      ends_so :
          (bs : List Bucket)
          → IsLast bs p.own_last
          → (number bs ≡ 0 → h ≡ last)
          → (0 < number bs → p.own_last ≡ last)
          → IsLast ((h, front) ∷ bs) last
      ends_so [] at none_there some_there = none_there refl
      ends_so (b ∷ bs) at none_there some_there = rw (sym (some_there (omega arith))) at

  -- The list becomes the first of the shared buckets.
  pub put_front-IsTiered :
      (h first : ℕ)
      → IsTiered w p (tiers front own shared)
      → ((c : ℕ) → 0 < total (tiers front own shared) c → w'.link c ≡ w.link c)
      → ((k : ℕ) → 0 < buckets (tiers front own shared) k → w'.begins k ≡ w.begins k)
      → ((k : ℕ) → 0 < buckets (tiers front own shared) k → w'.next k ≡ w.next k)
      → w'.begins h ≡ p.front_first
      → w'.next h ≡ p.shared_first
      → length front ≡ p.size
      → buckets (tiers front own shared) h ≡ 0
      → IsTiered w'
          (record p { front_first = first; front_count = 0; shared_first = h })
          (tiers [] own ((h, front) ∷ shared))
  put_front-IsTiered h first tiered links begin nexts starts next full new =
      let same : Same w w' (tiers front own shared) = record {
        links = links;
        begin = begin;
        nexts = nexts;
      } in
      let kept = Same-IsTiered w w' p (tiers front own shared) same tiered in
      record {
        leads = tt;
        counts = refl;
        short = omega arith;
        own = kept.own;
        own_counts = kept.own_counts;
        own_ends = kept.own_ends;
        shared = (refl, (rw starts kept.leads, full), rw next kept.shared);
        once = λ c. let t = kept.once c in omega (arith, t);
        apart = λ c. let t = kept.apart c in ground (arith, new, t);
      }

  -- The thread's buckets go before those of the shared stack.
  pub release-IsTiered :
      IsTiered w p (tiers front own shared)
      → 0 < number own
      → ((c : ℕ) → 0 < total (tiers front own shared) c → w'.link c ≡ w.link c)
      → ((h : ℕ) → 0 < buckets (tiers front own shared) h → w'.begins h ≡ w.begins h)
      → ((h : ℕ)
          → (h == p.own_last) ≡ false
          → 0 < buckets (tiers front own shared) h
          → w'.next h ≡ w.next h)
      → w'.next p.own_last ≡ p.shared_first
      → heads p.own_last shared ≡ 0
      → IsTiered w'
          (record p { own_count = 0; own_first = 0; own_last = 0; shared_first = p.own_first })
          (tiers front [] (own ++ shared))
  release-IsTiered tiered some_there links begin nexts to only = record {
    leads =
        Leads-frame w.link w'.link p.front_first front tiered.leads
          (λ c i. links c (omega (arith, i)));
    counts = tiered.counts;
    short = tiered.short;
    own = refl;
    own_counts = refl;
    own_ends = tt;
    shared =
        Chained-append w' p.size p.own_first own p.shared_first shared 0
          (Chained-relink w w' p.size p.own_first own p.own_last 0 p.shared_first tiered.own
            some_there tiered.own_ends (λ h. let t = tiered.apart h in omega (arith, t))
            (λ c i. links c (omega (arith, i))) (λ h i. begin h (omega (arith, i)))
            (λ h ne i. nexts h ne (omega (arith, i))) to)
          (Chained-frame w w' p.size p.shared_first shared 0 tiered.shared (record {
            links = λ c i. links c (omega (arith, i));
            begin = λ h i. begin h (omega (arith, i));
            nexts = λ h i. nexts h (ground (arith, i, only)) (omega (arith, i));
          }));
    once = λ c. let t = tiered.once c in omega (arith, t, items-append c own shared);
    apart = λ h. let t = tiered.apart h in omega (arith, t, heads-append h own shared);
  }

-- The first of the thread's buckets becomes its list.
pub refill_own-IsTiered :
    (w : Words) (p : Places) (xs : List ℕ) (own shared : List Bucket) (h n first second : ℕ)
    → IsTiered w p (tiers [] ((h, xs) ∷ own) shared)
    → suc n ≡ p.own_count
    → first ≡ w.begins h
    → second ≡ w.next h
    → IsTiered w
        (record p { front_count = p.size; front_first = first; own_count = n; own_first = second })
        (tiers xs own shared)
refill_own-IsTiered w p xs own shared h n first second tiered fewer at on = record {
  leads = rw at (tiered.own.1.0);
  counts = sym tiered.own.1.1;
  short = omega (arith, tiered.own.1.1);
  own = rw on tiered.own.2;
  own_counts = omega (arith, fewer, tiered.own_counts);
  own_ends = ends_so own tiered.own_ends;
  shared = tiered.shared;
  once = λ c. let t = tiered.once c in omega (arith, t);
  apart = λ c. let t = tiered.apart c in omega (arith, t);
}
  where
    ends_so : (bs : List Bucket) → IsLast ((h, xs) ∷ bs) p.own_last → IsLast bs p.own_last
    ends_so [] at = tt
    ends_so (b ∷ bs) at = at

-- The first of the shared buckets becomes the thread's list.
pub refill_shared-IsTiered :
    (w : Words) (p : Places) (xs : List ℕ) (own shared : List Bucket) (h first second : ℕ)
    → IsTiered w p (tiers [] own ((h, xs) ∷ shared))
    → first ≡ w.begins h
    → second ≡ w.next h
    → IsTiered w
        (record p { front_count = p.size; front_first = first; shared_first = second })
        (tiers xs own shared)
refill_shared-IsTiered w p xs own shared h first second tiered at on = record {
  leads = rw at (tiered.shared.1.0);
  counts = sym tiered.shared.1.1;
  short = omega (arith, tiered.shared.1.1);
  own = tiered.own;
  own_counts = tiered.own_counts;
  own_ends = tiered.own_ends;
  shared = rw on tiered.shared.2;
  once = λ c. let t = tiered.once c in omega (arith, t);
  apart = λ c. let t = tiered.apart c in omega (arith, t);
}
