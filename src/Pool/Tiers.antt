-- ===== src/Pool/Tiers.antt =====
-- The three tiers of a pool of cf.c over its words.
use compact_fit.Base.{ℕ, ◌+◌, ◌<◌, ◌≤◌, ◌≡◌, arith, List}
use compact_fit.ListHead.Without.{length}
use compact_fit.Pool.Lists.{
  count, Bucket, items, heads, number, Words, Leads, Chained, IsLast, Agree, Leads-frame,
  Chained-frame,
}

-- The counters and addresses from which the tiers are reached, and the size of a full bucket.
pub record Places : Type 0 where
  pub size : ℕ
  pub front_count : ℕ
  pub front_first : ℕ
  pub own_count : ℕ
  pub own_first : ℕ
  pub own_last : ℕ
  pub shared_first : ℕ

pub record Tiers : Type 0 where
  pub front : List ℕ
  pub own : List Bucket
  pub shared : List Bucket

-- How often an item, or a bucket, is in the pool.
abbrev pub total : Tiers → ℕ → ℕ
total l c = count c l.front + items c l.own + items c l.shared

abbrev pub buckets : Tiers → ℕ → ℕ
buckets l c = heads c l.own + heads c l.shared

pub record IsTiered (w : Words) (p : Places) (l : Tiers) : Type 0 where
  pub leads : Leads w.link p.front_first l.front
  pub counts : p.front_count ≡ length l.front
  pub short : length l.front ≤ p.size
  pub own : Chained w p.size p.own_first l.own 0
  pub own_counts : p.own_count ≡ number l.own
  pub own_ends : IsLast l.own p.own_last
  pub shared : Chained w p.size p.shared_first l.shared 0
  pub once : (c : ℕ) → total l c < 2
  pub apart : (h : ℕ) → buckets l h < 2

-- The words of a pool are as they were.
pub record Same (w w' : Words) (l : Tiers) : Type 0 where
  pub links : (c : ℕ) → 0 < total l c → w'.link c ≡ w.link c
  pub begin : (h : ℕ) → 0 < buckets l h → w'.begins h ≡ w.begins h
  pub nexts : (h : ℕ) → 0 < buckets l h → w'.next h ≡ w.next h

pub own-Agree : (w w' : Words) (l : Tiers) → Same w w' l → Agree w w' l.own
own-Agree w w' l same = record {
  links = λ c i. same.links c (omega (arith, i));
  begin = λ h i. same.begin h (omega (arith, i));
  nexts = λ h i. same.nexts h (omega (arith, i));
}

pub shared-Agree : (w w' : Words) (l : Tiers) → Same w w' l → Agree w w' l.shared
shared-Agree w w' l same = record {
  links = λ c i. same.links c (omega (arith, i));
  begin = λ h i. same.begin h (omega (arith, i));
  nexts = λ h i. same.nexts h (omega (arith, i));
}

-- A pool is what it was while its words are.
pub Same-IsTiered :
    (w w' : Words) (p : Places) (l : Tiers) → Same w w' l → IsTiered w p l → IsTiered w' p l
Same-IsTiered w w' p l same tiered = record {
  leads =
      Leads-frame w.link w'.link p.front_first l.front tiered.leads
        (λ c i. same.links c (omega (arith, i)));
  counts = tiered.counts;
  short = tiered.short;
  own = Chained-frame w w' p.size p.own_first l.own 0 tiered.own (own-Agree w w' l same);
  own_counts = tiered.own_counts;
  own_ends = tiered.own_ends;
  shared =
      Chained-frame w w' p.size p.shared_first l.shared 0 tiered.shared (shared-Agree w w' l same);
  once = tiered.once;
  apart = tiered.apart;
}

abbrev pub tiers : List ℕ → List Bucket → List Bucket → Tiers
tiers front own shared = record { front = front; own = own; shared = shared }
