-- ===== src/AbstractAddress/Pool.antt =====
-- The free abstract addresses of cf.c as a pool, and the pool of the buckets that hold none: each
-- free address is in the thread's list or in one bucket, and each bucket in one pool.
pub mod Buckets
pub mod Takes
pub mod Rooms
pub mod Installs
pub mod Pushes
pub mod Gives
use compact_fit.Base.{
  ℕ, suc, ◌+◌, ◌-◌, ◌*◌, ◌/◌, ◌%◌, ◌^◌, ◌<◌, ◌≤◌, ◌≡◌, ◌≢◌, ◌⊎◌, inl, inr, refl, sym, ap, ◌∙◌,
  arith, List, [], ◌∷◌, ◌==◌, false, if◌then◌else◌, update, Bool-cases,
}
use compact_fit.ListHead.Without.{length}
use compact_fit.NbStack.{aa_format}
use compact_fit.NbStack.Alone.{IsPlace}
use compact_fit.State.{Cf, Globals}
use compact_fit.State.Places.{aa_places, bucket_places}
use compact_fit.FreePages.Pool.{page_words, heads_are_items}
use compact_fit.Pool.Lists.{Bucket, Words, Leads, Chained, count, items, heads, number}
use compact_fit.Pool.Tiers.{Tiers, IsTiered, Same, total, buckets}

-- An address leads to the next through its cell; a bucket's second word is its first address.
abbrev pub aa_words : ℕ → (ℕ → ℕ) → Words
aa_words base mem = record {
  link = λ x. mem (base + 4 * x);
  begins = λ h. mem (h + 4);
  next = λ h. mem h;
}

-- The end of the buckets. Free buckets are linked as free pages are: within a list through the
-- second word, and from list to list through the first.
abbrev pub buckets_end : Globals → ℕ
buckets_end g = g.aa_buckets + 8 * (g.nr_aas / g.nr_local_aas)

pub record IsBucketAt (g : Globals) (h : ℕ) : Type 0 where
  pub low : g.aa_buckets ≤ h
  pub high : h + 8 ≤ buckets_end g
  pub aligned : (h - g.aa_buckets) % 8 ≡ 0

abbrev pub OutsideBuckets : Globals → ℕ → Type 0
OutsideBuckets g a = (a < g.aa_buckets) ⊎ (buckets_end g ≤ a)

abbrev pub cells_end : Globals → ℕ
cells_end g = g.aa_space + 4 * g.nr_aas

-- Cells and buckets lie in memory, apart from each other, and the sizes are positive and `int`s.
pub record IsSpace (g : Globals) : Type 0 where
  pub aas_int : g.nr_aas < 2 ^ 31
  pub multiple : g.nr_aas / g.nr_local_aas * g.nr_local_aas ≡ g.nr_aas
  pub cells_aligned : g.aa_space % 4 ≡ 0
  pub cells_in : cells_end g ≤ 2 ^ 32
  pub cells_positive : 0 < g.aa_space
  pub buckets_aligned : g.aa_buckets % 4 ≡ 0
  pub buckets_positive : 0 < g.aa_buckets
  pub buckets_in : buckets_end g ≤ 2 ^ 32
  pub apart : (cells_end g ≤ g.aa_buckets) ⊎ (buckets_end g ≤ g.aa_space)
  pub local_positive : 0 < g.nr_local_aas
  pub local_int : g.nr_local_aas < 2 ^ 31
  pub abuckets_int : g.nr_local_abuckets < 2 ^ 31
  pub free_positive : 0 < g.nr_local_free_abuckets
  pub free_int : g.nr_local_free_abuckets < 2 ^ 31

-- The two pools hold every bucket.
abbrev pub HasAllBuckets : Globals → Tiers → Tiers → Type 0
HasAllBuckets g l k = (h : ℕ) → IsBucketAt g h → 0 < buckets l h + total k h

-- How often a bucket is in the two pools, full or free.
abbrev pub bucket_total : Tiers → Tiers → ℕ → ℕ
bucket_total l k h = buckets l h + total k h

-- The two pools: `l` of free addresses, and `k` of free buckets.
pub record IsCells (s : Cf) (l k : Tiers) : Type 0 where
  pub space : IsSpace s.globals
  pub ids : IsTiered (aa_words s.globals.aa_space s.mem) (aa_places s) l
  pub free : IsTiered (page_words s.mem) (bucket_places s) k
  pub numbered : (c : ℕ) → 0 < total l c → c < s.globals.nr_aas
  pub placed : (h : ℕ) → 0 < bucket_total l k h → IsBucketAt s.globals h
  pub apart : (h : ℕ) → bucket_total l k h < 2

-- The words of both pools are as they were.
pub record Untouched (g : Globals) (mem mem' : ℕ → ℕ) (l k : Tiers) : Type 0 where
  pub cells : (c : ℕ) → 0 < total l c → mem' (g.aa_space + 4 * c) ≡ mem (g.aa_space + 4 * c)
  pub words : (h : ℕ) → 0 < bucket_total l k h → (mem' h ≡ mem h) × (mem' (h + 4) ≡ mem (h + 4))

pub Untouched-ids :
    (g : Globals) (mem mem' : ℕ → ℕ) (l k : Tiers)
    → Untouched g mem mem' l k
    → Same (aa_words g.aa_space mem) (aa_words g.aa_space mem') l
Untouched-ids g mem mem' l k same = record {
  links = same.cells;
  begin = λ h i. (same.words h (omega (arith, i))).1;
  nexts = λ h i. (same.words h (omega (arith, i))).0;
}

pub free_listed :
    (s : Cf) (k : Tiers) (h : ℕ)
    → IsSpace s.globals
    → IsTiered (page_words s.mem) (bucket_places s) k
    → buckets k h + count h k.front ≤ total k h
free_listed s k h space tiered =
    let n = s.globals.nr_local_free_abuckets in
    let p = bucket_places s in
    omega (
      arith,
      heads_are_items s.mem n 0 k.own 0 h tiered.own space.free_positive,
      heads_are_items s.mem n p.shared_first k.shared 0 h tiered.shared space.free_positive,
    )

pub Untouched-free :
    (s : Cf) (mem' : ℕ → ℕ) (l k : Tiers)
    → IsSpace s.globals
    → IsTiered (page_words s.mem) (bucket_places s) k
    → Untouched s.globals s.mem mem' l k
    → Same (page_words s.mem) (page_words mem') k
Untouched-free s mem' l k space tiered same = record {
  links = λ c i. (same.words c (omega (arith, i))).1;
  begin = λ h i. refl;
  nexts = λ h i. (same.words h (omega (arith, i, free_listed s k h space tiered))).0;
}

pub bucket-IsPlace :
    (g : Globals) (h : ℕ) → IsSpace g → IsBucketAt g h → IsPlace aa_format h × ((h == 0) ≡ false)
bucket-IsPlace g h space at = (
  record {
    aligned = omega (arith, at.aligned, at.low, space.buckets_aligned);
    address = omega (arith, at.high, space.buckets_in);
  },
  ground (arith, space.buckets_positive, at.low),
)

-- Where a list of buckets of either pool starts.
pub start-IsPlace :
    (g : Globals) (w : Words) (n a : ℕ) (bs : List Bucket)
    → IsSpace g
    → Chained w n a bs 0
    → ((h : ℕ) → 0 < heads h bs → IsBucketAt g h)
    → IsPlace aa_format a
start-IsPlace g w n a [] space chain at =
    let e : a ≡ 0 = chain in record { aligned = rw e refl; address = omega arith }
start-IsPlace g w n a ((h, xs) ∷ bs) space chain at =
    let e : a ≡ h = chain.0 in rw e (bucket-IsPlace g h space (at h (ground arith))).0

-- A word of a bucket is no cell, and two buckets share no word.
pub bucket_word :
    (g : Globals) (h : ℕ) (c : ℕ)
    → IsSpace g
    → IsBucketAt g h
    → c < g.nr_aas
    → (h ≢ g.aa_space + 4 * c) × (h + 4 ≢ g.aa_space + 4 * c)
bucket_word g h c space at small = (
  λ e. elim space.apart [
    | inl far ↦ omega (arith, far, e, at.low)
    | inr far ↦ omega (arith, far, e, at.high)
  ],
  λ e. elim space.apart [
    | inl far ↦ omega (arith, far, e, at.low)
    | inr far ↦ omega (arith, far, e, at.high)
  ],
)

pub two_buckets :
    (g : Globals) (h h' : ℕ) → IsBucketAt g h → IsBucketAt g h' → (h ≢ h' + 4) × (h + 4 ≢ h')
two_buckets g h h' at at' = (
  λ e. omega (arith, e, at.aligned, at'.aligned, at.low, at'.low),
  λ e. omega (arith, e, at.aligned, at'.aligned, at.low, at'.low),
)

-- A word of a bucket in neither pool is written.
pub loose_word :
    (g : Globals) (mem : ℕ → ℕ) (l k : Tiers) (h a v : ℕ)
    → IsSpace g
    → ((c : ℕ) → 0 < total l c → c < g.nr_aas)
    → ((h' : ℕ) → 0 < bucket_total l k h' → IsBucketAt g h')
    → IsBucketAt g h
    → bucket_total l k h ≡ 0
    → (a ≡ h) ⊎ (a ≡ h + 4)
    → Untouched g mem (update mem a v) l k
loose_word g mem l k h a v space numbered placed at loose is = record {
  cells = λ c i.
      let (low, high) = bucket_word g h c space at (numbered c i) in ground (arith, low, high, is);
  words = λ h' i.
      let (low, high) = two_buckets g h h' at (placed h' i) in
      (ground (arith, low, high, is, i, loose), ground (arith, low, high, is, i, loose));
}
