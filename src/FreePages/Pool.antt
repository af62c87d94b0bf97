-- ===== src/FreePages/Pool.antt =====
-- The free pages of cf.c as a pool: the thread's list, its buckets and the shared stack of buckets
-- hold each free page once.
pub mod Takes
pub mod Rooms
pub mod Gives
use compact_fit.Base.{
  ℕ, suc, ◌+◌, ◌*◌, ◌%◌, ◌^◌, ◌<◌, ◌≤◌, ◌≡◌, ◌≢◌, refl, sym, ap, ◌∙◌, arith, List, [], ◌∷◌, ◌==◌,
  false, if◌then◌else◌,
}
use compact_fit.ListHead.Without.{length}
use compact_fit.NbStack.{page_format}
use compact_fit.NbStack.Alone.{IsPlace}
use compact_fit.State.{Cf, Globals}
use compact_fit.State.Places.{page_places}
use compact_fit.Pool.Lists.{Bucket, Words, Leads, Chained, count, items, heads, number}
use compact_fit.Pool.Tiers.{Tiers, IsTiered, total, buckets}

-- A bucket of pages starts at its first page.
abbrev pub page_words : (ℕ → ℕ) → Words
page_words mem = record { link = λ x. mem (x + 4); begins = λ h. h; next = λ h. mem h }

-- An address of a page.
pub record IsPageAt (g : Globals) (x : ℕ) : Type 0 where
  pub aligned : x % 2 ^ 14 ≡ 0
  pub low : g.pages ≤ x
  pub high : x < g.pages + g.nr_pages * 2 ^ 14

-- The pages lie in memory, and the sizes of lists and buckets are positive and are `int`s.
pub record IsLaidOut (g : Globals) : Type 0 where
  pub start : 0 < g.pages
  pub pages_aligned : g.pages % 2 ^ 14 ≡ 0
  pub end : g.pages + g.nr_pages * 2 ^ 14 ≤ 2 ^ 32
  pub local_positive : 0 < g.nr_local_pages
  pub local_int : g.nr_local_pages < 2 ^ 31
  pub buckets_int : g.nr_local_pbuckets < 2 ^ 31

pub record IsStocked (s : Cf) (l : Tiers) : Type 0 where
  pub laid : IsLaidOut s.globals
  pub tiered : IsTiered (page_words s.mem) (page_places s) l
  pub placed : (x : ℕ) → 0 < total l x → IsPageAt s.globals x

pub record IsPool (s : Cf) (l : Tiers) : Type 0 where
  pub stocked : IsStocked s l
  pub few : number l.own ≤ s.globals.nr_local_pbuckets

-- The first page of a bucket is in it.
pub heads_are_items :
    (mem : ℕ → ℕ) (n a : ℕ) (bs : List Bucket) (b c : ℕ)
    → Chained (page_words mem) n a bs b
    → 0 < n
    → heads c bs ≤ items c bs
heads_are_items mem n a [] b c chain some_there = omega arith
heads_are_items mem n a ((h, []) ∷ bs) b c chain some_there = absurd (omega (arith, chain.1.1))
heads_are_items mem n a ((h, x ∷ xs) ∷ bs) b c chain some_there =
    let rest = heads_are_items mem n (mem h) bs b c chain.2 some_there in
    let first : h ≡ x = chain.1.0.0 in rw first (omega (arith, rest))

pub bucket_is_page : (s : Cf) (l : Tiers) (h : ℕ) → IsStocked s l → 0 < buckets l h → 0 < total l h
bucket_is_page s l h pool listed =
    let mem = s.mem in
    let n = s.globals.nr_local_pages in
    let p = page_places s in
    omega (
      arith,
      listed,
      heads_are_items mem n p.own_first l.own 0 h pool.tiered.own pool.laid.local_positive,
      heads_are_items mem n p.shared_first l.shared 0 h pool.tiered.shared pool.laid.local_positive,
    )

pub page-IsPlace :
    (g : Globals) (x : ℕ) → IsLaidOut g → IsPageAt g x → IsPlace page_format x × ((x == 0) ≡ false)
page-IsPlace g x laid at = (
  record { aligned = at.aligned; address = omega (arith, laid.end, at.high) },
  ground (arith, laid.start, at.low),
)

-- Where a list of the pool's buckets starts.
pub first-IsPlace :
    (s : Cf) (l : Tiers) (a : ℕ) (bs : List Bucket)
    → IsStocked s l
    → Chained (page_words s.mem) s.globals.nr_local_pages a bs 0
    → ((h : ℕ) → 0 < heads h bs → 0 < buckets l h)
    → IsPlace page_format a
first-IsPlace s l a [] pool chain listed =
    let e : a ≡ 0 = chain in record { aligned = rw e refl; address = omega arith }
first-IsPlace s l a ((h, xs) ∷ bs) pool chain listed =
    let there = bucket_is_page s l h pool (listed h (ground arith)) in
    let at : a ≡ h = chain.0 in rw at (page-IsPlace s.globals h pool.laid (pool.placed h there)).0
