-- ===== src/Tests/Whole.antt =====
-- A whole heap with one block in use, and cf_free of its address; the pools of pages and addresses.
use compact_fit.Base.{
  ℕ, ◌+◌, ◌*◌, ◌^◌, ◌≡◌, ◌≢◌, ◌⊎◌, refl, arith, true, false, Bool-cases, inl, inr, ◌==◌, [], ◌∷◌,
  if◌then◌else◌, some,
}
use compact_fit.Page.Blocks.{used}
use compact_fit.NbStack.{lifo_to_elem}
use compact_fit.State.{Cf}
use compact_fit.FreePages.{get_free_page, add_free_page}
use compact_fit.FreePages.Pool.{IsPool}
use compact_fit.FreePages.Pool.Takes.{IsTaken, get_free_page-IsTaken}
use compact_fit.FreePages.Pool.Gives.{IsGiven, add_free_page-IsGiven}
use compact_fit.AbstractAddress.{get_free_aa, put_free_aa, pop_aa, no_aa}
use compact_fit.AbstractAddress.Pool.{IsSpace, HasAllBuckets}
use compact_fit.AbstractAddress.Pool.Takes.{IsAddressPool, IsDrawing, get_free_aa-IsDrawing}
use compact_fit.AbstractAddress.Pool.Gives.{put_free_aa-IsReturned}
use compact_fit.AbstractAddress.Pool.Pushes.{IsReturned}
use compact_fit.Pool.Tiers.{Tiers, tiers}
use compact_fit.Heap.{block_at, aa_field}
use compact_fit.SizeMap.{get_size_class_index, init_size_classes_mapping}
use compact_fit.Classes.{get_size_class}
use compact_fit.Heap.Malloc.{cf_malloc, gross_size, malloc_in}
use compact_fit.Heap.Malloc.Keeps.{cf_malloc-class}
use compact_fit.Heap.Free.{cf_free}
use compact_fit.Heap.Invariant.{IsHeap}
use compact_fit.Heap.Whole.{IsWhole, IsBlock, IsLive}
use compact_fit.Heap.Whole.Client.{Intact, IsFreed, cf_free-IsFreed}
use compact_fit.Heap.Whole.Frees.{IsSameBlock}
use compact_fit.Heap.Whole.Grants.{IsServed, cf_malloc-IsServed}
use compact_fit.Heap.Whole.Calls.{Calls, start, malloc, Calls-IsSameBlock}
use compact_fit.Tests.Pages.{
  empty_page, one_used, taken_index, index_small, index-used, index-only, index_below, none_used,
}
use compact_fit.Tests.Heaps.{working, working-IsHeap, one_class, one_ring}

-- The page after the one in use.
abbrev spare_page : ℕ
spare_page = 2 ^ 20 + 2 ^ 14

-- There are two abstract addresses, at 4096 and, free, at 4100; the buckets at 8192 and 8200 hold none.
abbrev whole : Cf
whole = record working {
  globals = record working.globals { nr_aas = 2; nr_local_aas = 1 };
  thread = record working.thread {
    pages_count = 1;
    pages = spare_page;
    aas_count = 1;
    aas = 1;
    free_abuckets_count = 2;
    free_abuckets = 8192;
  };
  mem = λ a.
      if a == 8196
      then 8200
      else if a == 4096
      then block_at (2 ^ 20) taken_index 32
      else if a == aa_field (2 ^ 20) taken_index 32
      then 4096
      else 0;
}

abbrev spare_pages : Tiers
spare_pages = tiers (spare_page ∷ []) [] []

abbrev one_address : Tiers
one_address = tiers (1 ∷ []) [] []

abbrev two_buckets : Tiers
two_buckets = tiers (8192 ∷ 8200 ∷ []) [] []

whole-IsHeap : IsHeap whole one_class one_ring
whole-IsHeap = record {
  filed = working-IsHeap.filed;
  direct = working-IsHeap.direct;
  rounds = working-IsHeap.rounds;
  set = working-IsHeap.set;
  placed = working-IsHeap.placed;
  no_source = working-IsHeap.no_source;
  no_emptying = working-IsHeap.no_emptying;
  bounded = working-IsHeap.bounded;
  full = working-IsHeap.full;
  partly = working-IsHeap.partly;
  clean = working-IsHeap.clean;
  settled = working-IsHeap.settled;
  owned = working-IsHeap.owned;
}

whole-IsPool : IsPool whole spare_pages
unfolding lifo_to_elem
whole-IsPool = record {
  stocked = record {
    laid = record {
      start = omega arith;
      pages_aligned = refl;
      end = omega arith;
      local_positive = omega arith;
      local_int = omega arith;
      buckets_int = omega arith;
    };
    tiered = record {
      leads = (refl, tt);
      counts = refl;
      short = omega arith;
      own = refl;
      own_counts = refl;
      own_ends = tt;
      shared = refl;
      once = λ c. ground arith;
      apart = λ h. omega arith;
    };
    placed = λ x i.
        let at : x ≡ spare_page = ground (arith, i) in
        rw at (record { aligned = refl; low = omega arith; high = omega arith });
  };
  few = omega arith;
}

whole-IsSpace : IsSpace whole.globals
whole-IsSpace = record {
  aas_int = omega arith;
  multiple = refl;
  cells_aligned = refl;
  cells_in = omega arith;
  cells_positive = omega arith;
  buckets_aligned = refl;
  buckets_positive = omega arith;
  buckets_in = omega arith;
  apart = inl (omega arith);
  local_positive = omega arith;
  local_int = omega arith;
  abuckets_int = omega arith;
  free_positive = omega arith;
  free_int = omega arith;
}

whole-IsAddressPool : IsAddressPool whole one_address two_buckets
unfolding lifo_to_elem
whole-IsAddressPool = record {
  cells = record {
    space = whole-IsSpace;
    ids = record {
      leads = (refl, tt);
      counts = refl;
      short = omega arith;
      own = refl;
      own_counts = refl;
      own_ends = tt;
      shared = refl;
      once = λ c. ground arith;
      apart = λ h. omega arith;
    };
    free = record {
      leads = (refl, (refl, tt));
      counts = refl;
      short = omega arith;
      own = refl;
      own_counts = refl;
      own_ends = tt;
      shared = refl;
      once = λ c. ground arith;
      apart = λ h. omega arith;
    };
    numbered = λ c i. ground (arith, i);
    placed = λ h i.
        let at : (h ≡ 8192) ⊎ (h ≡ 8200) = ground (arith, i) in
        elim at [
          | inl e ↦ rw e (record { low = omega arith; high = omega arith; aligned = refl })
          | inr e ↦ rw e (record { low = omega arith; high = omega arith; aligned = refl })
        ];
    apart = λ h. ground arith;
  };
  few = omega arith;
}

whole-HasAllBuckets : HasAllBuckets whole.globals one_address two_buckets
whole-HasAllBuckets h at =
    let is : (h ≡ 8192) ⊎ (h ≡ 8200) = ground (arith, at.low, at.high, at.aligned) in
    elim is [ inl e ↦ rw e (omega arith) | inr e ↦ rw e (omega arith) ]

-- The last word of the used block is its abstract address.
block_names : whole.mem (aa_field (2 ^ 20) taken_index 32) ≡ 4096
block_names =
    let far : (aa_field (2 ^ 20) taken_index 32 == 4096) ≡ false = ground arith in
    let far' : (aa_field (2 ^ 20) taken_index 32 == 8196) ≡ false = ground arith in
    let same : (aa_field (2 ^ 20) taken_index 32 == aa_field (2 ^ 20) taken_index 32) ≡ true =
      ground arith in
    rw (far', far, same) refl

used-IsBlock : IsBlock whole one_address (2 ^ 20) taken_index
used-IsBlock = record {
  at = record { aligned = refl; low = omega arith; high = omega arith };
  room = omega (arith, index_below);
  id = 0;
  numbered = omega arith;
  taken = refl;
  names = block_names;
  points = refl;
}

whole-IsWhole : IsWhole whole one_class one_ring spare_pages one_address two_buckets
whole-IsWhole = record {
  heap = whole-IsHeap;
  pool = whole-IsPool;
  addresses = whole-IsAddressPool;
  all = whole-HasAllBuckets;
  apart = record { cells = inl (omega arith); buckets = inl (omega arith) };
  words = λ sc here. refl;
  off_heads = λ x at. ground (arith, at.low);
  spare = λ x i. let is : x ≡ spare_page = ground (arith, i) in rw is refl;
  blocks = λ p i small taken. elim (Bool-cases (p == 2 ^ 20)) [
    | inl e ↦
        let at : p ≡ 2 ^ 20 = ground arith in
        let taken' : used one_used i ≡ true = rw e at taken in
        let index : i ≡ taken_index = index-only i taken' in rw (at, index) used-IsBlock
    | inr e ↦
        let taken' : used empty_page i ≡ true = rw e at taken in
        absurd (let free = none_used i in ground (arith, free, taken'))
  ];
}

whole-IsLive : IsLive whole 4096
whole-IsLive = record {
  page = 2 ^ 20;
  index = taken_index;
  inside = index_small;
  taken = index-used;
  names = block_names;
}

whole-Intact : Intact one_class whole
whole-Intact = (one_ring, spare_pages, one_address, two_buckets, whole-IsWhole)

cf_free-IsFreed_example :
    (u : Cf) × (cf_free (λ t. t) whole 4096 ≡ some u) × IsFreed one_class whole 4096 u
cf_free-IsFreed_example =
    cf_free-IsFreed (λ t. t) whole one_class 4096 whole-Intact refl whole-IsLive

get_free_page-IsTaken_example : IsTaken whole spare_pages (get_free_page whole)
get_free_page-IsTaken_example = get_free_page-IsTaken whole spare_pages whole-IsPool

add_free_page-IsGiven_example :
    IsGiven whole spare_pages (2 ^ 20 + 2 * 2 ^ 14) (add_free_page whole (2 ^ 20 + 2 * 2 ^ 14))
add_free_page-IsGiven_example =
    add_free_page-IsGiven whole spare_pages (2 ^ 20 + 2 * 2 ^ 14) whole-IsPool
      (record { aligned = refl; low = omega arith; high = omega arith }) refl

get_free_aa-IsDrawing_example : IsDrawing whole one_address two_buckets (get_free_aa whole)
get_free_aa-IsDrawing_example =
    get_free_aa-IsDrawing whole one_address two_buckets whole-IsAddressPool

put_free_aa-IsReturned_example :
    (t : Cf) × (put_free_aa whole 0 ≡ some t) × IsReturned whole one_address two_buckets 0 t
put_free_aa-IsReturned_example =
    put_free_aa-IsReturned whole one_address two_buckets 0 whole-IsAddressPool whole-HasAllBuckets
      (omega arith) refl

-- A request for 8 bytes has the thread's first size-class.
class_of_8 : get_size_class whole (gross_size whole 8) ≡ some 512
unfolding get_size_class gross_size get_size_class_index init_size_classes_mapping
class_of_8 = refl

next_address : (get_free_aa whole).1 ≡ 1
unfolding get_free_aa pop_aa
next_address = refl

found : (get_free_aa whole).1 ≢ no_aa
found e = omega (arith, e, next_address)

cf_malloc-IsServed_example :
    (r : Cf × ℕ) × (cf_malloc whole 8 ≡ some r) × IsServed one_class whole 32 r
cf_malloc-IsServed_example =
    cf_malloc-IsServed whole one_class 8 512 whole-Intact class_of_8 refl found

one_call : Calls one_class 4096 whole (malloc_in whole 512).0
one_call =
    malloc 8 512 (malloc_in whole 512).1 start class_of_8 refl found
      (cf_malloc-class whole 8 512 class_of_8)

Calls-IsSameBlock_example :
    Intact one_class (malloc_in whole 512).0
    × IsSameBlock whole 4096 whole-IsLive (malloc_in whole 512).0
Calls-IsSameBlock_example = Calls-IsSameBlock whole-Intact whole-IsLive one_call
