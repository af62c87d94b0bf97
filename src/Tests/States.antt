-- ===== src/Tests/States.antt =====
-- A small state: page caches, page-block addresses, and the move of a block, at concrete inputs.
use compact_fit.Base.{
  ℕ, ◌+◌, ◌*◌, ◌^◌, ◌<◌, ◌≡◌, ◌≢◌, ◌⊎◌, inl, inr, refl, arith, true, false, ◌==◌, if◌then◌else◌,
  some, none, ◌↔◌,
}
use compact_fit.Arch.{ffs}
use compact_fit.Page.{Page, find_used_page_block}
use compact_fit.State.{Cf, Globals, ThreadData, SizeClass}
use compact_fit.FreePages.{get_free_page, add_free_page}
use compact_fit.FreePages.Lifo.{get_free_page-add_free_page}
use compact_fit.AbstractAddress.{get_free_aa, put_free_aa}
use compact_fit.AbstractAddress.Lifo.{get_free_aa-put_free_aa}
use compact_fit.Classes.{do_free_source_state}
use compact_fit.Heap.{get_page_direct_of_page_block, get_index_direct_of_page_block, block_at}
use compact_fit.Heap.Address.{page_and_index-block_at}
use compact_fit.Heap.Compaction.{Marks, Copying, copy_loop, copy_all, do_compaction}
use compact_fit.Heap.Compaction.Loop.{copy_loop-ends, copy_all-direct, KeepsSettings, copied}
use compact_fit.Heap.Compaction.Move.{IsMove, source_block, source_aa, Outside, do_compaction-moves}
use compact_fit.Heap.Malloc.{cf_malloc}
use compact_fit.Heap.Malloc.Sizes.{cf_malloc-none}

abbrev settings : ℕ → Globals
settings inc = record {
  aa_space = 4096;
  nr_aas = 64;
  aa_buckets = 8192;
  pages = 2 ^ 20;
  nr_pages = 64;
  nr_local_free_abuckets = 4;
  nr_local_pbuckets = 2;
  nr_local_abuckets = 2;
  nr_local_pages = 8;
  nr_local_aas = 16;
  memcpy_multiplicator = 1;
  incremental_memcpy = inc;
  partial_compaction_bound = 3;
  private_classes = false;
  global_classes = 512;
}

abbrev fresh_thread : ThreadData
fresh_thread = record {
  id = 0;
  pages_count = 0;
  pages = 0;
  pbuckets_count = 0;
  pbuckets = 0;
  last_pbucket = 0;
  aas_count = 0;
  aas = 0;
  abuckets_count = 0;
  abuckets = 0;
  last_abucket = 0;
  free_abuckets_count = 0;
  free_abuckets = 0;
  size_classes = 512;
}

-- Block 0 of every page is in use.
abbrev pub a_page : Page
a_page = record {
  nr_used_page_blocks = 1;
  list_flags = 1;
  sourceentries = 1;
  sc = 512;
  used_page_block_bitmap = λ w. if w == 0 then 1 else if w == 2 then 1 else 0;
}

abbrev pub a_class : SizeClass
a_class = record {
  nfullentries = 0;
  max_nfullentries = 0;
  sourceentries = 0;
  max_sourceentries = 0;
  partial_compaction_bound = 3;
  block_size = 32;
  nr_pages = 0;
  max_nr_pages = 0;
}

-- Every ring is empty. The block at 2 ^ 20 has its abstract address at 4096, and the block at
-- 2 ^ 20 + 2 ^ 14 at 4100.
abbrev pub a_state : ℕ → Cf
a_state inc = record {
  globals = settings inc;
  thread = fresh_thread;
  mem = λ a. if a == 2 ^ 20 + 28 then 4096 else if a == 2 ^ 20 + 2 ^ 14 + 28 then 4100 else a;
  links = record { next = λ a. a; prev = λ a. a };
  page = λ p. a_page;
  size_class = λ sc. a_class;
  free_page_head = 0;
  free_aa_head = 0;
  free_aa_buckets_head = 0;
  next_thread_id = 0;
}

get_free_page-add_free_page_example :
    (get_free_page (add_free_page (a_state 0) (2 ^ 20))).1 ≡ 2 ^ 20
get_free_page-add_free_page_example =
    get_free_page-add_free_page (a_state 0) (2 ^ 20) (omega arith) (omega arith) (omega arith)

get_free_aa-put_free_aa_example :
    (t : Cf) × (put_free_aa (a_state 0) 5 ≡ some t) × ((get_free_aa t).1 ≡ 5)
get_free_aa-put_free_aa_example =
    get_free_aa-put_free_aa (a_state 0) 5 (omega arith) (omega arith) (inl (λ e. omega (arith, e)))

page_and_index-block_at_example :
    (get_page_direct_of_page_block (block_at (2 ^ 20) 7 32) ≡ 2 ^ 20)
    × (get_index_direct_of_page_block (2 ^ 20) (block_at (2 ^ 20) 7 32) 32 ≡ 7)
page_and_index-block_at_example =
    page_and_index-block_at (2 ^ 20) 7 32 refl (omega arith) (omega arith) (omega arith)

source_aa_at : source_aa (a_state 0) (2 ^ 20 + 2 ^ 14) 32 ≡ 4100
unfolding find_used_page_block ffs
source_aa_at = refl

a_state-IsMove : IsMove (a_state 0) (2 ^ 20) 4096 (2 ^ 20 + 2 ^ 14) 32
unfolding find_used_page_block ffs
a_state-IsMove = record {
  direct = refl;
  rounds = omega arith;
  positive = omega arith;
  small = omega arith;
  words = refl;
  apart = inr (omega arith);
  not_target = inl (omega (arith, source_aa_at));
  not_source = inl (omega (arith, source_aa_at));
  other_aa = λ e. omega (arith, e, source_aa_at);
}

do_compaction-moves_example :
    (t : Cf) × (do_compaction (λ u. u) (a_state 0) 512 (2 ^ 20) 0 (2 ^ 20 + 2 ^ 14) 32
      ≡ some (do_free_source_state t 512 (2 ^ 20 + 2 ^ 14), 0))
    × ((i : ℕ)
        → i < 8
        → t.mem (2 ^ 20 + 4 * i)
          ≡ (a_state 0).mem (source_block (a_state 0) (2 ^ 20 + 2 ^ 14) 32 + 4 * i))
    × (t.mem (source_aa (a_state 0) (2 ^ 20 + 2 ^ 14) 32) ≡ 4096)
    × ((a : ℕ)
        → Outside a (2 ^ 20) 32
        → a ≢ source_aa (a_state 0) (2 ^ 20 + 2 ^ 14) 32
        → t.mem a ≡ (a_state 0).mem a)
do_compaction-moves_example =
    do_compaction-moves (λ u. u) (a_state 0) 512 (2 ^ 20) 0 (2 ^ 20 + 2 ^ 14) 32 a_state-IsMove

-- A copy in increments of 12 bytes that nothing aborts.
abbrev marks : Marks
marks = record {
  target_part_field = 2 ^ 20 + 24;
  target_block = 2 ^ 20;
  src_part_field = 2 ^ 20 + 2 ^ 14 + 24;
  src_block = 2 ^ 20 + 2 ^ 14;
  target_aa = 4096;
  target_aa_val = 4096;
}

abbrev copying : ℕ → Copying
copying inc = record {
  heap = a_state inc;
  rem_size = 32;
  dest = 2 ^ 20;
  src = 2 ^ 20 + 2 ^ 14;
  aborted = false;
}

idle_keeps : KeepsSettings (λ u. u)
unfolding KeepsSettings
idle_keeps s = refl

copy_loop-ends_example :
    ((copy_loop (λ u. u) marks 32 (copying 12)).rem_size ≡ 0)
    ⊎ ((copy_loop (λ u. u) marks 32 (copying 12)).aborted ≡ true)
copy_loop-ends_example =
    copy_loop-ends (λ u. u) marks (copying 12) idle_keeps (omega arith) (omega arith)

copy_all-direct_example : copy_all (λ u. u) marks 3 (copying 0) ≡ copied (copying 0)
copy_all-direct_example =
    copy_all-direct (λ u. u) marks 2 (copying 0) refl (omega arith) (omega arith)

cf_malloc-none_example : (cf_malloc (a_state 0) 7996 ≡ none) ↔ ◌≡◌ {A = ℕ} 7996 7996
cf_malloc-none_example = cf_malloc-none (a_state 0) 7996 refl (omega arith)
