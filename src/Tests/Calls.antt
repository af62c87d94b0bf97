-- ===== src/Tests/Calls.antt =====
-- cf_init, sequences of calls, and the block handed out, at concrete inputs.
use compact_fit.Base.{ℕ, ◌+◌, ◌*◌, ◌^◌, ◌<◌, ◌≤◌, ◌≡◌, refl, arith, true, false, [], some}
use compact_fit.Page.{is_page_full, get_free_page_block}
use compact_fit.State.{Cf}
use compact_fit.Classes.Filed.{IsFiled}
use compact_fit.Classes.Init.{classes_at, fresh_class, init_size_class_instance-IsFiled}
use compact_fit.Classes.Moves.{put_in, add_page_to_nfull_list-IsFiled}
use compact_fit.Classes.{
  init_size_class_instance, add_page_to_nfull_list, compaction_on, get_size_class,
}
use compact_fit.SizeMap.{sizeclasses, get_size_class_index, init_size_classes_mapping}
use compact_fit.Heap.Init.{Settings, Regions, cf_init, init_thread}
use compact_fit.Heap.Init.Starts.{IsDirect, init_thread-IsHeap}
use compact_fit.Heap.Invariant.{IsHeap}
use compact_fit.Page.Blocks.{used}
use compact_fit.AbstractAddress.{get_abstract_address, get_free_aa, pop_aa}
use compact_fit.Heap.{block_at}
use compact_fit.Heap.Malloc.Places.{malloc_block-inside}
use compact_fit.Heap.Malloc.{malloc_in, gross_size, malloc_block, malloc_address}
use compact_fit.Heap.Malloc.Keeps.{cf_malloc-class}
use compact_fit.Heap.Reach.{Reach, start, next, malloc, Keeps, Reach-IsHeap, Reach-nfull}
use compact_fit.Classes.Counters.{nfull}
use compact_fit.Tests.Pages.{empty_page, empty_page-Counted, taken_index}
use compact_fit.Tests.Heaps.{
  no_rings, idle, empty_page-IsClean, idle-IsFiled, idle-IsHeap, idle-HasSpare,
}

abbrev arguments : Settings
arguments = record {
  abstract_address_space_size = 4096;
  concrete_address_space_size = 2 ^ 20;
  local_pages = 8;
  local_pbuckets = 2;
  local_aas = 16;
  local_abuckets = 2;
  local_free_abuckets = 4;
  k = 3;
  inc = 0;
  mult = 1;
  private = true;
}

abbrev mapped : Regions
mapped = record { aa_space = 4096; aa_buckets = 8192; pages = 2 ^ 20; global_classes = 512 }

arguments-IsDirect : IsDirect arguments
arguments-IsDirect = record {
  at_once = refl;
  rounds = omega arith;
  bound_positive = omega arith;
  bound_int = omega arith;
  some_aas = omega arith;
  some_pages = omega arith;
}

-- The thread's size-classes are its own.
init_thread-IsHeap_example :
    (u : Cf) × (cf_init arguments mapped idle ≡ some u)
    × (let t = init_thread 16384 u in IsHeap t (classes_at t.thread.size_classes) (λ h. []))
init_thread-IsHeap_example =
    init_thread-IsHeap arguments mapped idle 16384 arguments-IsDirect (λ p. empty_page-IsClean)

-- 28 bytes and the word of the abstract address are of the class number 5.
abbrev chosen : ℕ
chosen = 512 + 128 * 5

class_of_28 : get_size_class idle (gross_size idle 28) ≡ some chosen
unfolding get_size_class gross_size get_size_class_index init_size_classes_mapping
class_of_28 = refl

one_call : Reach (classes_at 512) idle (malloc_in idle chosen).0
one_call = next start (
    malloc 28 chosen (malloc_in idle chosen).1 class_of_28 refl idle-HasSpare
      (cf_malloc-class idle 28 chosen class_of_28))

Reach-IsHeap_example : Keeps (classes_at 512) (malloc_in idle chosen).0
Reach-IsHeap_example = Reach-IsHeap (no_rings, idle-IsHeap) one_call

Reach-nfull_example :
    let t = (malloc_in idle chosen).0 in
    nfull t chosen ≤ (t.size_class chosen).partial_compaction_bound
Reach-nfull_example = Reach-nfull chosen (no_rings, idle-IsHeap) one_call refl

-- The thread has one free abstract address.
abbrev addressed : Cf
addressed = record idle { thread = record idle.thread { aas_count = 1; aas = 5 } }

handed : (malloc_block addressed 512 (2 ^ 20) 32).1 ≡ 4116
unfolding malloc_block malloc_address get_abstract_address get_free_aa pop_aa compaction_on
    is_page_full get_free_page_block
handed = refl

malloc_block-inside_example :
    (used empty_page taken_index ≡ false)
    × (used ((malloc_block addressed 512 (2 ^ 20) 32).0.page (2 ^ 20)) taken_index ≡ true)
    × ((malloc_block addressed 512 (2 ^ 20) 32).0.mem (malloc_block addressed 512 (2 ^ 20) 32).1
        ≡ block_at (2 ^ 20) taken_index 32)
    × (block_at (2 ^ 20) taken_index 32 + 32 ≤ 2 ^ 20 + 16200)
unfolding compaction_on
malloc_block-inside_example =
    malloc_block-inside addressed 512 (2 ^ 20) 32 refl refl empty_page-Counted (omega arith)
      (omega arith) (omega arith) (ground (arith, handed)) (ground (arith, handed))

init_size_class_instance-IsFiled_example :
    let t = init_size_class_instance idle 512 in
    IsFiled t.links t.size_class (classes_at 512) no_rings
    × ((k : ℕ) → k < sizeclasses → t.size_class (512 + 128 * k) ≡ fresh_class idle k)
init_size_class_instance-IsFiled_example = init_size_class_instance-IsFiled idle 512

add_page_to_nfull_list-IsFiled_example :
    let t = add_page_to_nfull_list idle 512 (2 ^ 20) in
    IsFiled t.links t.size_class (classes_at 512) (put_in no_rings 520 (2 ^ 20))
add_page_to_nfull_list-IsFiled_example =
    add_page_to_nfull_list-IsFiled idle (classes_at 512) no_rings 512 (2 ^ 20) idle-IsFiled refl
      (λ h here. ground (arith, here))
