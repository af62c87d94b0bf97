-- ===== src/Tests/Frees.antt =====
-- cf_malloc and cf_free in a size-class at concrete inputs.
use compact_fit.Base.{◌≤◌, ◌^◌, ◌≡◌, refl, arith, some, ◌==◌, if◌then◌else◌}
use compact_fit.ListHead.{list_empty}
use compact_fit.State.{Cf}
use compact_fit.Classes.{compaction_on}
use compact_fit.Classes.Counters.{nfull}
use compact_fit.Heap.Malloc.{malloc_in}
use compact_fit.Heap.Malloc.Bound.{IsListed, malloc_in-nfull}
use compact_fit.Heap.Free.{free_block}
use compact_fit.Heap.Free.Bound.{IsBounded, free_block-nfull}
use compact_fit.Tests.States.{a_state, a_page, a_class}

-- Three pages are not full, as many as the bound allows, and the page at 2 ^ 20 is full.
abbrev busy : Cf
busy = record (a_state 0) {
  size_class = λ sc. record a_class { nfullentries = 3 };
  page = λ p. if p == 2 ^ 20 then record a_page { nr_used_page_blocks = 506 } else a_page;
}

busy-IsBounded : IsBounded busy 512 32
unfolding compaction_on list_empty
busy-IsBounded = record {
  direct = refl;
  rounds = omega arith;
  positive = omega arith;
  small = omega arith;
  on = refl;
  sources = refl;
  bound_positive = omega arith;
  bound_int = omega arith;
  bounded = omega arith;
}

free_block-nfull_example :
    (t : Cf) × (free_block (λ u. u) busy 512 (2 ^ 20) 32 5 4096 ≡ some (t, 0)) × (nfull t 512 ≤ 3)
free_block-nfull_example = free_block-nfull (λ u. u) busy 512 (2 ^ 20) 32 5 4096 busy-IsBounded

a_state-IsListed : IsListed (a_state 0) 512
unfolding list_empty
a_state-IsListed = record { none_listed = λ e. refl; some_listed = λ e. ground (arith, e) }

malloc_in-nfull_example : nfull (malloc_in (a_state 0) 512).0 512 ≤ 3
malloc_in-nfull_example =
    malloc_in-nfull (a_state 0) 512 3 a_state-IsListed (omega arith) (omega arith) (omega arith)
