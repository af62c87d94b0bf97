-- ===== src/Heap/Free.antt =====
-- cf_free of cf.c. `others` is what other threads do where a compaction gives up its lock, and `none`
-- a null pointer followed.
pub mod Bound
pub mod Local
pub mod Compacts
pub mod Keeps
pub mod Allocated
use compact_fit.Base.{
  ℕ, ◌+◌, ◌-◌, ◌/◌, ◌^◌, Bool, not, ◌&&◌, Option, some, ◌==◌, ltb, if◌then◌else◌,
}
use compact_fit.Page.{u32, is_page_full}
use compact_fit.State.{Cf, null, set_word}
use compact_fit.FreePages.{add_free_page}
use compact_fit.AbstractAddress.{◌>>=◌, clear_abstract_address}
use compact_fit.Classes.{
  valid_nfull_pages_ratio, remove_page_from_emptying_list, get_source_page, compaction_on,
  in_full_state, do_free_source_state,
}
use compact_fit.Heap.{
  abort_free_flag, get_index_direct_of_page_block, get_page_direct_of_page_block,
  check_for_concurrent_compaction, do_free, do_free_full_state, do_free_nfull_state,
}
use compact_fit.Heap.Compaction.{discount_pending, mark_word, do_compaction}

-- The freed block of a page is being moved: `partition_field && *partition_field`.
pub is_moving : Cf → ℕ → Bool
is_moving s partition_field = not (partition_field == null) && not (s.mem partition_field == 0)

-- `*target_aa |= ABORT_FREE_FLAG` through the last word of the block being written.
pub abort_move : Cf → ℕ → ℕ → Cf
abort_move s target_block size = mark_word s (s.mem (target_block + (size - 4))) abort_free_flag

-- A free while every page of the size-class is full or empties.
unfoldable pub free_in_full : Cf → ℕ → ℕ → ℕ → ℕ → Cf
unfolding is_moving abort_move
free_in_full s sc page size index =
    let part = check_for_concurrent_compaction s page index size in
    if is_moving s part
    then (let block = s.mem part in
        let target = get_page_direct_of_page_block block in
        let t =
          discount_pending
            (do_free_full_state (abort_move s block size) sc target
              (u32 (block + 2 ^ 32 - target) / size))
            page in
        if (t.page page).sourceentries == 0
        then add_free_page (remove_page_from_emptying_list t sc page) page
        else t)
    else do_free_full_state s sc page index

-- A freed block of a full page is filled from a source page.
unfoldable pub compact_into : (Cf → Cf) → Cf → ℕ → ℕ → ℕ → ℕ → Option (Cf × ℕ)
compact_into others s sc page index size =
    let (t, nf_page) = get_source_page s sc in do_compaction others t sc page index nf_page size

-- The target of the move is freed in place of the block itself.
pub free_target : (Cf → Cf) → Cf → ℕ → ℕ → ℕ → ℕ → Option (Cf × ℕ)
unfolding abort_move
free_target others s sc size block address =
    let target = get_page_direct_of_page_block block in
    let index = u32 (block + 2 ^ 32 - target) / size in
    let t = abort_move s block size in
    if valid_nfull_pages_ratio t sc 1
    then some (do_free t sc target size index, 0)
    else if is_page_full (t.page target) size
    then (let (u, nf_page) = get_source_page t sc in
        do_compaction others (set_word (set_word u (block + (size - 4)) address) address block) sc
          target index nf_page size)
    else some (do_free_nfull_state t sc target index, 0)

-- A free in the other states of the size-class: the state and `compact_abort`.
unfoldable pub free_in_nfull : (Cf → Cf) → Cf → ℕ → ℕ → ℕ → ℕ → ℕ → Option (Cf × ℕ)
unfolding is_moving compact_into free_target
free_in_nfull others s sc page size index address =
    let part = check_for_concurrent_compaction s page index size in
    if is_moving s part
    then free_target others s sc size (s.mem part) address
      >>= (λ (t, abort). some (do_free_source_state (discount_pending t page) sc page, abort))
    else if valid_nfull_pages_ratio s sc 1
    then some (do_free s sc page size index, 0)
    else if is_page_full (s.page page) size
    then compact_into others s sc page index size
    else some (do_free_nfull_state s sc page index, 0)

unfoldable pub free_block : (Cf → Cf) → Cf → ℕ → ℕ → ℕ → ℕ → ℕ → Option (Cf × ℕ)
unfolding free_in_full free_in_nfull
free_block others s sc page size index address =
    if compaction_on s sc
    then if in_full_state s sc
      then some (free_in_full s sc page size index, 0)
      else free_in_nfull others s sc page size index address
    else some (do_free s sc page size index, 0)

-- Where the block is: `address` itself where compaction is off for the thread's first size-class.
unfoldable pub block_of : Cf → ℕ → ℕ
block_of s address = if compaction_on s s.thread.size_classes then s.mem address else address

-- The address becomes free again, unless compaction is off or was aborted.
unfoldable pub give_back : ℕ → ℕ → Cf × ℕ → Option Cf
give_back sc address (s, abort) =
    if ltb (s.size_class sc).partial_compaction_bound (2 ^ 31) && abort == 0
    then clear_abstract_address s address
    else some s

unfoldable pub cf_free : (Cf → Cf) → Cf → ℕ → Option Cf
unfolding block_of give_back free_block
cf_free others s address =
    let page_block = block_of s address in
    let page = get_page_direct_of_page_block page_block in
    let sc = (s.page page).sc in
    let size = (s.size_class sc).block_size in
    let index = get_index_direct_of_page_block page page_block size in
    free_block others s sc page size index address >>= give_back sc address
