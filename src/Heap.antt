-- ===== src/Heap.antt =====
-- cf_malloc, cf_free and cf_dereference of cf.c, with the compaction behind them. `none` is a null
-- pointer followed or a read out of bounds. `others` is what other threads do where `do_compaction`
-- gives up the lock of the size-class between two increments; with one global lock it is nothing.
pub mod Address
pub mod Invariant
pub mod Compaction
pub mod Malloc
pub mod Free
pub mod Init
pub mod Reach
pub mod Whole
use compact_fit.Base.{
  ℕ, zero, suc, ◌+◌, ◌-◌, ◌*◌, ◌/◌, ◌%◌, ◌^◌, bit_and, bit_or, bit_xor, Bool, true, false, ◌&&◌,
  Option, none, some, ◌==◌, ltb, leb, if◌then◌else◌,
}
use compact_fit.Page.{
  Page, u32, pagesize, is_page_full, find_used_page_block, page_clear_used_bit,
  free_used_page_block, get_free_page_block,
}
use compact_fit.ListHead.{list_empty}
use compact_fit.SizeMap.{get_size_class_index}
use compact_fit.State.{Cf, null, int_lt, set_word, set_page, head_nfull_pages}
use compact_fit.FreePages.{get_free_page, add_free_page}
use compact_fit.AbstractAddress.{◌>>=◌, get_abstract_address, clear_abstract_address}
use compact_fit.Classes.{
  get_nfull_pages_tail, valid_nfull_pages_ratio, get_size_class, add_page_to_nfull_list,
  remove_page_from_nfull_list, add_page_to_full_list, remove_page_from_full_list,
  remove_page_from_source_list, add_page_to_emptying_list, remove_page_from_emptying_list,
  get_source_page, compaction_on, in_full_state, do_free_source_state,
}

abbrev pub page_mask : ℕ
page_mask = 2 ^ 14 - 1

abbrev pub abort_compact_flag : ℕ
abort_compact_flag = 1

abbrev pub abort_free_flag : ℕ
abort_free_flag = 2

pub get_index_direct_of_page_block : ℕ → ℕ → ℕ → ℕ
get_index_direct_of_page_block p page_block size = u32 (page_block + 2 ^ 32 - p) / size

unfoldable pub get_page_direct_of_page_block : ℕ → ℕ
get_page_direct_of_page_block page_block = bit_and page_block (bit_xor page_mask (2 ^ 32 - 1))

-- `&p->memory[index * size]`
abbrev pub block_at : ℕ → ℕ → ℕ → ℕ
block_at p index size = p + index * size

-- The last two words of a page-block: its abstract address, and before it the partition field.
abbrev pub aa_field : ℕ → ℕ → ℕ → ℕ
aa_field p index size = p + ((index + 1) * size - 4)

abbrev pub partition_field : ℕ → ℕ → ℕ → ℕ
partition_field p index size = p + ((index + 1) * size - 8)

pub set_abstract_address : Cf → ℕ → ℕ → ℕ → ℕ → Cf
set_abstract_address s p index size aa = set_word s (aa_field p index size) aa

pub get_abstract_address_of_page_block : Cf → ℕ → ℕ → ℕ → ℕ
get_abstract_address_of_page_block s p index size = s.mem (aa_field p index size)

pub set_partition_field : Cf → ℕ → ℕ → ℕ → ℕ → Cf
set_partition_field s p index size value = set_word s (partition_field p index size) value

-- Whether blocks of this size are moved in increments: `incremental_memcpy && size > incremental_memcpy`.
abbrev pub is_incremental : Cf → ℕ → Bool
is_incremental s size =
    if s.globals.incremental_memcpy == 0 then false else int_lt s.globals.incremental_memcpy size

-- The partition field, or null where no block of the size is moved in increments.
pub check_for_concurrent_compaction : Cf → ℕ → ℕ → ℕ → ℕ
check_for_concurrent_compaction s p index size =
    if is_incremental s size then partition_field p index size else null

pub do_free_full_state : Cf → ℕ → ℕ → ℕ → Cf
do_free_full_state s sc p page_block_index =
    let t =
      remove_page_from_full_list (set_page s p (free_used_page_block (s.page p) page_block_index))
        sc p in
    if (t.page p).nr_used_page_blocks == 0 then add_free_page t p else add_page_to_nfull_list t sc p

pub do_free_nfull_state : Cf → ℕ → ℕ → ℕ → Cf
do_free_nfull_state s sc p page_block_index =
    let t = set_page s p (free_used_page_block (s.page p) page_block_index) in
    if (s.page p).nr_used_page_blocks == 1
    then if (t.page p).sourceentries == 0
      then add_free_page (remove_page_from_nfull_list t sc p) p
      else add_page_to_emptying_list (remove_page_from_source_list t sc p) sc p
    else t

pub do_free : Cf → ℕ → ℕ → ℕ → ℕ → Cf
do_free s sc p page_block_size page_block_index =
    if is_page_full (s.page p) page_block_size
    then do_free_full_state s sc p page_block_index
    else do_free_nfull_state s sc p page_block_index

pub cf_dereference : Cf → ℕ → ℕ → ℕ
cf_dereference s address index =
    if s.globals.partial_compaction_bound == 2 ^ 32 - 1
    then u32 (address + 4 * index)
    else u32 (s.mem address + index)
