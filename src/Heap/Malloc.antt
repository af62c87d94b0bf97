-- ===== src/Heap/Malloc.antt =====
-- cf_malloc of cf.c. `none` is a size whose class is read out of bounds.
pub mod Sizes
pub mod Bound
pub mod Offer
pub mod Places
pub mod Keeps
use compact_fit.Base.{ℕ, ◌+◌, Option, some, ◌&&◌, ◌==◌, ltb, if◌then◌else◌}
use compact_fit.Page.{u32, is_page_full, get_free_page_block}
use compact_fit.ListHead.{list_empty}
use compact_fit.State.{Cf, null, set_page, head_nfull_pages}
use compact_fit.FreePages.{get_free_page}
use compact_fit.AbstractAddress.{◌>>=◌, get_abstract_address}
use compact_fit.Classes.{
  get_nfull_pages_tail, get_size_class, add_page_to_nfull_list, remove_page_from_nfull_list,
  add_page_to_full_list, compaction_on,
}
use compact_fit.Heap.{block_at, is_incremental, set_abstract_address, set_partition_field}

-- The size with the words that cf.c keeps in the block.
unfoldable pub gross_size : Cf → ℕ → ℕ
gross_size s size =
    let n = u32 (size + 4) in
    let inc = s.globals.incremental_memcpy in
    if inc == 0 then n else if ltb inc n then u32 (n + 4) else n

-- The page that the block comes from, null if there is no free page.
unfoldable pub malloc_page : Cf → ℕ → Cf × ℕ
malloc_page s sc =
    if list_empty s.links (head_nfull_pages sc)
    then (let (t, p) = get_free_page s in
        if p == null then (t, null) else (
          add_page_to_nfull_list
              (set_page t p (record (t.page p) { nr_used_page_blocks = 0; sc = sc })) sc p,
          p,
        ))
    else (s, get_nfull_pages_tail s sc)

-- A page that a block was taken from goes to the full list with its last block.
unfoldable pub file_page : Cf → ℕ → ℕ → ℕ → Cf
file_page s sc p page_block_size =
    if is_page_full (s.page p) page_block_size
    then add_page_to_full_list (remove_page_from_nfull_list s sc p) sc p
    else s

-- The address handed out for the block: an abstract one where compaction is on.
unfoldable pub malloc_address : Cf → ℕ → ℕ → ℕ → ℕ → Cf × ℕ
malloc_address s sc p index page_block_size =
    if compaction_on s sc
    then (let (t, address) = get_abstract_address s (block_at p index page_block_size) in
        if address == null
        then (t, null)
        else (let u = set_abstract_address t p index page_block_size address in
            (
              if is_incremental u page_block_size
                  then set_partition_field u p index page_block_size null
                  else u,
              address,
            )))
    else (s, block_at p index page_block_size)

unfoldable pub malloc_block : Cf → ℕ → ℕ → ℕ → Cf × ℕ
unfolding file_page malloc_address
malloc_block s sc p page_block_size =
    let (q, index) = get_free_page_block (s.page p) in
    malloc_address (file_page (set_page s p q) sc p page_block_size) sc p index page_block_size

-- Only where a page was asked of the free pages is it tested for null.
unfoldable pub malloc_in : Cf → ℕ → Cf × ℕ
unfolding malloc_page malloc_block
malloc_in s sc =
    let (t, p) = malloc_page s sc in
    if list_empty s.links (head_nfull_pages sc) && p == null
    then (t, null)
    else malloc_block t sc p (s.size_class sc).block_size

pub cf_malloc : Cf → ℕ → Option (Cf × ℕ)
unfolding gross_size malloc_in
cf_malloc s size = get_size_class s (gross_size s size) >>= (λ sc. some (malloc_in s sc))
