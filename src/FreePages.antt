-- ===== src/FreePages.antt =====
-- The page free-list of cf.c: pages cached by the thread, in a list of up to `nr_local_pages` linked
-- by `local_pages` and in full buckets linked by `next`, before a shared stack of buckets.
pub mod Lifo
pub mod Keeps
pub mod Starts
pub mod Pool
use compact_fit.Base.{
  ℕ, zero, suc, ◌+◌, ◌-◌, ◌*◌, ◌/◌, ◌%◌, ◌^◌, Bool, true, false, ◌==◌, leb, ltb, if◌then◌else◌,
}
use compact_fit.Page.{Page, u32, pagesize}
use compact_fit.NbStack.{nb_stack_initializer}
use compact_fit.State.{Cf, Globals, ThreadData, null, set_word, set_page}
use compact_fit.State.Stacks.{page_put, page_get}

abbrev pub nfull_list_flag : ℕ
nfull_list_flag = 1

abbrev pub full_list_flag : ℕ
full_list_flag = 2

abbrev pub source_list_flag : ℕ
source_list_flag = 3

abbrev pub emptying_list_flag : ℕ
emptying_list_flag = 4

abbrev pub free_list_flag : ℕ
free_list_flag = 5

-- The words of a `struct mem_page`, which lies over the first bytes of a free page.
abbrev pub next_of : ℕ → ℕ
next_of p = p

abbrev pub local_pages_of : ℕ → ℕ
local_pages_of p = p + 4

abbrev pub set_flags : Cf → ℕ → ℕ → Cf
set_flags s p flags = set_page s p (record (s.page p) { list_flags = flags })

abbrev pub set_data : Cf → ThreadData → Cf
set_data s d = record s { thread = d }

-- The loop of `init_free_pages_list` from page `i`, with `j` pages chained at `mp`.
init_loop : ℕ → ℕ → ℕ → ℕ → Cf → Cf
init_loop zero i j mp s = s
init_loop (suc n) i j mp s =
    let p = s.globals.pages + i * pagesize in
    let flagged = set_flags s p free_list_flag in
    let takes = ltb j s.globals.nr_local_pages in
    let linked = if takes then set_word flagged (local_pages_of p) mp else flagged in
    let mp' = if takes then p else mp in
    let j' = if takes then j + 1 else j in
    let is_full = j' == s.globals.nr_local_pages in
    init_loop n (i + 1) (if is_full then 0 else j') (if is_full then null else mp')
      (if is_full then page_put linked mp' mp' else linked)

pub init_free_pages_list : Cf → Cf
unfolding init_loop
init_free_pages_list s =
    init_loop s.globals.nr_pages 0 0 null (record s { free_page_head = nb_stack_initializer })

-- The head of the thread's page list taken, and its mark as a free page taken off. The head is
-- followed before it is tested for null, as cf.c does; of a null head, which no caller has while the
-- free pages are a pool, the word at 4 is read.
unfoldable pub take_page : Cf → Cf × ℕ
take_page s =
    let d = s.thread in
    let p = d.pages in
    let s' = set_data s (record d {
      pages = s.mem (local_pages_of p);
      pages_count = u32 (d.pages_count + 2 ^ 32 - 1);
    }) in
    (if p == null then s' else set_flags s' p 0, p)

-- A bucket from the shared stack becomes the thread's list.
refill_shared : Cf → Cf × ℕ
unfolding take_page
refill_shared s =
    let (t, mp) = page_get s in
    if mp == null
    then (t, null)
    else take_page
        (set_data t (record t.thread { pages_count = t.globals.nr_local_pages; pages = mp }))

-- One of the thread's own buckets becomes its list. As in cf.c the bucket is not tested for null.
refill_local : Cf → Cf × ℕ
unfolding take_page
refill_local s =
    let d = s.thread in
    take_page (
      set_data s (record d {
        pages = d.pbuckets;
        pages_count = s.globals.nr_local_pages;
        pbuckets = s.mem (next_of d.pbuckets);
        pbuckets_count = u32 (d.pbuckets_count + 2 ^ 32 - 1);
      }))

-- `get_free_page`: the state and the page, null if there is none.
unfoldable pub get_free_page : Cf → Cf × ℕ
unfolding refill_shared refill_local take_page
get_free_page s =
    if s.thread.pages_count == 0
    then if s.thread.pbuckets_count == 0 then refill_shared s else refill_local s
    else take_page s

-- The thread's full list becomes a bucket. As in cf.c the list is not tested for null.
pub stash : Cf → Cf
stash s =
    let d = s.thread in
    let linked = set_word s (next_of d.pages) d.pbuckets in
    let count = u32 (d.pbuckets_count + 1) in
    set_data linked (record d {
      pbuckets = d.pages;
      pbuckets_count = count;
      pages_count = 0;
      pages = null;
      last_pbucket = if count == 1 then d.pages else d.last_pbucket;
    })

-- Enough buckets go to the shared stack.
pub release_buckets : Cf → Cf
release_buckets s =
    let d = s.thread in
    if leb s.globals.nr_local_pbuckets d.pbuckets_count
    then set_data (page_put s d.pbuckets d.last_pbucket)
        (record d { pbuckets_count = 0; pbuckets = null; last_pbucket = null })
    else s

pub add_free_page : Cf → ℕ → Cf
unfolding stash release_buckets
add_free_page s p =
    let s1 =
      if s.thread.pages_count == s.globals.nr_local_pages then release_buckets (stash s) else s in
    let s2 = set_flags s1 p free_list_flag in
    let d = s2.thread in
    set_data (set_word s2 (local_pages_of p) d.pages)
      (record d { pages = p; pages_count = u32 (d.pages_count + 1) })
