-- ===== src/State.antt =====
-- The state of cf.c as one thread of the configuration with one global lock sees it: what `cf_init`
-- sets, the thread's `struct thread_data`, the pages and size-classes by address, and the words of
-- the abstract address space, of the buckets and of the pages' memory.
pub mod Kept
pub mod Stacks
pub mod Places
use compact_fit.Base.{ℕ, ◌+◌, ◌-◌, ◌*◌, ◌%◌, ◌^◌, Bool, ltb, update}
use compact_fit.Page.{Page}
use compact_fit.ListHead.{Links}

-- Addresses and numbers that `cf_init` sets and nothing changes.
pub record Globals : Type 0 where
  pub aa_space : ℕ
  pub nr_aas : ℕ
  pub aa_buckets : ℕ
  pub pages : ℕ
  pub nr_pages : ℕ
  pub nr_local_free_abuckets : ℕ
  pub nr_local_pbuckets : ℕ
  pub nr_local_abuckets : ℕ
  pub nr_local_pages : ℕ
  pub nr_local_aas : ℕ
  pub memcpy_multiplicator : ℕ
  pub incremental_memcpy : ℕ
  pub partial_compaction_bound : ℕ
  pub private_classes : Bool
  pub global_classes : ℕ

pub record ThreadData : Type 0 where
  pub id : ℕ
  pub pages_count : ℕ
  pub pages : ℕ
  pub pbuckets_count : ℕ
  pub pbuckets : ℕ
  pub last_pbucket : ℕ
  pub aas_count : ℕ
  pub aas : ℕ
  pub abuckets_count : ℕ
  pub abuckets : ℕ
  pub last_abucket : ℕ
  pub free_abuckets_count : ℕ
  pub free_abuckets : ℕ
  pub size_classes : ℕ

-- `struct size_class` without its four list heads, which `Links` holds.
pub record SizeClass : Type 0 where
  pub nfullentries : ℕ
  pub max_nfullentries : ℕ
  pub sourceentries : ℕ
  pub max_sourceentries : ℕ
  pub partial_compaction_bound : ℕ
  pub block_size : ℕ
  pub nr_pages : ℕ
  pub max_nr_pages : ℕ

pub record Cf : Type 0 where
  pub globals : Globals
  pub thread : ThreadData
  pub mem : ℕ → ℕ
  pub links : Links
  pub page : ℕ → Page
  pub size_class : ℕ → SizeClass
  pub free_page_head : ℕ
  pub free_aa_head : ℕ
  pub free_aa_buckets_head : ℕ
  pub next_thread_id : ℕ

abbrev pub null : ℕ
null = 0

-- `a < b` of two `int`s, on their patterns.
abbrev pub int_lt : ℕ → ℕ → Bool
int_lt a b = ltb ((a + 2 ^ 31) % 2 ^ 32) ((b + 2 ^ 31) % 2 ^ 32)

abbrev pub set_word : Cf → ℕ → ℕ → Cf
set_word s a v = record s { mem = update s.mem a v }

abbrev pub set_page : Cf → ℕ → Page → Cf
set_page s p q = record s { page = update s.page p q }

abbrev pub set_size_class : Cf → ℕ → SizeClass → Cf
set_size_class s sc c = record s { size_class = update s.size_class sc c }

-- The heads of the four lists in a `struct size_class` of 128 bytes, and `&p->list`.
abbrev pub sizeof_size_class : ℕ
sizeof_size_class = 128

abbrev pub head_full_pages : ℕ → ℕ
head_full_pages sc = sc

abbrev pub head_nfull_pages : ℕ → ℕ
head_nfull_pages sc = sc + 8

abbrev pub head_source_pages : ℕ → ℕ
head_source_pages sc = sc + 16

abbrev pub head_emptying_pages : ℕ → ℕ
head_emptying_pages sc = sc + 24

abbrev pub list_of_page : ℕ → ℕ
list_of_page p = p + 16200

-- `list_entry(ptr, struct page, list)`
abbrev pub page_of_list : ℕ → ℕ
page_of_list ptr = (ptr + 2 ^ 32 - 16200) % 2 ^ 32
