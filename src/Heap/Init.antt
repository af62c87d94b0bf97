-- ===== src/Heap/Init.antt =====
-- cf_init and init_thread of cf.c. The addresses of the mapped memory are arguments, as is that of the
-- thread's data; the memory itself is that of the state given. `none` is a division by zero.
pub mod Starts
use compact_fit.Base.{
  ℕ, ◌+◌, ◌-◌, ◌*◌, ◌/◌, ◌%◌, Bool, ◌||◌, ◌==◌, Option, none, some, ◌^◌, if◌then◌else◌,
}
use compact_fit.Page.{u32, pagesize}
use compact_fit.State.{Cf, Globals, null}
use compact_fit.FreePages.{init_free_pages_list}
use compact_fit.AbstractAddress.{init_free_aa_list}
use compact_fit.Classes.{init_size_class_instance}
use compact_fit.Heap.{get_page_direct_of_page_block}

-- The arguments of `cf_init`.
pub record Settings : Type 0 where
  pub abstract_address_space_size : ℕ
  pub concrete_address_space_size : ℕ
  pub local_pages : ℕ
  pub local_pbuckets : ℕ
  pub local_aas : ℕ
  pub local_abuckets : ℕ
  pub local_free_abuckets : ℕ
  pub k : ℕ
  pub inc : ℕ
  pub mult : ℕ
  pub private : Bool

-- What `mmap` returned for the three regions, and the static array of size-classes.
pub record Regions : Type 0 where
  pub aa_space : ℕ
  pub aa_buckets : ℕ
  pub pages : ℕ
  pub global_classes : ℕ

-- The first page boundary of the region, and the bytes in front of it.
pub first_page : ℕ → ℕ
first_page pages =
    if pages % pagesize == 0 then pages else get_page_direct_of_page_block pages + pagesize

pub alignment : ℕ → ℕ
alignment pages =
    if pages % pagesize == 0 then 0 else pagesize + get_page_direct_of_page_block pages - pages

pub globals_of : Settings → Regions → Globals
unfolding first_page alignment
globals_of c r = record {
  aa_space = r.aa_space;
  nr_aas = c.abstract_address_space_size / 4 / c.local_aas * c.local_aas;
  aa_buckets = r.aa_buckets;
  pages = first_page r.pages;
  nr_pages =
      u32 (c.concrete_address_space_size + 2 ^ 32 - alignment r.pages)
      / pagesize
      / c.local_pages
      * c.local_pages;
  nr_local_free_abuckets = c.local_free_abuckets;
  nr_local_pbuckets = c.local_pbuckets;
  nr_local_abuckets = c.local_abuckets;
  nr_local_pages = c.local_pages;
  nr_local_aas = c.local_aas;
  memcpy_multiplicator = c.mult;
  incremental_memcpy = c.inc;
  partial_compaction_bound = c.k;
  private_classes = c.private;
  global_classes = r.global_classes;
}

pub cf_init : Settings → Regions → Cf → Option Cf
unfolding globals_of
cf_init c r s =
    if c.local_aas == 0 || c.local_pages == 0
    then none
    else some (
        init_size_class_instance
          (init_free_pages_list (init_free_aa_list (record s { globals = globals_of c r })))
          r.global_classes)

-- `struct thread_data` has 14 words; the thread's own size-classes lie behind it.
abbrev pub sizeof_thread_data : ℕ
sizeof_thread_data = 56

pub init_thread : ℕ → Cf → Cf
init_thread thread_data s =
    let id = u32 (s.next_thread_id + 1) in
    let classes =
      if s.globals.private_classes
      then thread_data + sizeof_thread_data
      else s.globals.global_classes in
    let t = record s {
      next_thread_id = id;
      thread = record {
        id = id;
        pages_count = 0;
        pages = null;
        pbuckets_count = 0;
        pbuckets = null;
        last_pbucket = null;
        aas_count = 0;
        aas = 0;
        abuckets_count = 0;
        abuckets = null;
        last_abucket = null;
        free_abuckets_count = 0;
        free_abuckets = null;
        size_classes = classes;
      };
    } in
    if s.globals.private_classes then init_size_class_instance t classes else t
