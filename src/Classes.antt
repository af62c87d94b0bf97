-- ===== src/Classes.antt =====
-- The size-classes of cf.c: their page lists with the counters, and the choice of a source page.
pub mod Counters
pub mod Filed
pub mod Init
pub mod Moves
pub mod Refiles
pub mod Touched
pub mod Sources
pub mod Stores
use compact_fit.Base.{
  ℕ, zero, suc, ◌+◌, ◌-◌, ◌*◌, ◌%◌, ◌^◌, Bool, true, false, not, ◌&&◌, Option, none, some, map,
  ◌==◌, ltb, if◌then◌else◌,
}
use mathlib.Core.Option
use compact_fit.Page.{Page, u32}
use compact_fit.ListHead.{list_add, list_del, list_empty, init_list_head}
use compact_fit.SizeMap.{sizeclasses, get_size_class_index, get_page_block_size_of_index}
use compact_fit.State.{
  Cf, SizeClass, int_lt, set_page, set_size_class, sizeof_size_class, head_full_pages,
  head_nfull_pages, head_source_pages, head_emptying_pages, list_of_page, page_of_list,
}
use compact_fit.FreePages.{
  nfull_list_flag, full_list_flag, source_list_flag, emptying_list_flag, add_free_page,
}

abbrev set_flags : Cf → ℕ → ℕ → Cf
set_flags s p flags = set_page s p (record (s.page p) { list_flags = flags })

-- The body of the loop of `init_size_class_instance`.
init_class : Cf → ℕ → ℕ → Cf
init_class s i sc =
    record (set_size_class s sc (record {
      nfullentries = 0;
      max_nfullentries = 0;
      sourceentries = 0;
      max_sourceentries = 0;
      partial_compaction_bound = s.globals.partial_compaction_bound;
      block_size = get_page_block_size_of_index i;
      nr_pages = 0;
      max_nr_pages = 0;
    })) {
      links =
          init_list_head
            (init_list_head
              (init_list_head (init_list_head s.links (head_full_pages sc)) (head_nfull_pages sc))
              (head_source_pages sc))
            (head_emptying_pages sc);
    }

-- The loop, with `n` classes left at `sc`.
init_classes : ℕ → ℕ → ℕ → Cf → Cf
unfolding init_class
init_classes zero i sc s = s
init_classes (suc n) i sc s = init_classes n (i + 1) (sc + sizeof_size_class) (init_class s i sc)

pub init_size_class_instance : Cf → ℕ → Cf
unfolding init_classes
init_size_class_instance s sc = init_classes sizeclasses 0 sc s

unfoldable pub get_nfull_pages_tail : Cf → ℕ → ℕ
get_nfull_pages_tail s sc = page_of_list (s.links.prev (head_nfull_pages sc))

-- The sum of an `unsigned` and an `int` is compared with an `int` as `unsigned` numbers.
pub valid_nfull_pages_ratio : Cf → ℕ → ℕ → Bool
valid_nfull_pages_ratio s sc add =
    let c = s.size_class sc in
    if ltb c.partial_compaction_bound (u32 (c.nfullentries + add)) then false else true

unfoldable pub get_size_class : Cf → ℕ → Option ℕ
get_size_class s size =
    Option.map (λ i. s.thread.size_classes + sizeof_size_class * i) (get_size_class_index size)

pub add_page_to_list : Cf → ℕ → ℕ → ℕ → Cf
add_page_to_list s sc list p =
    let c = s.size_class sc in
    let n = u32 (c.nr_pages + 1) in
    record (set_size_class s sc (record c {
      nr_pages = n;
      max_nr_pages = if int_lt c.max_nr_pages n then u32 (c.max_nr_pages + 1) else c.max_nr_pages;
    })) { links = list_add s.links list (list_of_page p) }

pub remove_page_from_list : Cf → ℕ → ℕ → Cf
remove_page_from_list s sc p =
    let c = s.size_class sc in
    record (set_size_class s sc (record c { nr_pages = u32 (c.nr_pages + 2 ^ 32 - 1) })) {
      links = list_del s.links (list_of_page p);
    }

-- `if (n > max) max = n;` on counters of type `unsigned`.
abbrev larger : ℕ → ℕ → ℕ
larger n max = if ltb max n then n else max

-- One page more in the not-full list, on its counters.
abbrev count_nfull : SizeClass → SizeClass
count_nfull c =
    let n = u32 (c.nfullentries + 1) in
    record c { nfullentries = n; max_nfullentries = larger n c.max_nfullentries }

abbrev count_source : SizeClass → SizeClass
count_source c =
    let n = u32 (c.sourceentries + 1) in
    record c { sourceentries = n; max_sourceentries = larger n c.max_sourceentries }

pub add_page_to_nfull_list : Cf → ℕ → ℕ → Cf
unfolding add_page_to_list
add_page_to_nfull_list s sc p =
    let t = set_flags (add_page_to_list s sc (head_nfull_pages sc) p) p nfull_list_flag in
    set_size_class t sc (count_nfull (t.size_class sc))

pub remove_page_from_nfull_list : Cf → ℕ → ℕ → Cf
unfolding remove_page_from_list
remove_page_from_nfull_list s sc p =
    let t = remove_page_from_list s sc p in
    let c = t.size_class sc in
    set_flags (set_size_class t sc (record c { nfullentries = u32 (c.nfullentries + 2 ^ 32 - 1) }))
      p 0

pub add_page_to_full_list : Cf → ℕ → ℕ → Cf
unfolding add_page_to_list
add_page_to_full_list s sc p =
    set_flags (add_page_to_list s sc (head_full_pages sc) p) p full_list_flag

pub remove_page_from_full_list : Cf → ℕ → ℕ → Cf
unfolding remove_page_from_list
remove_page_from_full_list s sc p = set_flags (remove_page_from_list s sc p) p 0

pub add_page_to_source_list : Cf → ℕ → ℕ → Cf
unfolding add_page_to_list
add_page_to_source_list s sc p =
    let t = set_flags (add_page_to_list s sc (head_source_pages sc) p) p source_list_flag in
    set_size_class t sc (count_source (t.size_class sc))

abbrev discount_source : SizeClass → SizeClass
discount_source c = record c { sourceentries = u32 (c.sourceentries + 2 ^ 32 - 1) }

pub remove_page_from_source_list : Cf → ℕ → ℕ → Cf
unfolding remove_page_from_list
remove_page_from_source_list s sc p =
    let t = set_flags (remove_page_from_list s sc p) p 0 in
    set_size_class t sc (discount_source (t.size_class sc))

pub add_page_to_emptying_list : Cf → ℕ → ℕ → Cf
unfolding add_page_to_list
add_page_to_emptying_list s sc p =
    let t = set_flags (add_page_to_list s sc (head_emptying_pages sc) p) p emptying_list_flag in
    set_size_class t sc (count_source (t.size_class sc))

pub remove_page_from_emptying_list : Cf → ℕ → ℕ → Cf
unfolding remove_page_from_list
remove_page_from_emptying_list s sc p =
    let t = set_flags (remove_page_from_list s sc p) p 0 in
    set_size_class t sc (discount_source (t.size_class sc))

-- `--p->nr_used_page_blocks`
abbrev discount_block : Cf → ℕ → Cf
discount_block s p =
    let q = s.page p in
    set_page s p (record q { nr_used_page_blocks = u32 (q.nr_used_page_blocks + 2 ^ 32 - 1) })

abbrev count_pending : Cf → ℕ → Cf
count_pending s p =
    let q = s.page p in set_page s p (record q { sourceentries = u32 (q.sourceentries + 1) })

-- The page moves to the emptying list when its last block has been counted out.
source_of_source : Cf → ℕ → ℕ → Cf
unfolding add_page_to_emptying_list remove_page_from_source_list
source_of_source s sc nf_page =
    let t = discount_block s nf_page in
    if (t.page nf_page).nr_used_page_blocks == 0
    then add_page_to_emptying_list (remove_page_from_source_list t sc nf_page) sc nf_page
    else t

source_of_nfull : Cf → ℕ → ℕ → Cf
unfolding add_page_to_source_list add_page_to_emptying_list remove_page_from_nfull_list
source_of_nfull s sc nf_page =
    let t = discount_block (remove_page_from_nfull_list s sc nf_page) nf_page in
    if (t.page nf_page).nr_used_page_blocks == 0
    then add_page_to_emptying_list t sc nf_page
    else add_page_to_source_list t sc nf_page

-- The first source page, or else the first not-full page, which becomes one.
pub get_source_page : Cf → ℕ → Cf × ℕ
unfolding source_of_source source_of_nfull
get_source_page s sc =
    let source = page_of_list (s.links.next (head_source_pages sc)) in
    let nfull = page_of_list (s.links.next (head_nfull_pages sc)) in
    if list_empty s.links (head_source_pages sc)
    then (count_pending (source_of_nfull s sc nfull) nfull, nfull)
    else (count_pending (source_of_source s sc source) source, source)

-- The bound is -1 where compaction is off.
unfoldable pub compaction_on : Cf → ℕ → Bool
compaction_on s sc =
    if (s.size_class sc).partial_compaction_bound == 2 ^ 32 - 1 then false else true

pub in_full_state : Cf → ℕ → Bool
in_full_state s sc =
    (s.size_class sc).nfullentries == 0 && list_empty s.links (head_source_pages sc)

pub do_free_source_state : Cf → ℕ → ℕ → Cf
unfolding remove_page_from_emptying_list remove_page_from_source_list add_page_to_nfull_list
do_free_source_state s sc p =
    if (s.page p).sourceentries == 0
    then if (s.page p).nr_used_page_blocks == 0
      then add_free_page (remove_page_from_emptying_list s sc p) p
      else add_page_to_nfull_list (remove_page_from_source_list s sc p) sc p
    else s
