-- ===== src/Classes/Counters.antt =====
-- The count of not-full pages in a size-class of cf.c, through the moves of a page between its lists.
use compact_fit.Base.{
  ℕ, ◌+◌, ◌-◌, ◌^◌, ◌<◌, ◌≤◌, ◌≡◌, refl, ap, arith, inl, inr, Bool-cases, true, ◌==◌,
}
use compact_fit.Page.{u32}
use compact_fit.ListHead.{list_empty}
use compact_fit.State.{Cf, head_source_pages, head_nfull_pages, page_of_list}
use compact_fit.FreePages.{add_free_page}
use compact_fit.FreePages.Keeps.{add_free_page-size_class}
use compact_fit.Classes.{
  add_page_to_list, remove_page_from_list, add_page_to_nfull_list, remove_page_from_nfull_list,
  add_page_to_full_list, remove_page_from_full_list, add_page_to_source_list,
  remove_page_from_source_list, add_page_to_emptying_list, remove_page_from_emptying_list,
  get_source_page, source_of_nfull, do_free_source_state, in_full_state, valid_nfull_pages_ratio,
  discount_block,
}

abbrev pub nfull : Cf → ℕ → ℕ
nfull s sc = (s.size_class sc).nfullentries

pub add_nfull :
    (s : Cf) (sc p : ℕ) → nfull (add_page_to_nfull_list s sc p) sc ≡ u32 (nfull s sc + 1)
unfolding add_page_to_nfull_list add_page_to_list
add_nfull s sc p = ground arith

pub remove_nfull :
    (s : Cf) (sc p : ℕ)
    → nfull (remove_page_from_nfull_list s sc p) sc ≡ u32 (nfull s sc + 2 ^ 32 - 1)
unfolding remove_page_from_nfull_list remove_page_from_list
remove_nfull s sc p = ground arith

pub add_full : (s : Cf) (sc p : ℕ) → nfull (add_page_to_full_list s sc p) sc ≡ nfull s sc
unfolding add_page_to_full_list add_page_to_list
add_full s sc p = ground arith

pub remove_full : (s : Cf) (sc p : ℕ) → nfull (remove_page_from_full_list s sc p) sc ≡ nfull s sc
unfolding remove_page_from_full_list remove_page_from_list
remove_full s sc p = ground arith

pub add_source : (s : Cf) (sc p : ℕ) → nfull (add_page_to_source_list s sc p) sc ≡ nfull s sc
unfolding add_page_to_source_list add_page_to_list
add_source s sc p = ground arith

pub remove_source :
    (s : Cf) (sc p : ℕ) → nfull (remove_page_from_source_list s sc p) sc ≡ nfull s sc
unfolding remove_page_from_source_list remove_page_from_list
remove_source s sc p = ground arith

pub add_emptying : (s : Cf) (sc p : ℕ) → nfull (add_page_to_emptying_list s sc p) sc ≡ nfull s sc
unfolding add_page_to_emptying_list add_page_to_list
add_emptying s sc p = ground arith

pub remove_emptying :
    (s : Cf) (sc p : ℕ) → nfull (remove_page_from_emptying_list s sc p) sc ≡ nfull s sc
unfolding remove_page_from_emptying_list remove_page_from_list
remove_emptying s sc p = ground arith

pub add_free : (s : Cf) (sc p : ℕ) → nfull (add_free_page s p) sc ≡ nfull s sc
add_free s sc p = ap (λ c. (c sc).nfullentries) (add_free_page-size_class s p)

pub do_free_source_state-nfull :
    (s : Cf) (sc p : ℕ)
    → nfull s sc + 1 < 2 ^ 32
    → nfull (do_free_source_state s sc p) sc ≤ nfull s sc + 1
unfolding do_free_source_state
do_free_source_state-nfull s sc p small =
    let emptied = add_free (remove_page_from_emptying_list s sc p) sc p in
    let filled = add_nfull (remove_page_from_source_list s sc p) sc p in
    ground (arith, emptied, filled, remove_emptying s sc p, remove_source s sc p)

source_of_nfull-nfull :
    (s : Cf) (sc p : ℕ)
    → 0 < nfull s sc
    → nfull s sc < 2 ^ 32
    → nfull (source_of_nfull s sc p) sc ≡ nfull s sc - 1
unfolding source_of_nfull
source_of_nfull-nfull s sc p positive small =
    let t = discount_block (remove_page_from_nfull_list s sc p) p in
    ground (arith, remove_nfull s sc p, add_emptying t sc p, add_source t sc p)

-- A source page taken from the not-full list counts one less there.
pub get_source_page-nfull :
    (s : Cf) (sc : ℕ)
    → list_empty s.links (head_source_pages sc) ≡ true
    → 0 < nfull s sc
    → nfull s sc < 2 ^ 32
    → nfull (get_source_page s sc).0 sc ≡ nfull s sc - 1
unfolding get_source_page
get_source_page-nfull s sc empty positive small =
    rw empty (
      source_of_nfull-nfull s sc (page_of_list (s.links.next (head_nfull_pages sc))) positive small)

source_of_nfull-globals : (s : Cf) (sc p : ℕ) → (source_of_nfull s sc p).globals ≡ s.globals
unfolding source_of_nfull add_page_to_source_list add_page_to_emptying_list
    remove_page_from_nfull_list add_page_to_list remove_page_from_list
source_of_nfull-globals s sc p =
    let t = discount_block (remove_page_from_nfull_list s sc p) p in
    elim (Bool-cases ((t.page p).nr_used_page_blocks == 0)) [
      | inl e ↦ rw e refl
      | inr e ↦ rw e refl
    ]

pub get_source_page-globals :
    (s : Cf) (sc : ℕ)
    → list_empty s.links (head_source_pages sc) ≡ true
    → (get_source_page s sc).0.globals ≡ s.globals
unfolding get_source_page
get_source_page-globals s sc empty =
    rw empty (source_of_nfull-globals s sc (page_of_list (s.links.next (head_nfull_pages sc))))

pub in_full_state-nfull :
    (s : Cf) (sc : ℕ)
    → list_empty s.links (head_source_pages sc) ≡ true
    → in_full_state s sc ≡ (nfull s sc == 0)
unfolding in_full_state
in_full_state-nfull s sc empty = rw empty (ground arith)

pub valid_nfull_pages_ratio-below :
    (s : Cf) (sc : ℕ)
    → nfull s sc + 1 < 2 ^ 32
    → valid_nfull_pages_ratio s sc 1 ≡ true
    → nfull s sc + 1 ≤ (s.size_class sc).partial_compaction_bound
unfolding valid_nfull_pages_ratio
valid_nfull_pages_ratio-below s sc small valid = ground arith
