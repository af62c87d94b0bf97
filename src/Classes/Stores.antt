-- ===== src/Classes/Stores.antt =====
-- What filing a page of a size-class in cf.c does to the pool of free pages and to the words: nothing,
-- unless the page is empty and becomes a free page.
use compact_fit.Base.{
  ℕ, ◌+◌, ◌-◌, ◌^◌, ◌≡◌, ◌⊎◌, inl, inr, refl, sym, ap, ◌∙◌, arith, Bool-cases, true, ◌==◌,
}
use mathlib.Core.Path.{subst}
use compact_fit.Page.{Page, u32}
use compact_fit.ListHead.{Links, list_empty}
use compact_fit.State.{
  Cf, Globals, SizeClass, set_page, head_source_pages, head_nfull_pages, page_of_list,
}
use compact_fit.State.Places.{page_places, aa_places, bucket_places}
use compact_fit.FreePages.{add_free_page, free_list_flag, nfull_list_flag}
use compact_fit.FreePages.Keeps.{add_free_page-IsKept}
use compact_fit.FreePages.Pool.{IsPool, IsPageAt, page_words}
use compact_fit.FreePages.Pool.Rooms.{page_at}
use compact_fit.FreePages.Pool.Gives.{add_free_page-IsGiven}
use compact_fit.Pool.Lists.{tick}
use compact_fit.Pool.Tiers.{Places, Tiers, IsTiered, total}
use compact_fit.Classes.Refiles.{
  add_free_page-Refiles, add_page_to_nfull_list-Refiles, remove_page_from_source_list-Refiles,
  remove_page_from_emptying_list-Refiles,
}
use compact_fit.Classes.Touched.{IsTouched, itself-IsTouched, refiled-IsTouched}
use compact_fit.Classes.{
  add_page_to_list, remove_page_from_list, add_page_to_nfull_list, remove_page_from_nfull_list,
  add_page_to_full_list, remove_page_from_full_list, add_page_to_source_list,
  remove_page_from_source_list, add_page_to_emptying_list, remove_page_from_emptying_list,
  get_source_page, source_of_source, source_of_nfull, do_free_source_state,
}

-- The words, the settings and the thread's lists are the same.
pub record Beside (s t : Cf) : Type 0 where
  pub same_globals : t.globals ≡ s.globals
  pub same_mem : t.mem ≡ s.mem
  pub same_pages : page_places t ≡ page_places s
  pub same_aas : aa_places t ≡ aa_places s
  pub same_buckets : bucket_places t ≡ bucket_places s

pub alike : (s : Cf) → Beside s s
alike s = record {
  same_globals = refl;
  same_mem = refl;
  same_pages = refl;
  same_aas = refl;
  same_buckets = refl;
}

-- Rings, pages and size-classes may differ.
pub refiled :
    (s : Cf) (links : Links) (page : ℕ → Page) (size_class : ℕ → SizeClass)
    → Beside s (record s { links = links; page = page; size_class = size_class })
refiled s links page size_class = record {
  same_globals = refl;
  same_mem = refl;
  same_pages = refl;
  same_aas = refl;
  same_buckets = refl;
}

pub then_Beside : (s t u : Cf) → Beside s t → Beside t u → Beside s u
then_Beside s t u first second = record {
  same_globals = second.same_globals ∙ first.same_globals;
  same_mem = second.same_mem ∙ first.same_mem;
  same_pages = second.same_pages ∙ first.same_pages;
  same_aas = second.same_aas ∙ first.same_aas;
  same_buckets = second.same_buckets ∙ first.same_buckets;
}

pub Beside-IsPool : (s t : Cf) (l : Tiers) → Beside s t → IsPool s l → IsPool t l
Beside-IsPool s t l beside pool = record {
  stocked = record {
    laid = rw beside.same_globals pool.stocked.laid;
    tiered =
        subst (λ (m : ℕ → ℕ). IsTiered (page_words m) (page_places t) l) (sym beside.same_mem)
          (subst (λ (p : Places). IsTiered (page_words s.mem) p l) (sym beside.same_pages)
            pool.stocked.tiered);
    placed = rw beside.same_globals pool.stocked.placed;
  };
  few = rw beside.same_globals pool.few;
}

-- The pool is the same, or has one page more, the page at `p`, which has no used block; no word of a
-- page outside the pool is written.
pub record IsStored (s : Cf) (pages : Tiers) (p : ℕ) (t : Cf) : Type 0 where
  pub stock : Tiers
  pub pool : IsPool t stock
  pub same_globals : t.globals ≡ s.globals
  pub same_aas : aa_places t ≡ aa_places s
  pub same_buckets : bucket_places t ≡ bucket_places s
  pub kept : (a : ℕ) → total stock (page_at a) ≡ 0 → t.mem a ≡ s.mem a
  pub only :
      ((c : ℕ) → total stock c ≡ total pages c)
      ⊎ (((t.page p).nr_used_page_blocks ≡ 0)
          × ((c : ℕ) → total stock c ≡ tick c p + total pages c))

pub Beside-IsStored :
    (s t : Cf) (pages : Tiers) (p : ℕ) → Beside s t → IsPool s pages → IsStored s pages p t
Beside-IsStored s t pages p beside pool = record {
  stock = pages;
  pool = Beside-IsPool s t pages beside pool;
  same_globals = beside.same_globals;
  same_aas = beside.same_aas;
  same_buckets = beside.same_buckets;
  kept = λ a far. ap (λ (m : ℕ → ℕ). m a) beside.same_mem;
  only = inl (λ c. refl);
}

-- An empty page becomes a free page.
pub emptied-IsStored :
    (s t : Cf) (pages : Tiers) (p : ℕ)
    → Beside s t
    → IsPool s pages
    → IsPageAt s.globals p
    → total pages p ≡ 0
    → (t.page p).nr_used_page_blocks ≡ 0
    → IsStored s pages p (add_free_page t p)
emptied-IsStored s t pages p beside pool at new empty =
    let g = beside.same_globals in
    let given =
      add_free_page-IsGiven t pages p (Beside-IsPool s t pages beside pool)
        (subst (λ (g : Globals). IsPageAt g p) (sym g) at) new in
    let here : (p == p) ≡ true = ground arith in
    let flagged : ((add_free_page t p).page p).nr_used_page_blocks
        ≡ (t.page p).nr_used_page_blocks =
      ap (λ (f : ℕ → Page). (f p).nr_used_page_blocks) (add_free_page-IsKept t p).same_pages
      ∙ rw here refl in
    record {
      stock = given.larger;
      pool = given.pool;
      same_globals = given.same_globals ∙ g;
      same_aas = given.same_aas ∙ beside.same_aas;
      same_buckets = given.same_buckets ∙ beside.same_buckets;
      kept = λ a far. given.kept a far ∙ ap (λ (m : ℕ → ℕ). m a) beside.same_mem;
      only = inr (flagged ∙ empty, given.more);
    }

module _ (s : Cf) (sc p : ℕ) where
  pub add_page_to_nfull_list-Beside : Beside s (add_page_to_nfull_list s sc p)
  unfolding add_page_to_nfull_list add_page_to_list
  add_page_to_nfull_list-Beside = refiled s _ _ _

  pub remove_page_from_nfull_list-Beside : Beside s (remove_page_from_nfull_list s sc p)
  unfolding remove_page_from_nfull_list remove_page_from_list
  remove_page_from_nfull_list-Beside = refiled s _ _ _

  pub add_page_to_full_list-Beside : Beside s (add_page_to_full_list s sc p)
  unfolding add_page_to_full_list add_page_to_list
  add_page_to_full_list-Beside = refiled s _ _ _

  pub remove_page_from_full_list-Beside : Beside s (remove_page_from_full_list s sc p)
  unfolding remove_page_from_full_list remove_page_from_list
  remove_page_from_full_list-Beside = refiled s _ _ _

  pub remove_page_from_source_list-Beside : Beside s (remove_page_from_source_list s sc p)
  unfolding remove_page_from_source_list remove_page_from_list
  remove_page_from_source_list-Beside = refiled s _ _ _

  pub remove_page_from_emptying_list-Beside : Beside s (remove_page_from_emptying_list s sc p)
  unfolding remove_page_from_emptying_list remove_page_from_list
  remove_page_from_emptying_list-Beside = refiled s _ _ _

-- A page that lent a block is filed.
pub do_free_source_state-IsStored :
    (s : Cf) (pages : Tiers) (sc p : ℕ)
    → IsPool s pages
    → IsPageAt s.globals p
    → total pages p ≡ 0
    → IsStored s pages p (do_free_source_state s sc p)
unfolding do_free_source_state remove_page_from_emptying_list remove_page_from_list
do_free_source_state-IsStored s pages sc p pool at new =
    elim (Bool-cases ((s.page p).sourceentries == 0)) [
      | inl e ↦ elim (Bool-cases ((s.page p).nr_used_page_blocks == 0)) [
        | inl e' ↦
            let t = remove_page_from_emptying_list s sc p in
            let empty : (t.page p).nr_used_page_blocks ≡ 0 = ground (arith, e') in
            rw (e, e')
              (emptied-IsStored s t pages p (remove_page_from_emptying_list-Beside s sc p) pool at
                new empty)
        | inr e' ↦
            let t = remove_page_from_source_list s sc p in
            rw (e, e')
              (Beside-IsStored s (add_page_to_nfull_list t sc p) pages p
                (then_Beside s t _ (remove_page_from_source_list-Beside s sc p)
                  (add_page_to_nfull_list-Beside t sc p))
                pool)
      ]
      | inr e ↦ rw e (Beside-IsStored s s pages p (alike s) pool)
    ]

-- Of the pages only its own changes then, and only in its list flags.
pub do_free_source_state-IsTouched :
    (s : Cf) (sc p : ℕ) → IsTouched s p (s.page p) (do_free_source_state s sc p)
unfolding do_free_source_state
do_free_source_state-IsTouched s sc p =
    let self = itself-IsTouched s p in
    elim (Bool-cases ((s.page p).sourceentries == 0)) [
      | inl e ↦ elim (Bool-cases ((s.page p).nr_used_page_blocks == 0)) [
        | inl e' ↦
            let t = remove_page_from_emptying_list s sc p in
            let first =
              refiled-IsTouched s p (s.page p) s 0 t self
                (remove_page_from_emptying_list-Refiles s sc p) in
            rw (e, e')
              (refiled-IsTouched s p (s.page p) t free_list_flag (add_free_page t p) first
                (add_free_page-Refiles t p))
        | inr e' ↦
            let t = remove_page_from_source_list s sc p in
            let first =
              refiled-IsTouched s p (s.page p) s 0 t self
                (remove_page_from_source_list-Refiles s sc p) in
            rw (e, e')
              (refiled-IsTouched s p (s.page p) t nfull_list_flag (add_page_to_nfull_list t sc p)
                first (add_page_to_nfull_list-Refiles t sc p))
      ]
      | inr e ↦ rw e self
    ]

source_of_source-Beside : (s : Cf) (sc p : ℕ) → Beside s (source_of_source s sc p)
unfolding source_of_source add_page_to_emptying_list add_page_to_list remove_page_from_source_list
    remove_page_from_list
source_of_source-Beside s sc p =
    let n = u32 ((s.page p).nr_used_page_blocks + 2 ^ 32 - 1) in
    let t = set_page s p (record (s.page p) { nr_used_page_blocks = n }) in
    elim (Bool-cases ((t.page p).nr_used_page_blocks == 0)) [
      | inl e ↦ rw e (refiled s _ _ _)
      | inr e ↦ rw e (refiled s _ _ _)
    ]

source_of_nfull-Beside : (s : Cf) (sc p : ℕ) → Beside s (source_of_nfull s sc p)
unfolding source_of_nfull add_page_to_source_list add_page_to_emptying_list add_page_to_list
    remove_page_from_nfull_list remove_page_from_list
source_of_nfull-Beside s sc p =
    let u = remove_page_from_nfull_list s sc p in
    let n = u32 ((u.page p).nr_used_page_blocks + 2 ^ 32 - 1) in
    let t = set_page u p (record (u.page p) { nr_used_page_blocks = n }) in
    elim (Bool-cases ((t.page p).nr_used_page_blocks == 0)) [
      | inl e ↦ rw e (refiled s _ _ _)
      | inr e ↦ rw e (refiled s _ _ _)
    ]

pub get_source_page-Beside : (s : Cf) (sc : ℕ) → Beside s (get_source_page s sc).0
unfolding get_source_page
get_source_page-Beside s sc =
    let source = page_of_list (s.links.next (head_source_pages sc)) in
    let nfull = page_of_list (s.links.next (head_nfull_pages sc)) in
    elim (Bool-cases (list_empty s.links (head_source_pages sc))) [
      | inl e ↦
          let t = source_of_nfull s sc nfull in
          rw e (then_Beside s t _ (source_of_nfull-Beside s sc nfull) (refiled t _ _ _))
      | inr e ↦
          let t = source_of_source s sc source in
          rw e (then_Beside s t _ (source_of_source-Beside s sc source) (refiled t _ _ _))
    ]
