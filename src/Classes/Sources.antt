-- ===== src/Classes/Sources.antt =====
-- A page of cf.c lends a block: it leaves the not-full pages for the source or the emptying pages, and
-- comes off those again once nothing more is counted out.
use compact_fit.Base.{
  ℕ, ◌+◌, ◌-◌, ◌^◌, ◌≡◌, refl, ap, ◌∙◌, fun_ext, arith, Bool, true, false, ◌==◌, List, Bool-cases,
  inl, inr, if◌then◌else◌,
}
use mathlib.Core.Path.{subst}
use compact_fit.Page.{Page, u32}
use compact_fit.ListHead.{list_empty}
use compact_fit.ListHead.Ring.{has}
use compact_fit.State.{
  Cf, head_nfull_pages, head_source_pages, head_emptying_pages, list_of_page, page_of_list,
}
use compact_fit.FreePages.{add_free_page, source_list_flag, emptying_list_flag}
use compact_fit.Classes.{
  discount_block, source_of_nfull, get_source_page, do_free_source_state, add_page_to_nfull_list,
  remove_page_from_nfull_list, add_page_to_source_list, add_page_to_emptying_list,
  remove_page_from_source_list, remove_page_from_emptying_list,
}
use compact_fit.Classes.Filed.{IsFiled}
use compact_fit.Classes.Moves.{
  IsFresh, put_in, take_out, remove_page_from_nfull_list-IsFiled, add_page_to_source_list-IsFiled,
  add_page_to_emptying_list-IsFiled, remove_page_from_source_list-IsFiled,
  remove_page_from_emptying_list-IsFiled,
}
use compact_fit.Classes.Refiles.{
  remove_page_from_nfull_list-Refiles, add_page_to_source_list-Refiles,
  add_page_to_emptying_list-Refiles, remove_page_from_source_list-Refiles,
  remove_page_from_emptying_list-Refiles,
}
use compact_fit.Classes.Touched.{IsTouched, itself-IsTouched, refiled-IsTouched, changed-IsTouched}

pub in_and_out : (ring : ℕ → List ℕ) (h p : ℕ) → take_out (put_in ring h p) h p ≡ ring
in_and_out ring h p = fun_ext (λ a. elim (Bool-cases (h == a)) [
  | inl e ↦
      let same : h ≡ a = ground arith in
      let own : (h == h) ≡ true = ground arith in
      let self : (list_of_page p == list_of_page p) ≡ true = ground arith in
      rw (← same, own, self) refl
  | inr e ↦ rw e refl
])

-- One block fewer in the page's count.
abbrev pub discounted : Page → Page
discounted q = record q { nr_used_page_blocks = u32 (q.nr_used_page_blocks + 2 ^ 32 - 1) }

abbrev pub lent_at : ℕ → Page → ℕ
lent_at sc r = if r.nr_used_page_blocks == 0 then head_emptying_pages sc else head_source_pages sc

-- The page at `p`, which is `r` now, is on none of `lifted` but on the ring for pages that lend.
pub record IsLent (s : Cf) (classes : ℕ → Bool) (lifted : ℕ → List ℕ) (sc p : ℕ) (r : Page) (t : Cf)
    : Type 0 where
  pub touched : IsTouched s p r t
  pub filed : IsFiled t.links t.size_class classes (put_in lifted (lent_at sc r) p)

module _ (s : Cf) (classes : ℕ → Bool) (ring : ℕ → List ℕ) (sc p : ℕ)
    (filed : IsFiled s.links s.size_class classes ring) (here : classes sc ≡ true)
    (i : has (list_of_page p) (ring (head_nfull_pages sc)) ≡ true)
    (fresh : IsFresh classes (take_out ring (head_nfull_pages sc) p) p) where
  source_of_nfull-IsLent :
      IsLent s classes
        (take_out ring (head_nfull_pages sc) p)
        sc
        p
        (discounted (s.page p))
        (source_of_nfull s sc p)
  unfolding source_of_nfull
  source_of_nfull-IsLent =
      let lifted = take_out ring (head_nfull_pages sc) p in
      let t1 = remove_page_from_nfull_list s sc p in
      let t = discount_block t1 p in
      let r = discounted (s.page p) in
      let off = remove_page_from_nfull_list-IsFiled s classes ring sc p filed here i in
      let first =
        refiled-IsTouched s p (s.page p) s 0 t1 (itself-IsTouched s p)
          (remove_page_from_nfull_list-Refiles s sc p) in
      let less = changed-IsTouched s p (s.page p) t1 discounted (λ q flags. refl) first in
      let left : (t.page p).nr_used_page_blocks ≡ r.nr_used_page_blocks =
        ap (λ (q : Page). q.nr_used_page_blocks) less.content in
      elim (Bool-cases (r.nr_used_page_blocks == 0)) [
        | inl e ↦
            let e' : ((t.page p).nr_used_page_blocks == 0) ≡ true = ground (arith, left) in
            rw e' (record {
              touched =
                  refiled-IsTouched s p r t emptying_list_flag (add_page_to_emptying_list t sc p)
                    less (add_page_to_emptying_list-Refiles t sc p);
              filed = rw e (add_page_to_emptying_list-IsFiled t classes lifted sc p off here fresh);
            })
        | inr e ↦
            let e' : ((t.page p).nr_used_page_blocks == 0) ≡ false = ground (arith, left) in
            rw e' (record {
              touched =
                  refiled-IsTouched s p r t source_list_flag (add_page_to_source_list t sc p) less
                    (add_page_to_source_list-Refiles t sc p);
              filed = rw e (add_page_to_source_list-IsFiled t classes lifted sc p off here fresh);
            })
      ]

  -- A page on the ring it lends from, with nothing counted out, comes off it and is filed anew.
  module _ (lifted : ℕ → List ℕ) (r : Page) (t : Cf) (lent : IsLent s classes lifted sc p r t)
      (settled : r.sourceentries ≡ 0) where
    pub do_free_source_state-lifted :
        (v : Cf) × IsTouched s p r v
        × IsFiled v.links v.size_class classes lifted
        × (do_free_source_state t sc p ≡ (
            if r.nr_used_page_blocks == 0
            then add_free_page v p
            else add_page_to_nfull_list v sc p))
    unfolding do_free_source_state
    do_free_source_state-lifted =
        let left : (t.page p).nr_used_page_blocks ≡ r.nr_used_page_blocks =
          ap (λ (q : Page). q.nr_used_page_blocks) lent.touched.content in
        let pending : (t.page p).sourceentries ≡ 0 =
          ap (λ (q : Page). q.sourceentries) lent.touched.content ∙ settled in
        let none : ((t.page p).sourceentries == 0) ≡ true = ground (arith, pending) in
        elim (Bool-cases (r.nr_used_page_blocks == 0)) [
          | inl e ↦
              let e' : ((t.page p).nr_used_page_blocks == 0) ≡ true = ground (arith, left) in
              let on = rw e at lent.filed in
              let v = remove_page_from_emptying_list t sc p in
              (
                v,
                refiled-IsTouched s p r t 0 v lent.touched
                    (remove_page_from_emptying_list-Refiles t sc p),
                subst (λ rings. IsFiled v.links v.size_class classes rings)
                    (in_and_out lifted (head_emptying_pages sc) p)
                    (remove_page_from_emptying_list-IsFiled t classes
                      (put_in lifted (head_emptying_pages sc) p) sc p on here
                      (let self : (head_emptying_pages sc == head_emptying_pages sc) ≡ true =
                          ground arith in
                        rw self (ground arith))),
                rw (none, e', e) refl,
              )
          | inr e ↦
              let e' : ((t.page p).nr_used_page_blocks == 0) ≡ false = ground (arith, left) in
              let on = rw e at lent.filed in
              let v = remove_page_from_source_list t sc p in
              (
                v,
                refiled-IsTouched s p r t 0 v lent.touched
                    (remove_page_from_source_list-Refiles t sc p),
                subst (λ rings. IsFiled v.links v.size_class classes rings)
                    (in_and_out lifted (head_source_pages sc) p)
                    (remove_page_from_source_list-IsFiled t classes
                      (put_in lifted (head_source_pages sc) p) sc p on here
                      (let self : (head_source_pages sc == head_source_pages sc) ≡ true =
                          ground arith in
                        rw self (ground arith))),
                rw (none, e', e) refl,
              )
        ]

  -- With no source page, the first not-full page lends, and has one block more counted out.
  pub get_source_page-IsLent :
      list_empty s.links (head_source_pages sc) ≡ true
      → page_of_list (s.links.next (head_nfull_pages sc)) ≡ p
      → ((get_source_page s sc).1 ≡ p)
        × IsLent s classes
            (take_out ring (head_nfull_pages sc) p)
            sc
            p
            (record (discounted (s.page p)) { sourceentries = u32 ((s.page p).sourceentries + 1) })
            (get_source_page s sc).0
  unfolding get_source_page
  get_source_page-IsLent empty first =
      let lent = source_of_nfull-IsLent in
      let t = source_of_nfull s sc p in
      (
        rw empty first,
        rw (empty, first)
            (record {
              touched =
                  changed-IsTouched s p (discounted (s.page p)) t
                    (λ q. record q { sourceentries = u32 (q.sourceentries + 1) }) (λ q flags. refl)
                    lent.touched;
              filed = lent.filed;
            }),
      )
