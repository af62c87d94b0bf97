-- ===== src/FreePages/Pool/Gives.antt =====
-- add_free_page of cf.c puts one page into the pool, and writes to no other page.
use compact_fit.Base.{
  ℕ, ◌+◌, ◌<◌, ◌≤◌, ◌≡◌, refl, sym, ap, ◌∙◌, arith, ◌∷◌, ◌==◌, inl, inr, Bool-cases, update,
}
use compact_fit.Page.{u32}
use compact_fit.ListHead.Without.{length}
use mathlib.Core.Path.{subst}
use compact_fit.State.{Cf, Globals, set_word}
use compact_fit.State.Places.{page_places, aa_places, bucket_places}
use compact_fit.FreePages.{add_free_page, set_flags, set_data, local_pages_of, free_list_flag}
use compact_fit.Pool.Lists.{tick, number}
use compact_fit.Pool.Tiers.{Tiers, tiers, total, Same}
use compact_fit.Pool.Turns.{push-IsTiered}
use compact_fit.FreePages.Pool.{IsPool, IsStocked, IsPageAt, page_words, bucket_is_page}
use compact_fit.FreePages.Pool.Rooms.{page_at, other_page, make_room, make_room-HasRoom}

-- The pool with one page more, and the memory of pages outside the pool as it was.
pub record IsGiven (s : Cf) (l : Tiers) (p : ℕ) (t : Cf) : Type 0 where
  pub larger : Tiers
  pub pool : IsPool t larger
  pub more : (c : ℕ) → total larger c ≡ tick c p + total l c
  pub same_globals : t.globals ≡ s.globals
  pub same_aas : aa_places t ≡ aa_places s
  pub same_buckets : bucket_places t ≡ bucket_places s
  pub kept : (a : ℕ) → total larger (page_at a) ≡ 0 → t.mem a ≡ s.mem a

push_page : Cf → ℕ → Cf
push_page s p =
    let t = set_flags s p free_list_flag in
    let d = t.thread in
    set_data (set_word t (local_pages_of p) d.pages)
      (record d { pages = p; pages_count = u32 (d.pages_count + 1) })

add_free_page-parts : (s : Cf) (p : ℕ) → add_free_page s p ≡ push_page (make_room s) p
unfolding add_free_page push_page make_room
add_free_page-parts s p = refl

push_page-IsGiven :
    (s : Cf) (l : Tiers) (p : ℕ)
    → IsStocked s l
    → number l.own ≤ s.globals.nr_local_pbuckets
    → length l.front < s.globals.nr_local_pages
    → IsPageAt s.globals p
    → total l p ≡ 0
    → IsGiven s l p (push_page s p)
unfolding push_page
push_page-IsGiven s l p stocked few room at new =
    let d = s.thread in
    let link = local_pages_of p in
    let w' = page_words (update s.mem link d.pages) in
    let larger = tiers (p ∷ l.front) l.own l.shared in
    let same : Same (page_words s.mem) w' l = record {
      links = λ c i. ground (arith, i, new);
      begin = λ h i. refl;
      nexts = λ h i.
          let there = bucket_is_page s l h stocked i in
          let at' = (stocked.placed h there).aligned in
          let aligned = at.aligned in ground (arith, aligned, at');
    } in
    let count' = u32 (d.pages_count + 1) in
    let self : tick p p ≡ 1 = ground arith in
    record {
      larger = larger;
      pool = record {
        stocked = record {
          laid = stocked.laid;
          tiered =
              push-IsTiered (page_words s.mem) w' (page_places s) l.front l.own l.shared p count'
                stocked.tiered same new room
                (omega (arith, stocked.tiered.counts, stocked.laid.local_int, room))
                (λ i. ground arith);
          placed = λ c i. elim (Bool-cases (c == p)) [
            | inl e ↦ let e' : c ≡ p = ground arith in rw e' at
            | inr e ↦ stocked.placed c (ground (arith, i, e))
          ];
        };
        few = few;
      };
      more = λ c. omega arith;
      same_globals = refl;
      same_aas = refl;
      same_buckets = refl;
      kept = λ a far.
          other_page s.mem larger p link d.pages a (omega (arith, at.aligned)) (omega (arith, self))
            far;
    }

-- add_free_page of a page that is not in the pool puts exactly that page into the pool, keeps the
-- pool's lists, and changes no word of a page outside the pool.
pub add_free_page-IsGiven :
    (s : Cf) (l : Tiers) (p : ℕ)
    → IsPool s l
    → IsPageAt s.globals p
    → total l p ≡ 0
    → IsGiven s l p (add_free_page s p)
add_free_page-IsGiven s l p pool at new =
    let t = make_room s in
    let has = make_room-HasRoom s l pool in
    let k = has.roomy in
    let moved = has.moved in
    let g = moved.same_globals in
    let given =
      push_page-IsGiven t k p moved.stocked
        (omega (arith, has.few, ap (λ (g : Globals). g.nr_local_pbuckets) g))
        (omega (arith, has.room, ap (λ (g : Globals). g.nr_local_pages) g))
        (subst (λ (g : Globals). IsPageAt g p) (sym g) at) (moved.alike p ∙ new) in
    rw (add_free_page-parts s p) (record {
      larger = given.larger;
      pool = given.pool;
      more = λ c. omega (arith, given.more c, moved.alike c);
      same_globals = given.same_globals ∙ g;
      same_aas = given.same_aas ∙ moved.same_aas;
      same_buckets = given.same_buckets ∙ moved.same_buckets;
      kept = λ a far.
          given.kept a far
          ∙ moved.kept a (omega (arith, far, given.more (page_at a), moved.alike (page_at a)));
    })
