-- ===== src/FreePages/Pool/Rooms.antt =====
-- add_free_page of cf.c makes room in the thread's list of pages: a full list becomes a bucket, and
-- enough buckets go to the shared stack.
use compact_fit.Base.{
  ℕ, ◌+◌, ◌*◌, ◌/◌, ◌^◌, ◌<◌, ◌≤◌, ◌≡◌, refl, sym, ap, ◌∙◌, arith, List, [], ◌∷◌, ◌++◌, ◌==◌, leb,
  true, inl, inr, Bool-cases, if◌then◌else◌, update,
}
use compact_fit.Page.{u32}
use compact_fit.ListHead.Without.{length}
use compact_fit.NbStack.{page_format, lifo_to_elem}
use compact_fit.NbStack.Alone.{page-LeadsBack, nb_stack_put-first}
use mathlib.Core.Path.{subst}
use compact_fit.State.{Cf, Globals}
use compact_fit.State.Places.{page_places, aa_places, bucket_places}
use compact_fit.State.Stacks.{page_put, store_of}
use compact_fit.FreePages.{stash, release_buckets}
use compact_fit.Pool.Lists.{Bucket, tick, number, items-append, last_listed}
use compact_fit.Pool.Tiers.{Tiers, tiers, total, buckets, Same, Same-IsTiered}
use compact_fit.Pool.Turns.{stash-IsTiered, release-IsTiered}
use compact_fit.FreePages.Pool.{
  IsPool, IsStocked, page_words, first-IsPlace, bucket_is_page, heads_are_items,
}

-- The page that a word lies in.
abbrev pub page_at : ℕ → ℕ
page_at a = a / 2 ^ 14 * 2 ^ 14

-- A state whose pool has other tiers of the same pages, and whose other pages are as they were.
pub record IsMoved (s : Cf) (l : Tiers) (t : Cf) (k : Tiers) : Type 0 where
  pub stocked : IsStocked t k
  pub same_globals : t.globals ≡ s.globals
  pub same_aas : aa_places t ≡ aa_places s
  pub same_buckets : bucket_places t ≡ bucket_places s
  pub alike : (c : ℕ) → total k c ≡ total l c
  pub kept : (a : ℕ) → total l (page_at a) ≡ 0 → t.mem a ≡ s.mem a

-- A write to the first word of a page leaves the links between pages, and the first words of the
-- others.
first_word :
    (s : Cf) (l : Tiers) (x v : ℕ)
    → IsStocked s l
    → 0 < total l x
    → buckets l x ≡ 0
    → Same (page_words s.mem) (page_words (update s.mem x v)) l
first_word s l x v stocked there apart =
    let at = (stocked.placed x there).aligned in
    record {
      links = λ c i. let at' = (stocked.placed c i).aligned in ground (arith, at, at');
      begin = λ h i. refl;
      nexts = λ h i. ground (arith, i, apart);
    }

-- A write to a page of the pool changes no word of another page.
pub other_page :
    (mem : ℕ → ℕ) (l : Tiers) (x w v a : ℕ)
    → page_at w ≡ x
    → 0 < total l x
    → total l (page_at a) ≡ 0
    → update mem w v a ≡ mem a
other_page mem l x w v a at there apart = elim (Bool-cases (w == a)) [
  | inl e ↦
      let same : w ≡ a = ground arith in
      let none_there : total l x ≡ 0 = ap (total l) (sym at ∙ ap page_at same) ∙ apart in
      absurd (omega (arith, there, none_there))
  | inr e ↦ rw e refl
]

stash-IsMoved :
    (s : Cf) (front : List ℕ) (own shared : List Bucket)
    → let x = s.thread.pages in
      IsStocked s (tiers (x ∷ front) own shared)
      → length (x ∷ front) ≡ s.globals.nr_local_pages
      → number own + 1 < 2 ^ 32
      → IsMoved s (tiers (x ∷ front) own shared) (stash s) (tiers [] ((x, x ∷ front) ∷ own) shared)
unfolding stash
stash-IsMoved s front own shared stocked full small =
    let d = s.thread in
    let x = d.pages in
    let l = tiers (x ∷ front) own shared in
    let there : 0 < total l x = ground arith in
    let once = stocked.tiered.once x in
    let self : tick x x ≡ 1 = ground arith in
    let n = s.globals.nr_local_pages in
    let positive = stocked.laid.local_positive in
    let apart : buckets l x ≡ 0 = omega (
      arith,
      once,
      self,
      heads_are_items s.mem n d.pbuckets own 0 x stocked.tiered.own positive,
      heads_are_items s.mem n (page_places s).shared_first shared 0 x stocked.tiered.shared
          positive,
    ) in
    let at = (stocked.placed x there).aligned in
    let same = first_word s l x d.pbuckets stocked there apart in
    let w' = page_words (update s.mem x d.pbuckets) in
    let count' = u32 (d.pbuckets_count + 1) in
    let leads = (Same-IsTiered (page_words s.mem) w' (page_places s) l same stocked.tiered).leads in
    record {
      stocked = record {
        laid = stocked.laid;
        tiered =
            stash-IsTiered (page_words s.mem) w' (page_places s) (x ∷ front) own shared x 0 count'
              (if count' == 1 then x else d.last_pbucket) stocked.tiered same leads (ground arith)
              full apart (omega (arith, stocked.tiered.own_counts)) refl;
        placed = λ c i. stocked.placed c (omega (arith, i));
      };
      same_globals = refl;
      same_aas = refl;
      same_buckets = refl;
      alike = λ c. omega arith;
      kept = λ a far. other_page s.mem l x x d.pbuckets a (omega (arith, at)) there far;
    }

release_buckets-IsMoved :
    (s : Cf) (front : List ℕ) (own shared : List Bucket)
    → IsStocked s (tiers front own shared)
    → 0 < number own
    → leb s.globals.nr_local_pbuckets s.thread.pbuckets_count ≡ true
    → IsMoved s (tiers front own shared) (release_buckets s) (tiers front [] (own ++ shared))
unfolding release_buckets page_put
release_buckets-IsMoved s front own shared stocked some_there enough =
    let d = s.thread in
    let l = tiers front own shared in
    let last = d.last_pbucket in
    let first =
      first-IsPlace s l d.pbuckets own stocked stocked.tiered.own (λ h i. omega (arith, i)) in
    let (elem, mem) =
      nb_stack_put-first page_format page-LeadsBack (store_of s s.free_page_head) d.pbuckets last
        first in
    let listed = last_listed own last some_there stocked.tiered.own_ends in
    let there = bucket_is_page s l last stocked (omega (arith, listed)) in
    let at = (stocked.placed last there).aligned in
    let once = stocked.tiered.apart last in
    let v = lifo_to_elem page_format s.free_page_head in
    let released =
      release-IsTiered (page_words s.mem) (page_words (update s.mem last v)) (page_places s) front
        own shared stocked.tiered some_there
        (λ c i. let at' = (stocked.placed c i).aligned in ground (arith, at, at')) (λ h i. refl)
        (λ h ne i. ground (arith, ne)) (ground arith) (omega (arith, listed, once)) in
    rw enough (record {
      stocked = record {
        laid = stocked.laid;
        tiered = rw (elem, mem) released;
        placed = λ c i. stocked.placed c (omega (arith, i, items-append c own shared));
      };
      same_globals = refl;
      same_aas = refl;
      same_buckets = refl;
      alike = λ c. omega (arith, items-append c own shared);
      kept = λ a far.
          ap (λ (m : ℕ → ℕ). m a) mem
          ∙ other_page s.mem l last last v a (omega (arith, at)) there far;
    })

then_IsMoved :
    (s : Cf) (l : Tiers) (t : Cf) (k : Tiers) (u : Cf) (m : Tiers)
    → IsMoved s l t k
    → IsMoved t k u m
    → IsMoved s l u m
then_IsMoved s l t k u m first second = record {
  stocked = second.stocked;
  same_globals = second.same_globals ∙ first.same_globals;
  same_aas = second.same_aas ∙ first.same_aas;
  same_buckets = second.same_buckets ∙ first.same_buckets;
  alike = λ c. second.alike c ∙ first.alike c;
  kept = λ a far. second.kept a (first.alike (page_at a) ∙ far) ∙ first.kept a far;
}

-- The list of the pool has room for a page.
pub record HasRoom (s : Cf) (l : Tiers) (t : Cf) : Type 0 where
  pub roomy : Tiers
  pub moved : IsMoved s l t roomy
  pub few : number roomy.own ≤ s.globals.nr_local_pbuckets
  pub room : length roomy.front < s.globals.nr_local_pages

-- What `add_free_page` does first where the list is full.
unfoldable pub make_room : Cf → Cf
make_room s =
    if s.thread.pages_count == s.globals.nr_local_pages then release_buckets (stash s) else s

full-HasRoom :
    (s : Cf) (front : List ℕ) (own shared : List Bucket)
    → IsPool s (tiers (s.thread.pages ∷ front) own shared)
    → length (s.thread.pages ∷ front) ≡ s.globals.nr_local_pages
    → HasRoom s (tiers (s.thread.pages ∷ front) own shared) (release_buckets (stash s))
unfolding release_buckets
full-HasRoom s front own shared pool full =
    let x = s.thread.pages in
    let own' = (x, x ∷ front) ∷ own in
    let first =
      stash-IsMoved s front own shared pool.stocked full
        (omega (arith, pool.few, pool.stocked.laid.buckets_int)) in
    let t = stash s in
    let positive = first.stocked.laid.local_positive in
    let same : t.globals.nr_local_pages ≡ s.globals.nr_local_pages =
      ap (λ (g : Globals). g.nr_local_pages) first.same_globals in
    let same' : t.globals.nr_local_pbuckets ≡ s.globals.nr_local_pbuckets =
      ap (λ (g : Globals). g.nr_local_pbuckets) first.same_globals in
    elim (Bool-cases (leb t.globals.nr_local_pbuckets t.thread.pbuckets_count)) [
      | inl e ↦ record {
        roomy = tiers [] [] (own' ++ shared);
        moved =
            then_IsMoved s (tiers (x ∷ front) own shared) t (tiers [] own' shared) _ _ first
              (release_buckets-IsMoved t [] own' shared first.stocked (omega arith) e);
        few = omega arith;
        room = omega (arith, positive, same);
      }
      | inr e ↦ record {
        roomy = tiers [] own' shared;
        moved = rw e first;
        few = ground (arith, e, same', first.stocked.tiered.own_counts);
        room = omega (arith, positive, same);
      }
    ]

pub make_room-HasRoom : (s : Cf) (l : Tiers) → IsPool s l → HasRoom s l (make_room s)
unfolding make_room
make_room-HasRoom s l pool = elim (Bool-cases (s.thread.pages_count == s.globals.nr_local_pages)) [
  | inl e ↦ rw e (full l.front l.own l.shared pool (ground arith))
  | inr e ↦ rw e (record {
    roomy = l;
    moved = record {
      stocked = pool.stocked;
      same_globals = refl;
      same_aas = refl;
      same_buckets = refl;
      alike = λ c. refl;
      kept = λ a far. refl;
    };
    few = pool.few;
    room = ground (arith, e, pool.stocked.tiered.counts, pool.stocked.tiered.short);
  })
]
  where
    full :
        (front : List ℕ) (own shared : List Bucket)
        → IsPool s (tiers front own shared)
        → s.thread.pages_count ≡ s.globals.nr_local_pages
        → HasRoom s (tiers front own shared) (release_buckets (stash s))
    full [] own shared pool e =
        absurd (omega (arith, e, pool.stocked.tiered.counts, pool.stocked.laid.local_positive))
    full (x ∷ xs) own shared pool e =
        let at : x ≡ s.thread.pages = sym pool.stocked.tiered.leads.0 in
        let pool' : IsPool s (tiers (s.thread.pages ∷ xs) own shared) =
          subst (λ y. IsPool s (tiers (y ∷ xs) own shared)) at pool in
        subst (λ y. HasRoom s (tiers (y ∷ xs) own shared) (release_buckets (stash s))) (sym at)
          (full-HasRoom s xs own shared pool' (sym pool.stocked.tiered.counts ∙ e))
