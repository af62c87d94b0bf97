-- ===== src/AbstractAddress/Pool/Buckets.antt =====
-- Buckets of abstract addresses of cf.c move from one pool to the other: a bucket whose addresses
-- became the thread's list is a free one, and free ones go to the shared stack.
use compact_fit.Base.{
  ℕ, ◌+◌, ◌<◌, ◌≡◌, inl, inr, refl, sym, ap, ◌∙◌, arith, List, [], ◌∷◌, ◌==◌, leb, if◌then◌else◌,
  update, Bool-cases,
}
use mathlib.Core.Path.{subst}
use compact_fit.Page.{u32}
use compact_fit.ListHead.Without.{length}
use compact_fit.NbStack.{aa_format, lifo_to_elem}
use compact_fit.NbStack.Alone.{aa-LeadsBack, nb_stack_put-first}
use compact_fit.State.{Cf, Globals, set_word}
use compact_fit.State.Places.{page_places, aa_places, bucket_places}
use compact_fit.State.Stacks.{aa_bucket_put, store_of}
use compact_fit.FreePages.Pool.{page_words}
use compact_fit.Pool.Lists.{Bucket, tick}
use compact_fit.Pool.Tiers.{Tiers, tiers, total, buckets, Same, Same-IsTiered}
use compact_fit.Pool.Turns.{push-IsTiered, put_front-IsTiered}
use compact_fit.AbstractAddress.{open_bucket, set_thread, local_aas_of}
use compact_fit.AbstractAddress.Pool.{
  IsCells, IsBucketAt, OutsideBuckets, aa_words, bucket_total, Untouched-ids, Untouched-free,
  bucket-IsPlace, loose_word, free_listed, two_buckets, bucket_word,
}

-- Other tiers of the same addresses, and no word outside the buckets written.
pub record IsShifted (s : Cf) (l k : Tiers) (t : Cf) (l' k' : Tiers) : Type 0 where
  pub cells : IsCells t l' k'
  pub same_globals : t.globals ≡ s.globals
  pub same_pages : page_places t ≡ page_places s
  pub alike : (c : ℕ) → total l' c ≡ total l c
  pub kept : (a : ℕ) → OutsideBuckets s.globals a → t.mem a ≡ s.mem a

-- A bucket in neither pool.
pub record IsLoose (s : Cf) (l k : Tiers) (h : ℕ) : Type 0 where
  pub at : IsBucketAt s.globals h
  pub loose : bucket_total l k h ≡ 0

-- The bucket's addresses become the thread's list.
abbrev pub list_bucket : Cf → ℕ → Cf
list_bucket s maa =
    set_thread s
      (record (s.thread) { aas = s.mem (local_aas_of maa); aas_count = s.globals.nr_local_aas })

-- A full list of free buckets goes to the shared stack.
pub give_free : Cf → Cf
give_free s =
    if leb s.globals.nr_local_free_abuckets s.thread.free_abuckets_count
    then set_thread (aa_bucket_put s s.thread.free_abuckets s.thread.free_abuckets)
        (record (s.thread) { free_abuckets = 0; free_abuckets_count = 0 })
    else s

-- The bucket becomes the first of the free ones.
pub push_free : Cf → ℕ → Cf
push_free s maa =
    set_thread (set_word s (local_aas_of maa) s.thread.free_abuckets) (record (s.thread) {
      free_abuckets = maa;
      free_abuckets_count = u32 (s.thread.free_abuckets_count + 1);
    })

pub open_bucket-parts :
    (s : Cf) (maa : ℕ) → open_bucket s maa ≡ push_free (give_free (list_bucket s maa)) maa
unfolding open_bucket push_free give_free aa_bucket_put
open_bucket-parts s maa =
    elim (Bool-cases (leb s.globals.nr_local_free_abuckets s.thread.free_abuckets_count)) [
      | inl e ↦ rw e refl
      | inr e ↦ rw e refl
    ]

pub push_free-IsShifted :
    (s : Cf) (l k : Tiers) (h : ℕ)
    → IsCells s l k
    → IsLoose s l k h
    → length k.front < s.globals.nr_local_free_abuckets
    → IsShifted s l k (push_free s h) l (tiers (h ∷ k.front) k.own k.shared)
unfolding push_free
push_free-IsShifted s l k h cells loose room =
    let g = s.globals in
    let a = local_aas_of h in
    let v = s.thread.free_abuckets in
    let mem' = update s.mem a v in
    let same =
      loose_word g s.mem l k h a v cells.space cells.numbered cells.placed loose.at loose.loose
        (inr refl) in
    let count' = u32 (s.thread.free_abuckets_count + 1) in
    let k' = tiers (h ∷ k.front) k.own k.shared in
    let at = loose.at in
    record {
      cells = record {
        space = cells.space;
        ids =
            Same-IsTiered (aa_words g.aa_space s.mem) (aa_words g.aa_space mem') (aa_places s) l
              (Untouched-ids g s.mem mem' l k same) cells.ids;
        free =
            push-IsTiered (page_words s.mem) (page_words mem') (bucket_places s) k.front k.own
              k.shared h count' cells.free (Untouched-free s mem' l k cells.space cells.free same)
              (omega (arith, loose.loose)) room
              (omega (arith, cells.free.counts, cells.space.free_int, room)) (λ i. ground arith);
        numbered = cells.numbered;
        placed = λ c i. elim (Bool-cases (c == h)) [
          | inl e ↦ let e' : c ≡ h = ground arith in rw e' at
          | inr e ↦ cells.placed c (ground (arith, i, e))
        ];
        apart = λ c. let t = cells.apart c in ground (arith, t, loose.loose);
      };
      same_globals = refl;
      same_pages = refl;
      alike = λ c. refl;
      kept = λ b outside. elim outside [
        | inl far ↦ ground (arith, far, at.low)
        | inr far ↦ ground (arith, far, at.high)
      ];
    }

-- The list of free buckets, when full, goes to the shared stack: its first word is written.
put_front-IsShifted :
    (s : Cf) (l : Tiers) (front : List ℕ) (own shared : List Bucket)
    → let x = s.thread.free_abuckets in
      IsCells s l (tiers (x ∷ front) own shared)
      → length (x ∷ front) ≡ s.globals.nr_local_free_abuckets
      → IsShifted s l
          (tiers (x ∷ front) own shared)
          (set_thread
            (aa_bucket_put s x x)
            (record (s.thread) { free_abuckets = 0; free_abuckets_count = 0 }))
          l
          (tiers [] own ((x, x ∷ front) ∷ shared))
unfolding aa_bucket_put
put_front-IsShifted s l front own shared cells full =
    let x = s.thread.free_abuckets in
    let g = s.globals in
    let k = tiers (x ∷ front) own shared in
    let self : tick x x ≡ 1 = ground arith in
    let once = cells.apart x in
    let only : buckets k x ≡ 0 =
      omega (arith, once, self, free_listed s k x cells.space cells.free) in
    let at = cells.placed x (omega (arith, self)) in
    let v = lifo_to_elem aa_format s.free_aa_buckets_head in
    let mem' = update s.mem x v in
    let (elem, mem) =
      nb_stack_put-first aa_format aa-LeadsBack (store_of s s.free_aa_buckets_head) x x
        (bucket-IsPlace g x cells.space at).0 in
    let links : (c : ℕ) → 0 < total k c → mem' (c + 4) ≡ s.mem (c + 4) = λ c i.
      let at' = cells.placed c (omega (arith, i)) in
      let (low, high) = two_buckets g x c at at' in ground (arith, low) in
    let nexts : (h : ℕ) → 0 < buckets k h → mem' h ≡ s.mem h = λ h i. ground (arith, i, only) in
    let same : Same (page_words s.mem) (page_words mem') k = record {
      links = links;
      begin = λ h i. refl;
      nexts = nexts;
    } in
    let leads =
      (Same-IsTiered (page_words s.mem) (page_words mem') (bucket_places s) k same
        cells.free).leads in
    let free =
      put_front-IsTiered (page_words s.mem) (page_words mem') (bucket_places s) (x ∷ front) own
        shared x 0 cells.free links (λ h i. refl) nexts refl (ground arith) full only in
    let ids =
      Same-IsTiered (aa_words g.aa_space s.mem) (aa_words g.aa_space mem') (aa_places s) l
        (record {
          links = λ c i.
              let (low, high) = bucket_word g x c cells.space at (cells.numbered c i) in
              ground (arith, low);
          begin = λ h i.
              let (low, high) = two_buckets g x h at (cells.placed h (omega (arith, i))) in
              ground (arith, low);
          nexts = λ h i. ground (arith, i, once, self);
        })
        cells.ids in
    record {
      cells = record {
        space = cells.space;
        ids = rw mem ids;
        free = rw (elem, mem) free;
        numbered = cells.numbered;
        placed = λ c i. cells.placed c (ground (arith, i));
        apart = λ c. let t = cells.apart c in omega (arith, t);
      };
      same_globals = refl;
      same_pages = refl;
      alike = λ c. refl;
      kept = λ b outside. elim outside [
        | inl far ↦ rw mem (ground (arith, far, at.low))
        | inr far ↦ rw mem (ground (arith, far, at.high))
      ];
    }

pub give_free-IsShifted :
    (s : Cf) (l k : Tiers)
    → IsCells s l k
    → (k' : Tiers) × IsShifted s l k (give_free s) l k'
      × (length k'.front < s.globals.nr_local_free_abuckets)
      × ((h : ℕ) → bucket_total l k' h ≡ bucket_total l k h)
unfolding give_free aa_bucket_put
give_free-IsShifted s l k cells =
    elim (Bool-cases (leb s.globals.nr_local_free_abuckets s.thread.free_abuckets_count)) [
      | inl e ↦
          let full : length k.front ≡ s.globals.nr_local_free_abuckets =
            ground (arith, e, cells.free.counts, cells.free.short) in
          rw e (put k.front k.own k.shared cells full)
      | inr e ↦ (
        k,
        rw e (record {
          cells = cells;
          same_globals = refl;
          same_pages = refl;
          alike = λ c. refl;
          kept = λ a far. refl;
        }),
        ground (arith, e, cells.free.counts),
        λ h. refl,
      )
    ]
  where
    emptied : Cf
    emptied =
        set_thread (aa_bucket_put s s.thread.free_abuckets s.thread.free_abuckets)
          (record (s.thread) { free_abuckets = 0; free_abuckets_count = 0 })

    put :
        (front : List ℕ) (own shared : List Bucket)
        → IsCells s l (tiers front own shared)
        → length front ≡ s.globals.nr_local_free_abuckets
        → (k' : Tiers) × IsShifted s l (tiers front own shared) emptied l k'
          × (length k'.front < s.globals.nr_local_free_abuckets)
          × ((h : ℕ) → bucket_total l k' h ≡ bucket_total l (tiers front own shared) h)
    put [] own shared there full = absurd (omega (arith, full, there.space.free_positive))
    put (x ∷ front) own shared there full =
        let at : x ≡ s.thread.free_abuckets = sym there.free.leads.0 in
        let y = s.thread.free_abuckets in
        let there' : IsCells s l (tiers (y ∷ front) own shared) =
          subst (λ z. IsCells s l (tiers (z ∷ front) own shared)) at there in
        (
          tiers [] own ((y, y ∷ front) ∷ shared),
          subst
              (λ z.
                IsShifted s l (tiers (z ∷ front) own shared) emptied l
                  (tiers [] own ((y, y ∷ front) ∷ shared)))
              (sym at) (put_front-IsShifted s l front own shared there' full),
          there.space.free_positive,
          λ h. rw at (omega arith),
        )

-- A bucket whose addresses are the thread's list becomes a free one.
pub opened-IsShifted :
    (s : Cf) (l k : Tiers) (h : ℕ)
    → IsCells s l k
    → IsLoose s l k h
    → (k' : Tiers) × IsShifted s l k (push_free (give_free s) h) l k'
      × ((b : ℕ) → bucket_total l k' b ≡ tick b h + bucket_total l k b)
opened-IsShifted s l k h cells loose =
    let t = give_free s in
    let (k', first, room, same) = give_free-IsShifted s l k cells in
    let g = first.same_globals in
    let loose' : IsLoose t l k' h = record {
      at = subst (λ (g : Globals). IsBucketAt g h) (sym g) loose.at;
      loose = same h ∙ loose.loose;
    } in
    let second =
      push_free-IsShifted t l k' h first.cells loose'
        (omega (arith, room, ap (λ (g : Globals). g.nr_local_free_abuckets) g)) in
    (
      tiers (h ∷ k'.front) k'.own k'.shared,
      record {
        cells = second.cells;
        same_globals = second.same_globals ∙ g;
        same_pages = second.same_pages ∙ first.same_pages;
        alike = λ c. refl;
        kept = λ a far.
            second.kept a (subst (λ (g : Globals). OutsideBuckets g a) (sym g) far)
            ∙ first.kept a far;
      },
      λ b. omega (arith, same b),
    )
