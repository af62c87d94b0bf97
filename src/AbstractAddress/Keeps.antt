-- ===== src/AbstractAddress/Keeps.antt =====
-- What handing out an abstract address in cf.c leaves alone.
use compact_fit.Base.{ℕ, ◌≡◌, inl, inr, Bool-cases, ◌==◌, leb, ltb, ◌&&◌, ◌^◌}
use compact_fit.State.{Cf}
use compact_fit.State.Kept.{IsKept, itself, through}
use compact_fit.State.Stacks.{aa_get, aa_bucket_put}
use compact_fit.AbstractAddress.{get_free_aa, open_bucket, pop_aa, get_abstract_address}

open_bucket-IsKept : (s : Cf) (maa : ℕ) → IsKept s s.page (open_bucket s maa)
unfolding open_bucket aa_bucket_put
open_bucket-IsKept s maa =
    elim (Bool-cases (leb s.globals.nr_local_free_abuckets s.thread.free_abuckets_count)) [
      | inl e ↦ rw e (itself _)
      | inr e ↦ rw e (itself _)
    ]

aa_get-IsKept : (s : Cf) → IsKept s s.page (aa_get s).0
unfolding aa_get
aa_get-IsKept s = itself _

opened-IsKept : (s : Cf) (maa : ℕ) → IsKept s s.page (pop_aa (open_bucket s maa)).0
unfolding pop_aa
opened-IsKept s maa =
    let t = open_bucket s maa in
    let u = (pop_aa t).0 in through s t u (open_bucket-IsKept s maa) (itself u)

get_free_aa-IsKept : (s : Cf) → IsKept s s.page (get_free_aa s).0
unfolding get_free_aa pop_aa
get_free_aa-IsKept s =
    let (t, maa) = aa_get s in
    let kept : IsKept s s.page t = aa_get-IsKept s in
    elim (Bool-cases (s.thread.aas_count == 0)) [
      | inl e ↦ elim (Bool-cases (s.thread.abuckets_count == 0)) [
        | inl e' ↦ elim (Bool-cases (maa == 0)) [
          | inl e'' ↦ rw (e, e', e'') kept
          | inr e'' ↦ rw (e, e', e'') (through s t _ kept (opened-IsKept t maa))
        ]
        | inr e' ↦ rw (e, e') (opened-IsKept _ s.thread.abuckets)
      ]
      | inr e ↦ rw e (itself _)
    ]

pub get_abstract_address-IsKept :
    (s : Cf) (block : ℕ) → IsKept s s.page (get_abstract_address s block).0
unfolding get_abstract_address
get_abstract_address-IsKept s block =
    let (t, id) = get_free_aa s in
    let kept : IsKept s s.page t = get_free_aa-IsKept s in
    elim (Bool-cases (ltb id (2 ^ 31) && ltb id t.globals.nr_aas)) [
      | inl e ↦ rw e (through s t _ kept (itself _))
      | inr e ↦ rw e kept
    ]

pub get_abstract_address-size_class :
    (s : Cf) (block : ℕ) → (get_abstract_address s block).0.size_class ≡ s.size_class
get_abstract_address-size_class s block = (get_abstract_address-IsKept s block).same_classes
