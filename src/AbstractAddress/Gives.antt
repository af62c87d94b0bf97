-- ===== src/AbstractAddress/Gives.antt =====
-- What taking an abstract address back in cf.c leaves alone, where it succeeds.
use compact_fit.Base.{ℕ, inl, inr, Bool-cases, ◌==◌, leb, Option, none, some}
use compact_fit.State.{Cf}
use compact_fit.State.Kept.{IsKept, itself, through}
use compact_fit.State.Stacks.{aa_put, aa_bucket_get}
use compact_fit.AbstractAddress.{
  put_free_aa, need_free_bucket, install_bucket, return_buckets, push_aa, clear_abstract_address,
}

-- A result, if there is one, keeps the settings, rings, size-classes and pages.
abbrev pub AllKept : Cf → Option Cf → Type 0
AllKept s none = Unit
AllKept s (some t) = IsKept s s.page t

push_aa-IsKept : (s : Cf) (id : ℕ) → IsKept s s.page (push_aa s id)
unfolding push_aa
push_aa-IsKept s id = elim (Bool-cases (s.thread.aas_count == 0)) [
  | inl e ↦ rw e (itself _)
  | inr e ↦ rw e (itself _)
]

return_buckets-IsKept : (s : Cf) → IsKept s s.page (return_buckets s)
unfolding return_buckets aa_put
return_buckets-IsKept s =
    elim (Bool-cases (leb s.globals.nr_local_abuckets s.thread.abuckets_count)) [
      | inl e ↦ rw e (itself _)
      | inr e ↦ rw e (itself _)
    ]

install_bucket-IsKept : (s : Cf) → IsKept s s.page (install_bucket s)
unfolding install_bucket
install_bucket-IsKept s = itself _

installed-IsKept :
    (s : Cf) (id : ℕ) → IsKept s s.page (push_aa (return_buckets (install_bucket s)) id)
installed-IsKept s id =
    let t = install_bucket s in
    let u = return_buckets t in
    let v = push_aa u id in
    through s t v (install_bucket-IsKept s)
      (through t u v (return_buckets-IsKept t) (push_aa-IsKept u id))

aa_bucket_get-IsKept : (s : Cf) → IsKept s s.page (aa_bucket_get s).0
unfolding aa_bucket_get
aa_bucket_get-IsKept s = itself _

put_free_aa-AllKept : (s : Cf) (id : ℕ) → AllKept s (put_free_aa s id)
unfolding put_free_aa need_free_bucket
put_free_aa-AllKept s id = elim (Bool-cases (s.thread.aas_count == s.globals.nr_local_aas)) [
  | inl e ↦ elim (Bool-cases (s.thread.free_abuckets_count == 0)) [
    | inl e' ↦
        let (t, bucket) = aa_bucket_get s in
        let kept : IsKept s s.page t = aa_bucket_get-IsKept s in
        elim (Bool-cases (bucket == 0)) [
          | inl e'' ↦ rw (e, e', e'') tt
          | inr e'' ↦
              let u = record t {
                thread = record (t.thread) {
                  free_abuckets = bucket;
                  free_abuckets_count = t.globals.nr_local_free_abuckets;
                };
              } in
              rw (e, e', e'')
                (through s u _ (through s t u kept (itself u)) (installed-IsKept u id))
        ]
    | inr e' ↦ rw (e, e') (installed-IsKept s id)
  ]
  | inr e ↦ rw e (push_aa-IsKept s id)
]

pub clear_abstract_address-AllKept : (s : Cf) (aa : ℕ) → AllKept s (clear_abstract_address s aa)
unfolding clear_abstract_address
clear_abstract_address-AllKept s aa = put_free_aa-AllKept s _
