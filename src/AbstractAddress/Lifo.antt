-- ===== src/AbstractAddress/Lifo.antt =====
-- The thread's cache of abstract addresses of cf.c: an address given back is the next handed out.
use compact_fit.Base.{
  ℕ, ◌+◌, false, true, ◌<◌, ◌≤◌, ◌≡◌, ◌≢◌, ◌⊎◌, inl, inr, refl, arith, ◌^◌, ◌==◌, some, Bool-cases,
  ◌∙◌, ltb, ◌&&◌,
}
use compact_fit.State.{Cf}
use compact_fit.AbstractAddress.{
  get_abstract_address, get_free_aa, put_free_aa, push_aa, pop_aa, need_free_bucket, install_bucket,
  return_buckets,
}

return_buckets-aas_count : (s : Cf) → (return_buckets s).thread.aas_count ≡ s.thread.aas_count
unfolding return_buckets
return_buckets-aas_count s = ground arith

-- Pushed on a list with room for its count, an address is the next one out.
get_free_aa-push_aa :
    (s : Cf) (id : ℕ) → s.thread.aas_count + 1 < 2 ^ 32 → (get_free_aa (push_aa s id)).1 ≡ id
unfolding get_free_aa push_aa pop_aa
get_free_aa-push_aa s id h =
    let e : ((push_aa s id).thread.aas_count == 0) ≡ false = ground arith in rw e refl

install_bucket-aas_count : (s : Cf) → (install_bucket s).thread.aas_count ≡ 0
unfolding install_bucket
install_bucket-aas_count s = refl

put_full :
    (s : Cf) (id : ℕ)
    → (s.thread.aas_count == s.globals.nr_local_aas) ≡ true
    → s.thread.free_abuckets_count ≢ 0
    → put_free_aa s id ≡ some (push_aa (return_buckets (install_bucket s)) id)
unfolding put_free_aa need_free_bucket
put_full s id full bucket =
    let e : (s.thread.free_abuckets_count == 0) ≡ false = ground arith in rw (full, e) refl

-- While the thread's list has room or the thread has a free bucket, put_free_aa succeeds, and the
-- address it was given is the one get_free_aa returns next. The list has at most `nr_local_aas`
-- addresses, a number below 2 ^ 32 - 1.
pub get_free_aa-put_free_aa :
    (s : Cf) (id : ℕ)
    → s.thread.aas_count ≤ s.globals.nr_local_aas
    → s.globals.nr_local_aas + 1 < 2 ^ 32
    → (s.thread.aas_count ≢ s.globals.nr_local_aas) ⊎ (s.thread.free_abuckets_count ≢ 0)
    → (t : Cf) × (put_free_aa s id ≡ some t) × ((get_free_aa t).1 ≡ id)
unfolding put_free_aa
get_free_aa-put_free_aa s id le small (inl room) =
    let e : (s.thread.aas_count == s.globals.nr_local_aas) ≡ false = ground arith in
    (push_aa s id, rw e refl, get_free_aa-push_aa s id (omega arith))
get_free_aa-put_free_aa s id le small (inr bucket) =
    elim (Bool-cases (s.thread.aas_count == s.globals.nr_local_aas)) [
      | inl full ↦
          let t = return_buckets (install_bucket s) in
          let zero : t.thread.aas_count ≡ 0 =
            return_buckets-aas_count (install_bucket s) ∙ install_bucket-aas_count s in
          (push_aa t id, put_full s id full bucket, get_free_aa-push_aa t id (omega (arith, zero)))
      | inr e ↦ (push_aa s id, rw e refl, get_free_aa-push_aa s id (ground arith))
    ]

-- An address that is handed out leads to its block.
pub get_abstract_address-points :
    (s : Cf) (block : ℕ)
    → let (t, address) = get_abstract_address s block in
      (address == 0) ≡ false → t.mem address ≡ block
unfolding get_abstract_address
get_abstract_address-points s block some_address =
    let (t, id) = get_free_aa s in
    elim (Bool-cases (ltb id (2 ^ 31) && ltb id t.globals.nr_aas)) [
      | inl e ↦ rw e (ground arith)
      | inr e ↦ absurd (let none = rw e at some_address in ground (arith, none))
    ]
