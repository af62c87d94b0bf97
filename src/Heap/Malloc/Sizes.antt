-- ===== src/Heap/Malloc/Sizes.antt =====
-- The sizes that cf_malloc of cf.c accepts.
use compact_fit.Base.{
  ℕ, ◌+◌, ◌*◌, ◌<◌, ◌^◌, ◌≡◌, ◌↔◌, refl, ap, sym, ◌∙◌, arith, some, none, ◌==◌, true, Option-cases,
  inl, inr,
}
use compact_fit.State.{Cf, sizeof_size_class}
use compact_fit.SizeMap.{get_size_class_index}
use compact_fit.SizeMap.Fits.{get_size_class_index-none}
use compact_fit.Classes.{get_size_class}
use compact_fit.Heap.Malloc.{cf_malloc, gross_size, malloc_in}

gross_size-direct :
    (s : Cf) (size : ℕ)
    → s.globals.incremental_memcpy ≡ 0
    → size + 4 < 2 ^ 32
    → gross_size s size ≡ size + 4
unfolding gross_size
gross_size-direct s size direct small =
    let e : (s.globals.incremental_memcpy == 0) ≡ true = ground arith in rw e (omega (arith, small))

cf_malloc-class :
    (s : Cf) (size : ℕ)
    → (cf_malloc s size ≡ none) ↔ (get_size_class_index (gross_size s size) ≡ none)
unfolding cf_malloc get_size_class
cf_malloc-class s size = elim (Option-cases (get_size_class_index (gross_size s size))) [
  | inl e ↦ (λ h. e, λ h. rw e refl)
  | inr (i, e) ↦
      let runs : cf_malloc s size
          ≡ some (malloc_in s (s.thread.size_classes + sizeof_size_class * i)) =
        rw e refl in
      (λ h. ground (arith, runs, h), λ h. ground (arith, e, h))
]

-- Without increments, cf_malloc looks its size-class up behind the end of the map when it is asked for
-- 7996 bytes, and at no other size below 2 ^ 32 - 4.
pub cf_malloc-none :
    (s : Cf) (size : ℕ)
    → s.globals.incremental_memcpy ≡ 0
    → size + 4 < 2 ^ 32
    → (cf_malloc s size ≡ none) ↔ (size ≡ 7996)
cf_malloc-none s size direct small =
    let n = get_size_class_index-none (size + 4) in
    let c = cf_malloc-class s size in
    let e = gross_size-direct s size direct small in
    (
      λ h. omega (arith, n.0 (ap get_size_class_index (sym e) ∙ c.0 h)),
      λ h. c.1 (ap get_size_class_index e ∙ n.1 (omega (arith, h))),
    )
