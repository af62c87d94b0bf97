-- ===== src/FreePages/Keeps.antt =====
-- What giving a page back in cf.c leaves alone.
use compact_fit.Base.{
  true, false, ◌≡◌, ap, ◌+◌, ◌-◌, ◌^◌, ℕ, refl, inl, inr, Bool-cases, ◌==◌, leb, update, ◌⊎◌,
}
use compact_fit.State.{Cf}
use compact_fit.Page.{Page, u32}
use compact_fit.State.Stacks.{page_put, page_get}
use compact_fit.State.Kept.{IsKept, itself}
use compact_fit.FreePages.{
  free_list_flag, add_free_page, stash, release_buckets, get_free_page, refill_shared, refill_local,
  take_page,
}

page_get-size_class : (s : Cf) → (page_get s).0.size_class ≡ s.size_class
unfolding page_get
page_get-size_class s = refl

take_page-size_class : (s : Cf) → (take_page s).0.size_class ≡ s.size_class
unfolding take_page
take_page-size_class s = elim (Bool-cases (s.thread.pages == 0)) [
  | inl e ↦ rw e refl
  | inr e ↦ rw e refl
]

refill_shared-size_class : (s : Cf) → (refill_shared s).0.size_class ≡ s.size_class
unfolding refill_shared take_page
refill_shared-size_class s =
    let (t, mp) = page_get s in
    let kept : t.size_class ≡ s.size_class = page_get-size_class s in
    elim (Bool-cases (mp == 0)) [ inl e ↦ rw e kept | inr e ↦ rw e kept ]

refill_local-size_class : (s : Cf) → (refill_local s).0.size_class ≡ s.size_class
unfolding refill_local take_page
refill_local-size_class s = elim (Bool-cases (s.thread.pbuckets == 0)) [
  | inl e ↦ rw e refl
  | inr e ↦ rw e refl
]

pub get_free_page-size_class : (s : Cf) → (get_free_page s).0.size_class ≡ s.size_class
unfolding get_free_page
get_free_page-size_class s = elim (Bool-cases (s.thread.pages_count == 0)) [
  | inl e ↦ elim (Bool-cases (s.thread.pbuckets_count == 0)) [
    | inl e' ↦ rw (e, e') (refill_shared-size_class s)
    | inr e' ↦ rw (e, e') (refill_local-size_class s)
  ]
  | inr e ↦ rw e (take_page-size_class s)
]

-- Only its list flags differ.
abbrev pub reflag : (ℕ → Page) → ℕ → ℕ → ℕ → Page
reflag page p flags = update page p (record (page p) { list_flags = flags })

release_buckets-IsKept : (s : Cf) → IsKept s s.page (release_buckets s)
unfolding release_buckets page_put
release_buckets-IsKept s =
    elim (Bool-cases (leb s.globals.nr_local_pbuckets s.thread.pbuckets_count)) [
      | inl e ↦ rw e (itself _)
      | inr e ↦ rw e (itself s)
    ]

pub add_free_page-IsKept :
    (s : Cf) (p : ℕ) → IsKept s (reflag s.page p free_list_flag) (add_free_page s p)
unfolding add_free_page stash
add_free_page-IsKept s p = elim (Bool-cases (s.thread.pages_count == s.globals.nr_local_pages)) [
  | inl e ↦
      let kept = release_buckets-IsKept (stash s) in
      rw e (record {
        same_globals = kept.same_globals;
        same_links = kept.same_links;
        same_classes = kept.same_classes;
        same_pages = ap (λ pages. reflag pages p free_list_flag) kept.same_pages;
      })
  | inr e ↦ rw e (itself _)
]

pub add_free_page-size_class : (s : Cf) (p : ℕ) → (add_free_page s p).size_class ≡ s.size_class
add_free_page-size_class s p = (add_free_page-IsKept s p).same_classes

-- Unless no page is left, the page taken has its list flags cleared.
abbrev pub TakesPage : Cf → Cf × ℕ → Type 0
TakesPage s (t, p) =
    (((p == 0) ≡ true) × IsKept s s.page t) ⊎ (((p == 0) ≡ false) × IsKept s (reflag s.page p 0) t)

take_page-TakesPage : (s : Cf) → TakesPage s (take_page s)
unfolding take_page
take_page-TakesPage s = elim (Bool-cases (s.thread.pages == 0)) [
  | inl e ↦ rw e (inl (refl, itself _))
  | inr e ↦ rw e (inr (refl, itself _))
]

page_get-IsKept : (s : Cf) → IsKept s s.page (page_get s).0
unfolding page_get
page_get-IsKept s = itself _

refill_shared-TakesPage : (s : Cf) → TakesPage s (refill_shared s)
unfolding refill_shared page_get take_page
refill_shared-TakesPage s =
    let (t, mp) = page_get s in
    elim (Bool-cases (mp == 0)) [
      | inl e ↦ rw e (inl (refl, page_get-IsKept s))
      | inr e ↦ rw e (inr (e, itself _))
    ]

refill_local-TakesPage : (s : Cf) → TakesPage s (refill_local s)
unfolding refill_local
refill_local-TakesPage s =
    let d = s.thread in
    take_page-TakesPage (record s {
      thread = record d {
        pages = d.pbuckets;
        pages_count = s.globals.nr_local_pages;
        pbuckets = s.mem d.pbuckets;
        pbuckets_count = u32 (d.pbuckets_count + 2 ^ 32 - 1);
      };
    })

pub get_free_page-TakesPage : (s : Cf) → TakesPage s (get_free_page s)
unfolding get_free_page
get_free_page-TakesPage s = elim (Bool-cases (s.thread.pages_count == 0)) [
  | inl e ↦ elim (Bool-cases (s.thread.pbuckets_count == 0)) [
    | inl e' ↦ rw (e, e') (refill_shared-TakesPage s)
    | inr e' ↦ rw (e, e') (refill_local-TakesPage s)
  ]
  | inr e ↦ rw e (take_page-TakesPage s)
]
