-- ===== src/Tests/Heaps.antt =====
-- cf_init, cf_malloc and cf_free on small heaps.
use compact_fit.Base.{
  ℕ, ◌+◌, ◌%◌, ◌^◌, ◌<◌, ◌≤◌, ◌≡◌, refl, arith, Bool, true, false, Bool-cases, inl, inr, ◌==◌, List,
  [], ◌∷◌, if◌then◌else◌, some,
}
use compact_fit.Page.{Page}
use compact_fit.Page.Census.{get_free-rest}
use compact_fit.ListHead.Ring.{has}
use compact_fit.State.{Cf}
use compact_fit.FreePages.{get_free_page, take_page}
use compact_fit.Classes.Filed.{heads, IsFiled}
use compact_fit.Classes.Init.{classes_at}
use compact_fit.Heap.Free.{free_block}
use compact_fit.Heap.Free.Keeps.{free_block-IsHeap}
use compact_fit.Heap.Invariant.{IsHeap, IsClean, IsSettled}
use compact_fit.Heap.Malloc.{malloc_in}
use compact_fit.Heap.Malloc.Keeps.{HasSpare, malloc_in-IsHeap}
use compact_fit.Tests.Pages.{
  empty_page, empty_page-Counted, one_used, one_used-Counted, taken_index, index_small, index-used,
  one_counted,
}
use compact_fit.Tests.States.{a_state, a_class}

pub empty_page-IsClean : IsClean empty_page
empty_page-IsClean = record {
  settled = record { counted = empty_page-Counted; pending = refl };
  none_used = refl;
}

abbrev pub no_rings : ℕ → List ℕ
no_rings = λ h. []

-- No page is listed, and the thread has one free page.
abbrev pub idle : Cf
idle = record (a_state 0) {
  page = λ p. empty_page;
  thread = record (a_state 0).thread { pages_count = 1; pages = 2 ^ 20 };
}

pub idle-IsFiled : IsFiled idle.links idle.size_class (classes_at 512) no_rings
idle-IsFiled = record {
  offset = 0;
  aligned = λ sc here. ground (arith, here);
  shelf = record {
    rings = λ h here. record { chain = (refl, refl); apart = refl; distinct = tt };
    apart = λ h h' c here here' ne i. ground arith;
  };
  counts = λ sc here. record { nfull = refl; source = refl; total = refl };
}

pub idle-IsHeap : IsHeap idle (classes_at 512) no_rings
idle-IsHeap = record {
  filed = idle-IsFiled;
  direct = refl;
  rounds = omega arith;
  set = λ sc here. record {
    least = omega arith;
    most = omega arith;
    bound_positive = omega arith;
    bound_int = omega arith;
  };
  placed = λ h x here i. absurd (ground (arith, i));
  no_source = λ sc here. refl;
  no_emptying = λ sc here. refl;
  bounded = λ sc here. omega arith;
  full = λ sc p here i. absurd (ground (arith, i));
  partly = λ sc p here i. absurd (ground (arith, i));
  clean = λ p fresh. empty_page-IsClean;
  settled = λ p. empty_page-IsClean.settled;
  owned = λ p some_used. absurd (omega (arith, some_used));
}

pub idle-HasSpare : HasSpare idle (classes_at 512)
unfolding get_free_page take_page
idle-HasSpare some_page = (refl, refl, omega arith)

malloc_in-IsHeap_example :
    (ring' : ℕ → List ℕ) × IsHeap (malloc_in idle 512).0 (classes_at 512) ring'
malloc_in-IsHeap_example =
    malloc_in-IsHeap idle (classes_at 512) no_rings idle-IsHeap 512 refl idle-HasSpare

-- One page is not full, and has one block in use.
abbrev pub place : ℕ
place = 2 ^ 20 + 16200

abbrev pub listed_page : Page
listed_page = record one_used { sc = 512 }

abbrev pub one_class : ℕ → Bool
one_class = λ c. c == 512

abbrev pub one_ring : ℕ → List ℕ
one_ring = λ h. if h == 520 then place ∷ [] else []

abbrev pub working : Cf
working = record (a_state 0) {
  page = λ p. if p == 2 ^ 20 then listed_page else empty_page;
  links = record {
    next = λ a. if a == 520 then place else if a == place then 520 else a;
    prev = λ a. if a == 520 then place else if a == place then 520 else a;
  };
  size_class = λ sc. record a_class { nfullentries = 1; nr_pages = 1 };
}

listed_page-IsSettled : IsSettled listed_page
listed_page-IsSettled = record {
  counted = record { bitmap = one_used-Counted.bitmap; census = one_used-Counted.census };
  pending = (get_free-rest empty_page).1;
}

head_is : (h : ℕ) → heads one_class h ≡ true → (512 ≤ h) × (h < 544) × (h % 8 ≡ 0)
head_is h here = (ground (arith, here), ground (arith, here), ground (arith, here))

on_ring : (h x : ℕ) → has x (one_ring h) ≡ true → (h ≡ 520) × (x ≡ place)
on_ring h x i = elim (Bool-cases (h == 520)) [
  | inl e ↦ let i' = rw e at i in (ground arith, ground (arith, i'))
  | inr e ↦ let i' = rw e at i in absurd (ground (arith, i'))
]

one_ring-apart :
    (h h' c : ℕ)
    → (512 ≤ h) × (h < 544) × (h % 8 ≡ 0)
    → (512 ≤ h') × (h' < 544) × (h' % 8 ≡ 0)
    → (h == h') ≡ false
    → has c (h ∷ one_ring h) ≡ true
    → has c (h' ∷ one_ring h') ≡ false
one_ring-apart h h' c in_h in_h' ne i = elim (Bool-cases (has c (one_ring h))) [
  | inl e ↦
      let (at, is) = on_ring h c e in
      let far : (c == h') ≡ false = ground (arith, is, in_h') in
      elim (Bool-cases (has c (one_ring h'))) [
        | inl e' ↦ absurd (ground (arith, ne, at, (on_ring h' c e').0))
        | inr e' ↦ rw (far, e') refl
      ]
  | inr e ↦
      let at : c ≡ h = ground (arith, i, e) in
      let far : (c == h') ≡ false = ground (arith, at, ne) in
      elim (Bool-cases (has c (one_ring h'))) [
        | inl e' ↦ absurd (omega (arith, at, in_h, (on_ring h' c e').1))
        | inr e' ↦ rw (far, e') refl
      ]
]

working-IsFiled : IsFiled working.links working.size_class one_class one_ring
working-IsFiled = record {
  offset = 0;
  aligned = λ sc here. let e : sc ≡ 512 = ground (arith, here) in rw e refl;
  shelf = record {
    rings = λ h here. elim (Bool-cases (h == 520)) [
      | inl e ↦
          let at : h ≡ 520 = ground arith in
          rw at (record { chain = (refl, refl, (refl, refl)); apart = refl; distinct = (refl, tt) })
      | inr e ↦
          let far : (h == place) ≡ false = ground (arith, head_is h here) in
          rw (e)
            (record { chain = (rw (e, far) refl, rw (e, far) refl); apart = refl; distinct = tt })
    ];
    apart =
        λ h h' c here here' ne i. one_ring-apart h h' c (head_is h here) (head_is h' here') ne i;
  };
  counts = λ sc here.
      let e : sc ≡ 512 = ground (arith, here) in
      rw e (record { nfull = refl; source = refl; total = refl });
}

place_of : (p : ℕ) → p + 16200 ≡ place → p ≡ 2 ^ 20
place_of p e = omega (arith, e)

pub working-IsHeap : IsHeap working one_class one_ring
working-IsHeap = record {
  filed = working-IsFiled;
  direct = refl;
  rounds = omega arith;
  set = λ sc here. record {
    least = omega arith;
    most = omega arith;
    bound_positive = omega arith;
    bound_int = omega arith;
  };
  placed = λ h x here i. let (at, is) = on_ring h x i in (omega (arith, is), omega (arith, is));
  no_source = λ sc here. let e : sc ≡ 512 = ground (arith, here) in rw e refl;
  no_emptying = λ sc here. let e : sc ≡ 512 = ground (arith, here) in rw e refl;
  bounded = λ sc here. let e : sc ≡ 512 = ground (arith, here) in rw e (omega arith);
  full = λ sc p here i.
      let e : sc ≡ 512 = ground (arith, here) in
      let (at, is) = on_ring sc (p + 16200) i in absurd (omega (arith, at, e));
  partly = λ sc p here i.
      let e : sc ≡ 512 = ground (arith, here) in
      let at = place_of p (on_ring (sc + 8) (p + 16200) i).1 in
      rw (e, at)
        (record {
          settled = listed_page-IsSettled;
          class = refl;
          some_used = omega (arith, one_counted);
          some_free = omega (arith, one_counted);
        });
  clean = λ p fresh. elim (Bool-cases (p == 2 ^ 20)) [
    | inl e ↦
        let at : p ≡ 2 ^ 20 = ground arith in
        absurd (let out = fresh 520 refl in ground (arith, out, at))
    | inr e ↦ rw e empty_page-IsClean
  ];
  settled = λ p. elim (Bool-cases (p == 2 ^ 20)) [
    | inl e ↦ rw e listed_page-IsSettled
    | inr e ↦ rw e empty_page-IsClean.settled
  ];
  owned = λ p some_used. elim (Bool-cases (p == 2 ^ 20)) [
    | inl e ↦ let at : p ≡ 2 ^ 20 = ground arith in rw at (refl, inr refl)
    | inr e ↦ absurd (let some_used' = rw e at some_used in omega (arith, some_used'))
  ];
}

free_block-IsHeap_example :
    (t : Cf) × (ring' : ℕ → List ℕ) × (free_block (λ u. u) working 512 (2 ^ 20) 32 taken_index 4096
      ≡ some (t, 0))
    × IsHeap t one_class ring'
free_block-IsHeap_example =
    free_block-IsHeap working one_class one_ring working-IsHeap 512 refl (2 ^ 20) taken_index
      index_small index-used (inr refl) (λ u. u) 4096
