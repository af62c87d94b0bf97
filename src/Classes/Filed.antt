-- ===== src/Classes/Filed.antt =====
-- The four rings of each size-class of cf.c and the counters kept beside them.
use compact_fit.Base.{
  ℕ, ◌+◌, ◌-◌, ◌%◌, ◌<◌, ◌≡◌, refl, sym, ap, ◌∙◌, arith, Bool, true, false, ◌&&◌, ◌||◌, ◌==◌, leb,
  ◌⊎◌, update, List, ◌∷◌, Bool-cases, inl, inr,
}
use compact_fit.Page.{u32}
use compact_fit.ListHead.{Links, list_add, list_del}
use compact_fit.ListHead.Ring.{has}
use compact_fit.ListHead.Shelf.{IsShelf, list_add-IsShelf}
use compact_fit.ListHead.Without.{length, without, list_del-IsShelf-without}
use compact_fit.State.{
  SizeClass, head_full_pages, head_nfull_pages, head_source_pages, head_emptying_pages,
}

-- The addresses of the list heads: the first four pairs of words of each size-class.
abbrev pub heads : (ℕ → Bool) → ℕ → Bool
heads classes h =
    classes h
    || (leb 8 h && classes (h - 8))
    || (leb 16 h && classes (h - 16))
    || (leb 24 h && classes (h - 24))

-- The counters of a size-class against its rings.
pub record Counts (c : SizeClass) (sc : ℕ) (ring : ℕ → List ℕ) : Type 0 where
  pub nfull : c.nfullentries ≡ u32 (length (ring (head_nfull_pages sc)))
  pub source :
      c.sourceentries
      ≡ u32 (length (ring (head_source_pages sc)) + length (ring (head_emptying_pages sc)))
  pub total :
      c.nr_pages
      ≡ u32 (
          length (ring (head_full_pages sc))
          + length (ring (head_nfull_pages sc))
          + length (ring (head_source_pages sc))
          + length (ring (head_emptying_pages sc)))

-- Every size-class keeps its pages in four rings of its own and counts them. Size-classes lie a
-- multiple of 128 bytes apart.
pub record IsFiled (l : Links) (size_class : ℕ → SizeClass) (classes : ℕ → Bool) (ring : ℕ → List ℕ)
    : Type 0 where
  pub offset : ℕ
  pub aligned : (sc : ℕ) → classes sc ≡ true → sc % 128 ≡ offset
  pub shelf : IsShelf l (heads classes) ring
  pub counts : (sc : ℕ) → classes sc ≡ true → Counts (size_class sc) sc ring

-- A head is one of the four of its class.
pub four : (m : ℕ) → m < 32 → m % 8 ≡ 0 → (m ≡ 0) ⊎ ((m ≡ 8) ⊎ ((m ≡ 16) ⊎ (m ≡ 24)))
four m small even = elim (Bool-cases (m == 0)) [
  | inl e ↦ inl (ground arith)
  | inr e ↦ elim (Bool-cases (m == 8)) [
    | inl e' ↦ inr (inl (ground arith))
    | inr e' ↦ elim (Bool-cases (m == 16)) [
      | inl e'' ↦ inr (inr (inl (ground arith)))
      | inr e'' ↦ inr (inr (inr (ground (arith, e, e', e'', small, even))))
    ]
  ]
]

behind : (classes : ℕ → Bool) (sc k : ℕ) → classes sc ≡ true → classes (sc + k - k) ≡ true
behind classes sc k here = let e : sc + k - k ≡ sc = omega arith in ap classes e ∙ here

pub full_is_head :
    (classes : ℕ → Bool) (sc : ℕ) → classes sc ≡ true → heads classes (head_full_pages sc) ≡ true
full_is_head classes sc here = rw here refl

pub nfull_is_head :
    (classes : ℕ → Bool) (sc : ℕ) → classes sc ≡ true → heads classes (head_nfull_pages sc) ≡ true
nfull_is_head classes sc here = let b = behind classes sc 8 here in ground (arith, b)

pub source_is_head :
    (classes : ℕ → Bool) (sc : ℕ) → classes sc ≡ true → heads classes (head_source_pages sc) ≡ true
source_is_head classes sc here = let b = behind classes sc 16 here in ground (arith, b)

emptying_is_head :
    (classes : ℕ → Bool) (sc : ℕ)
    → classes sc ≡ true
    → heads classes (head_emptying_pages sc) ≡ true
emptying_is_head classes sc here = let b = behind classes sc 24 here in ground (arith, b)

pub head_of :
    (classes : ℕ → Bool) (sc k : ℕ)
    → classes sc ≡ true
    → k < 32
    → k % 8 ≡ 0
    → heads classes (sc + k) ≡ true
head_of classes sc k here small even = elim (four k small even) [
  | inl e ↦
      let at : sc ≡ sc + k = omega (arith, e) in
      ap (heads classes) (sym at) ∙ full_is_head classes sc here
  | inr (inl e) ↦ rw e (nfull_is_head classes sc here)
  | inr (inr (inl e)) ↦ rw e (source_is_head classes sc here)
  | inr (inr (inr e)) ↦ rw e (emptying_is_head classes sc here)
]

-- A head lies in a size-class.
pub head_parts :
    (classes : ℕ → Bool) (h : ℕ)
    → heads classes h ≡ true
    → (sc : ℕ) × (k : ℕ) × (classes sc ≡ true) × (k < 32) × (k % 8 ≡ 0) × (h ≡ sc + k)
head_parts classes h here = elim (Bool-cases (classes h)) [
  | inl e ↦ (h, 0, e, omega arith, refl, omega arith)
  | inr e ↦ elim (Bool-cases (leb 8 h && classes (h - 8))) [
    | inl e' ↦ (h - 8, 8, ground (arith, e'), omega arith, refl, ground (arith, e'))
    | inr e' ↦ elim (Bool-cases (leb 16 h && classes (h - 16))) [
      | inl e'' ↦ (h - 16, 16, ground (arith, e''), omega arith, refl, ground (arith, e''))
      | inr e'' ↦
          let last : (leb 24 h && classes (h - 24)) ≡ true = ground (arith, here, e, e', e'') in
          (h - 24, 24, ground (arith, last), omega arith, refl, ground (arith, last))
    ]
  ]
]

-- A change of the ring at `h` leaves the counts of the other classes.
other-Counts :
    {o : ℕ} (c : SizeClass) (sc sc' h k : ℕ) (ring : ℕ → List ℕ) (zs : List ℕ)
    → sc % 128 ≡ o
    → sc' % 128 ≡ o
    → (sc == sc') ≡ false
    → h ≡ sc + k
    → k < 32
    → Counts c sc' ring
    → Counts c sc' (update ring h zs)
other-Counts {o} c sc sc' h k ring zs al al' ne at small n =
    let e0 : (h == sc') ≡ false = ground arith in
    let e1 : (h == sc' + 8) ≡ false = ground arith in
    let e2 : (h == sc' + 16) ≡ false = ground arith in
    let e3 : (h == sc' + 24) ≡ false = ground arith in
    record {
      nfull = rw e1 n.nfull;
      source = rw (e2, e3) n.source;
      total = rw (e0, e1, e2, e3) n.total;
    }

module _ (l : Links) (size_class : ℕ → SizeClass) (classes : ℕ → Bool) (ring : ℕ → List ℕ)
    (filed : IsFiled l size_class classes ring) (sc h k : ℕ) (here : classes sc ≡ true)
    (at : h ≡ sc + k) (small : k < 32) (even : k % 8 ≡ 0) (c : SizeClass) where
  -- A page on no ring goes in front of one of a class, whose counters become `c`.
  pub add-IsFiled :
      (new : ℕ)
      → ((a : ℕ) → heads classes a ≡ true → has new (a ∷ ring a) ≡ false)
      → Counts c sc (update ring h (new ∷ ring h))
      → IsFiled (list_add l h new) (update size_class sc c) classes (update ring h (new ∷ ring h))
  add-IsFiled new fresh n = record {
    offset = filed.offset;
    aligned = filed.aligned;
    shelf =
        list_add-IsShelf l (heads classes) ring filed.shelf h
          (rw at (head_of classes sc k here small even)) new fresh;
    counts = λ sc' there. elim (Bool-cases (sc == sc')) [
      | inl e ↦ let same : sc ≡ sc' = ground arith in rw (e, ← same) n
      | inr e ↦ rw e (
          other-Counts (size_class sc') sc sc' h k ring (new ∷ ring h) (filed.aligned sc here)
            (filed.aligned sc' there) e at small (filed.counts sc' there))
    ];
  }

  pub del-IsFiled :
      (x : ℕ)
      → has x (ring h) ≡ true
      → Counts c sc (update ring h (without x (ring h)))
      → IsFiled (list_del l x) (update size_class sc c) classes (update ring h (without x (ring h)))
  del-IsFiled x i n = record {
    offset = filed.offset;
    aligned = filed.aligned;
    shelf =
        list_del-IsShelf-without l (heads classes) ring h x filed.shelf
          (rw at (head_of classes sc k here small even)) i;
    counts = λ sc' there. elim (Bool-cases (sc == sc')) [
      | inl e ↦ let same : sc ≡ sc' = ground arith in rw (e, ← same) n
      | inr e ↦ rw e (
          other-Counts (size_class sc') sc sc' h k ring (without x (ring h)) (filed.aligned sc here)
            (filed.aligned sc' there) e at small (filed.counts sc' there))
    ];
  }
