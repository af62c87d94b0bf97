-- ===== src/Classes/Init.antt =====
-- init_size_class_instance of cf.c makes size-classes with empty rings.
use compact_fit.Base.{
  ℕ, zero, suc, ◌+◌, ◌-◌, ◌*◌, ◌/◌, ◌%◌, ◌<◌, ◌≤◌, ◌≡◌, refl, ap, ◌∙◌, arith, Bool, true, ◌&&◌,
  ◌==◌, ltb, leb, update_self, [], inl, ◌⊎◌,
}
use compact_fit.ListHead.{init_list_head}
use compact_fit.SizeMap.{sizeclasses, get_page_block_size_of_index}
use compact_fit.State.{Cf, SizeClass}
use compact_fit.Classes.{init_class, init_classes, init_size_class_instance}
use compact_fit.Classes.Filed.{head_parts, Counts, IsFiled}

-- The class number i as the loop leaves it.
abbrev pub fresh_class : Cf → ℕ → SizeClass
fresh_class s i = record {
  nfullentries = 0;
  max_nfullentries = 0;
  sourceentries = 0;
  max_sourceentries = 0;
  partial_compaction_bound = s.globals.partial_compaction_bound;
  block_size = get_page_block_size_of_index i;
  nr_pages = 0;
  max_nr_pages = 0;
}

-- The pointers at `h`, and the size-class there, are those of `s`.
record Kept (s t : Cf) (h : ℕ) : Type 0 where
  next : t.links.next h ≡ s.links.next h
  prev : t.links.prev h ≡ s.links.prev h
  class : t.size_class h ≡ s.size_class h

init_classes-Kept :
    (n i sc : ℕ) (s : Cf) (h : ℕ) → (h < sc) ⊎ (sc + 128 * n ≤ h) → Kept s (init_classes n i sc s) h
unfolding init_classes init_class init_list_head
init_classes-Kept zero i sc s h out = record { next = refl; prev = refl; class = refl }
init_classes-Kept (suc n) i sc s h out =
    let k = init_classes-Kept n (i + 1) (sc + 128) (init_class s i sc) h (ground arith) in
    record {
      next = ground (arith, k.next);
      prev = ground (arith, k.prev);
      class = ground (arith, k.class);
    }

-- The class number k of those the loop makes.
record Made (s t : Cf) (i sc : ℕ) : Type 0 where
  class : t.size_class sc ≡ fresh_class s i
  next : (o : ℕ) → o < 32 → o % 8 ≡ 0 → t.links.next (sc + o) ≡ sc + o
  prev : (o : ℕ) → o < 32 → o % 8 ≡ 0 → t.links.prev (sc + o) ≡ sc + o

init_classes-Made :
    (n i sc : ℕ) (s : Cf) (k : ℕ) → k < n → Made s (init_classes n i sc s) (i + k) (sc + 128 * k)
unfolding init_classes init_class init_list_head
init_classes-Made zero i sc s k h = elim h [ ]
init_classes-Made (suc n) i sc s zero h =
    let t = init_class s i sc in
    let k = λ (o : ℕ). init_classes-Kept n (i + 1) (sc + 128) t (sc + o) in
    let z : sc + 0 ≡ sc = omega arith in
    let z' : i + 0 ≡ i = omega arith in
    let same : t.size_class sc ≡ fresh_class s i = update_self s.size_class sc (fresh_class s i) in
    rw (z, z')
      (record {
        class = (init_classes-Kept n (i + 1) (sc + 128) t sc (inl (omega arith))).class ∙ same;
        next = λ o l e. (k o (inl (omega arith))).next ∙ ground (arith, l, e);
        prev = λ o l e. (k o (inl (omega arith))).prev ∙ ground (arith, l, e);
      })
init_classes-Made (suc n) i sc s (suc k) h =
    let m = init_classes-Made n (i + 1) (sc + 128) (init_class s i sc) k (omega arith) in
    let e : i + suc k ≡ i + 1 + k = omega arith in
    let e' : sc + 128 * suc k ≡ sc + 128 + 128 * k = omega arith in
    rw (e, e') (record { class = m.class; next = m.next; prev = m.prev })

-- The addresses of the 51 size-classes at `base`.
abbrev pub classes_at : ℕ → ℕ → Bool
classes_at base c = leb base c && (ltb c (base + 128 * sizeclasses) && ((c - base) % 128 == 0))

pub number_of :
    (base c : ℕ) → classes_at base c ≡ true → (k : ℕ) × (k < sizeclasses) × (c ≡ base + 128 * k)
number_of base c here =
    let low : base ≤ c = ground arith in
    let high : c < base + 128 * sizeclasses = ground arith in
    let even : (c - base) % 128 ≡ 0 = ground arith in ((c - base) / 128, omega arith, omega arith)

fresh-Counts :
    (s : Cf) (k : ℕ) (c : SizeClass) (sc : ℕ) → c ≡ fresh_class s k → Counts c sc (λ h. [])
fresh-Counts s k c sc e = record {
  nfull = ap (λ (d : SizeClass). d.nfullentries) e;
  source = ap (λ (d : SizeClass). d.sourceentries) e;
  total = ap (λ (d : SizeClass). d.nr_pages) e;
}

-- Size-classes made at an address, whichever it is, have empty rings and counters of 0, each with the block size
-- of its number and the bound that cf_init set.
pub init_size_class_instance-IsFiled :
    (s : Cf) (base : ℕ)
    → let t = init_size_class_instance s base in
      IsFiled t.links t.size_class (classes_at base) (λ h. [])
      × ((k : ℕ) → k < sizeclasses → t.size_class (base + 128 * k) ≡ fresh_class s k)
unfolding init_size_class_instance
init_size_class_instance-IsFiled s base =
    let t = init_size_class_instance s base in
    let made = init_classes-Made sizeclasses 0 base s in
    (
      record {
        offset = base % 128;
        aligned = λ c here. let (k, small, at) = number_of base c here in omega (arith, at);
        shelf = record {
          rings = λ h here.
              let (sc, o, class, low, even, inside) = head_parts (classes_at base) h here in
              let (k, small, at) = number_of base sc class in
              let m = made k small in
              let where_it_is : base + 128 * k + o ≡ h = omega (arith, at, inside) in
              record {
                chain =
                    (rw where_it_is at (m.next o low even), rw where_it_is at (m.prev o low even));
                apart = refl;
                distinct = tt;
              };
          apart = λ h h' c i j ne k. ground arith;
        };
        counts = λ c here.
            let (k, small, at) = number_of base c here in
            let fresh : t.size_class c ≡ fresh_class s (0 + k) =
              ap t.size_class at ∙ (made k small).class in
            fresh-Counts s (0 + k) (t.size_class c) c fresh;
      },
      λ k small. let z : 0 + k ≡ k = omega arith in rw z at ((made k small).class),
    )

init_classes-rest :
    (n i sc : ℕ) (s : Cf)
    → let t = init_classes n i sc s in
      (t.globals ≡ s.globals) × (t.page ≡ s.page) × (t.thread ≡ s.thread)
unfolding init_classes init_class
init_classes-rest zero i sc s = (refl, refl, refl)
init_classes-rest (suc n) i sc s = init_classes-rest n (i + 1) (sc + 128) (init_class s i sc)

pub init_size_class_instance-rest :
    (s : Cf) (base : ℕ)
    → let t = init_size_class_instance s base in
      (t.globals ≡ s.globals) × (t.page ≡ s.page) × (t.thread ≡ s.thread)
unfolding init_size_class_instance
init_size_class_instance-rest s base = init_classes-rest sizeclasses 0 base s
