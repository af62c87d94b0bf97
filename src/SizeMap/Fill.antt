-- ===== src/SizeMap/Fill.antt =====
-- The loops that fill the maps keep each class's blocks large enough for the sizes mapped to it.
use native.Mathlib.Decide.{dec_lt}
use compact_fit.Base.{
  ℕ, zero, suc, ◌+◌, ◌-◌, ◌*◌, ◌/◌, ◌%◌, ◌<◌, ◌≤◌, ◌≡◌, refl, ◌&&◌, ◌⊎◌, arith, ltb, leb,
  if◌then◌else◌, update, true, Bool-cases, inl, inr,
}
use compact_fit.Page.{pagedatasize}
use compact_fit.SizeMap.{
  Mapping, fill, next_base, grow, loop, first, finish, is_last, init_size_classes_mapping,
  largestsc,
}

test_class : init_size_classes_mapping.class ≡ 49
unfolding init_size_classes_mapping
test_class = refl

test_base : init_size_classes_mapping.base ≡ 7492
unfolding init_size_classes_mapping
test_base = refl

pub fill_lem :
    (n i c : ℕ) (m : ℕ → ℕ) (k : ℕ) → fill n i c m k ≡ (if leb i k && ltb k (i + n) then c else m k)
unfolding fill
fill_lem zero i c m k = ground arith
fill_lem (suc n) i c m k = ground (arith, fill_lem n (i + 1) c (update m i c) k)

next_base_bounds :
    (b i : ℕ)
    → 4 * i ≡ b
    → 16 ≤ b
    → b < 8000
    → (b < next_base b)
      × (next_base b % 4 ≡ 0)
      × (next_base b ≤ 9004)
      × (next_base b * 8 ≤ b * 9 + 24)
unfolding next_base
next_base_bounds b i e l h = ground arith

-- What the loop keeps: the map is filled up to `i`, each entry below names a class whose blocks
-- hold every size there, and the class before it would not.
pub record IsFilled (s : Mapping) : Type 0 where
  pub edge : 4 * s.i ≡ s.base
  pub least : 16 ≤ s.base
  pub some_class : 1 ≤ s.class
  pub few : s.class ≤ s.i
  pub last : s.size_class_2_size_map (s.class - 1) ≡ s.base
  pub known : (k : ℕ) → k < s.i → s.size_2_size_class_map k < s.class
  pub roomy : (k : ℕ) → k < s.i → 4 * k + 4 ≤ s.size_class_2_size_map (s.size_2_size_class_map k)
  pub tight :
      (k : ℕ)
      → k < s.i
      → (s.size_2_size_class_map k ≡ 0)
        ⊎ (s.size_class_2_size_map (s.size_2_size_class_map k - 1) ≤ 4 * k)

first-IsFilled : IsFilled first
unfolding first fill
first-IsFilled = record {
  edge = refl;
  least = omega arith;
  some_class = omega arith;
  few = omega arith;
  last = refl;
  known = λ k h. ground arith;
  roomy = λ k h. ground arith;
  tight = λ k h. ground arith;
}

grow-IsFilled : (s : Mapping) → s.base < largestsc → IsFilled s → IsFilled (grow s)
unfolding grow
grow-IsFilled s h v =
    let b = next_base_bounds s.base s.i v.edge v.least h in
    let n = (next_base s.base - s.base) / 4 in
    record {
      edge = omega (arith, b, v.edge);
      least = omega (arith, b, v.least);
      some_class = omega (arith, v.edge, v.few);
      few = omega (arith, v.edge, v.few, b);
      last = ground (arith, v.edge, v.few);
      known = λ k h.
          ground
            (arith, fill_lem n s.i s.class s.size_2_size_class_map k, v.known k, v.edge, v.few);
      roomy = λ k h. ground (
        arith,
        fill_lem n s.i s.class s.size_2_size_class_map k,
        v.known k,
        v.roomy k,
        v.edge,
        v.few,
      );
      tight = λ k h. ground (
        arith,
        fill_lem n s.i s.class s.size_2_size_class_map k,
        v.known k,
        v.tight k,
        v.edge,
        v.few,
        v.last,
      );
    }

loop-IsFilled : (fuel : ℕ) (s : Mapping) → IsFilled s → IsFilled (loop fuel s)
unfolding loop
loop-IsFilled zero s v = v
loop-IsFilled (suc fuel) s v = elim (Bool-cases (ltb s.base largestsc)) [
  | inr e ↦ rw (e, loop) v
  | inl e ↦
      let v' = grow-IsFilled s (ground arith) v in
      elim (Bool-cases (is_last (grow s))) [
        | inl f ↦ rw (e, f, loop) v'
        | inr f ↦ rw (e, f, loop) (loop-IsFilled fuel (grow s) v')
      ]
]

pub record IsMapped (s : Mapping) (k : ℕ) : Type 0 where
  pub known : s.size_2_size_class_map k ≤ 49
  pub roomy : 4 * k + 4 ≤ s.size_class_2_size_map (s.size_2_size_class_map k)
  pub tight :
      (s.size_2_size_class_map k ≡ 0)
      ⊎ (s.size_class_2_size_map (s.size_2_size_class_map k - 1) ≤ 4 * k)

kept :
    (m : ℕ → ℕ) (class c : ℕ)
    → c < class
    → update (update m class largestsc) (class + 1) pagedatasize c ≡ m c
kept m class c h = ground arith

finish-IsMapped :
    (s : Mapping)
    → IsFilled s
    → s.class ≡ 49
    → s.i ≡ 1873
    → (k : ℕ) → k < 2000
    → IsMapped (finish s) k
unfolding finish
finish-IsMapped s v c i k h =
    let f = fill_lem (2000 - s.i) s.i s.class s.size_2_size_class_map k in
    record {
      known = ground (arith, f, v.known k);
      roomy = ground (arith, f, v.known k, v.roomy k);
      tight = elim (dec_lt k s.i) [
        | yes l ↦
            let e : fill (2000 - s.i) s.i s.class s.size_2_size_class_map k
                ≡ s.size_2_size_class_map k =
              ground arith in
            rw
              (
                e,
                kept s.size_class_2_size_map s.class (s.size_2_size_class_map k - 1)
                    (omega (arith, v.known k)),
              )
              (v.tight k l)
        | no l ↦
            let e : fill (2000 - s.i) s.i s.class s.size_2_size_class_map k ≡ 49 = ground arith in
            rw e (inr (ground (arith, v.last, v.edge)))
      ];
    }

-- The loop ends with 49 classes, by its test and not for want of fuel.
loop_end :
    (loop largestsc first).class ≡ 49
    × ((loop largestsc first).i ≡ 1873)
    × (is_last (loop largestsc first) ≡ true)
unfolding loop first
loop_end = (refl, refl, refl)

pub init-IsMapped : (k : ℕ) → k < 2000 → IsMapped init_size_classes_mapping k
unfolding init_size_classes_mapping
init-IsMapped =
    finish-IsMapped (loop largestsc first) (loop-IsFilled largestsc first first-IsFilled)
      (loop_end.0) loop_end.1
