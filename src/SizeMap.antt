-- ===== src/SizeMap.antt =====
-- The size-class mapping of cf.c: `init_size_classes_mapping`, `get_page_block_size_of_index` and
-- `get_size_class_index`. The factor 1.125 is 9/8, which a double holds exactly.
pub mod Fill
pub mod Fits
pub mod Sized
use compact_fit.Base.{
  ℕ, zero, suc, ◌+◌, ◌-◌, ◌*◌, ◌/◌, ◌%◌, ◌^◌, Bool, true, false, Option, none, some, ◌==◌, ltb, leb,
  if◌then◌else◌, update,
}
use compact_fit.Page.{pagedatasize}

abbrev pub minpageblocksize : ℕ
minpageblocksize = 16

abbrev pub largestsc : ℕ
largestsc = 8000

abbrev pub sizeclasses : ℕ
sizeclasses = 51

-- The length of `size_2_size_class_map`.
abbrev pub map_length : ℕ
map_length = 2000

abbrev u16 : ℕ → ℕ
u16 n = n % 2 ^ 16

-- The two arrays, with the local variables of the function that fills them.
pub record Mapping : Type 0 where
  pub size_2_size_class_map : ℕ → ℕ
  pub size_class_2_size_map : ℕ → ℕ
  pub i : ℕ
  pub base : ℕ
  pub class : ℕ

-- `for (…; n rounds; i++) map[i] = class;`
pub fill : ℕ → ℕ → ℕ → (ℕ → ℕ) → ℕ → ℕ
fill zero i class m = m
fill (suc n) i class m = fill n (i + 1) class (update m i class)

-- `base * SIZECLASSESFACTOR`, rounded up to a multiple of four.
pub next_base : ℕ → ℕ
next_base tmp =
    let base = u16 (tmp * 9 / 8) in
    let res = base % 4 in if res == 0 then base else u16 (base + (4 - res))

-- One round of the loop over `base`.
pub grow : Mapping → Mapping
unfolding fill next_base
grow s =
    let base = next_base s.base in
    let n = (base - s.base) / 4 in
    record {
      size_2_size_class_map = fill n s.i s.class s.size_2_size_class_map;
      size_class_2_size_map = update s.size_class_2_size_map s.class base;
      i = s.i + n;
      base = base;
      class = u16 (s.class + 1);
    }

-- `base * SIZECLASSESFACTOR >= LARGESTSC`
abbrev pub is_last : Mapping → Bool
is_last s = leb (largestsc * 8) (s.base * 9)

pub loop : ℕ → Mapping → Mapping
unfolding grow
loop zero s = s
loop (suc fuel) s = elim (ltb s.base largestsc) [
  | false ↦ s
  | true ↦ elim (is_last (grow s)) [ true ↦ grow s | false ↦ loop fuel (grow s) ]
]

-- The state before the loop: the first size-class, in arrays of zeros.
pub first : Mapping
unfolding fill
first = record {
  size_2_size_class_map = fill (minpageblocksize / 4) 0 0 (λ _. 0);
  size_class_2_size_map = update (λ _. 0) 0 minpageblocksize;
  i = minpageblocksize / 4;
  base = minpageblocksize;
  class = 1;
}

-- What follows the loop: the rest of the map, and the two largest size-classes.
pub finish : Mapping → Mapping
unfolding fill
finish s = record s {
  size_2_size_class_map = fill (largestsc / 4 - s.i) s.i s.class s.size_2_size_class_map;
  size_class_2_size_map =
      update (update s.size_class_2_size_map s.class largestsc) (s.class + 1) pagedatasize;
}

-- `base` grows in every round, so fewer than `largestsc` rounds are made.
unfoldable pub init_size_classes_mapping : Mapping
unfolding loop first finish
init_size_classes_mapping = finish (loop largestsc first)

pub get_page_block_size_of_index : ℕ → ℕ
get_page_block_size_of_index index = init_size_classes_mapping.size_class_2_size_map index

-- `none` is a read behind the end of `size_2_size_class_map`, which C leaves undefined.
unfoldable pub get_size_class_index : ℕ → Option ℕ
get_size_class_index size =
    if leb size largestsc
    then if ltb (size / 4) map_length
      then some (init_size_classes_mapping.size_2_size_class_map (size / 4))
      else none
    else some (sizeclasses - 1)
