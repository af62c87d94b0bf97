-- ===== src/Tests/Pages.antt =====
-- Bits, size-classes and the page-blocks of a page at concrete inputs.
use native.Mathlib.Decide.{dec_lt}
use compact_fit.Base.{
  ℕ, ◌+◌, ◌<◌, ◌≤◌, ◌≡◌, ◌⊎◌, ◌↔◌, arith, true, false, some, ◌-◌, ◌==◌, if◌then◌else◌,
}
use compact_fit.Bits.{bit, bit-zero}
use compact_fit.Arch.{ffs}
use compact_fit.Arch.Scan.{ffs-least}
use compact_fit.Page.{
  Page, Bitmap, u32, get_free_page_block, free_used_page_block, find_used_page_block,
}
use compact_fit.Page.Marks.{IsBitmap}
use compact_fit.Page.Blocks.{used, get_free-lowest, find_used-lowest, free_used-clears}
use compact_fit.Page.Census.{count, some_taken, Counted, get_free-inside, free_used-get_free}
use compact_fit.SizeMap.{get_size_class_index, get_page_block_size_of_index, sizeclasses}
use compact_fit.SizeMap.Fits.{get_size_class_index-smallest, get_size_class_index-too_small}

ffs-least_example : (bit 40 (ffs 40) ≡ true) × ((j : ℕ) → j < ffs 40 → bit 40 j ≡ false)
ffs-least_example = ffs-least 40 (omega arith) (λ e. omega (arith, e))

abbrev no_marks : Bitmap
no_marks = λ w. 0

no_marks-IsBitmap : IsBitmap no_marks
no_marks-IsBitmap = record {
  small = λ w. omega arith;
  some_used = λ i h. bit-zero i;
  all_used = λ i h. bit-zero i;
}

abbrev pub empty_page : Page
empty_page = record {
  nr_used_page_blocks = 0;
  list_flags = 0;
  sourceentries = 0;
  sc = 0;
  used_page_block_bitmap = no_marks;
}

pub none_used : (k : ℕ) → used empty_page k ≡ false
none_used k = bit-zero _

pub empty_page-Counted : Counted 0 empty_page
empty_page-Counted = record {
  bitmap = no_marks-IsBitmap;
  census = elim (dec_lt 0 (count 1024 (used empty_page))) [
    | yes h ↦ let (k, small, taken) = some_taken 1024 (used empty_page) h in cc (taken, none_used k)
    | no h ↦ omega (arith, h)
  ];
}

-- The empty page once a block has been taken from it, and the index of the block.
abbrev pub one_used : Page
one_used = (get_free_page_block empty_page).0

abbrev pub taken_index : ℕ
taken_index = (get_free_page_block empty_page).1

get_free-inside_example :
    (taken_index < 10)
    × (used empty_page taken_index ≡ false)
    × (used one_used taken_index ≡ true)
    × Counted 0 one_used
get_free-inside_example =
    get_free-inside empty_page empty_page-Counted 10 (omega arith) (omega arith)

get_free-lowest_example :
    (used empty_page taken_index ≡ false)
    × ((j : ℕ) → j < taken_index → used empty_page j ≡ true)
    × ((j : ℕ) → used one_used j ≡ (if taken_index == j then true else used empty_page j))
    × (one_used.nr_used_page_blocks ≡ u32 (0 + 1))
    × IsBitmap one_used.used_page_block_bitmap
get_free-lowest_example = get_free-lowest empty_page no_marks-IsBitmap 7 (omega arith) (none_used 7)

abbrev pub one_used-Counted : Counted 0 one_used
one_used-Counted = (get_free-inside empty_page empty_page-Counted 10 (omega arith) (omega arith)).3

pub index_small : taken_index < 1024
index_small =
    let h = (get_free-inside empty_page empty_page-Counted 10 (omega arith) (omega arith)).0 in
    omega (arith, h)

pub index-used : used one_used taken_index ≡ true
index-used = (get_free-inside empty_page empty_page-Counted 10 (omega arith) (omega arith)).2

-- No other block of the page is in use.
pub index-only : (j : ℕ) → used one_used j ≡ true → j ≡ taken_index
index-only j taken =
    let marks = (get_free-lowest empty_page no_marks-IsBitmap 7 (omega arith) (none_used 7)).2 j in
    let free = none_used j in ground (arith, marks, free, taken)

pub index_below : taken_index < 10
index_below = (get_free-inside empty_page empty_page-Counted 10 (omega arith) (omega arith)).0

pub one_counted : one_used.nr_used_page_blocks ≡ 1
one_counted = (get_free-lowest empty_page no_marks-IsBitmap 7 (omega arith) (none_used 7)).3

find_used-lowest_example :
    (find_used_page_block one_used < 1024)
    × (used one_used (find_used_page_block one_used) ≡ true)
    × ((j : ℕ) → j < find_used_page_block one_used → used one_used j ≡ false)
find_used-lowest_example =
    find_used-lowest one_used one_used-Counted.bitmap taken_index index_small index-used

free_used-clears_example :
    ((j : ℕ)
      → used (free_used_page_block one_used taken_index) j
        ≡ (if taken_index == j then false else used one_used j))
    × ((free_used_page_block one_used taken_index).nr_used_page_blocks + 1
        ≡ one_used.nr_used_page_blocks)
    × IsBitmap (free_used_page_block one_used taken_index).used_page_block_bitmap
free_used-clears_example =
    free_used-clears one_used one_used-Counted.bitmap taken_index index_small
      (omega (arith, one_counted)) (omega (arith, one_counted))

free_used-get_free_example :
    ((j : ℕ) → used (free_used_page_block one_used taken_index) j ≡ used empty_page j)
    × ((free_used_page_block one_used taken_index).nr_used_page_blocks ≡ 0)
free_used-get_free_example =
    free_used-get_free empty_page no_marks-IsBitmap 7 (omega arith) (none_used 7) (omega arith)

get_size_class_index-smallest_example :
    (c : ℕ) × (get_size_class_index 100 ≡ some c)
    × (c < sizeclasses)
    × (100 ≤ get_page_block_size_of_index c)
    × ((c ≡ 0) ⊎ (get_page_block_size_of_index (c - 1) ≤ 100))
get_size_class_index-smallest_example =
    get_size_class_index-smallest 100 (omega arith) (λ e. omega (arith, e))

get_size_class_index-too_small_example :
    (c : ℕ) × (get_size_class_index 16201 ≡ some c)
    × ((get_page_block_size_of_index c < 16201) ↔ (16200 < 16201))
get_size_class_index-too_small_example = get_size_class_index-too_small 16201 (omega arith)
