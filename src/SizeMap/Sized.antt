-- ===== src/SizeMap/Sized.antt =====
-- The block sizes of the size-classes of cf.c fit a page.
use compact_fit.Base.{
  ℕ, zero, suc, ◌<◌, ◌≤◌, ◌≡◌, refl, arith, Bool, true, ◌&&◌, leb, Bool-cases, inl, inr, ◌==◌,
}
use compact_fit.SizeMap.{sizeclasses, get_page_block_size_of_index, init_size_classes_mapping}

-- The first `n` block sizes are between 16 and 16200.
all_fit : ℕ → Bool
all_fit zero = true
all_fit (suc n) =
    all_fit n
    && (leb 16 (get_page_block_size_of_index n) && leb (get_page_block_size_of_index n) 16200)

all_fit-each :
    (n k : ℕ)
    → all_fit n ≡ true
    → k < n
    → (16 ≤ get_page_block_size_of_index k) × (get_page_block_size_of_index k ≤ 16200)
unfolding all_fit
all_fit-each zero k h l = absurd (omega arith)
all_fit-each (suc n) k h l = elim (Bool-cases (k == n)) [
  | inl e ↦ let same : k ≡ n = ground arith in rw same (ground (arith, h))
  | inr e ↦ all_fit-each n k (ground (arith, h)) (ground (arith, e, l))
]

they_fit : all_fit sizeclasses ≡ true
unfolding all_fit get_page_block_size_of_index init_size_classes_mapping
they_fit = refl

-- The block size of each of the 51 size-classes is between 16 and the 16200 bytes of a page's data.
pub get_page_block_size_of_index-bounds :
    (k : ℕ)
    → k < sizeclasses
    → (16 ≤ get_page_block_size_of_index k) × (get_page_block_size_of_index k ≤ 16200)
get_page_block_size_of_index-bounds k small = all_fit-each sizeclasses k they_fit small
