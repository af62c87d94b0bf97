-- ===== src/SizeMap/Fits.antt =====
-- The class of a size holds the size, except at one size and beyond the largest block.
use native.Mathlib.Decide.{dec_lt}
use compact_fit.Base.{
  inl, inr, ℕ, ◌-◌, ◌*◌, ◌/◌, ◌<◌, ◌≤◌, ◌≡◌, ◌≢◌, ◌⊎◌, ◌↔◌, refl, none, some, arith,
}
use compact_fit.SizeMap.{
  get_size_class_index, get_page_block_size_of_index, init_size_classes_mapping, sizeclasses,
}
use compact_fit.SizeMap.Fill.{init-IsMapped}

largest_block : get_page_block_size_of_index 50 ≡ 16200
unfolding get_page_block_size_of_index init_size_classes_mapping
largest_block = refl

class_49 : get_page_block_size_of_index 49 ≡ 8000
unfolding get_page_block_size_of_index init_size_classes_mapping
class_49 = refl

at_most : {A : Type 0} {b : ℕ} (k size : ℕ) → 4 * k ≤ size → A ⊎ (b ≤ 4 * k) → A ⊎ (b ≤ size)
at_most k size h (inl a) = inl a
at_most k size h (inr l) = inr (omega arith)

-- Every size up to the data of a page, but 8000, has one of the 51 size-classes, whose blocks hold
-- it, while the blocks of the class before it, if there is one, are no larger than the size.
pub get_size_class_index-smallest :
    (size : ℕ)
    → size ≤ 16200
    → size ≢ 8000
    → (c : ℕ) × (get_size_class_index size ≡ some c)
      × (c < sizeclasses)
      × (size ≤ get_page_block_size_of_index c)
      × ((c ≡ 0) ⊎ (get_page_block_size_of_index (c - 1) ≤ size))
unfolding get_size_class_index get_page_block_size_of_index
get_size_class_index-smallest size h ne = elim (dec_lt size 8000) [
  | yes l ↦
      let m = init-IsMapped (size / 4) (omega arith) in
      (
        init_size_classes_mapping.size_2_size_class_map (size / 4),
        ground arith,
        omega (arith, m.known),
        omega (arith, m.roomy),
        at_most (size / 4) size (omega arith) m.tight,
      )
  | no l ↦
      (50, ground arith, omega arith, omega (arith, largest_block), inr (omega (arith, class_49)))
]

-- The class is read behind the end of the map at the size `LARGESTSC` and at no other.
pub get_size_class_index-none : (size : ℕ) → (get_size_class_index size ≡ none) ↔ (size ≡ 8000)
unfolding get_size_class_index
get_size_class_index-none size = ground arith

-- Of the sizes beyond `LARGESTSC`, exactly those beyond 16200 get a block that is too small.
pub get_size_class_index-too_small :
    (size : ℕ)
    → 8000 < size
    → (c : ℕ) × (get_size_class_index size ≡ some c)
      × ((get_page_block_size_of_index c < size) ↔ (16200 < size))
unfolding get_size_class_index
get_size_class_index-too_small size h = (50, ground arith, ground (arith, largest_block))
