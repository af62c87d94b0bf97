-- ===== src/Heap/Address.antt =====
-- The addresses of page-blocks in cf.c: from a block's address back to its page and its index.
use compact_fit.Base.{ℕ, ◌+◌, ◌-◌, ◌*◌, ◌/◌, ◌%◌, ◌^◌, ◌<◌, ◌≡◌, ◌∙◌, ap, arith}
use compact_fit.Bits.{and-mask, and-high}
use compact_fit.Page.{u32}
use native.Mathlib.Nat.{mul-div_cancel}
use compact_fit.Heap.{get_page_direct_of_page_block, get_index_direct_of_page_block, block_at}

-- The page found for an address is the last page boundary up to it.
pub get_page_direct_of_page_block-floor :
    (a : ℕ) → a < 2 ^ 32 → get_page_direct_of_page_block a ≡ a - a % 2 ^ 14
unfolding get_page_direct_of_page_block
get_page_direct_of_page_block-floor a h =
    rw (and-high 14 a (2 ^ 18 - 1), and-mask 18 (a / 2 ^ 14)) (omega (arith, h))

-- On a page boundary p, a block of positive size that starts less than 2 ^ 14 bytes after p is
-- found back from its address: get_page_direct_of_page_block gives p, and
-- get_index_direct_of_page_block its index.
pub page_and_index-block_at :
    (p index size : ℕ)
    → p % 2 ^ 14 ≡ 0
    → p < 2 ^ 32
    → 0 < size
    → index * size < 2 ^ 14
    → (get_page_direct_of_page_block (block_at p index size) ≡ p)
      × (get_index_direct_of_page_block p (block_at p index size) size ≡ index)
unfolding get_index_direct_of_page_block
page_and_index-block_at p index size aligned small positive inside =
    let a = block_at p index size in
    let fits : a < 2 ^ 32 = omega arith in
    let offset : u32 (a + 2 ^ 32 - p) ≡ index * size = omega arith in
    (
      get_page_direct_of_page_block-floor a fits ∙ omega arith,
      ap (λ (t : ℕ). t / size) offset ∙ mul-div_cancel index positive,
    )
