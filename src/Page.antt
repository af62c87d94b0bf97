-- ===== src/Page.antt =====
-- struct page of cf.c without its memory, and the page-block bitmap: word 0 marks the words with a
-- used block, word 1 the words with no free block, and word i + 2 has a bit for each block.
pub mod Words
pub mod Marks
pub mod Blocks
pub mod Census
use compact_fit.Base.{
  ℕ, ◌+◌, ◌-◌, ◌*◌, ◌/◌, ◌%◌, ◌^◌, bit_and, bit_or, bit_xor, Bool, ◌==◌, if◌then◌else◌, update,
}
use compact_fit.Arch.{ffs}

-- An `unsigned` or an `int`, as its 32-bit pattern.
abbrev pub u32 : ℕ → ℕ
u32 n = n % 2 ^ 32

abbrev pub pagesize : ℕ
pagesize = 16384

abbrev pub pageheader : ℕ
pageheader = 184

abbrev pub pagedatasize : ℕ
pagedatasize = pagesize - pageheader

abbrev pub Bitmap : Type 0
Bitmap = ℕ → ℕ

pub record Page : Type 0 where
  pub nr_used_page_blocks : ℕ
  pub list_flags : ℕ
  pub sourceentries : ℕ
  pub sc : ℕ
  pub used_page_block_bitmap : Bitmap

unfoldable pub is_page_full : Page → ℕ → Bool
is_page_full p page_block_size = p.nr_used_page_blocks == pagedatasize / page_block_size

-- `1 << k`: the instruction takes the count modulo 32.
abbrev pub shl_one : ℕ → ℕ
shl_one k = 2 ^ (k % 32)

abbrev pub all_ones : ℕ
all_ones = 0xffff_ffff

unfoldable pub find_used_page_block : Page → ℕ
find_used_page_block p =
    let mem = p.used_page_block_bitmap in
    let bitmap_index = ffs (mem 0) in
    let bitmap_2D_index = ffs (mem (u32 (bitmap_index + 2))) in
    u32 (bitmap_index * 32 + bitmap_2D_index)

pub clear_bit : Bitmap → ℕ → ℕ → Bitmap
clear_bit mem bitmap_index bitmap_2D_index =
    let word = u32 (bitmap_index + 2) in
    let m = update mem word (bit_and (mem word) (bit_xor (shl_one bitmap_2D_index) all_ones)) in
    let keep = bit_xor (shl_one bitmap_index) all_ones in
    let m' = if m word == 0 then update m 0 (bit_and (m 0) keep) else m in
    update m' 1 (bit_and (m' 1) keep)

pub set_bit : Bitmap → ℕ → ℕ → Bitmap
set_bit mem bitmap_index bitmap_2D_index =
    let word = u32 (bitmap_index + 2) in
    let m = update mem 0 (bit_or (mem 0) (shl_one bitmap_index)) in
    let m' = update m word (bit_or (m word) (shl_one bitmap_2D_index)) in
    if m' word == all_ones then update m' 1 (bit_or (m' 1) (shl_one bitmap_index)) else m'

unfoldable pub page_clear_used_bit : Page → ℕ → Page
page_clear_used_bit p index = record p {
  used_page_block_bitmap = clear_bit p.used_page_block_bitmap (index / 32) (index % 32);
}

unfoldable pub free_used_page_block : Page → ℕ → Page
free_used_page_block p index =
    let q = page_clear_used_bit p index in
    record q { nr_used_page_blocks = u32 (q.nr_used_page_blocks + 2 ^ 32 - 1) }

-- The page after the call, and the index returned.
unfoldable pub get_free_page_block : Page → Page × ℕ
get_free_page_block p =
    let mem = p.used_page_block_bitmap in
    let bitmap_index = ffs (bit_xor (mem 1) all_ones) in
    let bitmap_2D_index = ffs (bit_xor (mem (u32 (bitmap_index + 2))) all_ones) in
    (
      record p {
        nr_used_page_blocks = u32 (p.nr_used_page_blocks + 1);
        used_page_block_bitmap = set_bit mem bitmap_index bitmap_2D_index;
      },
      u32 (bitmap_index * 32 + bitmap_2D_index),
    )
