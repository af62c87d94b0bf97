-- ===== src/Heap/Whole/Lends.antt =====
-- Where the blocks of a compaction of cf.c lie, and the page that lends one.
use compact_fit.Base.{
  ℕ, ◌+◌, ◌*◌, ◌%◌, ◌^◌, ◌<◌, ◌≤◌, ◌≡◌, ◌⊎◌, inl, inr, refl, arith, leb, false, ◌==◌, Bool-cases,
}
use compact_fit.Page.{Page, find_used_page_block, free_used_page_block, pagedatasize}
use compact_fit.Page.Blocks.{used}
use compact_fit.State.{Globals}
use compact_fit.FreePages.Pool.{IsPageAt}
use compact_fit.Heap.{block_at}
use compact_fit.Heap.Compaction.Move.{Outside, lent_page}
use compact_fit.Heap.Whole.{IsApart, cell}
use compact_fit.Heap.Whole.Frames.{cell_outside}

-- Two blocks of different pages do not overlap.
pub pages_apart :
    (g : Globals) (p i p' i' size : ℕ)
    → IsPageAt g p
    → IsPageAt g p'
    → (p == p') ≡ false
    → i * size + size ≤ pagedatasize
    → i' * size + size ≤ pagedatasize
    → (block_at p i size + size ≤ block_at p' i' size)
      ⊎ (block_at p' i' size + size ≤ block_at p i size)
pages_apart g p i p' i' size at at' ne fits fits' =
    let a = at.aligned in
    let a' = at'.aligned in
    elim (Bool-cases (leb p p')) [
      | inl e ↦ inl (ground (arith, a, a', e, ne, fits, fits'))
      | inr e ↦ inr (ground (arith, a, a', e, ne, fits, fits'))
    ]

-- A cell is in no block.
pub cell_off_block :
    (g : Globals) (id p i size : ℕ)
    → IsApart g
    → id < g.nr_aas
    → IsPageAt g p
    → g.pages % 2 ^ 14 ≡ 0
    → i * size + size ≤ pagedatasize
    → Outside (cell g id) (block_at p i size) size
cell_off_block g id p i size apart small at aligned fits = elim (cell_outside g id apart small) [
  | inl low ↦ inl (omega (arith, low, at.low))
  | inr high ↦ inr (omega (arith, high, at.high, at.aligned, aligned, fits))
]

-- The marks of a page once its lowest used block is taken.
pub lent_page-used :
    (q : Page) (j : ℕ)
    → used (lent_page q) j ≡ used (free_used_page_block q (find_used_page_block q)) j
unfolding free_used_page_block
lent_page-used q j = refl

pub find_used-blind :
    (q : Page) (n flags sources : ℕ)
    → find_used_page_block
        (record q { nr_used_page_blocks = n; list_flags = flags; sourceentries = sources })
      ≡ find_used_page_block q
unfolding find_used_page_block
find_used-blind q n flags sources = refl
