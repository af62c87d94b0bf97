-- ===== src/Heap/Invariant/Pages.antt =====
-- What freeing a block, or handing one out, makes of a page of a size-class in cf.c.
use compact_fit.Base.{ℕ, ◌+◌, ◌^◌, ◌<◌, ◌≤◌, ◌≡◌, ◌∙◌, arith, true, false}
use compact_fit.Page.{Page, free_used_page_block, get_free_page_block}
use compact_fit.Page.Blocks.{used, free_used-clears, get_free-lowest}
use compact_fit.Page.Census.{free_used-Counted, free_used-rest, get_free-rest, get_free-inside}
use compact_fit.State.{SizeClass}
use compact_fit.Heap.Invariant.{IsSettled, IsConfigured, capacity}

-- Blocks are at least 16 bytes, so a page has few of them, and it has at least one.
pub capacity-bounds : (c : SizeClass) → IsConfigured c → (0 < capacity c) × (capacity c < 1024)
capacity-bounds c set = (grind (arith, set.least, set.most), grind (arith, set.least, set.most))

module _ (q : Page) (settled : IsSettled q) where
  -- A block in use is freed.
  pub freed-IsSettled :
      (index : ℕ)
      → index < 1024
      → used q index ≡ true
      → 0 < q.nr_used_page_blocks
      → q.nr_used_page_blocks < 2 ^ 32
      → let r = free_used_page_block q index in
        IsSettled r × (r.nr_used_page_blocks + 1 ≡ q.nr_used_page_blocks) × (r.sc ≡ q.sc)
  freed-IsSettled index small taken positive fits =
      let (marks, n, bitmap) =
        free_used-clears q settled.counted.bitmap index small positive fits in
      let (class, pending) = free_used-rest q index in
      (
        record {
          counted = free_used-Counted q 0 settled.counted index small taken positive fits;
          pending = pending ∙ settled.pending;
        },
        n,
        class,
      )

  -- A free block is handed out, the lowest one.
  pub handed-IsSettled :
      (room : ℕ)
      → q.nr_used_page_blocks < room
      → room ≤ 1024
      → let (r, index) = get_free_page_block q in
        IsSettled r
        × (r.nr_used_page_blocks ≡ q.nr_used_page_blocks + 1)
        × (r.sc ≡ q.sc)
        × (index < room)
        × (used q index ≡ false)
        × (used r index ≡ true)
  handed-IsSettled room less most =
      let (inside, free, taken, counted) = get_free-inside q settled.counted room less most in
      let (class, pending) = get_free-rest q in
      let (_, _, _, n, _) =
        get_free-lowest q settled.counted.bitmap (get_free_page_block q).1
          (omega (arith, inside, most)) free in
      (
        record { counted = counted; pending = pending ∙ settled.pending },
        omega (arith, n, less, most),
        class,
        inside,
        free,
        taken,
      )
