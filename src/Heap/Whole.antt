-- ===== src/Heap/Whole.antt =====
-- The whole state of cf.c between two operations, without increments: the size-classes, the pool of
-- free pages, the pool of free abstract addresses, and each used block with its abstract address.
pub mod Frames
pub mod Stores
pub mod Moves
pub mod Lends
pub mod Compacts
pub mod Vacates
pub mod Origins
pub mod Survives
pub mod Frees
pub mod Holds
pub mod Client
pub mod Picks
pub mod Hands
pub mod Allots
pub mod Gains
pub mod Grants
pub mod Calls
use compact_fit.Base.{ℕ, ◌+◌, ◌-◌, ◌*◌, ◌/◌, ◌%◌, ◌^◌, ◌<◌, ◌≤◌, ◌≡◌, ◌⊎◌, Bool, true, false, List}
use compact_fit.Page.Blocks.{used}
use compact_fit.State.{Cf, Globals, list_of_page}
use compact_fit.FreePages.Pool.{IsPool, IsPageAt}
use compact_fit.AbstractAddress.Pool.{HasAllBuckets, cells_end, buckets_end}
use compact_fit.AbstractAddress.Pool.Takes.{IsAddressPool}
use compact_fit.Classes.Filed.{heads}
use compact_fit.Pool.Tiers.{Tiers, total}
use compact_fit.Heap.{block_at, aa_field}
use compact_fit.Heap.Invariant.{IsHeap, capacity}

abbrev pub pages_end : Globals → ℕ
pages_end g = g.pages + g.nr_pages * 2 ^ 14

-- The pages lie apart from the cells of the abstract addresses and from the buckets.
pub record IsApart (g : Globals) : Type 0 where
  pub cells : (cells_end g ≤ g.pages) ⊎ (pages_end g ≤ g.aa_space)
  pub buckets : (buckets_end g ≤ g.pages) ⊎ (pages_end g ≤ g.aa_buckets)

-- The size of the blocks of a page.
abbrev pub size_of : Cf → ℕ → ℕ
size_of s p = (s.size_class (s.page p).sc).block_size

-- The cell of an abstract address.
abbrev pub cell : Globals → ℕ → ℕ
cell g id = g.aa_space + 4 * id

-- A used block: its last word is an abstract address that is not free, and that leads to it.
pub record IsBlock (s : Cf) (l : Tiers) (p i : ℕ) : Type 0 where
  pub at : IsPageAt s.globals p
  pub room : i < capacity (s.size_class (s.page p).sc)
  pub id : ℕ
  pub numbered : id < s.globals.nr_aas
  pub taken : total l id ≡ 0
  pub names : s.mem (aa_field p i (size_of s p)) ≡ cell s.globals id
  pub points : s.mem (cell s.globals id) ≡ block_at p i (size_of s p)

pub record IsWhole (s : Cf) (classes : ℕ → Bool) (ring : ℕ → List ℕ) (pages l k : Tiers)
    : Type 0 where
  pub heap : IsHeap s classes ring
  pub pool : IsPool s pages
  pub addresses : IsAddressPool s l k
  pub all : HasAllBuckets s.globals l k
  pub apart : IsApart s.globals
  pub words : (sc : ℕ) → classes sc ≡ true → (s.size_class sc).block_size % 4 ≡ 0
  pub off_heads : (x : ℕ) → IsPageAt s.globals x → heads classes (list_of_page x) ≡ false
  pub spare : (x : ℕ) → 0 < total pages x → (s.page x).nr_used_page_blocks ≡ 0
  pub blocks : (p i : ℕ) → i < 1024 → used (s.page p) i ≡ true → IsBlock s l p i

-- An abstract address that the program holds.
pub record IsLive (s : Cf) (a : ℕ) : Type 0 where
  pub page : ℕ
  pub index : ℕ
  pub inside : index < 1024
  pub taken : used (s.page page) index ≡ true
  pub names : s.mem (aa_field page index (size_of s page)) ≡ a

-- The word at offset `4 * i` of the block that an address leads to.
abbrev pub word_of : Cf → ℕ → ℕ → ℕ
word_of s a i = s.mem (s.mem a + 4 * i)
