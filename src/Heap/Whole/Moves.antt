-- ===== src/Heap/Whole/Moves.antt =====
-- A free of cf.c vacates one block: the freed one, or the block that was moved into its place.
use compact_fit.Base.{
  ℕ, ◌+◌, ◌*◌, ◌/◌, ◌^◌, ◌<◌, ◌≡◌, ◌≢◌, ◌⊎◌, inl, refl, ap, ◌∙◌, true, false, ◌==◌, if◌then◌else◌,
}
use compact_fit.Page.{Page, free_used_page_block}
use compact_fit.Page.Blocks.{used, free_used-clears}
use compact_fit.Page.Census.{free_used-rest}
use compact_fit.State.{Cf}
use compact_fit.State.Places.{aa_places, bucket_places}
use compact_fit.FreePages.Pool.{IsPool}
use compact_fit.FreePages.Pool.Rooms.{page_at}
use compact_fit.Pool.Lists.{tick}
use compact_fit.Pool.Tiers.{Tiers, total}
use compact_fit.Classes.Stores.{IsStored}
use compact_fit.Classes.Touched.{IsTouched}
use compact_fit.Heap.{block_at, aa_field}
use compact_fit.Heap.Compaction.Move.{Outside}
use compact_fit.Heap.Invariant.{IsSettled}
use compact_fit.Heap.Whole.{size_of}

-- The block at `place` and `index` was moved into the block `i` of the page at `p`.
pub record IsCarried (s : Cf) (p i place index : ℕ) (stock : Tiers) (t : Cf) : Type 0 where
  pub inside : index < 1024
  pub taken : used (s.page place) index ≡ true
  pub far : (place == p) ≡ false
  pub same_class : (s.page place).sc ≡ (s.page p).sc
  pub block :
      (n : ℕ)
      → n < size_of s p / 4
      → t.mem (block_at p i (size_of s p) + 4 * n)
        ≡ s.mem (block_at place index (size_of s p) + 4 * n)
  pub address :
      t.mem (s.mem (aa_field place index (size_of s p)))
      ≡ s.mem (s.mem (aa_field p i (size_of s p)))
  pub rest :
      (a : ℕ)
      → total stock (page_at a) ≡ 0
      → Outside a (block_at p i (size_of s p)) (size_of s p)
      → a ≢ s.mem (aa_field place index (size_of s p))
      → t.mem a ≡ s.mem a

-- The freed block itself is vacated, and nothing moved.
pub record IsInPlace (s : Cf) (p i place index : ℕ) (stock : Tiers) (t : Cf) : Type 0 where
  pub same_page : place ≡ p
  pub same_index : index ≡ i
  pub rest : (a : ℕ) → total stock (page_at a) ≡ 0 → t.mem a ≡ s.mem a

pub record IsVacated (s : Cf) (pages : Tiers) (p i : ℕ) (t : Cf) : Type 0 where
  pub place : ℕ
  pub index : ℕ
  pub stock : Tiers
  pub pool : IsPool t stock
  pub same_globals : t.globals ≡ s.globals
  pub same_aas : aa_places t ≡ aa_places s
  pub same_buckets : bucket_places t ≡ bucket_places s
  pub only :
      ((c : ℕ) → total stock c ≡ total pages c)
      ⊎ (((t.page place).nr_used_page_blocks ≡ 0)
          × ((c : ℕ) → total stock c ≡ tick c place + total pages c))
  pub sizes : (sc : ℕ) → (t.size_class sc).block_size ≡ (s.size_class sc).block_size
  pub others : (q : ℕ) → (place == q) ≡ false → t.page q ≡ s.page q
  pub class : (t.page place).sc ≡ (s.page place).sc
  pub left : (j : ℕ) → used (t.page place) j ≡ (if index == j then false else used (s.page place) j)
  pub words : IsInPlace s p i place index stock t ⊎ IsCarried s p i place index stock t

-- A free that moves no block.
pub stored-IsVacated :
    (s : Cf) (pages : Tiers) (p i : ℕ) (t : Cf)
    → IsSettled (s.page p)
    → i < 1024
    → 0 < (s.page p).nr_used_page_blocks
    → (s.page p).nr_used_page_blocks < 2 ^ 32
    → IsStored s pages p t × IsTouched s p (free_used_page_block (s.page p) i) t
    → IsVacated s pages p i t
stored-IsVacated s pages p i t settled small positive fits (stored, only) =
    let (marks, n, bitmap) =
      free_used-clears (s.page p) settled.counted.bitmap i small positive fits in
    let (class, pending) = free_used-rest (s.page p) i in
    record {
      place = p;
      index = i;
      stock = stored.stock;
      pool = stored.pool;
      same_globals = stored.same_globals;
      same_aas = stored.same_aas;
      same_buckets = stored.same_buckets;
      only = stored.only;
      sizes = only.block_size;
      others = only.others;
      class = ap (λ (q : Page). q.sc) only.content ∙ class;
      left = λ j. ap (λ (q : Page). used q j) only.content ∙ marks j;
      words = inl (record { same_page = refl; same_index = refl; rest = stored.kept });
    }
