-- ===== src/Heap/Whole/Grants.antt =====
-- What a program that holds abstract addresses sees of cf_malloc of cf.c.
use compact_fit.Base.{
  ℕ, ◌+◌, ◌*◌, ◌/◌, ◌<◌, ◌≡◌, ◌≢◌, ◌⊎◌, inl, inr, refl, sym, ap, ◌∙◌, arith, Bool, true, false,
  ◌&&◌, ◌==◌, List, some,
}
use mathlib.Core.Path.{subst}
use compact_fit.Page.{Page, pagedatasize, get_free_page_block}
use compact_fit.Page.Blocks.{used}
use compact_fit.State.{Cf, head_nfull_pages, Globals, SizeClass}
use compact_fit.ListHead.{list_empty}
use compact_fit.State.Kept.{IsKept}
use compact_fit.FreePages.Pool.{IsPool}
use compact_fit.AbstractAddress.{get_free_aa, no_aa}
use compact_fit.AbstractAddress.Pool.Takes.{IsAddressPool, get_free_aa-IsDrawing}
use compact_fit.Pool.Tiers.{Tiers, total}
use compact_fit.Classes.{get_size_class}
use compact_fit.Heap.{block_at, aa_field}
use compact_fit.Heap.Malloc.{cf_malloc, gross_size, malloc_page, malloc_in, malloc_block}
use compact_fit.Heap.Malloc.Keeps.{malloc_in-IsHeap, cf_malloc-class}
use compact_fit.Heap.Invariant.{IsHeap}
use compact_fit.Heap.Whole.{IsWhole, IsBlock, IsLive, size_of, cell}
use compact_fit.Heap.Whole.Frames.{kept-IsAddressPool, outside-Untouched}
use compact_fit.Heap.Whole.Frees.{IsSameBlock}
use compact_fit.Heap.Whole.Client.{Intact, free_not-IsLive}
use compact_fit.Heap.Whole.Picks.{IsUnpicked, malloc_page-IsPicked, next-HasSpare}
use compact_fit.Heap.Whole.Allots.{IsAllotted, malloc_block-IsAllotted}
use compact_fit.Heap.Whole.Gains.{after-IsWhole, new-IsLive, old-IsSameBlock}

-- A block of `size` bytes under an address that nothing had, and every other address as it was.
pub record IsGranted (classes : ℕ → Bool) (s : Cf) (size : ℕ) (t : Cf) (a : ℕ) : Type 0 where
  pub intact : Intact classes t
  pub live : IsLive t a
  pub fresh : ¬ IsLive s a
  pub as_large : size_of t live.page ≡ size
  pub others : (b : ℕ) (held : IsLive s b) → IsSameBlock s b held t

-- No address, for want of a free page; every address as it was.
pub record IsDenied (classes : ℕ → Bool) (s t : Cf) (a : ℕ) : Type 0 where
  pub no_address : a ≡ 0
  pub pages : Tiers
  pub pool : IsPool s pages
  pub no_page : (c : ℕ) → total pages c ≡ 0
  pub intact : Intact classes t
  pub others : (b : ℕ) (held : IsLive s b) → IsSameBlock s b held t

abbrev pub IsServed : (ℕ → Bool) → Cf → ℕ → Cf × ℕ → Type 0
IsServed classes s size (t, a) = IsDenied classes s t a ⊎ IsGranted classes s size t a

size_kept : (s t : Cf) → IsKept s s.page t → (q : ℕ) → size_of t q ≡ size_of s q
size_kept s t kept q =
    ap (λ (f : ℕ → Page). (t.size_class (f q).sc).block_size) kept.same_pages
    ∙ ap (λ (f : ℕ → SizeClass). (f (s.page q).sc).block_size) kept.same_classes

kept-IsBlock :
    (s t : Cf) (l : Tiers)
    → IsKept s s.page t
    → t.mem ≡ s.mem
    → (q j : ℕ) → IsBlock s l q j
    → IsBlock t l q j
kept-IsBlock s t l kept mem q j b =
    let g = kept.same_globals in
    let size = size_kept s t kept q in
    let word = λ (x : ℕ). ap (λ (m : ℕ → ℕ). m x) mem in
    record {
      at = rw g b.at;
      room = subst (λ n. j < pagedatasize / n) (sym size) b.room;
      id = b.id;
      numbered = rw g b.numbered;
      taken = b.taken;
      names =
          ap (λ n. t.mem (aa_field q j n)) size
          ∙ word (aa_field q j (size_of s q))
          ∙ b.names
          ∙ ap (λ (h : Globals). cell h b.id) (sym g);
      points =
          word (cell t.globals b.id)
          ∙ ap (λ (h : Globals). s.mem (cell h b.id)) g
          ∙ b.points
          ∙ ap (block_at q j) (sym size);
    }

malloc_in-none :
    (s : Cf) (sc : ℕ)
    → (list_empty s.links (head_nfull_pages sc) && (malloc_page s sc).1 == 0) ≡ true
    → malloc_in s sc ≡ ((malloc_page s sc).0, 0)
unfolding malloc_in
malloc_in-none s sc e = rw e refl

malloc_in-block :
    (s : Cf) (sc : ℕ)
    → ((malloc_page s sc).1 == 0) ≡ false
    → malloc_in s sc
      ≡ malloc_block (malloc_page s sc).0 sc (malloc_page s sc).1 (s.size_class sc).block_size
unfolding malloc_in
malloc_in-block s sc some_page =
    let e : (list_empty s.links (head_nfull_pages sc) && (malloc_page s sc).1 == 0) ≡ false =
      ground (arith, some_page) in
    rw e refl

module _ (s : Cf) (classes : ℕ → Bool) (ring : ℕ → List ℕ) (pages l k : Tiers)
    (whole : IsWhole s classes ring pages l k) (sc : ℕ) (here : classes sc ≡ true) where
  unpicked-IsDenied :
      (t : Cf) (p : ℕ) (ring' : ℕ → List ℕ)
      → IsUnpicked s classes ring pages l k whole sc here t p
      → IsHeap t classes ring'
      → IsDenied classes s t 0
  unpicked-IsDenied t p ring' none heap' =
      let g = none.kept.same_globals in
      let same_page = λ (q : ℕ). ap (λ (f : ℕ → Page). f q) none.kept.same_pages in
      let size = λ (q : ℕ). size_kept s t none.kept q in
      let word = λ (x : ℕ). ap (λ (m : ℕ → ℕ). m x) none.same_mem in
      let addresses =
        kept-IsAddressPool s t l k whole.addresses g none.same_aas none.same_buckets
          (outside-Untouched s t.mem l k whole.addresses whole.apart (λ a far. word a)) in
      record {
        no_address = refl;
        pages = pages;
        pool = whole.pool;
        no_page = none.empty;
        intact = (
          ring',
          pages,
          l,
          k,
          record {
            heap = heap';
            pool = none.pool;
            addresses = addresses;
            all = rw g whole.all;
            apart = rw g whole.apart;
            words = rw (none.kept.same_classes) whole.words;
            off_heads = rw g whole.off_heads;
            spare = rw (none.kept.same_pages) whole.spare;
            blocks = λ q j small taken. kept-IsBlock s t l none.kept none.same_mem q j (
                whole.blocks q j small (subst (λ (r : Page). used r j ≡ true) (same_page q) taken));
          },
        );
        others = λ b held.
            let q = held.page in
            record {
              after = record {
                page = q;
                index = held.index;
                inside = held.inside;
                taken = ap (λ (r : Page). used r held.index) (same_page q) ∙ held.taken;
                names =
                    ap (λ n. t.mem (aa_field q held.index n)) (size q)
                    ∙ word (aa_field q held.index (size_of s q))
                    ∙ held.names;
              };
              same_size = size q;
              words = λ n less. ap (λ x. t.mem (x + 4 * n)) (word b) ∙ word (s.mem b + 4 * n);
            };
      }

  allotted-IsGranted :
      (p i : ℕ) (w : Cf) (a : ℕ)
      → IsAllotted s pages l k sc p i w a
      → (ring' : ℕ → List ℕ) → IsHeap w classes ring'
      → IsGranted classes s (s.size_class sc).block_size w a
  allotted-IsGranted p i w a new ring' heap' =
      let after = after-IsWhole s classes ring pages l k whole sc here p i w a new ring' heap' in
      let (live, size) = new-IsLive s classes ring pages l k whole sc here p i w a new in
      record {
        intact = (ring', new.stock, new.left, new.free, after);
        live = live;
        fresh =
            subst (λ b. ¬ IsLive s b) (sym new.named)
              (free_not-IsLive s classes ring pages l k new.id whole new.was_free);
        as_large = size;
        others = old-IsSameBlock s classes ring pages l k whole sc here p i w a new;
      }

  -- cf_malloc in a size-class, while an address is free.
  malloc_in-IsServed :
      (some_id : ℕ)
      → 0 < total l some_id
      → IsServed classes s (s.size_class sc).block_size (malloc_in s sc)
  malloc_in-IsServed some_id some_free =
      let (ring', heap') =
        malloc_in-IsHeap s classes ring whole.heap sc here
          (next-HasSpare s classes ring pages l k whole sc here) in
      let (t, p) = malloc_page s sc in
      let size = (s.size_class sc).block_size in
      elim (malloc_page-IsPicked s classes ring pages l k whole sc here) [
        | inl none ↦
            let nothing = malloc_in-none s sc none.none_there in
            subst (IsServed classes s size) (sym nothing) (
              inl (
                unpicked-IsDenied t p ring' none
                  (subst (λ (r : Cf × ℕ). IsHeap r.0 classes ring') nothing heap')))
        | inr (some_page, picked) ↦
            let block = malloc_in-block s sc some_page in
            let new =
              malloc_block-IsAllotted s classes ring pages l k whole sc here p t picked some_id
                some_free in
            subst (IsServed classes s size) (sym block) (
              inr (
                allotted-IsGranted p (get_free_page_block (t.page p)).1 (malloc_block t sc p size).0
                  (malloc_block t sc p size).1 new ring'
                  (subst (λ (r : Cf × ℕ). IsHeap r.0 classes ring') block heap')))
      ]

-- An address that get_free_aa finds is in the pool.
found_free :
    (s : Cf) (l k : Tiers)
    → IsAddressPool s l k
    → (get_free_aa s).1 ≢ no_aa
    → 0 < total l (get_free_aa s).1
found_free s l k pool found = elim (get_free_aa-IsDrawing s l k pool) [
  | inl dry ↦ absurd (found dry.none_left)
  | inr drawn ↦ let fewer = drawn.fewer (get_free_aa s).1 in ground (arith, fewer)
]

-- On an intact heap, without increments, cf_malloc of a size with a class succeeds, while get_free_aa
-- would find an address. It leaves an intact heap, in which every address that was held is held, of a
-- block of the same size with the same words; and it gives an address that was not held, of a block
-- of the class's size, or null, and then the pool of free pages is empty.
pub cf_malloc-IsServed :
    (s : Cf) (classes : ℕ → Bool) (size sc : ℕ)
    → Intact classes s
    → get_size_class s (gross_size s size) ≡ some sc
    → classes sc ≡ true
    → (get_free_aa s).1 ≢ no_aa
    → (r : Cf × ℕ) × (cf_malloc s size ≡ some r) × IsServed classes s (s.size_class sc).block_size r
cf_malloc-IsServed s classes size sc (ring, pages, l, k, whole) class here found = (
  malloc_in s sc,
  cf_malloc-class s size sc class,
  malloc_in-IsServed s classes ring pages l k whole sc here (get_free_aa s).1
      (found_free s l k whole.addresses found),
)
