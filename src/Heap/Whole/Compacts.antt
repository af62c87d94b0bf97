-- ===== src/Heap/Whole/Compacts.antt =====
-- A free of cf.c that moves a block, in the whole state: which block is vacated, and where every word
-- is then.
use compact_fit.Base.{
  ℕ, ◌+◌, ◌-◌, ◌*◌, ◌/◌, ◌%◌, ◌^◌, ◌<◌, ◌≤◌, ◌≡◌, ◌≢◌, ◌⊎◌, inl, inr, refl, sym, ap, ◌∙◌, arith,
  Bool, true, leb, false, ◌==◌, if◌then◌else◌, List, some, Bool-cases,
}
use mathlib.Core.Path.{subst}
use compact_fit.Page.{
  Page, u32, find_used_page_block, free_used_page_block, page_clear_used_bit, pagedatasize,
}
use compact_fit.Page.Blocks.{used, find_used-lowest, free_used-clears}
use compact_fit.Page.Census.{some_taken}
use compact_fit.ListHead.Ring.{has}
use compact_fit.ListHead.Without.{length}
use compact_fit.State.{Cf, Globals, SizeClass, head_nfull_pages, list_of_page, page_of_list}
use compact_fit.FreePages.Pool.{IsPool, IsPageAt}
use compact_fit.FreePages.Pool.Rooms.{page_at}
use compact_fit.Pool.Tiers.{Tiers, total}
use compact_fit.Classes.{get_source_page, do_free_source_state}
use compact_fit.Classes.Filed.{nfull_is_head}
use compact_fit.Classes.Sources.{discounted, get_source_page-IsLent}
use compact_fit.Classes.Stores.{
  Beside, IsStored, get_source_page-Beside, Beside-IsPool, do_free_source_state-IsStored,
  do_free_source_state-IsTouched,
}
use compact_fit.Classes.Touched.{IsTouched}
use compact_fit.Heap.{block_at, aa_field}
use compact_fit.Heap.Compaction.Move.{
  Outside, IsMove, IsMoved, do_compaction-IsMoved, lent_page, source_aa,
}
use compact_fit.Heap.Free.{compact_into}
use compact_fit.Heap.Free.Compacts.{first_of, no_source_listed}
use compact_fit.Heap.Invariant.{IsSettled, IsPartlyUsed, capacity}
use compact_fit.Heap.Invariant.Pages.{capacity-bounds}
use compact_fit.Heap.Invariant.Lifted.{take_out-IsLifted}
use compact_fit.Heap.Whole.{IsWhole, size_of, cell, pages_end}
use compact_fit.Heap.Whole.Frames.{
  block_in_page, outside_pages, cell_outside, kept-IsPool, block_counted,
}
use compact_fit.Heap.Whole.Moves.{IsVacated, IsCarried}
use compact_fit.Heap.Whole.Lends.{pages_apart, cell_off_block, find_used-blind}

module _ (s : Cf) (classes : ℕ → Bool) (ring : ℕ → List ℕ) (pages l k : Tiers)
    (whole : IsWhole s classes ring pages l k) where
  -- What the invariant says of a used block of a page of the class.
  record IsPlaced (sc p i : ℕ) : Type 0 where
    at : IsPageAt s.globals p
    fits : i * (s.size_class sc).block_size + (s.size_class sc).block_size ≤ pagedatasize
    id : ℕ
    numbered : id < s.globals.nr_aas
    names : s.mem (aa_field p i (s.size_class sc).block_size) ≡ cell s.globals id
    points : s.mem (cell s.globals id) ≡ block_at p i (s.size_class sc).block_size
    unpooled : total pages p ≡ 0

  block-IsPlaced :
      (sc p i : ℕ)
      → classes sc ≡ true
      → (s.page p).sc ≡ sc
      → i < 1024
      → used (s.page p) i ≡ true
      → IsPlaced sc p i
  block-IsPlaced sc p i here class small taken =
      let b = whole.blocks p i small taken in
      let set = whole.heap.set sc here in
      let size = (s.size_class sc).block_size in
      let room : i < pagedatasize / size =
        subst (λ c. i < capacity (s.size_class c)) class b.room in
      let some_used = block_counted s classes ring p i whole.heap small taken in
      record {
        at = b.at;
        fits =
            (block_in_page p i size 0 b.at.aligned (omega (arith, set.least)) room
              (omega (arith, set.least))).1;
        id = b.id;
        numbered = b.numbered;
        names =
            subst (λ c. s.mem (aa_field p i (s.size_class c).block_size) ≡ cell s.globals b.id)
              class b.names;
        points =
            subst (λ c. s.mem (cell s.globals b.id) ≡ block_at p i (s.size_class c).block_size)
              class b.points;
        unpooled = elim (Bool-cases (total pages p == 0)) [
          | inl e ↦ ground arith
          | inr e ↦
              let spare = whole.spare p (ground (arith, e)) in
              absurd (omega (arith, spare, some_used))
        ];
      }

  module _ (sc p i place index : ℕ) (here : classes sc ≡ true) (target : IsPlaced sc p i)
      (source : IsPlaced sc place index) (ne : (place == p) ≡ false) (t : Cf)
      (same_globals : t.globals ≡ s.globals) (same_mem : t.mem ≡ s.mem)
      (found : find_used_page_block (t.page place) ≡ index) where
    abbrev size : ℕ
    size = (s.size_class sc).block_size

    source_aa_at : source_aa t place size ≡ cell s.globals source.id
    source_aa_at =
        ap (λ (n : ℕ). t.mem (aa_field place n size)) found
        ∙ ap (λ (m : ℕ → ℕ). m (aa_field place index size)) same_mem
        ∙ source.names

    -- The cells of the two blocks are different.
    id_differs : cell s.globals target.id ≢ cell s.globals source.id
    id_differs e =
        let same : block_at p i size ≡ block_at place index size =
          sym target.points ∙ ap s.mem e ∙ source.points in
        let a = target.at.aligned in
        let a' = source.at.aligned in ground (arith, same, ne, a, a', target.fits, source.fits)

    chosen-IsMove : IsMove t (block_at p i size) (t.mem (aa_field p i size)) place size
    chosen-IsMove =
        let g = s.globals in
        let set = whole.heap.set sc here in
        let aligned = whole.pool.stocked.laid.pages_aligned in
        let off = λ (q j : ℕ) (b : IsPlaced sc q j).
          cell_off_block g source.id q j size whole.apart source.numbered b.at aligned b.fits in
        record {
          direct = ap (λ (g : Globals). g.incremental_memcpy) same_globals ∙ whole.heap.direct;
          rounds =
              omega (
                arith,
                ap (λ (g : Globals). g.memcpy_multiplicator) same_globals,
                whole.heap.rounds,
              );
          positive = omega (arith, set.least);
          small = omega (arith, set.most);
          words = whole.words sc here;
          apart =
              rw found
                (pages_apart g place index p i size source.at target.at ne source.fits target.fits);
          not_target = rw source_aa_at (off p i target);
          not_source = rw (source_aa_at, found) (off place index source);
          other_aa = rw (source_aa_at, same_mem, target.names) id_differs;
        }

    -- The pool of free pages is the same after the move.
    moved-IsPool : (u : Cf) → IsPool t pages → IsMoved t p i place size u → IsPool u pages
    moved-IsPool u pool moved =
        kept-IsPool t u pages pool moved.same_globals moved.same_pages (λ x listed.
          let at = whole.pool.stocked.placed x listed in
          let a = at.aligned in
          let b = target.at.aligned in
          let positive = whole.heap.set sc here in
          let far : Outside x (block_at p i size) size × Outside (x + 4) (block_at p i size) size =
            off_page x a b listed in
          let aa = cell_outside s.globals source.id whole.apart source.numbered in
          (
            moved.rest x far.0
                (rw source_aa_at (λ e. off_cell x 0 at aa (omega arith) (omega (arith, e)))),
            moved.rest (x + 4) far.1
                (rw source_aa_at (λ e. off_cell x 4 at aa (omega arith) (omega (arith, e)))),
          ))
      where
        off_page :
            (x : ℕ)
            → x % 2 ^ 14 ≡ 0
            → p % 2 ^ 14 ≡ 0
            → 0 < total pages x
            → Outside x (block_at p i size) size × Outside (x + 4) (block_at p i size) size
        off_page x a b listed = elim (Bool-cases (x == p)) [
          | inl e ↦
              let same : x ≡ p = ground arith in
              let none_there : total pages x ≡ 0 = rw same target.unpooled in
              absurd (omega (arith, listed, none_there))
          | inr e ↦ elim (Bool-cases (leb x p)) [
            | inl below ↦
                (inl (ground (arith, a, b, e, below)), inl (ground (arith, a, b, e, below)))
            | inr above ↦ (
              inr (ground (arith, a, b, e, above, target.fits)),
              inr (ground (arith, a, b, e, above, target.fits)),
            )
          ]
        ]

        off_cell :
            (x n : ℕ)
            → IsPageAt s.globals x
            → (cell s.globals source.id < s.globals.pages)
              ⊎ (pages_end s.globals ≤ cell s.globals source.id)
            → n ≤ 4
            → ¬ (x + n ≡ cell s.globals source.id)
        off_cell x n at aa small e =
            let aligned = whole.pool.stocked.laid.pages_aligned in
            elim aa [
              | inl low ↦ omega (arith, low, at.low, e)
              | inr high ↦ omega (arith, high, at.high, at.aligned, aligned, e, small)
            ]

  -- The page that lends its lowest used block, and what is left of it.
  lent_marks :
      (q r : Page) (flags : ℕ)
      → IsSettled q
      → 0 < q.nr_used_page_blocks
      → q.nr_used_page_blocks < 2 ^ 32
      → find_used_page_block q < 1024
      → r ≡ record (discounted q) { sourceentries = u32 (q.sourceentries + 1); list_flags = flags }
      → ((lent_page r).sc ≡ q.sc)
        × ((j : ℕ)
            → used (lent_page r) j ≡ (if find_used_page_block q == j then false else used q j))
  unfolding page_clear_used_bit find_used_page_block free_used_page_block
  lent_marks q r flags settled positive fits small same =
      let (marks, n, bitmap) =
        free_used-clears q settled.counted.bitmap (find_used_page_block q) small positive fits in
      (ap (λ (x : Page). x.sc) same, λ j. ap (λ (x : Page). used (lent_page x) j) same ∙ marks j)

  -- After the move, the block that was moved is the one vacated.
  module _ (p i place index : ℕ) (here : classes (s.page p).sc ≡ true)
      (target : IsPlaced (s.page p).sc p i) (source : IsPlaced (s.page p).sc place index)
      (ne : (place == p) ≡ false) (t : Cf) (beside : Beside s t)
      (found : find_used_page_block (t.page place) ≡ index) (u : Cf)
      (moved : IsMoved t p i place (size_of s p) u)
      (stored : IsStored u pages place (do_free_source_state u (s.page p).sc place)) where
    stored_apart : total stored.stock p ≡ 0
    stored_apart = elim stored.only [
      | inl same ↦ same p ∙ target.unpooled
      | inr (_, more) ↦ ground (arith, more p, target.unpooled, ne)
    ]

    aa_same : source_aa t place (size_of s p) ≡ s.mem (aa_field place index (size_of s p))
    aa_same =
        ap (λ (n : ℕ). t.mem (aa_field place n (size_of s p))) found
        ∙ ap (λ (m : ℕ → ℕ). m (aa_field place index (size_of s p))) beside.same_mem

    carried :
        index < 1024
        → used (s.page place) index ≡ true
        → (s.page place).sc ≡ (s.page p).sc
        → IsCarried s p i place index stored.stock (do_free_source_state u (s.page p).sc place)
    carried inside marked class =
        let size = size_of s p in
        let g = stored.same_globals ∙ moved.same_globals ∙ beside.same_globals in
        let at = target.at.aligned in
        record {
          inside = inside;
          taken = marked;
          far = ne;
          same_class = class;
          block = λ n less.
              let in_page : page_at (block_at p i size + 4 * n) ≡ p =
                omega (arith, at, less, target.fits) in
              stored.kept (block_at p i size + 4 * n)
                (ap (total stored.stock) in_page ∙ stored_apart)
              ∙ moved.block n less
              ∙ ap (λ (b : ℕ). t.mem (block_at place b size + 4 * n)) found
              ∙ ap (λ (m : ℕ → ℕ). m (block_at place index size + 4 * n)) beside.same_mem;
          address =
              let off =
                outside_pages (do_free_source_state u (s.page p).sc place) stored.stock
                  (cell s.globals source.id) stored.pool
                  (subst
                    (λ (h : Globals).
                      (cell s.globals source.id < h.pages)
                      ⊎ (pages_end h ≤ cell s.globals source.id))
                    (sym g) (cell_outside s.globals source.id whole.apart source.numbered)) in
              ap (do_free_source_state u (s.page p).sc place).mem source.names
              ∙ stored.kept (cell s.globals source.id) off
              ∙ ap u.mem (sym (aa_same ∙ source.names))
              ∙ moved.address
              ∙ ap (λ (m : ℕ → ℕ). m (m (aa_field p i size))) beside.same_mem;
          rest = λ a far out other.
              stored.kept a far
              ∙ moved.rest a out (λ e. other (e ∙ aa_same))
              ∙ ap (λ (m : ℕ → ℕ). m a) beside.same_mem;
        }

    carried-IsVacated :
        IsCarried s p i place index stored.stock (do_free_source_state u (s.page p).sc place)
        → IsPartlyUsed (s.page place) (s.page p).sc (s.size_class (s.page p).sc)
        → (s.page place).nr_used_page_blocks < 2 ^ 32
        → index ≡ find_used_page_block (s.page place)
        → IsTouched s place
            (record (discounted (s.page place)) {
              sourceentries = u32 ((s.page place).sourceentries + 1);
            })
            t
        → IsVacated s pages p i (do_free_source_state u (s.page p).sc place)
    carried-IsVacated words partly fits is lent =
        let sc = (s.page p).sc in
        let touched = do_free_source_state-IsTouched u sc place in
        let self : (place == place) ≡ true = ground arith in
        let lent_at_u : u.page place ≡ lent_page (t.page place) =
          ap (λ (f : ℕ → Page). f place) moved.lent ∙ rw self refl in
        let inside = words.inside in
        let (same_class, marks) =
          lent_marks (s.page place) (t.page place) (t.page place).list_flags partly.settled
            partly.some_used fits (omega (arith, inside, is)) lent.content in
        record {
          place = place;
          index = index;
          stock = stored.stock;
          pool = stored.pool;
          same_globals = stored.same_globals ∙ moved.same_globals ∙ beside.same_globals;
          same_aas = stored.same_aas ∙ moved.same_aas ∙ beside.same_aas;
          same_buckets = stored.same_buckets ∙ moved.same_buckets ∙ beside.same_buckets;
          only = stored.only;
          sizes = λ c.
              touched.block_size c
              ∙ ap (λ (f : ℕ → SizeClass). (f c).block_size) moved.same_classes
              ∙ lent.block_size c;
          others = λ a other.
              touched.others a other
              ∙ ap (λ (f : ℕ → Page). f a) moved.lent
              ∙ rw other (lent.others a other);
          class =
              ap (λ (r : Page). r.sc) touched.content
              ∙ ap (λ (r : Page). r.sc) lent_at_u
              ∙ same_class;
          left = λ j.
              ap (λ (r : Page). used r j) touched.content
              ∙ ap (λ (r : Page). used r j) lent_at_u
              ∙ rw is (marks j);
          words = inr words;
        }

    filed-IsVacated :
        used (s.page place) index ≡ true
        → index < 1024
        → IsPartlyUsed (s.page place) (s.page p).sc (s.size_class (s.page p).sc)
        → (s.page place).nr_used_page_blocks < 2 ^ 32
        → index ≡ find_used_page_block (s.page place)
        → IsTouched s place
            (record (discounted (s.page place)) {
              sourceentries = u32 ((s.page place).sourceentries + 1);
            })
            t
        → IsVacated s pages p i (do_free_source_state u (s.page p).sc place)
    filed-IsVacated marked inside partly fits is lent =
        carried-IsVacated (carried inside marked partly.class) partly fits is lent

  pub compact_into-IsVacated :
      (others : Cf → Cf) (p i : ℕ)
      → let sc = (s.page p).sc in
        classes sc ≡ true
        → i < 1024
        → used (s.page p) i ≡ true
        → (s.page p).nr_used_page_blocks ≡ capacity (s.size_class sc)
        → 0 < length (ring (head_nfull_pages sc))
        → (t : Cf) × (compact_into others s sc p i (s.size_class sc).block_size ≡ some (t, 0))
          × IsVacated s pages p i t
  unfolding compact_into
  compact_into-IsVacated others p i here small taken full listed =
      let sc = (s.page p).sc in
      let heap = whole.heap in
      let there = nfull_is_head classes sc here in
      let x = s.links.next (head_nfull_pages sc) in
      let place = page_of_list x in
      let i' =
        first_of s.links (head_nfull_pages sc) (ring (head_nfull_pages sc))
          (heap.filed.shelf.rings (head_nfull_pages sc) there) listed in
      let (low, high) = heap.placed (head_nfull_pages sc) x there i' in
      let at_list : list_of_page place ≡ x = omega (arith, low, high) in
      let on : has (list_of_page place) (ring (head_nfull_pages sc)) ≡ true = rw at_list i' in
      let q = s.page place in
      let partly = heap.partly sc place here on in
      let bounds = capacity-bounds (s.size_class sc) (heap.set sc here) in
      let up = take_out-IsLifted s classes ring place heap (head_nfull_pages sc) there on in
      let (same_page, lent) =
        get_source_page-IsLent s classes ring sc place heap.filed here on up.fresh
          (no_source_listed s classes ring heap sc here) refl in
      let t = (get_source_page s sc).0 in
      let beside = get_source_page-Beside s sc in
      let (n, less, counted) =
        some_taken 1024 (used q) (omega (arith, partly.settled.counted.census, partly.some_used)) in
      let (inside, marked, _) = find_used-lowest q partly.settled.counted.bitmap n less counted in
      let index = find_used_page_block q in
      let found : find_used_page_block (t.page place) ≡ index =
        ap find_used_page_block lent.touched.content
        ∙ find_used-blind q (u32 (q.nr_used_page_blocks + 2 ^ 32 - 1)) (t.page place).list_flags
            (u32 (q.sourceentries + 1)) in
      let ne : (place == p) ≡ false = elim (Bool-cases (place == p)) [
        | inr e ↦ e
        | inl e ↦
            let same : place ≡ p = ground arith in
            let count : (s.page p).nr_used_page_blocks < capacity (s.size_class sc) =
              subst (λ (a : ℕ). (s.page a).nr_used_page_blocks < capacity (s.size_class sc)) same
                partly.some_free in
            absurd (omega (arith, count, full))
      ] in
      let target = block-IsPlaced sc p i here refl small taken in
      let source = block-IsPlaced sc place index here partly.class inside marked in
      let size = (s.size_class sc).block_size in
      let move =
        chosen-IsMove sc p i place index here target source ne t beside.same_globals beside.same_mem
          found in
      let (u, runs, moved) = do_compaction-IsMoved others t sc p i place size move in
      let pool =
        moved-IsPool sc p i place index here target source ne t beside.same_globals beside.same_mem
          found u (Beside-IsPool s t pages beside whole.pool) moved in
      let at_u =
        subst (λ (g : Globals). IsPageAt g place) (sym (moved.same_globals ∙ beside.same_globals))
          source.at in
      let stored = do_free_source_state-IsStored u pages sc place pool at_u source.unpooled in
      let few : q.nr_used_page_blocks < 2 ^ 32 = omega (arith, partly.some_free, bounds.1) in
      (
        do_free_source_state u sc place,
        rw same_page runs,
        filed-IsVacated p i place index here target source ne t beside found u moved stored marked
            inside partly few refl lent.touched,
      )
