-- ===== src/Heap/Whole/Survives.antt =====
-- What a free of cf.c leaves of the other used blocks, before the address is given back.
use compact_fit.Base.{
  ℕ, ◌+◌, ◌-◌, ◌*◌, ◌/◌, ◌<◌, ◌≤◌, ◌≡◌, ◌≢◌, ◌⊎◌, inl, inr, refl, sym, ap, ◌∙◌, arith, Bool, true,
  false, ◌==◌, List, Bool-cases,
}
use mathlib.Core.Path.{subst}
use compact_fit.Page.{Page, pagedatasize}
use compact_fit.Page.Blocks.{used}
use compact_fit.State.{Cf, Globals}
use compact_fit.FreePages.Pool.{IsPageAt}
use compact_fit.FreePages.Pool.Rooms.{page_at}
use compact_fit.Pool.Tiers.{Tiers, total}
use compact_fit.AbstractAddress.Pool.{bucket_word}
use compact_fit.AbstractAddress.Pool.Takes.{IsAddressPool}
use compact_fit.Heap.{block_at, aa_field}
use compact_fit.Heap.Compaction.Move.{Outside}
use compact_fit.Heap.Invariant.{IsHeap, capacity}
use compact_fit.Heap.Whole.{IsWhole, size_of, cell, pages_end}
use compact_fit.Heap.Whole.Frames.{
  outside_pages, cell_outside, block_counted, bucket_outside, kept-IsAddressPool,
}
use compact_fit.Heap.Whole.Moves.{IsVacated, IsCarried, IsInPlace}
use compact_fit.Heap.Whole.Lends.{cell_off_block}
use compact_fit.Heap.Whole.Origins.{IsHeld, held, one_block, far_word}

module _ (s : Cf) (classes : ℕ → Bool) (ring : ℕ → List ℕ) (pages l k : Tiers)
    (whole : IsWhole s classes ring pages l k) (p i : ℕ)
    (target : IsHeld s classes ring pages l k whole p i) (t : Cf) (v : IsVacated s pages p i t)
    (ring' : ℕ → List ℕ) (heap' : IsHeap t classes ring') where
  abbrev Held : ℕ → ℕ → Type 0
  Held = IsHeld s classes ring pages l k whole

  pub sc_same : (q : ℕ) → (t.page q).sc ≡ (s.page q).sc
  sc_same q = elim (Bool-cases (v.place == q)) [
    | inl e ↦
        let same : v.place ≡ q = ground arith in
        subst (λ x. (t.page x).sc ≡ (s.page x).sc) same v.class
    | inr e ↦ ap (λ (r : Page). r.sc) (v.others q e)
  ]

  pub size_same : (q : ℕ) → size_of t q ≡ size_of s q
  size_same q = v.sizes (t.page q).sc ∙ ap (λ c. (s.size_class c).block_size) (sc_same q)

  -- The block that was vacated was in use.
  source : Held v.place v.index
  source = elim v.words [
    | inl still ↦
        subst (λ (x : ℕ × ℕ). Held x.0 x.1) (λ j. (sym still.same_page j, sym still.same_index j))
          target
    | inr carried ↦ held s classes ring pages l k whole v.place v.index carried.inside carried.taken
  ]

  unpooled : (q j : ℕ) → Held q j → total pages q ≡ 0
  unpooled q j h = elim (Bool-cases (total pages q == 0)) [
    | inl e ↦ ground arith
    | inr e ↦
        let spare = whole.spare q (ground (arith, e)) in
        let some_used = block_counted s classes ring q j whole.heap h.small h.taken in
        absurd (omega (arith, spare, some_used))
  ]

  pub spare_after : (x : ℕ) → 0 < total v.stock x → (t.page x).nr_used_page_blocks ≡ 0
  spare_after x listed =
      let apart = unpooled v.place v.index source in
      elim (Bool-cases (v.place == x)) [
        | inl e ↦
            let same : v.place ≡ x = ground arith in
            elim v.only [
              | inl alike ↦
                  let none_there : total v.stock x ≡ 0 =
                    alike x ∙ subst (λ y. total pages y ≡ 0) same apart in
                  absurd (omega (arith, listed, none_there))
              | inr (empty, _) ↦ subst (λ y. (t.page y).nr_used_page_blocks ≡ 0) same empty
            ]
        | inr e ↦
            let was : 0 < total pages x = elim v.only [
              | inl alike ↦ omega (arith, listed, alike x)
              | inr (_, more) ↦ ground (arith, listed, more x, e)
            ] in
            ap (λ (r : Page). r.nr_used_page_blocks) (v.others x e) ∙ whole.spare x was
      ]

  off_stock : (q j : ℕ) → j < 1024 → used (t.page q) j ≡ true → total v.stock q ≡ 0
  off_stock q j small taken = elim (Bool-cases (total v.stock q == 0)) [
    | inl e ↦ ground arith
    | inr e ↦
        let spare = spare_after q (ground (arith, e)) in
        let some_used = block_counted t classes ring' q j heap' small taken in
        absurd (omega (arith, spare, some_used))
  ]

  -- Words of pages in use, outside the freed block, and but for the cell of the moved block.
  kept :
      (a : ℕ)
      → total v.stock (page_at a) ≡ 0
      → Outside a (block_at p i (size_of s p)) (size_of s p)
      → a ≢ cell s.globals source.block.id
      → t.mem a ≡ s.mem a
  kept a far out other = elim v.words [
    | inl still ↦ still.rest a far
    | inr carried ↦
        let size : size_of s p ≡ size_of s v.place =
          ap (λ c. (s.size_class c).block_size) (sym carried.same_class) in
        let names : s.mem (aa_field v.place v.index (size_of s p))
            ≡ cell s.globals source.block.id =
          ap (λ n. s.mem (aa_field v.place v.index n)) size ∙ source.block.names in
        carried.rest a far out (λ e. other (e ∙ names))
  ]

  -- A cell of an address, in no free page.
  cell_far : (id : ℕ) → id < s.globals.nr_aas → total v.stock (page_at (cell s.globals id)) ≡ 0
  cell_far id small = outside_pages t v.stock (cell s.globals id) v.pool (
      subst (λ (g : Globals). (cell s.globals id < g.pages) ⊎ (pages_end g ≤ cell s.globals id))
        (sym v.same_globals) (cell_outside s.globals id whole.apart small))

  -- The used block at `q'` and `j'` is the one that was at `q` and `j`.
  pub record IsFrom (q' j' q j : ℕ) : Type 0 where
    pub was : Held q j
    pub small : j' < 1024
    pub taken : used (t.page q') j' ≡ true
    pub same_size : size_of t q' ≡ size_of s q
    pub at : IsPageAt t.globals q'
    pub room : j' < capacity (t.size_class (t.page q').sc)
    pub names : t.mem (aa_field q' j' (size_of t q')) ≡ cell s.globals was.block.id
    pub points : t.mem (cell s.globals was.block.id) ≡ block_at q' j' (size_of t q')
    pub words :
        (n : ℕ)
        → n < size_of s q / 4
        → t.mem (block_at q' j' (size_of t q') + 4 * n) ≡ s.mem (block_at q j (size_of s q) + 4 * n)
    pub other : was.block.id ≢ target.block.id

  -- Another block than the freed one.
  abbrev Other : ℕ → ℕ → Type 0
  Other q j = ((q == p) ≡ false) ⊎ ((i == j) ≡ false)

  id_differs : (q j : ℕ) (h : Held q j) → Other q j → h.block.id ≢ target.block.id
  id_differs q j h other e =
      let (same_page, same_index) = one_block s classes ring pages l k whole q j p i h target e in
      elim other [
        | inl ne ↦ ground (arith, ne, same_page)
        | inr ne ↦ ground (arith, ne, same_index)
      ]

  room_after : (q j : ℕ) (h : Held q j) → j < capacity (t.size_class (t.page q).sc)
  room_after q j h = subst (λ n. j < pagedatasize / n) (sym (size_same q)) h.block.room

  at_after : (q j : ℕ) (h : Held q j) → IsPageAt t.globals q
  at_after q j h = subst (λ (g : Globals). IsPageAt g q) (sym v.same_globals) h.block.at

  stays : (q j : ℕ) (h : Held q j) → used (t.page q) j ≡ true → Other q j → IsFrom q j q j
  stays q j h taken other =
      let size = size_of s q in
      let g = s.globals in
      let b = h.block in
      let laid = whole.pool.stocked.laid in
      let off = off_stock q j h.small taken in
      let a = b.at.aligned in
      let moved_id : b.id ≢ source.block.id = λ e.
        let (same_page, same_index) =
          one_block s classes ring pages l k whole q j v.place v.index h source e in
        let marks = v.left v.index in
        let self : (v.index == v.index) ≡ true = ground arith in
        let gone : used (t.page v.place) v.index ≡ false = marks ∙ rw self refl in
        let there : used (t.page v.place) v.index ≡ true =
          subst (λ (x : ℕ × ℕ). used (t.page x.0) x.1 ≡ true) (λ n. (same_page n, same_index n))
            taken in
        cc (gone, there) in
      let word : (m : ℕ)
          → m < size
          → t.mem (block_at q j size + m) ≡ s.mem (block_at q j size + m) =
        λ m less.
          let in_page : page_at (block_at q j size + m) ≡ q = omega (arith, a, less, h.fits) in
          kept (block_at q j size + m) (ap (total v.stock) in_page ∙ off)
            (far_word p i (size_of s p) q j size m target.block.at.aligned a target.fits h.fits less
              (λ e. let same : q ≡ p = ground arith in ap (size_of s) same) other)
            (λ e. elim (cell_outside g source.block.id whole.apart source.block.numbered) [
              | inl low ↦ omega (arith, low, e, b.at.low)
              | inr high ↦ omega (arith, high, e, b.at.high, a, laid.pages_aligned, less, h.fits)
            ]) in
      let names : t.mem (aa_field q j size) ≡ cell g b.id =
        let last : aa_field q j size ≡ block_at q j size + (size - 4) =
          let split : (j + 1) * size ≡ j * size + size = omega arith in
          omega (arith, split, h.least) in
        ap t.mem last ∙ word (size - 4) (omega (arith, h.least)) ∙ ap s.mem (sym last) ∙ b.names in
      let points : t.mem (cell g b.id) ≡ block_at q j size =
        kept (cell g b.id) (cell_far b.id b.numbered)
          (cell_off_block g b.id p i (size_of s p) whole.apart b.numbered target.block.at
            laid.pages_aligned target.fits)
          (λ e. moved_id (omega (arith, e)))
        ∙ b.points in
      record {
        was = h;
        small = h.small;
        taken = taken;
        same_size = size_same q;
        at = at_after q j h;
        room = room_after q j h;
        names = ap (λ n. t.mem (aa_field q j n)) (size_same q) ∙ names;
        points = points ∙ ap (block_at q j) (sym (size_same q));
        words = λ n less.
            ap (λ z. t.mem (block_at q j z + 4 * n)) (size_same q)
            ∙ word (4 * n) (omega (arith, less, h.words));
        other = id_differs q j h other;
      }

  comes : IsCarried s p i v.place v.index v.stock t → IsFrom p i v.place v.index
  comes carried =
      let size = size_of s p in
      let g = s.globals in
      let b = source.block in
      let same : size ≡ size_of s v.place =
        ap (λ c. (s.size_class c).block_size) (sym carried.same_class) in
      let at_end : (q j : ℕ) → aa_field q j size ≡ block_at q j size + 4 * (size / 4 - 1) = λ q j.
        let split : (j + 1) * size ≡ j * size + size = omega arith in
        omega (arith, split, target.least, target.words) in
      let names_src : s.mem (aa_field v.place v.index size) ≡ cell g b.id =
        ap (λ n. s.mem (aa_field v.place v.index n)) same ∙ b.names in
      record {
        was = source;
        small = target.small;
        taken = ap (λ (r : Page). used r i) (v.others p carried.far) ∙ target.taken;
        same_size = size_same p ∙ same;
        at = at_after p i target;
        room = room_after p i target;
        names =
            ap (λ n. t.mem (aa_field p i n)) (size_same p)
            ∙ ap t.mem (at_end p i)
            ∙ carried.block (size / 4 - 1) (omega (arith, target.least, target.words))
            ∙ ap s.mem (sym (at_end v.place v.index))
            ∙ names_src;
        points =
            ap t.mem (sym names_src)
            ∙ carried.address
            ∙ ap s.mem target.block.names
            ∙ target.block.points
            ∙ ap (block_at p i) (sym (size_same p));
        words = λ n less.
            ap (λ z. t.mem (block_at p i z + 4 * n)) (size_same p)
            ∙ carried.block n (omega (arith, less, same))
            ∙ ap (λ z. s.mem (block_at v.place v.index z + 4 * n)) same;
        other = id_differs v.place v.index source (inl carried.far);
      }

  -- A block in use after was in use before.
  used_before : (q j : ℕ) → used (t.page q) j ≡ true → used (s.page q) j ≡ true
  used_before q j taken = elim (Bool-cases (v.place == q)) [
    | inl e ↦
        let same : v.place ≡ q = ground arith in
        let taken' : used (t.page v.place) j ≡ true =
          subst (λ x. used (t.page x) j ≡ true) (sym same) taken in
        let marks = v.left j in
        subst (λ x. used (s.page x) j ≡ true) same
          (elim (Bool-cases (v.index == j)) [
            | inl e' ↦
                let gone : used (t.page v.place) j ≡ false = marks ∙ rw e' refl in cc (gone, taken')
            | inr e' ↦
                let same_mark : used (t.page v.place) j ≡ used (s.page v.place) j =
                  marks ∙ rw e' refl in
                sym same_mark ∙ taken'
          ])
    | inr e ↦ ap (λ (r : Page). used r j) (sym (v.others q e)) ∙ taken
  ]

  page_cases : (q j : ℕ) → ((q ≡ p) × (j ≡ i)) ⊎ Other q j
  page_cases q j = elim (Bool-cases (q == p)) [
    | inr e ↦ inr (inl e)
    | inl e ↦ elim (Bool-cases (i == j)) [
      | inl e' ↦ inl (ground arith, ground arith)
      | inr e' ↦ inr (inr e')
    ]
  ]

  in_place_vacated :
      (q j : ℕ)
      → IsInPlace s p i v.place v.index v.stock t
      → q ≡ p
      → j ≡ i
      → used (t.page q) j ≡ false
  in_place_vacated q j still at_page at_index =
      let self : (v.index == v.index) ≡ true = ground arith in
      let gone : used (t.page v.place) v.index ≡ false = v.left v.index ∙ rw self refl in
      subst (λ (x : ℕ × ℕ). used (t.page x.0) x.1 ≡ false)
        (λ n. ((still.same_page ∙ sym at_page) n, (still.same_index ∙ sym at_index) n)) gone

  -- Each block in use after the free is one of the others that were in use before.
  pub origin :
      (q j : ℕ) → j < 1024 → used (t.page q) j ≡ true → (q0 : ℕ) × (j0 : ℕ) × IsFrom q j q0 j0
  origin q j small taken = elim (page_cases q j) [
    | inr other ↦ (
      q,
      j,
      stays q j (held s classes ring pages l k whole q j small (used_before q j taken)) taken other,
    )
    | inl (at_page, at_index) ↦ elim v.words [
      | inl still ↦ let gone = in_place_vacated q j still at_page at_index in cc (gone, taken)
      | inr carried ↦ (
        v.place,
        v.index,
        subst (λ (x : ℕ × ℕ). IsFrom x.0 x.1 v.place v.index) (λ n. (sym at_page n, sym at_index n))
            (comes carried),
      )
    ]
  ]

  -- Each of the other blocks in use before is in use after.
  pub whereabouts : (q j : ℕ) → Held q j → Other q j → (q' : ℕ) × (j' : ℕ) × IsFrom q' j' q j
  whereabouts q j h other = elim (Bool-cases (v.place == q)) [
    | inr e ↦
        let taken = ap (λ (r : Page). used r j) (v.others q e) ∙ h.taken in
        (q, j, stays q j h taken other)
    | inl e ↦
        let same : v.place ≡ q = ground arith in
        elim (Bool-cases (v.index == j)) [
          | inr e' ↦
              let marks : used (t.page v.place) j ≡ used (s.page v.place) j =
                v.left j ∙ rw e' refl in
              let taken : used (t.page q) j ≡ true =
                subst (λ x. used (t.page x) j ≡ used (s.page x) j) same marks ∙ h.taken in
              (q, j, stays q j h taken other)
          | inl e' ↦
              let same' : v.index ≡ j = ground arith in
              elim v.words [
                | inl still ↦ elim other [
                  | inl ne ↦ absurd (ground (arith, ne, same, still.same_page))
                  | inr ne ↦ absurd (ground (arith, ne, same', still.same_index))
                ]
                | inr carried ↦ (
                  p,
                  i,
                  subst (λ (x : ℕ × ℕ). IsFrom p i x.0 x.1) (λ n. (same n, same' n))
                      (comes carried),
                )
              ]
        ]
  ]

  off_block :
      (a : ℕ)
      → (a < s.globals.pages) ⊎ (pages_end s.globals ≤ a)
      → Outside a (block_at p i (size_of s p)) (size_of s p)
  off_block a far =
      let at = target.block.at in
      elim far [
        | inl low ↦ inl (omega (arith, low, at.low))
        | inr high ↦
            let laid = whole.pool.stocked.laid in
            inr (omega (arith, high, at.high, at.aligned, laid.pages_aligned, target.fits))
      ]

  -- Words outside the pages are as they were, but for the cell of the moved block.
  kept_outside :
      (a : ℕ)
      → (a < s.globals.pages) ⊎ (pages_end s.globals ≤ a)
      → a ≢ cell s.globals source.block.id
      → t.mem a ≡ s.mem a
  kept_outside a far other =
      kept a
        (outside_pages t v.stock a v.pool
          (subst (λ (g : Globals). (a < g.pages) ⊎ (pages_end g ≤ a)) (sym v.same_globals) far))
        (off_block a far) other

  -- The pools of addresses and of their buckets are the same.
  pub after-IsAddressPool : IsAddressPool t l k
  after-IsAddressPool =
      let g = s.globals in
      let cells = whole.addresses.cells in
      kept-IsAddressPool s t l k whole.addresses v.same_globals v.same_aas v.same_buckets (record {
        cells = λ c listed.
            kept_outside (cell g c) (cell_outside g c whole.apart (cells.numbered c listed)) (λ e.
              let same : c ≡ source.block.id = omega (arith, e) in
              let none_there : total l c ≡ 0 = ap (total l) same ∙ source.block.taken in
              omega (arith, listed, none_there));
        words = λ h listed.
            let at = cells.placed h listed in
            let (low, high) =
              bucket_word g h source.block.id cells.space at source.block.numbered in
            (
              kept_outside h (bucket_outside g h h whole.apart at (inl refl)) low,
              kept_outside (h + 4) (bucket_outside g h (h + 4) whole.apart at (inr refl)) high,
            );
      })
