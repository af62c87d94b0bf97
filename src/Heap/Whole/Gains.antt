-- ===== src/Heap/Whole/Gains.antt =====
-- The whole state of cf.c once a block is handed out with its abstract address.
use compact_fit.Base.{
  ℕ, ◌+◌, ◌-◌, ◌*◌, ◌/◌, ◌%◌, ◌<◌, ◌≤◌, ◌≡◌, ◌≢◌, ◌⊎◌, inl, inr, sym, ap, ◌∙◌, arith, Bool, true,
  false, ◌==◌, List, Bool-cases,
}
use mathlib.Core.Path.{subst}
use compact_fit.Page.{Page, pagedatasize}
use compact_fit.Page.Blocks.{used}
use compact_fit.State.{Cf, Globals}
use compact_fit.FreePages.Pool.{IsPageAt}
use compact_fit.AbstractAddress.Pool.{OutsideBuckets, IsBucketAt}
use compact_fit.Pool.Tiers.{Tiers, total}
use compact_fit.Heap.{block_at, aa_field}
use compact_fit.Heap.Invariant.{IsHeap}
use compact_fit.Heap.Invariant.Pages.{capacity-bounds}
use compact_fit.Heap.Whole.{IsWhole, IsApart, IsBlock, IsLive, size_of, cell, pages_end}
use compact_fit.Heap.Whole.Frames.{cell_outside, block_in_page}
use compact_fit.Heap.Whole.Origins.{IsHeld, held, far_word}
use compact_fit.Heap.Whole.Frees.{IsSameBlock}
use compact_fit.Heap.Whole.Allots.{IsAllotted}

module _ (s : Cf) (classes : ℕ → Bool) (ring : ℕ → List ℕ) (pages l k : Tiers)
    (whole : IsWhole s classes ring pages l k) (sc : ℕ) (here : classes sc ≡ true) (p i : ℕ)
    (w : Cf) (a : ℕ) (new : IsAllotted s pages l k sc p i w a) where
  abbrev Held : ℕ → ℕ → Type 0
  Held = IsHeld s classes ring pages l k whole

  -- The new block's size, and where it lies.
  new_size : size_of w p ≡ (s.size_class sc).block_size
  new_size = new.sizes (w.page p).sc ∙ ap (λ c. (s.size_class c).block_size) new.class

  new_fits : i * (s.size_class sc).block_size + (s.size_class sc).block_size ≤ pagedatasize
  new_fits =
      let set = whole.heap.set sc here in
      (block_in_page p i (s.size_class sc).block_size 0 new.at.aligned (omega (arith, set.least))
        new.inside (omega (arith, set.least))).1

  -- A block that was used is used, of the size it had.
  still_used : (q j : ℕ) → Held q j → (used (w.page q) j ≡ true) × (size_of w q ≡ size_of s q)
  still_used q j h = elim (Bool-cases (p == q)) [
    | inr e ↦
        let same = new.others q e in
        (
          ap (λ (r : Page). used r j) same ∙ h.taken,
          new.sizes (w.page q).sc ∙ ap (λ (r : Page). (s.size_class r.sc).block_size) same,
        )
    | inl e ↦
        let at : p ≡ q = ground arith in
        let taken : used (s.page p) j ≡ true =
          subst (λ n. used (s.page n) j ≡ true) (sym at) h.taken in
        let marks = new.marks j in
        let was = new.was_class j h.small taken in
        (
          subst (λ n. used (w.page n) j ≡ true) at (ground (arith, marks, taken)),
          subst (λ n. size_of w n ≡ size_of s n) at
              (new_size ∙ ap (λ c. (s.size_class c).block_size) (sym was)),
        )
  ]

  -- Its words are as they were.
  same_word :
      (q j : ℕ) (h : Held q j) (n : ℕ)
      → n < size_of s q
      → w.mem (block_at q j (size_of s q) + n) ≡ s.mem (block_at q j (size_of s q) + n)
  same_word q j h n less =
      let size = (s.size_class sc).block_size in
      let x = block_at q j (size_of s q) + n in
      let set = whole.heap.set sc here in
      let at = h.block.at in
      let laid = whole.pool.stocked.laid in
      let low : s.globals.pages ≤ x = omega (arith, at.low) in
      let high : x < pages_end s.globals =
        omega (arith, at.high, at.aligned, laid.pages_aligned, h.fits, less) in
      let out : OutsideBuckets s.globals x = elim whole.apart.buckets [
        | inl far ↦ inr (omega (arith, far, low))
        | inr far ↦ inl (omega (arith, far, high))
      ] in
      let numbered = whole.addresses.cells.numbered new.id new.was_free in
      let not_cell : x ≢ a = λ e. elim (cell_outside s.globals new.id whole.apart numbered) [
        | inl below ↦ omega (arith, below, low, e, new.named)
        | inr above ↦ omega (arith, above, high, e, new.named)
      ] in
      let other : ((q == p) ≡ false) ⊎ ((i == j) ≡ false) = elim (Bool-cases (q == p)) [
        | inr e ↦ inl e
        | inl e ↦ elim (Bool-cases (i == j)) [
          | inr e' ↦ inr e'
          | inl e' ↦
              let same_page : q ≡ p = ground arith in
              let same_index : i ≡ j = ground arith in
              let taken : used (s.page p) i ≡ true =
                subst (λ (m : ℕ × ℕ). used (s.page m.0) m.1 ≡ true)
                  (λ r. (same_page r, sym same_index r)) h.taken in
              absurd (let unused = new.was_unused in ground (arith, unused, taken))
        ]
      ] in
      let sizes : (q == p) ≡ true → size_of s q ≡ size = λ e.
        let same : q ≡ p = ground arith in
        let taken : used (s.page p) j ≡ true = subst (λ m. used (s.page m) j ≡ true) same h.taken in
        ap (size_of s) same
        ∙ ap (λ c. (s.size_class c).block_size) (new.was_class j h.small taken) in
      let far =
        far_word p i size q j (size_of s q) n new.at.aligned at.aligned new_fits h.fits less sizes
          other in
      let last : aa_field p i size ≡ block_at p i size + (size - 4) =
        let split : (i + 1) * size ≡ i * size + size = omega arith in
        omega (arith, split, set.least) in
      let not_field : x ≢ aa_field p i size = λ e. elim far [
        | inl below ↦ omega (arith, below, e, last, set.least)
        | inr above ↦ omega (arith, above, e, last, set.least)
      ] in
      new.kept x out not_cell not_field

  -- So is the cell of its abstract address.
  same_cell :
      (id : ℕ)
      → id < s.globals.nr_aas
      → total l id ≡ 0
      → w.mem (cell s.globals id) ≡ s.mem (cell s.globals id)
  same_cell id small taken =
      let size = (s.size_class sc).block_size in
      let set = whole.heap.set sc here in
      let laid = whole.pool.stocked.laid in
      let at = new.at in
      let out : OutsideBuckets s.globals (cell s.globals id) =
        elim whole.addresses.cells.space.apart [
          | inl far ↦ inl (omega (arith, far, small))
          | inr far ↦ inr (omega (arith, far))
        ] in
      let other : cell s.globals id ≢ a = λ e.
        let same : id ≡ new.id = omega (arith, e, new.named) in
        let none : total l new.id ≡ 0 = sym (ap (total l) same) ∙ taken in
        omega (arith, none, new.was_free) in
      let split : (i + 1) * size ≡ i * size + size = omega arith in
      let not_field : cell s.globals id ≢ aa_field p i size = λ e.
        elim (cell_outside s.globals id whole.apart small) [
          | inl below ↦ omega (arith, below, e, at.low)
          | inr above ↦
              omega (
                arith, above, e, split, new_fits, set.least, at.high, at.aligned,
                laid.pages_aligned,
              )
        ] in
      new.kept (cell s.globals id) out other not_field

  last_at : (q j size : ℕ) → 16 ≤ size → aa_field q j size ≡ block_at q j size + (size - 4)
  last_at q j size least =
      let split : (j + 1) * size ≡ j * size + size = omega arith in omega (arith, split, least)

  -- The abstract address of a block that was used.
  same_names :
      (q j : ℕ) (h : Held q j) → w.mem (aa_field q j (size_of s q)) ≡ cell s.globals h.block.id
  same_names q j h =
      let size = size_of s q in
      let last = last_at q j size h.least in
      ap w.mem last
      ∙ same_word q j h (size - 4) (omega (arith, h.least))
      ∙ ap s.mem (sym last)
      ∙ h.block.names

  old-IsBlock : (q j : ℕ) → Held q j → IsBlock w new.left q j
  old-IsBlock q j h =
      let b = h.block in
      let size = (still_used q j h).1 in
      let g = sym new.globals in
      let fewer = new.fewer b.id in
      record {
        at = subst (λ (x : Globals). IsPageAt x q) g b.at;
        room = subst (λ n. j < pagedatasize / n) (sym size) b.room;
        id = b.id;
        numbered = subst (λ (x : Globals). b.id < x.nr_aas) g b.numbered;
        taken = omega (arith, fewer, b.taken);
        names =
            ap (λ n. w.mem (aa_field q j n)) size
            ∙ same_names q j h
            ∙ ap (λ (x : Globals). cell x b.id) g;
        points =
            ap (λ (x : Globals). w.mem (cell x b.id)) new.globals
            ∙ same_cell b.id b.numbered b.taken
            ∙ b.points
            ∙ ap (block_at q j) (sym size);
      }

  new-IsBlock : IsBlock w new.left p i
  new-IsBlock =
      let g = sym new.globals in
      let fewer = new.fewer new.id in
      let once = whole.addresses.cells.ids.once new.id in
      let numbered = whole.addresses.cells.numbered new.id new.was_free in
      record {
        at = subst (λ (x : Globals). IsPageAt x p) g new.at;
        room = subst (λ n. i < pagedatasize / n) (sym new_size) new.inside;
        id = new.id;
        numbered = subst (λ (x : Globals). new.id < x.nr_aas) g numbered;
        taken = ground (arith, fewer, once);
        names =
            ap (λ n. w.mem (aa_field p i n)) new_size
            ∙ new.names
            ∙ new.named
            ∙ ap (λ (x : Globals). cell x new.id) g;
        points =
            ap (λ (x : Globals). w.mem (cell x new.id)) new.globals
            ∙ ap w.mem (sym new.named)
            ∙ new.points
            ∙ ap (block_at p i) (sym new_size);
      }

  -- A block in use is the new one, or was used before.
  old_or_new : (q j : ℕ) → j < 1024 → used (w.page q) j ≡ true → ((p ≡ q) × (i ≡ j)) ⊎ Held q j
  old_or_new q j small taken = elim (Bool-cases (p == q)) [
    | inr e ↦ inr (
        held s classes ring pages l k whole q j small
          (sym (ap (λ (r : Page). used r j) (new.others q e)) ∙ taken))
    | inl e ↦
        let at : p ≡ q = ground arith in
        let taken' : used (w.page p) j ≡ true =
          subst (λ n. used (w.page n) j ≡ true) (sym at) taken in
        let marks = new.marks j in
        elim (Bool-cases (i == j)) [
          | inl e' ↦ inl (at, ground arith)
          | inr e' ↦
              let was : used (s.page p) j ≡ true = ground (arith, marks, taken', e') in
              inr (
                held s classes ring pages l k whole q j small
                  (subst (λ n. used (s.page n) j ≡ true) at was))
        ]
  ]

  pub after-IsWhole :
      (ring' : ℕ → List ℕ)
      → IsHeap w classes ring'
      → IsWhole w classes ring' new.stock new.left new.free
  after-IsWhole ring' heap' =
      let g = sym new.globals in
      record {
        heap = heap';
        pool = new.pool;
        addresses = new.addresses;
        all = λ h at.
            let there = whole.all h (subst (λ (x : Globals). IsBucketAt x h) new.globals at) in
            let same = new.same_buckets h in omega (arith, there, same);
        apart = subst IsApart g whole.apart;
        words = λ c own. ap (λ n. n % 4) (new.sizes c) ∙ whole.words c own;
        off_heads =
            λ x at. whole.off_heads x (subst (λ (h : Globals). IsPageAt h x) new.globals at);
        spare = λ x listed.
            let fewer = new.fewer_pages x in
            elim (Bool-cases (p == x)) [
              | inl e ↦
                  let at : p ≡ x = ground arith in
                  let none : total new.stock x ≡ 0 = ap (total new.stock) (sym at) ∙ new.loose in
                  absurd (omega (arith, none, listed))
              | inr e ↦
                  ap (λ (r : Page). r.nr_used_page_blocks) (new.others x e)
                  ∙ whole.spare x (omega (arith, fewer, listed))
            ];
        blocks = λ q j small taken. elim (old_or_new q j small taken) [
          | inl (at, index) ↦
              subst (λ (m : ℕ × ℕ). IsBlock w new.left m.0 m.1) (λ r. (at r, index r)) new-IsBlock
          | inr h ↦ old-IsBlock q j h
        ];
      }

  -- The new address is held, of a block of the class's size.
  pub new-IsLive : (live : IsLive w a) × (size_of w live.page ≡ (s.size_class sc).block_size)
  new-IsLive = (
    record {
      page = p;
      index = i;
      inside =
          omega (arith, new.inside, (capacity-bounds (s.size_class sc) (whole.heap.set sc here)).1);
      taken = let marks = new.marks i in ground (arith, marks);
      names = ap (λ n. w.mem (aa_field p i n)) new_size ∙ new.names;
    },
    new_size,
  )

  -- Any address that was held is, of the same words.
  pub old-IsSameBlock : (b : ℕ) (live : IsLive s b) → IsSameBlock s b live w
  old-IsSameBlock b live =
      let q = live.page in
      let j = live.index in
      let h = held s classes ring pages l k whole q j live.inside live.taken in
      let (taken, size) = still_used q j h in
      let named : cell s.globals h.block.id ≡ b = sym h.block.names ∙ live.names in
      let was_at : s.mem b ≡ block_at q j (size_of s q) = ap s.mem (sym named) ∙ h.block.points in
      let leads : w.mem b ≡ block_at q j (size_of s q) =
        ap w.mem (sym named)
        ∙ same_cell h.block.id h.block.numbered h.block.taken
        ∙ h.block.points in
      record {
        after = record {
          page = q;
          index = j;
          inside = live.inside;
          taken = taken;
          names = ap (λ n. w.mem (aa_field q j n)) size ∙ same_names q j h ∙ named;
        };
        same_size = size;
        words = λ n less.
            ap (λ x. w.mem (x + 4 * n)) leads
            ∙ same_word q j h (4 * n) (omega (arith, less, h.words))
            ∙ ap (λ x. s.mem (x + 4 * n)) (sym was_at);
      }
