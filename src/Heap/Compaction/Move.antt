-- ===== src/Heap/Compaction/Move.antt =====
-- do_compaction of cf.c without increments: one block is copied and its abstract address redirected.
use compact_fit.Base.{
  ℕ, suc, ◌+◌, ◌-◌, ◌*◌, ◌/◌, ◌%◌, ◌^◌, ◌<◌, ◌≤◌, ◌≡◌, ◌≢◌, ◌⊎◌, refl, ap, ◌∙◌, arith, true, false,
  ◌==◌, some, fun_ext, update, Bool-cases, inl, inr,
}
use compact_fit.Page.{Page, u32, find_used_page_block, page_clear_used_bit}
use compact_fit.State.{Cf, set_page, set_word}
use compact_fit.State.Kept.{IsKept}
use compact_fit.State.Places.{page_places, aa_places, bucket_places}
use compact_fit.Classes.{do_free_source_state}
use compact_fit.Heap.{
  block_at, aa_field, partition_field, get_abstract_address_of_page_block, is_incremental,
  abort_compact_flag,
}
use compact_fit.Heap.Compaction.{
  Marks, Copying, copy_words, copy_all, choose_source, finish_compaction, do_compaction,
  discount_pending, mark_word,
}
use compact_fit.Heap.Compaction.Loop.{copied, copy_all-direct, copy_words-copied, copy_words-other}

-- The block that a page lends next, its address, and where its abstract address is kept.
abbrev next_index : Cf → ℕ → ℕ
next_index s p = find_used_page_block (s.page p)

abbrev pub source_block : Cf → ℕ → ℕ → ℕ
source_block s p size = block_at p (next_index s p) size

abbrev pub source_aa : Cf → ℕ → ℕ → ℕ
source_aa s p size = s.mem (aa_field p (next_index s p) size)

-- A word is not one of a block's.
abbrev pub Outside : ℕ → ℕ → ℕ → Type 0
Outside a block size = (a < block) ⊎ (block + size ≤ a)

-- What a move without increments needs: blocks of whole words that do not overlap, and the word of the
-- source's abstract address in neither of them and not that of the target.
pub record IsMove (s : Cf) (target target_aa nf_page size : ℕ) : Type 0 where
  pub direct : s.globals.incremental_memcpy ≡ 0
  pub rounds : 0 < s.globals.memcpy_multiplicator
  pub positive : 0 < size
  pub small : size < 2 ^ 31
  pub words : size % 4 ≡ 0
  pub apart :
      (source_block s nf_page size + size ≤ target) ⊎ (target + size ≤ source_block s nf_page size)
  pub not_target : Outside (source_aa s nf_page size) target size
  pub not_source : Outside (source_aa s nf_page size) (source_block s nf_page size) size
  pub other_aa : target_aa ≢ source_aa s nf_page size

is_incremental-direct :
    (s : Cf) (size : ℕ) → s.globals.incremental_memcpy ≡ 0 → is_incremental s size ≡ false
is_incremental-direct s size direct =
    let e : (s.globals.incremental_memcpy == 0) ≡ true = ground arith in rw e refl

-- The source page once the block is taken from it.
lend : Cf → ℕ → Cf
lend s p = set_page s p (page_clear_used_bit (s.page p) (next_index s p))

choose_source-direct :
    (s : Cf) (sc p size : ℕ)
    → s.globals.incremental_memcpy ≡ 0
    → choose_source s sc p size
      ≡ (lend s p, record { src_page = p; src_index = next_index s p; src = source_block s p size })
unfolding choose_source lend
choose_source-direct s sc p size direct =
    let t = lend s p in
    let e : is_incremental t size ≡ false = is_incremental-direct t size direct in rw e refl

-- The state before the source page is filed, after the abstract address is redirected.
moved : Cf → ℕ → ℕ → ℕ → ℕ → Cf
unfolding lend
moved s target target_aa nf_page size =
    let u = mark_word (lend s nf_page) (source_aa s nf_page size) abort_compact_flag in
    discount_pending
      (set_word
        (record u { mem = copy_words (size / 4) target (source_block s nf_page size) u.mem })
        (source_aa s nf_page size) (u.mem target_aa))
      nf_page

finish-direct :
    (m : Marks) (sc p src_aa size : ℕ) (c : Copying)
    → c.aborted ≡ false
    → c.heap.globals.incremental_memcpy ≡ 0
    → finish_compaction m sc p src_aa size c
      ≡ some (
        do_free_source_state (discount_pending (set_word c.heap src_aa m.target_aa_val) p) sc p,
        0,
      )
unfolding finish_compaction
finish-direct m sc p src_aa size c going direct =
    let e = is_incremental-direct (set_word c.heap src_aa m.target_aa_val) size direct in
    rw (going, e) refl

-- The target's abstract address once the source's is marked.
found_aa : Cf → ℕ → ℕ → ℕ → ℕ → ℕ
unfolding lend
found_aa s page index nf_page size =
    (mark_word (lend s nf_page) (source_aa s nf_page size) abort_compact_flag).mem
      (aa_field page index size)

do_compaction-once :
    (others : Cf → Cf) (s : Cf) (sc page index nf_page size : ℕ)
    → s.globals.incremental_memcpy ≡ 0
    → 0 < s.globals.memcpy_multiplicator
    → 0 < size
    → size < 2 ^ 31
    → do_compaction others s sc page index nf_page size
      ≡ some (
        do_free_source_state
            (moved s (block_at page index size) (found_aa s page index nf_page size) nf_page size)
            sc
            nf_page,
        0,
      )
unfolding do_compaction moved lend found_aa get_abstract_address_of_page_block copied
do_compaction-once others s sc page index nf_page size direct positive_rounds positive small =
    let aa = source_aa s nf_page size in
    let u = mark_word (lend s nf_page) aa abort_compact_flag in
    let src_index = next_index s nf_page in
    let m : Marks = record {
      target_part_field = partition_field page index size;
      target_block = block_at page index size;
      src_part_field = partition_field nf_page src_index size;
      src_block = block_at nf_page src_index size;
      target_aa = u.mem (aa_field page index size);
      target_aa_val = u.mem (u.mem (aa_field page index size));
    } in
    let c : Copying = record {
      heap = u;
      rem_size = size;
      dest = block_at page index size;
      src = source_block s nf_page size;
      aborted = false;
    } in
    let rounds : s.globals.memcpy_multiplicator ≡ suc (s.globals.memcpy_multiplicator - 1) =
      omega (arith, positive_rounds) in
    let once : copy_all others m s.globals.memcpy_multiplicator c ≡ copied c =
      ap (λ (n : ℕ). copy_all others m n c) rounds
      ∙ copy_all-direct others m (s.globals.memcpy_multiplicator - 1) c direct positive small in
    rw (choose_source-direct s sc nf_page size direct) (
      ap (λ (r : Copying). finish_compaction m sc nf_page aa size r) once
      ∙ finish-direct m sc nf_page aa size (copied c) refl direct)

twice :
    (f : ℕ → Page) (p : ℕ) (q : Page) (g : Page → Page)
    → update (update f p q) p (g (update f p q p)) ≡ update f p (g q)
twice f p q g = fun_ext (λ a. elim (Bool-cases (p == a)) [
  | inl e ↦ let self : (p == p) ≡ true = ground arith in rw (e, self) refl
  | inr e ↦ rw e refl
])

-- The source page once it has lent its lowest used block, which is no longer counted out.
abbrev pub lent_page : Page → Page
lent_page q = record (page_clear_used_bit q (find_used_page_block q)) {
  sourceentries = u32 (q.sourceentries + 2 ^ 32 - 1);
}

-- Without increments a compaction ends in filing the source page, of the pages the only one changed;
-- the rings and the size-classes are as before.
pub do_compaction-direct :
    (others : Cf → Cf) (s : Cf) (sc page index nf_page size : ℕ)
    → s.globals.incremental_memcpy ≡ 0
    → 0 < s.globals.memcpy_multiplicator
    → 0 < size
    → size < 2 ^ 31
    → (t : Cf) × (do_compaction others s sc page index nf_page size
        ≡ some (do_free_source_state t sc nf_page, 0))
      × IsKept
          (set_page s nf_page (lent_page (s.page nf_page)))
          (set_page s nf_page (lent_page (s.page nf_page))).page
          t
unfolding moved lend page_clear_used_bit
do_compaction-direct others s sc page index nf_page size direct rounds positive small =
    let target_aa = found_aa s page index nf_page size in
    (
      moved s (block_at page index size) target_aa nf_page size,
      do_compaction-once others s sc page index nf_page size direct rounds positive small,
      record {
        same_globals = refl;
        same_links = refl;
        same_classes = refl;
        same_pages =
            twice s.page nf_page (page_clear_used_bit (s.page nf_page) (next_index s nf_page))
              (λ q. record q { sourceentries = u32 (q.sourceentries + 2 ^ 32 - 1) });
      },
    )

one_more : (index size : ℕ) → (index + 1) * size ≡ index * size + size
one_more index size = omega arith

field_is_apart :
    (s : Cf) (page index nf_page size : ℕ)
    → IsMove s (block_at page index size) (s.mem (aa_field page index size)) nf_page size
    → source_aa s nf_page size ≢ aa_field page index size
field_is_apart s page index nf_page size h =
    let last : aa_field page index size ≡ block_at page index size + (size - 4) =
      omega (arith, h.positive, h.words, one_more index size) in
    λ e. ground (arith, h.not_target, h.positive, h.words, e, last)

found_aa-kept :
    (s : Cf) (page index nf_page size : ℕ)
    → source_aa s nf_page size ≢ aa_field page index size
    → found_aa s page index nf_page size ≡ s.mem (aa_field page index size)
unfolding found_aa lend
found_aa-kept s page index nf_page size apart = ground arith

-- What the words are once the block is moved.
moved_words :
    (s : Cf) (target target_aa nf_page size : ℕ)
    → IsMove s target target_aa nf_page size
    → ((i : ℕ)
        → i < size / 4
        → (moved s target target_aa nf_page size).mem (target + 4 * i)
          ≡ s.mem (source_block s nf_page size + 4 * i))
      × ((moved s target target_aa nf_page size).mem (source_aa s nf_page size) ≡ s.mem target_aa)
      × ((a : ℕ)
          → Outside a target size
          → a ≢ source_aa s nf_page size
          → (moved s target target_aa nf_page size).mem a ≡ s.mem a)
unfolding moved lend
moved_words s target target_aa nf_page size h =
    let aa = source_aa s nf_page size in
    let u = mark_word (lend s nf_page) aa abort_compact_flag in
    let src = source_block s nf_page size in
    let whole : 4 * (size / 4) ≡ size = omega (arith, h.words) in
    (
      λ i less.
          let copy =
            copy_words-copied (size / 4) target src u.mem i (ground (arith, whole, h.apart)) less in
          ground (arith, copy, less, whole, h.not_target, h.not_source),
      ground (arith, h.other_aa),
      λ a out other.
          let copy = copy_words-other (size / 4) target src u.mem a (ground (arith, whole, out)) in
          ground (arith, copy, other),
    )

-- A move without increments succeeds, whatever other threads do. Just before the source page is filed
-- by do_free_source_state, the target block holds the words of the source block, the source's
-- abstract address holds what the target's abstract address held, and every other word is as before.
-- Sizes are whole words, the blocks do not overlap, the source's abstract address is kept outside both
-- and is not that of the target, and memcpy_multiplicator is positive.
pub do_compaction-moves :
    (others : Cf → Cf) (s : Cf) (sc page index nf_page size : ℕ)
    → IsMove s (block_at page index size) (s.mem (aa_field page index size)) nf_page size
    → (t : Cf) × (do_compaction others s sc page index nf_page size
        ≡ some (do_free_source_state t sc nf_page, 0))
      × ((i : ℕ)
          → i < size / 4
          → t.mem (block_at page index size + 4 * i) ≡ s.mem (source_block s nf_page size + 4 * i))
      × (t.mem (source_aa s nf_page size) ≡ s.mem (s.mem (aa_field page index size)))
      × ((a : ℕ)
          → Outside a (block_at page index size) size
          → a ≢ source_aa s nf_page size
          → t.mem a ≡ s.mem a)
do_compaction-moves others s sc page index nf_page size h =
    let target = block_at page index size in
    let target_aa = s.mem (aa_field page index size) in
    let (block, aa, rest) = moved_words s target target_aa nf_page size h in
    let kept =
      found_aa-kept s page index nf_page size (field_is_apart s page index nf_page size h) in
    (
      moved s target target_aa nf_page size,
      do_compaction-once others s sc page index nf_page size h.direct h.rounds h.positive h.small
          ∙ ap
              (λ (a : ℕ). some (do_free_source_state (moved s target a nf_page size) sc nf_page, 0))
              kept,
      block,
      aa,
      rest,
    )

-- The state just before the source page is filed: the words, of the pages the source page, and
-- nothing of the thread or the stacks.
pub record IsMoved (s : Cf) (page index nf_page size : ℕ) (t : Cf) : Type 0 where
  pub block :
      (i : ℕ)
      → i < size / 4
      → t.mem (block_at page index size + 4 * i) ≡ s.mem (source_block s nf_page size + 4 * i)
  pub address : t.mem (source_aa s nf_page size) ≡ s.mem (s.mem (aa_field page index size))
  pub rest :
      (a : ℕ)
      → Outside a (block_at page index size) size
      → a ≢ source_aa s nf_page size
      → t.mem a ≡ s.mem a
  pub lent : t.page ≡ update s.page nf_page (lent_page (s.page nf_page))
  pub same_globals : t.globals ≡ s.globals
  pub same_classes : t.size_class ≡ s.size_class
  pub same_pages : page_places t ≡ page_places s
  pub same_aas : aa_places t ≡ aa_places s
  pub same_buckets : bucket_places t ≡ bucket_places s

pub do_compaction-IsMoved :
    (others : Cf → Cf) (s : Cf) (sc page index nf_page size : ℕ)
    → IsMove s (block_at page index size) (s.mem (aa_field page index size)) nf_page size
    → (t : Cf) × (do_compaction others s sc page index nf_page size
        ≡ some (do_free_source_state t sc nf_page, 0))
      × IsMoved s page index nf_page size t
unfolding moved lend page_clear_used_bit
do_compaction-IsMoved others s sc page index nf_page size h =
    let target = block_at page index size in
    let target_aa = s.mem (aa_field page index size) in
    let (block, aa, rest) = moved_words s target target_aa nf_page size h in
    let kept =
      found_aa-kept s page index nf_page size (field_is_apart s page index nf_page size h) in
    (
      moved s target target_aa nf_page size,
      do_compaction-once others s sc page index nf_page size h.direct h.rounds h.positive h.small
          ∙ ap
              (λ (a : ℕ). some (do_free_source_state (moved s target a nf_page size) sc nf_page, 0))
              kept,
      record {
        block = block;
        address = aa;
        rest = rest;
        lent =
            twice s.page nf_page (page_clear_used_bit (s.page nf_page) (next_index s nf_page))
              (λ q. record q { sourceentries = u32 (q.sourceentries + 2 ^ 32 - 1) });
        same_globals = refl;
        same_classes = refl;
        same_pages = refl;
        same_aas = refl;
        same_buckets = refl;
      },
    )
