-- ===== src/Heap/Free/Bound.antt =====
-- The partial compaction bound of cf.c: how many pages of a size-class are not full after a free.
use compact_fit.Base.{
  ℕ, ◌+◌, ◌-◌, ◌^◌, ◌<◌, ◌≤◌, ◌≡◌, refl, ap, ◌∙◌, inl, inr, arith, Bool-cases, true, false, ◌==◌,
  some,
}
use compact_fit.Page.{free_used_page_block, is_page_full}
use compact_fit.ListHead.{list_empty}
use compact_fit.State.{Cf, Globals, set_page, head_source_pages}
use compact_fit.Classes.{
  compaction_on, get_source_page, valid_nfull_pages_ratio, do_free_source_state,
  remove_page_from_nfull_list, remove_page_from_full_list, remove_page_from_source_list,
}
use compact_fit.Classes.Counters.{
  nfull, add_nfull, remove_nfull, remove_full, remove_source, add_emptying, add_free,
  do_free_source_state-nfull, get_source_page-nfull, get_source_page-globals, in_full_state-nfull,
  valid_nfull_pages_ratio-below,
}
use compact_fit.Heap.{
  do_free, do_free_full_state, do_free_nfull_state, check_for_concurrent_compaction,
}
use compact_fit.Heap.Compaction.Move.{do_compaction-direct}
use compact_fit.Heap.Free.{is_moving, free_in_full, compact_into, free_in_nfull, free_block}

-- `free_used_page_block` on the page at p.
abbrev freed : Cf → ℕ → ℕ → Cf
freed s p index = set_page s p (free_used_page_block (s.page p) index)

do_free_full_state-nfull :
    (s : Cf) (sc p index : ℕ)
    → nfull s sc + 1 < 2 ^ 32
    → nfull (do_free_full_state s sc p index) sc ≤ nfull s sc + 1
unfolding do_free_full_state
do_free_full_state-nfull s sc p index small =
    let t = remove_page_from_full_list (freed s p index) sc p in
    let kept : nfull t sc ≡ nfull s sc = remove_full (freed s p index) sc p in
    ground (arith, kept, add_free t sc p, add_nfull t sc p)

do_free_nfull_state-nfull :
    (s : Cf) (sc p index : ℕ)
    → 0 < nfull s sc
    → nfull s sc < 2 ^ 32
    → nfull (do_free_nfull_state s sc p index) sc ≤ nfull s sc
unfolding do_free_nfull_state
do_free_nfull_state-nfull s sc p index positive small =
    let t = freed s p index in
    let emptied = add_free (remove_page_from_nfull_list t sc p) sc p in
    let lending = add_emptying (remove_page_from_source_list t sc p) sc p in
    ground (arith, emptied, lending, remove_nfull t sc p, remove_source t sc p)

do_free-nfull :
    (s : Cf) (sc p size index : ℕ)
    → 0 < nfull s sc
    → nfull s sc + 1 < 2 ^ 32
    → nfull (do_free s sc p size index) sc ≤ nfull s sc + 1
unfolding do_free
do_free-nfull s sc p size index positive small = ground (
  arith,
  do_free_full_state-nfull s sc p index small,
  do_free_nfull_state-nfull s sc p index positive (omega arith),
)

-- A compaction takes a page from the not-full list before it may put one back.
compact_into-nfull :
    (others : Cf → Cf) (s : Cf) (sc page index size : ℕ)
    → s.globals.incremental_memcpy ≡ 0
    → 0 < s.globals.memcpy_multiplicator
    → 0 < size
    → size < 2 ^ 31
    → list_empty s.links (head_source_pages sc) ≡ true
    → 0 < nfull s sc
    → nfull s sc < 2 ^ 32
    → (t : Cf) × (compact_into others s sc page index size ≡ some (t, 0))
      × (nfull t sc ≤ nfull s sc)
unfolding compact_into
compact_into-nfull others s sc page index size direct rounds positive small empty listed bounded =
    let (s1, nf_page) = get_source_page s sc in
    let globals = get_source_page-globals s sc empty in
    let direct1 : s1.globals.incremental_memcpy ≡ 0 =
      ap (λ g. g.incremental_memcpy) globals ∙ direct in
    let rounds1 : 0 < s1.globals.memcpy_multiplicator =
      omega (arith, ap (λ (g : Globals). g.memcpy_multiplicator) globals) in
    let (t, runs, same) =
      do_compaction-direct others s1 sc page index nf_page size direct1 rounds1 positive small in
    let less : nfull s1 sc ≡ nfull s sc - 1 = get_source_page-nfull s sc empty listed bounded in
    let kept : nfull t sc ≡ nfull s1 sc = ap (λ c. (c sc).nfullentries) same.same_classes in
    let filed = do_free_source_state-nfull t sc nf_page (omega arith) in
    (do_free_source_state t sc nf_page, runs, omega arith)

-- A size-class between two operations of the configuration without increments: compaction is on, no
-- page is a source, and at most k pages are not full, where k is positive.
pub record IsBounded (s : Cf) (sc size : ℕ) : Type 0 where
  pub direct : s.globals.incremental_memcpy ≡ 0
  pub rounds : 0 < s.globals.memcpy_multiplicator
  pub positive : 0 < size
  pub small : size < 2 ^ 31
  pub on : compaction_on s sc ≡ true
  pub sources : list_empty s.links (head_source_pages sc) ≡ true
  pub bound_positive : 0 < (s.size_class sc).partial_compaction_bound
  pub bound_int : (s.size_class sc).partial_compaction_bound < 2 ^ 31
  pub bounded : nfull s sc ≤ (s.size_class sc).partial_compaction_bound

pub not_moving :
    (s : Cf) (p index size : ℕ)
    → s.globals.incremental_memcpy ≡ 0
    → is_moving s (check_for_concurrent_compaction s p index size) ≡ false
unfolding is_moving check_for_concurrent_compaction
not_moving s p index size direct =
    let e : (s.globals.incremental_memcpy == 0) ≡ true = ground arith in rw e refl

free_in_nfull-nfull :
    (others : Cf → Cf) (s : Cf) (sc page size index address : ℕ)
    → IsBounded s sc size
    → 0 < nfull s sc
    → (t : Cf) × (free_in_nfull others s sc page size index address ≡ some (t, 0))
      × (nfull t sc ≤ (s.size_class sc).partial_compaction_bound)
unfolding free_in_nfull
free_in_nfull-nfull others s sc page size index address h listed =
    let still = not_moving s page index size h.direct in
    elim (Bool-cases (valid_nfull_pages_ratio s sc 1)) [
      | inl valid ↦
          let room =
            valid_nfull_pages_ratio-below s sc (omega (arith, h.bounded, h.bound_int)) valid in
          (
            do_free s sc page size index,
            rw (still, valid) refl,
            omega (
              arith,
              room,
              h.bound_int,
              do_free-nfull s sc page size index listed (omega (arith, room, h.bound_int)),
            ),
          )
      | inr invalid ↦ elim (Bool-cases (is_page_full (s.page page) size)) [
        | inl full ↦
            let (t, runs, fewer) =
              compact_into-nfull others s sc page index size h.direct h.rounds h.positive h.small
                h.sources listed (omega (arith, h.bounded, h.bound_int)) in
            (t, rw (still, invalid, full) runs, omega (arith, fewer, h.bounded))
        | inr room ↦
            let fewer =
              do_free_nfull_state-nfull s sc page index listed
                (omega (arith, h.bounded, h.bound_int)) in
            (
              do_free_nfull_state s sc page index,
              rw (still, invalid, room) refl,
              omega (arith, fewer, h.bounded),
            )
      ]
    ]

-- Without increments a free succeeds, is not aborted, and keeps the partial compaction bound: started
-- with at most k not-full pages in the size-class and no source page, whichever of the states the
-- size-class and the page are in, it leaves at most k not-full pages. Compaction is on, k and
-- memcpy_multiplicator are positive, and so is the size, which is below 2 ^ 31.
pub free_block-nfull :
    (others : Cf → Cf) (s : Cf) (sc page size index address : ℕ)
    → IsBounded s sc size
    → (t : Cf) × (free_block others s sc page size index address ≡ some (t, 0))
      × (nfull t sc ≤ (s.size_class sc).partial_compaction_bound)
unfolding free_block free_in_full
free_block-nfull others s sc page size index address h =
    let state = in_full_state-nfull s sc h.sources in
    elim (Bool-cases (nfull s sc == 0)) [
      | inl none_listed ↦
          let one = do_free_full_state-nfull s sc page index (ground arith) in
          (
            do_free_full_state s sc page index,
            rw (h.on, state ∙ none_listed, not_moving s page index size h.direct) refl,
            ground (arith, one, h.bound_positive),
          )
      | inr listed ↦
          let (t, runs, kept) =
            free_in_nfull-nfull others s sc page size index address h (ground arith) in
          (t, rw (h.on, state ∙ listed) runs, kept)
    ]
