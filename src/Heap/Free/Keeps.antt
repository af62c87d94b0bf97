-- ===== src/Heap/Free/Keeps.antt =====
-- A free in cf.c keeps the state of the size-classes and pages, whatever its case.
use compact_fit.Base.{
  ℕ, ◌+◌, ◌^◌, ◌<◌, ◌≤◌, ◌≡◌, refl, ◌∙◌, arith, true, false, ◌==◌, Bool, Bool-cases, inl, inr, List,
  [], ◌∷◌, some,
}
use compact_fit.Page.{is_page_full}
use compact_fit.Page.Blocks.{used}
use compact_fit.ListHead.Ring.{has}
use compact_fit.ListHead.Without.{length}
use compact_fit.State.{Cf, head_full_pages, head_nfull_pages, list_of_page}
use compact_fit.Classes.{compaction_on, valid_nfull_pages_ratio}
use compact_fit.Classes.Counters.{nfull, in_full_state-nfull, valid_nfull_pages_ratio-below}
use compact_fit.Heap.{do_free, do_free_full_state, do_free_nfull_state}
use compact_fit.Heap.Free.{free_in_full, free_in_nfull, free_block}
use compact_fit.Heap.Free.Bound.{not_moving}
use compact_fit.Heap.Free.Local.{do_free_full_state-IsHeap, do_free_nfull_state-IsHeap}
use compact_fit.Heap.Free.Compacts.{compact_into-IsHeap, no_source_listed}
use compact_fit.Heap.Invariant.{IsHeap, IsListed}

listed_length : (x : ℕ) (xs : List ℕ) → has x xs ≡ true → 0 < length xs
listed_length x [] i = cc
listed_length x (y ∷ ys) i = omega arith

module _ (s : Cf) (classes : ℕ → Bool) (ring : ℕ → List ℕ) (heap : IsHeap s classes ring) (sc : ℕ)
    (here : classes sc ≡ true) where
  pub compacts : compaction_on s sc ≡ true
  unfolding compaction_on
  compacts = let set = heap.set sc here in ground (arith, set.bound_int)

  -- The counter is the length of the ring, which the bound keeps far below 2 ^ 32.
  pub nfull-length : nfull s sc ≡ length (ring (head_nfull_pages sc))
  nfull-length =
      let n = (heap.filed.counts sc here).nfull in
      let set = heap.set sc here in omega (arith, n, heap.bounded sc here, set.bound_int)

  room_below :
      valid_nfull_pages_ratio s sc 1 ≡ true
      → length (ring (head_nfull_pages sc)) + 1 ≤ (s.size_class sc).partial_compaction_bound
  room_below valid =
      let set = heap.set sc here in
      let small : nfull s sc + 1 < 2 ^ 32 =
        omega (arith, nfull-length, heap.bounded sc here, set.bound_int) in
      omega (arith, nfull-length, valid_nfull_pages_ratio-below s sc small valid)

  module _ (p index : ℕ) (small : index < 1024) (taken : used (s.page p) index ≡ true)
      (listed : IsListed ring sc p) where
    full_page :
        is_page_full (s.page p) (s.size_class sc).block_size ≡ true
        → has (list_of_page p) (ring (head_full_pages sc)) ≡ true
    unfolding is_page_full
    full_page full = elim listed [
      | inl i ↦ i
      | inr i ↦
          let partly = heap.partly sc p here i in absurd (ground (arith, partly.some_free, full))
    ]

    partly_page :
        is_page_full (s.page p) (s.size_class sc).block_size ≡ false
        → has (list_of_page p) (ring (head_nfull_pages sc)) ≡ true
    unfolding is_page_full
    partly_page room = elim listed [
      | inl i ↦ let full = heap.full sc p here i in absurd (ground (arith, full.all_used, room))
      | inr i ↦ i
    ]

    do_free-IsHeap :
        valid_nfull_pages_ratio s sc 1 ≡ true
        → (ring' : ℕ → List ℕ) × IsHeap
            (do_free s sc p (s.size_class sc).block_size index)
            classes
            ring'
    unfolding do_free
    do_free-IsHeap valid =
        elim (Bool-cases (is_page_full (s.page p) (s.size_class sc).block_size)) [
          | inl full ↦ rw full (
              do_free_full_state-IsHeap s classes ring heap sc p here index small taken
                (full_page full) (room_below valid))
          | inr room ↦ rw room (
              do_free_nfull_state-IsHeap s classes ring heap sc p here index small taken
                (partly_page room))
        ]

    free_in_nfull-IsHeap :
        (others : Cf → Cf) (address : ℕ)
        → 0 < nfull s sc
        → (t : Cf) × (ring' : ℕ → List ℕ) × (free_in_nfull others s sc p
              (s.size_class sc).block_size
              index
              address
            ≡ some (t, 0))
          × IsHeap t classes ring'
    unfolding free_in_nfull
    free_in_nfull-IsHeap others address some_listed =
        let size = (s.size_class sc).block_size in
        let set = heap.set sc here in
        let still = not_moving s p index size heap.direct in
        elim (Bool-cases (valid_nfull_pages_ratio s sc 1)) [
          | inl valid ↦
              let (ring', after) = do_free-IsHeap valid in
              (do_free s sc p size index, ring', rw (still, valid) refl, after)
          | inr invalid ↦ elim (Bool-cases (is_page_full (s.page p) size)) [
            | inl full ↦
                let (t, ring', runs, after) =
                  compact_into-IsHeap s classes ring heap sc here others p index size
                    (omega (arith, set.least)) (omega (arith, set.most))
                    (omega (arith, nfull-length, some_listed)) in
                (t, ring', rw (still, invalid, full) runs, after)
            | inr room ↦
                let (ring', after) =
                  do_free_nfull_state-IsHeap s classes ring heap sc p here index small taken
                    (partly_page room) in
                (do_free_nfull_state s sc p index, ring', rw (still, invalid, room) refl, after)
          ]
        ]

    -- On a heap that satisfies the invariant, freeing a used block, at an index below 1024 of a page
    -- that its size-class lists as full or as not full, succeeds, is not aborted, and leaves a heap that
    -- satisfies the invariant, in whichever of the states the size-class and the page are.
    pub free_block-IsHeap :
        (others : Cf → Cf) (address : ℕ)
        → (t : Cf) × (ring' : ℕ → List ℕ) × (free_block others s sc p
              (s.size_class sc).block_size
              index
              address
            ≡ some (t, 0))
          × IsHeap t classes ring'
    unfolding free_block free_in_full
    free_block-IsHeap others address =
        let size = (s.size_class sc).block_size in
        let set = heap.set sc here in
        let state = in_full_state-nfull s sc (no_source_listed s classes ring heap sc here) in
        elim (Bool-cases (nfull s sc == 0)) [
          | inl none_listed ↦
              let empty : length (ring (head_nfull_pages sc)) ≡ 0 = ground (arith, nfull-length) in
              let on_full : has (list_of_page p) (ring (head_full_pages sc)) ≡ true = elim listed [
                | inl i ↦ i
                | inr i ↦ absurd (
                    omega
                      (arith, listed_length (list_of_page p) (ring (head_nfull_pages sc)) i, empty))
              ] in
              let (ring', after) =
                do_free_full_state-IsHeap s classes ring heap sc p here index small taken on_full
                  (omega (arith, empty, set.bound_positive)) in
              (
                do_free_full_state s sc p index,
                ring',
                rw (compacts, state ∙ none_listed, not_moving s p index size heap.direct) refl,
                after,
              )
          | inr some_listed ↦
              let (t, ring', runs, after) = free_in_nfull-IsHeap others address (ground arith) in
              (t, ring', rw (compacts, state ∙ some_listed) runs, after)
        ]
