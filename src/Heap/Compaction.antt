-- ===== src/Heap/Compaction.antt =====
-- do_compaction of cf.c: a used block of a source page moves into the freed block of a full page.
-- `others` is what other threads do where the lock of the size-class is given up between two
-- increments, and `none` a null pointer followed.
pub mod Loop
pub mod Move
use compact_fit.Base.{
  ℕ, zero, suc, ◌+◌, ◌-◌, ◌/◌, ◌^◌, bit_and, bit_or, Bool, false, not, ◌&&◌, Option, some, ◌==◌,
  if◌then◌else◌,
}
use compact_fit.Page.{u32, find_used_page_block, page_clear_used_bit}
use compact_fit.State.{Cf, int_lt, set_word, set_page}
use compact_fit.AbstractAddress.{◌>>=◌, clear_abstract_address}
use compact_fit.Classes.{do_free_source_state}
use compact_fit.Heap.{
  abort_compact_flag, abort_free_flag, get_page_direct_of_page_block, block_at, partition_field,
  get_abstract_address_of_page_block, is_incremental,
}

-- `memcpy` of a whole number of words.
pub copy_words : ℕ → ℕ → ℕ → (ℕ → ℕ) → ℕ → ℕ
copy_words zero dest src mem = mem
copy_words (suc n) dest src mem =
    copy_words n (dest + 4) (src + 4) (λ a. if dest == a then mem src else mem a)

-- `--p->sourceentries`
abbrev pub discount_pending : Cf → ℕ → Cf
discount_pending s p =
    let q = s.page p in
    set_page s p (record q { sourceentries = u32 (q.sourceentries + 2 ^ 32 - 1) })

-- `*a |= flag`
abbrev pub mark_word : Cf → ℕ → ℕ → Cf
mark_word s a flag = set_word s a (bit_or (s.mem a) flag)

-- The block to move: its page, its index there and its address.
pub record Source : Type 0 where
  pub src_page : ℕ
  pub src_index : ℕ
  pub src : ℕ

-- The source's block is itself the target of a compaction under way: that one is aborted, and its
-- source is moved instead.
pub redirect_source : Cf → ℕ → ℕ → ℕ → ℕ → Cf × Source
redirect_source s sc src_page part size =
    let src = s.mem part in
    let s1 =
      do_free_source_state
        (discount_pending (mark_word s (s.mem (part + 4)) abort_compact_flag) src_page) sc
        src_page in
    let page = get_page_direct_of_page_block src in
    (
      set_word s1 part 0,
      record { src_page = page; src_index = u32 (src + 2 ^ 32 - page) / size; src = src },
    )

pub choose_source : Cf → ℕ → ℕ → ℕ → Cf × Source
unfolding redirect_source
choose_source s sc src_page size =
    let src_index = find_used_page_block (s.page src_page) in
    let t = set_page s src_page (page_clear_used_bit (s.page src_page) src_index) in
    let part = partition_field src_page src_index size in
    if is_incremental t size && not (t.mem part == 0)
    then redirect_source t sc src_page part size
    else (
      t,
      record { src_page = src_page; src_index = src_index; src = block_at src_page src_index size },
    )

-- The addresses that the copying loop writes to or looks at, and the value it compares with.
pub record Marks : Type 0 where
  pub target_part_field : ℕ
  pub target_block : ℕ
  pub src_part_field : ℕ
  pub src_block : ℕ
  pub target_aa : ℕ
  pub target_aa_val : ℕ

-- The variables of the copying loop.
pub record Copying : Type 0 where
  pub heap : Cf
  pub rem_size : ℕ
  pub dest : ℕ
  pub src : ℕ
  pub aborted : Bool

pub cpy_size : Cf → ℕ → ℕ
cpy_size s rem_size =
    let inc = s.globals.incremental_memcpy in
    if inc == 0 then rem_size else if int_lt rem_size inc then rem_size else inc

-- The body of the inner loop.
pub copy_step : (Cf → Cf) → Marks → Copying → Copying
unfolding cpy_size
copy_step others m c =
    let n = cpy_size c.heap c.rem_size in
    let rem = u32 (c.rem_size + 2 ^ 32 - n) in
    let copied = record (c.heap) { mem = copy_words (n / 4) c.dest c.src c.heap.mem } in
    if int_lt 0 rem
    then (let t = others (
          set_word (set_word copied m.target_part_field m.src_block) m.src_part_field
            m.target_block) in
        record {
          heap = t;
          rem_size = rem;
          dest = c.dest + n;
          src = c.src + n;
          aborted = not (t.mem m.target_aa == m.target_aa_val);
        })
    else record c { heap = copied; rem_size = rem; dest = c.dest + n; src = c.src + n }

pub copy_on : Copying → Bool
copy_on c = int_lt 0 c.rem_size && not c.aborted

-- The inner loop, of at most as many rounds as the number given.
pub copy_loop : (Cf → Cf) → Marks → ℕ → Copying → Copying
unfolding copy_step copy_on
copy_loop others m zero c = c
copy_loop others m (suc n) c =
    let rest = copy_loop others m n (copy_step others m c) in if copy_on c then rest else c

-- The loop over `j`, of `memcpy_multiplicator` rounds.
pub copy_all : (Cf → Cf) → Marks → ℕ → Copying → Copying
unfolding copy_loop
copy_all others m zero c = c
copy_all others m (suc n) c =
    copy_all others m n (copy_loop others m c.rem_size (record c { aborted = false }))

-- After the loops: the moved block's abstract address gets its new place, or what an abort left is
-- cleared away.
pub finish_compaction : Marks → ℕ → ℕ → ℕ → ℕ → Copying → Option (Cf × ℕ)
finish_compaction m sc src_page src_aa size c =
    if c.aborted
    then (let word = c.heap.mem m.target_aa in
        if not (bit_and word abort_compact_flag == 0)
        then clear_abstract_address c.heap m.target_aa >>= (λ t. some (t, abort_compact_flag))
        else if not (bit_and word abort_free_flag == 0)
        then clear_abstract_address c.heap m.target_aa >>= (λ t. some (t, abort_free_flag))
        else some (c.heap, 0))
    else (let t = set_word c.heap src_aa m.target_aa_val in
        let t' = if is_incremental t size then set_word t m.target_part_field 0 else t in
        some (do_free_source_state (discount_pending t' src_page) sc src_page, 0))

pub do_compaction : (Cf → Cf) → Cf → ℕ → ℕ → ℕ → ℕ → ℕ → Option (Cf × ℕ)
do_compaction others s sc target_page target_index nf_page size =
    let (t, source) = choose_source s sc nf_page size in
    let src_aa = get_abstract_address_of_page_block t source.src_page source.src_index size in
    let u = mark_word t src_aa abort_compact_flag in
    let target_aa = get_abstract_address_of_page_block u target_page target_index size in
    let m : Marks = record {
      target_part_field = partition_field target_page target_index size;
      target_block = block_at target_page target_index size;
      src_part_field = partition_field source.src_page source.src_index size;
      src_block = block_at source.src_page source.src_index size;
      target_aa = target_aa;
      target_aa_val = u.mem target_aa;
    } in
    finish_compaction m sc source.src_page src_aa size (
      copy_all others m u.globals.memcpy_multiplicator (record {
        heap = u;
        rem_size = size;
        dest = block_at target_page target_index size;
        src = source.src;
        aborted = false;
      }))
