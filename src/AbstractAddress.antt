-- ===== src/AbstractAddress.antt =====
-- The abstract address space of cf.c: free addresses cached by the thread, in a list of up to
-- `nr_local_aas` linked through the space itself and in full buckets, before a shared stack of
-- buckets. `none` is a null pointer followed.
pub mod Lifo
pub mod Keeps
pub mod Starts
pub mod Gives
pub mod Pool
use compact_fit.Base.{
  ℕ, zero, suc, ◌+◌, ◌-◌, ◌*◌, ◌/◌, ◌%◌, ◌^◌, Bool, true, false, ◌&&◌, Option, none, some, ◌==◌,
  leb, ltb, if◌then◌else◌,
}
use compact_fit.Page.{u32}
use compact_fit.NbStack.{nb_stack_initializer}
use compact_fit.State.{Cf, ThreadData, null, set_word}
use compact_fit.State.Stacks.{aa_put, aa_get, aa_bucket_put, aa_bucket_get}

infixl 5 ◌>>=◌
abbrev pub ◌>>=◌ : {A B : Type 0} → Option A → (A → Option B) → Option B
none >>= f = none
some a >>= f = f a

-- The words of a `struct mem_aa` and of a `struct mem_aa_bucket`, which share their storage.
abbrev pub next_of : ℕ → ℕ
next_of maa = maa

abbrev pub local_aas_of : ℕ → ℕ
local_aas_of maa = maa + 4

-- `&aa_space[id]`
abbrev pub aa_cell : Cf → ℕ → ℕ
aa_cell s id = s.globals.aa_space + 4 * id

abbrev set_thread : Cf → ThreadData → Cf
set_thread s d = record s { thread = d }

-- The result -1 of `get_free_aa`.
abbrev pub no_aa : ℕ
no_aa = 2 ^ 32 - 1

-- If the thread has no free bucket it takes one from the shared stack, and follows it in any case.
pub need_free_bucket : Cf → Option Cf
need_free_bucket s =
    if s.thread.free_abuckets_count == 0
    then (let (t, bucket) = aa_bucket_get s in
        if bucket == null
        then none
        else some (
            set_thread t (record (t.thread) {
              free_abuckets = bucket;
              free_abuckets_count = t.globals.nr_local_free_abuckets;
            })))
    else some s

-- The thread's full list goes into its first free bucket. As in cf.c a bucket that the thread already
-- had is not tested for null.
pub install_bucket : Cf → Cf
install_bucket s =
    let d = s.thread in
    let maa = d.free_abuckets in
    let free = s.mem (local_aas_of maa) in
    let linked = set_word (set_word s (next_of maa) d.abuckets) (local_aas_of maa) d.aas in
    let count = u32 (d.abuckets_count + 1) in
    set_thread linked (record d {
      free_abuckets = free;
      free_abuckets_count = u32 (d.free_abuckets_count + 2 ^ 32 - 1);
      abuckets = maa;
      abuckets_count = count;
      aas_count = 0;
      last_abucket = if count == 1 then maa else d.last_abucket;
    })

pub return_buckets : Cf → Cf
return_buckets s =
    let d = s.thread in
    if leb s.globals.nr_local_abuckets d.abuckets_count
    then set_thread (aa_put s d.abuckets d.last_abucket)
        (record d { abuckets_count = 0; abuckets = null; last_abucket = null })
    else s

-- The end of `put_free_aa`: the address becomes the head of the list.
pub push_aa : Cf → ℕ → Cf
push_aa s id =
    let d = s.thread in
    let linked = if d.aas_count == 0 then s else set_word s (aa_cell s id) d.aas in
    set_thread linked (record d { aas = id; aas_count = u32 (d.aas_count + 1) })

pub put_free_aa : Cf → ℕ → Option Cf
unfolding need_free_bucket install_bucket return_buckets push_aa
put_free_aa s id =
    if s.thread.aas_count == s.globals.nr_local_aas
    then need_free_bucket s >>= (λ t. some (push_aa (return_buckets (install_bucket t)) id))
    else some (push_aa s id)

-- A bucket's addresses become the thread's list, and the bucket a free one.
pub open_bucket : Cf → ℕ → Cf
open_bucket s maa =
    let d = record (s.thread) {
      aas = s.mem (local_aas_of maa);
      aas_count = s.globals.nr_local_aas;
    } in
    let s1 =
      if leb s.globals.nr_local_free_abuckets d.free_abuckets_count
      then set_thread (aa_bucket_put s d.free_abuckets d.free_abuckets)
          (record d { free_abuckets = null; free_abuckets_count = 0 })
      else set_thread s d in
    let d1 = s1.thread in
    set_thread (set_word s1 (local_aas_of maa) d1.free_abuckets)
      (record d1 { free_abuckets = maa; free_abuckets_count = u32 (d1.free_abuckets_count + 1) })

-- The end of `get_free_aa`: the head of the list.
unfoldable pub pop_aa : Cf → Cf × ℕ
pop_aa s =
    let d = s.thread in
    let next = d.aas in
    (
      set_thread s
          (record d { aas = s.mem (aa_cell s next); aas_count = u32 (d.aas_count + 2 ^ 32 - 1) }),
      next,
    )

-- `get_free_aa`: the state and the address, `no_aa` if there is none.
unfoldable pub get_free_aa : Cf → Cf × ℕ
unfolding open_bucket pop_aa
get_free_aa s =
    let d = s.thread in
    if d.aas_count == 0
    then if d.abuckets_count == 0
      then (let (t, maa) = aa_get s in
          if maa == null then (t, no_aa) else pop_aa (open_bucket t maa))
      else pop_aa (
          open_bucket
            (set_thread s (record d {
              abuckets = s.mem (next_of d.abuckets);
              abuckets_count = u32 (d.abuckets_count + 2 ^ 32 - 1);
            }))
            d.abuckets)
    else pop_aa s

-- The loop of `init_free_aa_list` from address `i`.
init_loop : ℕ → ℕ → Cf → Cf
init_loop zero i s = s
init_loop (suc n) i s =
    let g = s.globals in
    let bucket = g.aa_buckets + 8 * ((i - 1) / g.nr_local_aas) in
    init_loop n (i + 1) (
      if i % g.nr_local_aas == 0
      then aa_put (set_word s (local_aas_of bucket) (i - 1)) bucket bucket
      else set_word s (aa_cell s i) (i - 1))

pub init_free_aa_list : Cf → Cf
unfolding init_loop
init_free_aa_list s =
    init_loop s.globals.nr_aas 1 (record s {
      free_aa_head = nb_stack_initializer;
      free_aa_buckets_head = nb_stack_initializer;
    })

-- `get_abstract_address`: null if there is no free address.
unfoldable pub get_abstract_address : Cf → ℕ → Cf × ℕ
get_abstract_address s page_block =
    let (t, free_id) = get_free_aa s in
    if ltb free_id (2 ^ 31) && ltb free_id t.globals.nr_aas
    then (set_word t (aa_cell t free_id) page_block, aa_cell t free_id)
    else (t, null)

-- The id is a difference of pointers to words.
unfoldable pub clear_abstract_address : Cf → ℕ → Option Cf
clear_abstract_address s aa = put_free_aa s ((aa + 2 ^ 32 - s.globals.aa_space) % 2 ^ 32 / 4)
