-- ===== src/AbstractAddress/Starts.antt =====
-- init_free_aa_list of cf.c changes words and stacks alone.
use compact_fit.Base.{ℕ, zero, suc, ◌+◌, ◌-◌, ◌*◌, ◌/◌, ◌%◌, ◌==◌, Bool, true, false, if◌then◌else◌}
use compact_fit.NbStack.{nb_stack_initializer}
use compact_fit.State.{Cf, set_word}
use compact_fit.State.Kept.{IsKept, itself, through}
use compact_fit.State.Stacks.{aa_put}
use compact_fit.AbstractAddress.{init_loop, init_free_aa_list, aa_cell, local_aas_of}

linked-IsKept :
    (s : Cf) (b : Bool) (bucket a v w : ℕ)
    → IsKept s s.page (if b then aa_put (set_word s a v) bucket bucket else set_word s w v)
unfolding aa_put
linked-IsKept s true bucket a v w = itself _
linked-IsKept s false bucket a v w = itself _

init_loop-IsKept : (n i : ℕ) (s : Cf) → IsKept s s.page (init_loop n i s)
unfolding init_loop
init_loop-IsKept zero i s = itself s
init_loop-IsKept (suc n) i s =
    let g = s.globals in
    let bucket = g.aa_buckets + 8 * ((i - 1) / g.nr_local_aas) in
    let t =
      if i % g.nr_local_aas == 0
      then aa_put (set_word s (local_aas_of bucket) (i - 1)) bucket bucket
      else set_word s (aa_cell s i) (i - 1) in
    through s t (init_loop (suc n) i s)
      (linked-IsKept s (i % g.nr_local_aas == 0) bucket (local_aas_of bucket) (i - 1) (aa_cell s i))
      (init_loop-IsKept n (i + 1) t)

pub init_free_aa_list-IsKept : (s : Cf) → IsKept s s.page (init_free_aa_list s)
unfolding init_free_aa_list
init_free_aa_list-IsKept s =
    init_loop-IsKept s.globals.nr_aas 1 (record s {
      free_aa_head = nb_stack_initializer;
      free_aa_buckets_head = nb_stack_initializer;
    })
