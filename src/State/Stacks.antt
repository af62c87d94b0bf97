-- ===== src/State/Stacks.antt =====
-- page_stack.c, aa_stack.c and aa_bucket_stack.c: the three stacks over the words of the state.
-- Under the global lock nobody disturbs them.
use compact_fit.Base.{ℕ, []}
use compact_fit.NbStack.{Store, page_format, aa_format, nb_stack_put, nb_stack_get, nb_stack_peek}
use compact_fit.State.{Cf}

abbrev pub store_of : Cf → ℕ → Store
store_of s head = record { mem = s.mem; stack = head }

unfoldable pub page_put : Cf → ℕ → ℕ → Cf
page_put s p last =
    let t = nb_stack_put page_format [] (store_of s s.free_page_head) p last in
    record s { mem = t.mem; free_page_head = t.stack }

unfoldable pub page_get : Cf → Cf × ℕ
page_get s =
    let (t, p) = nb_stack_get page_format [] (store_of s s.free_page_head) in
    (record s { mem = t.mem; free_page_head = t.stack }, p)

unfoldable pub page_peek : Cf → ℕ
page_peek s = nb_stack_peek page_format (store_of s s.free_page_head)

unfoldable pub aa_put : Cf → ℕ → ℕ → Cf
aa_put s aa aa_last =
    let t = nb_stack_put aa_format [] (store_of s s.free_aa_head) aa aa_last in
    record s { mem = t.mem; free_aa_head = t.stack }

unfoldable pub aa_get : Cf → Cf × ℕ
aa_get s =
    let (t, p) = nb_stack_get aa_format [] (store_of s s.free_aa_head) in
    (record s { mem = t.mem; free_aa_head = t.stack }, p)

unfoldable pub aa_peek : Cf → ℕ
aa_peek s = nb_stack_peek aa_format (store_of s s.free_aa_head)

unfoldable pub aa_bucket_put : Cf → ℕ → ℕ → Cf
aa_bucket_put s aa aa_last =
    let t = nb_stack_put aa_format [] (store_of s s.free_aa_buckets_head) aa aa_last in
    record s { mem = t.mem; free_aa_buckets_head = t.stack }

unfoldable pub aa_bucket_get : Cf → Cf × ℕ
aa_bucket_get s =
    let (t, p) = nb_stack_get aa_format [] (store_of s s.free_aa_buckets_head) in
    (record s { mem = t.mem; free_aa_buckets_head = t.stack }, p)

unfoldable pub aa_bucket_peek : Cf → ℕ
aa_bucket_peek s = nb_stack_peek aa_format (store_of s s.free_aa_buckets_head)
