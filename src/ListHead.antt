-- ===== src/ListHead.antt =====
-- list.h: circular doubly linked lists. The two pointers of every `struct list_head` are held by
-- address, in two maps.
pub mod Ring
pub mod Insert
pub mod Delete
pub mod Shelf
pub mod Without
use compact_fit.Base.{ℕ, Bool, ◌==◌, if◌then◌else◌, update}

pub record Links : Type 0 where
  pub next : ℕ → ℕ
  pub prev : ℕ → ℕ

abbrev pub list_poison1 : ℕ
list_poison1 = 0x0010_0100

abbrev pub list_poison2 : ℕ
list_poison2 = 0x0020_0200

abbrev set_next : Links → ℕ → ℕ → Links
set_next l p q = record l { next = update l.next p q }

abbrev set_prev : Links → ℕ → ℕ → Links
set_prev l p q = record l { prev = update l.prev p q }

unfoldable pub init_list_head : Links → ℕ → Links
init_list_head l ptr = set_prev (set_next l ptr ptr) ptr ptr

-- `__list_add`
pub add_between : Links → ℕ → ℕ → ℕ → Links
add_between l new prev next =
    set_next (set_prev (set_next (set_prev l next new) new next) new prev) prev new

pub list_add : Links → ℕ → ℕ → Links
unfolding add_between
list_add l head new = add_between l new head (l.next head)

pub list_add_tail : Links → ℕ → ℕ → Links
unfolding add_between
list_add_tail l head new = add_between l new (l.prev head) head

-- `__list_del`
pub unlink : Links → ℕ → ℕ → Links
unlink l prev next = set_next (set_prev l next prev) prev next

pub list_del : Links → ℕ → Links
unfolding unlink
list_del l entry =
    set_prev (set_next (unlink l (l.prev entry) (l.next entry)) entry list_poison1) entry
      list_poison2

pub list_del_init : Links → ℕ → Links
unfolding unlink init_list_head
list_del_init l entry = init_list_head (unlink l (l.prev entry) (l.next entry)) entry

-- The two arguments of the second call stand in this order in the source.
pub list_move : Links → ℕ → ℕ → Links
unfolding unlink list_add
list_move l head list = list_add (unlink l (l.prev list) (l.next list)) list head

pub list_move_tail : Links → ℕ → ℕ → Links
unfolding unlink list_add_tail
list_move_tail l head list = list_add_tail (unlink l (l.prev list) (l.next list)) list head

unfoldable pub list_empty : Links → ℕ → Bool
list_empty l head = l.next head == head

-- `__list_splice`
pub splice_between : Links → ℕ → ℕ → Links
splice_between l head list =
    let first = l.next list in
    let last = l.prev list in
    let at = l.next head in
    set_prev (set_next (set_next (set_prev l first head) head first) last at) at last

pub list_splice : Links → ℕ → ℕ → Links
unfolding splice_between list_empty
list_splice l head list = if list_empty l list then l else splice_between l list head

pub list_splice_init : Links → ℕ → ℕ → Links
unfolding splice_between list_empty init_list_head
list_splice_init l head list =
    if list_empty l list then l else init_list_head (splice_between l list head) list
