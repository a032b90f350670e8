-- ===== src/Queue.antt =====
-- src/colinux/common/queue.c over the doubly linked lists of src/colinux/common/list.h. A pointer
-- is a number, and the links of every `co_list_t` are in the heap; an item is the address of its
-- node, and its data stand behind the node.
pub mod Ring
pub mod View
pub mod Flush
mod Tests
use colinux_64bit.Base.{
  ℕ, zero, suc, ◌+◌, ◌-◌, ◌%◌, ◌^◌, Bool, true, false, List, [], ◌∷◌, ◌==◌, if◌then◌else◌, Option,
  none, some,
}
use colinux_64bit.Rc.{Rc, ok, error}
use colinux_64bit.Arch.{word}

-- The links of all nodes: `co_list_t`.
pub record Links : Type 0 where
  pub next : ℕ → ℕ
  pub prev : ℕ → ℕ

-- `p->next = q` and `p->prev = q`
abbrev pub put : (ℕ → ℕ) → ℕ → ℕ → ℕ → ℕ
put f p q x = if x == p then q else f x

unfoldable pub set_next : ℕ → ℕ → Links → Links
set_next p q s = record s { next = put s.next p q }

unfoldable pub set_prev : ℕ → ℕ → Links → Links
set_prev p q s = record s { prev = put s.prev p q }

-- `co_list_init`, `co_list_add`, `co_list_add_head`, `co_list_add_tail`
unfoldable pub list_init : ℕ → Links → Links
list_init list s = set_prev list list (set_next list list s)

unfoldable pub list_add : ℕ → ℕ → ℕ → Links → Links
list_add new prev next s =
    set_next prev new (set_prev new prev (set_next new next (set_prev next new s)))

unfoldable pub list_add_head : ℕ → ℕ → Links → Links
list_add_head new head s = list_add new head (s.next head) s

unfoldable pub list_add_tail : ℕ → ℕ → Links → Links
list_add_tail new head s = list_add new (s.prev head) head s

-- `co_list_unlink`, `co_list_del`
unfoldable pub list_unlink : ℕ → ℕ → Links → Links
list_unlink prev next s = set_next prev next (set_prev next prev s)

unfoldable pub list_del : ℕ → Links → Links
list_del entry s = list_unlink (s.prev entry) (s.next entry) s

-- `co_queue_t`: the address of its head, and the count; with the links of the heap.
pub record Queue : Type 0 where
  pub head : ℕ
  pub items_count : ℕ
  pub links : Links

-- `co_queue_init`
unfoldable pub queue_init : ℕ → Links → Queue
queue_init head s = record { head = head; items_count = 0; links = list_init head s }

-- `co_queue_add_head`, `co_queue_add_tail`
unfoldable pub queue_add_head : Queue → ℕ → Queue
queue_add_head q item = record q {
  links = list_add_head item q.head q.links;
  items_count = (q.items_count + 1) % word;
}

unfoldable pub queue_add_tail : Queue → ℕ → Queue
queue_add_tail q item = record q {
  links = list_add_tail item q.head q.links;
  items_count = (q.items_count + 1) % word;
}

-- `co_queue_get_tail`, which `co_queue_peek_tail` repeats
unfoldable pub queue_get_tail : Queue → Option ℕ
queue_get_tail q = if q.items_count == 0 then none else some (q.links.prev q.head)

-- `co_queue_get_prev`
unfoldable pub queue_get_prev : Queue → ℕ → Option ℕ
queue_get_prev q item = if q.links.prev item == q.head then none else some (q.links.prev item)

-- `co_queue_pop_tail`
unfoldable pub queue_pop_tail : Queue → Option ℕ × Queue
queue_pop_tail q = if q.items_count == 0 then (none, q) else (
  some (q.links.prev q.head),
  record q { items_count = q.items_count - 1; links = list_del (q.links.prev q.head) q.links },
)

-- `co_queue_flush`, for as many rounds as there are items and one more: what is freed, in order.
unfoldable pub flush_from : ℕ → Queue → List ℕ × Queue
flush_from zero q = ([], q)
flush_from (suc fuel) q =
    let (item, q') = queue_pop_tail q in
    let (freed, q'') = flush_from fuel q' in
    elim item [ none ↦ ([], q') | some p ↦ (p ∷ freed, q'') ]

unfoldable pub queue_flush : Queue → List ℕ × Queue
queue_flush q = flush_from (q.items_count + 1) q
