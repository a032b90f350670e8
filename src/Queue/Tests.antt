-- ===== src/Queue/Tests.antt =====
-- A queue at the address 100, with items at 7 and 8.
use colinux_64bit.Base.{◌≡◌, refl, [], ◌∷◌, ◌++◌, some, arith}
use colinux_64bit.Queue.{
  Queue, Links, queue_init, queue_add_head, queue_add_tail, queue_pop_tail, queue_get_tail,
  queue_flush, list_init, set_next, set_prev,
}
use colinux_64bit.Queue.View.{IsView, queue_add-IsView, queue_pop_tail-IsView}
use colinux_64bit.Queue.Flush.{queue_flush-IsView}

abbrev nowhere : Links
nowhere = record { next = λ x. 0; prev = λ x. 0 }

empty : Queue
empty = queue_init 100 nowhere

empty-IsView : IsView empty []
unfolding empty queue_init list_init set_next set_prev
empty-IsView = record {
  ring = (refl, refl);
  distinct = (tt, tt);
  counted = refl;
  small = omega arith;
}

queue_add-IsView_example :
    IsView (queue_add_head empty 7) (7 ∷ []) × IsView (queue_add_tail empty 7) ([] ++ 7 ∷ [])
unfolding empty queue_init
queue_add-IsView_example = queue_add-IsView empty [] 7 empty-IsView (omega arith, tt) (omega arith)

two : Queue
two = queue_add_head (queue_add_head empty 7) 8

two-IsView : IsView two (8 ∷ 7 ∷ [])
unfolding two empty queue_init queue_add_head
two-IsView =
    (queue_add-IsView (queue_add_head empty 7) (7 ∷ []) 8
      (queue_add-IsView empty [] 7 empty-IsView (omega arith, tt) (omega arith)).0
      (omega arith, (omega arith, tt)) (omega arith)).0

queue_pop_tail-IsView_example :
    (queue_get_tail two ≡ some 7)
    × ((queue_pop_tail two).0 ≡ some 7)
    × IsView (queue_pop_tail two).1 (8 ∷ [])
queue_pop_tail-IsView_example = queue_pop_tail-IsView two (8 ∷ []) 7 two-IsView

queue_flush-IsView_example : ((queue_flush two).0 ≡ 7 ∷ 8 ∷ []) × IsView (queue_flush two).1 []
queue_flush-IsView_example = queue_flush-IsView two (8 ∷ 7 ∷ []) two-IsView
