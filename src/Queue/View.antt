-- ===== src/Queue/View.antt =====
-- A queue as the list of its items, from the head on.
use colinux_64bit.Base.{
  ℕ, ◌+◌, ◌%◌, ◌<◌, ◌≡◌, ◌≢◌, refl, sym, ap, ◌∙◌, false, List, [], ◌∷◌, ◌++◌, ◌==◌, some, length,
  length-append, arith,
}
use mathlib.Core.Path.{subst}
use colinux_64bit.Arch.{word}
use colinux_64bit.Queue.{
  Links, put, set_next, set_prev, list_add, list_add_head, list_add_tail, list_unlink, list_del,
  Queue, queue_add_head, queue_add_tail, queue_get_tail, queue_pop_tail,
}
use colinux_64bit.Queue.Ring.{
  Segment, Avoids, AreDistinct, put_same, put_other, frame, put_twice-AgreeOn, redirect, before_end,
  split_last, join_last,
}

-- The ring of the head has the items, all different; the count is theirs, in a word.
pub record IsView (q : Queue) (xs : List ℕ) : Type 0 where
  pub ring : Segment q.links q.head xs q.head
  pub distinct : AreDistinct (q.head ∷ xs)
  pub counted : q.items_count ≡ length xs
  pub small : length xs < word

add_head_ring :
    (s : Links) (h n : ℕ) (xs : List ℕ)
    → Segment s h xs h
    → AreDistinct (h ∷ xs)
    → Avoids n (h ∷ xs)
    → Segment (list_add_head n h s) h (n ∷ xs) h
unfolding list_add_head list_add set_next set_prev
add_head_ring s h n [] g d v =
    let set_new = put s.next n (s.next h) in
    let back = put s.prev (s.next h) n in
    (
      put_same set_new h n,
      put_same back n h,
      (
        put_other set_new h n n (λ e. v.0 (sym e)) ∙ put_same s.next n (s.next h) ∙ g.0,
        put_other back n h h v.0 ∙ ap (λ p. put s.prev p n h) g.0 ∙ put_same s.prev h n,
      ),
    )
add_head_ring s h n (x ∷ xs) g d v =
    let set_new = put s.next n (s.next h) in
    let back = put s.prev (s.next h) n in
    let hn : h ≢ n = λ e. v.0 (sym e) in
    let xh : s.next h ≢ h = λ e. d.0.0 (sym e ∙ g.0) in
    let xv : Avoids (s.next h) xs = subst (λ p. Avoids p xs) (sym g.0) d.1.0 in
    (
      put_same set_new h n,
      put_same back n h,
      (
        put_other set_new h n n hn ∙ put_same s.next n (s.next h) ∙ g.0,
        put_other back n h x v.1.0 ∙ ap (λ p. put s.prev p n x) g.0 ∙ put_same s.prev x n,
        frame s (list_add_head n h s) x xs h g.2
            (put_twice-AgreeOn s.next n (s.next h) h n (x ∷ xs) v.1 d.0)
            (put_twice-AgreeOn s.prev (s.next h) n n h xs xv v.1.1)
            (put_other back n h h v.0 ∙ put_other s.prev (s.next h) n h xh),
      ),
    )

add_tail_ring :
    (s : Links) (h n : ℕ) (xs : List ℕ)
    → Segment s h xs h
    → AreDistinct (h ∷ xs)
    → Avoids n (h ∷ xs)
    → Segment (list_add_tail n h s) h (xs ++ n ∷ []) h
unfolding list_add_tail list_add set_next set_prev
add_tail_ring s h n xs g d v =
    let set_new = put s.next n h in
    let back = put s.prev h n in
    let ln : s.prev h ≢ n = before_end s n h xs h g v in
    join_last (list_add_tail n h s) h xs n h
      (redirect s (list_add_tail n h s) h xs h n n h g d v.1 v d.0 (put_same set_new (s.prev h) n)
        (put_same back n (s.prev h))
        (λ p e f. put_other set_new (s.prev h) n p e ∙ put_other s.next n h p f)
        (λ p e f. put_other back n (s.prev h) p e ∙ put_other s.prev h n p f))
      (
        put_other set_new (s.prev h) n n ln ∙ put_same s.next n h,
        put_other back n (s.prev h) h v.0 ∙ put_same s.prev h n,
      )

del_ring :
    (s : Links) (h y : ℕ) (xs : List ℕ)
    → Segment s h (xs ++ y ∷ []) h
    → AreDistinct (h ∷ xs)
    → Avoids y (h ∷ xs)
    → Segment (list_del y s) h xs h
unfolding list_del list_unlink set_next set_prev
del_ring s h y xs g d v =
    let r = split_last s h xs y h g in
    redirect s (list_del y s) h xs y h y y r.0 d d.0 v v.1
      (put_same s.next (s.prev y) (s.next y) ∙ r.1.0)
      (ap (λ p. put s.prev p (s.prev y) h) r.1.0 ∙ put_same s.prev h (s.prev y))
      (λ p e f. put_other s.next (s.prev y) (s.next y) p e)
      (λ p e f. put_other s.prev (s.next y) (s.prev y) p (λ i. e (sym r.1.0 ∙ i)))

Avoids-snoc : (p : ℕ) (xs : List ℕ) (y : ℕ) → Avoids p xs → p ≢ y → Avoids p (xs ++ y ∷ [])
Avoids-snoc p [] y v e = (e, tt)
Avoids-snoc p (x ∷ xs) y v e = (v.0, Avoids-snoc p xs y v.1 e)

snoc-AreDistinct : (xs : List ℕ) (y : ℕ) → AreDistinct xs → Avoids y xs → AreDistinct (xs ++ y ∷ [])
snoc-AreDistinct [] y d v = (tt, tt)
snoc-AreDistinct (x ∷ xs) y d v =
    (Avoids-snoc x xs y d.0 (λ e. v.0 (sym e)), snoc-AreDistinct xs y d.1 v.1)

unsnoc-Avoids : (p : ℕ) (xs : List ℕ) (y : ℕ) → Avoids p (xs ++ y ∷ []) → Avoids p xs × (p ≢ y)
unsnoc-Avoids p [] y v = (tt, v.0)
unsnoc-Avoids p (x ∷ xs) y v = let r = unsnoc-Avoids p xs y v.1 in ((v.0, r.0), r.1)

unsnoc-AreDistinct :
    (xs : List ℕ) (y : ℕ) → AreDistinct (xs ++ y ∷ []) → AreDistinct xs × Avoids y xs
unsnoc-AreDistinct [] y d = (tt, tt)
unsnoc-AreDistinct (x ∷ xs) y d =
    let v = unsnoc-Avoids x xs y d.0 in
    let r = unsnoc-AreDistinct xs y d.1 in ((v.0, r.0), (λ e. v.1 (sym e), r.1))

-- On a queue whose ring has the items `xs`, all different, an item that is not in it and for which
-- the count has room goes to the front of the list at the head, and to its end at the tail.
pub queue_add-IsView :
    (q : Queue) (xs : List ℕ) (n : ℕ)
    → IsView q xs
    → Avoids n (q.head ∷ xs)
    → length xs + 1 < word
    → IsView (queue_add_head q n) (n ∷ xs) × IsView (queue_add_tail q n) (xs ++ n ∷ [])
unfolding queue_add_head queue_add_tail
queue_add-IsView q xs n v a b =
    let c : (q.items_count + 1) % word ≡ length xs + 1 = omega (arith, v.counted) in
    let l = length-append xs (n ∷ []) in
    (
      record {
        ring = add_head_ring q.links q.head n xs v.ring v.distinct a;
        distinct = ((λ e. a.0 (sym e), v.distinct.0), (a.1, v.distinct.1));
        counted = omega (arith, c);
        small = omega arith;
      },
      record {
        ring = add_tail_ring q.links q.head n xs v.ring v.distinct a;
        distinct = snoc-AreDistinct (q.head ∷ xs) n v.distinct a;
        counted = omega (arith, c, l);
        small = omega (arith, l);
      },
    )

-- On a queue whose ring has items, all different, a look at the tail finds the last one, and a pop
-- takes just that one off.
pub queue_pop_tail-IsView :
    (q : Queue) (ys : List ℕ) (y : ℕ)
    → IsView q (ys ++ y ∷ [])
    → (queue_get_tail q ≡ some y) × ((queue_pop_tail q).0 ≡ some y) × IsView (queue_pop_tail q).1 ys
unfolding queue_pop_tail queue_get_tail
queue_pop_tail-IsView q ys y v =
    let l = length-append ys (y ∷ []) in
    let z : (q.items_count == 0) ≡ false = ground (arith, v.counted, l) in
    let e : q.links.prev q.head ≡ y = (split_last q.links q.head ys y q.head v.ring).1.1 in
    let u = unsnoc-AreDistinct (q.head ∷ ys) y v.distinct in
    rw (z, e)
      (
        refl,
        refl,
        record {
          ring = del_ring q.links q.head y ys v.ring u.0 u.1;
          distinct = u.0;
          counted = omega (arith, v.counted, l);
          small = omega (arith, v.small, l);
        },
      )
