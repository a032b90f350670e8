-- ===== src/Queue/Flush.antt =====
-- Emptying a queue.
use colinux_64bit.Base.{
  ℕ, zero, suc, ◌+◌, ◌<◌, ◌≡◌, refl, sym, ap, ◌⊎◌, inl, inr, List, [], ◌∷◌, ◌++◌, none, length,
  length-append, arith, true, ◌==◌,
}
use mathlib.Core.Path.{subst}
use colinux_64bit.Queue.{Queue, queue_pop_tail, flush_from, queue_flush}
use colinux_64bit.Queue.View.{IsView, queue_pop_tail-IsView}

abbrev pub reverse : List ℕ → List ℕ
reverse [] = []
reverse (x ∷ xs) = reverse xs ++ x ∷ []

reverse-snoc : (xs : List ℕ) (y : ℕ) → reverse (xs ++ y ∷ []) ≡ y ∷ reverse xs
reverse-snoc [] y = refl
reverse-snoc (x ∷ xs) y = rw (reverse-snoc xs y) refl

snoc-cases : (xs : List ℕ) → (xs ≡ []) ⊎ ((ys : List ℕ) × (y : ℕ) × (xs ≡ ys ++ y ∷ []))
snoc-cases [] = inl refl
snoc-cases (x ∷ xs) = elim (snoc-cases xs) [
  | inl e ↦ inr ([], x, ap (λ zs. x ∷ zs) e)
  | inr (ys, y, e) ↦ inr (x ∷ ys, y, ap (λ zs. x ∷ zs) e)
]

pop_empty : (q : Queue) → IsView q [] → queue_pop_tail q ≡ (none, q)
unfolding queue_pop_tail
pop_empty q v = let z : (q.items_count == 0) ≡ true = ground (arith, v.counted) in rw z refl

flush_from-IsView :
    (fuel : ℕ) (q : Queue) (xs : List ℕ)
    → IsView q xs
    → length xs < fuel
    → ((flush_from fuel q).0 ≡ reverse xs) × IsView (flush_from fuel q).1 []
unfolding flush_from
flush_from-IsView zero q xs v h = absurd (omega arith)
flush_from-IsView (suc fuel) q xs v h = elim (snoc-cases xs) [
  | inl e ↦
      let w : IsView q [] = subst (IsView q) e v in
      rw (pop_empty q w, flush_from, e) (refl, subst (λ r. IsView r.1 []) (sym (pop_empty q w)) w)
  | inr (ys, y, e) ↦
      let w = queue_pop_tail-IsView q ys y (subst (IsView q) e v) in
      let r =
        flush_from-IsView fuel (queue_pop_tail q).1 ys w.2
          (omega (arith, h, ap length e, length-append ys (y ∷ []))) in
      rw (w.1, flush_from, e, reverse-snoc ys y) (ap (λ zs. y ∷ zs) r.0, r.1)
]

-- Emptying a queue whose ring has the items `xs`, all different, comes to an end: it frees each item
-- once, from the tail on, and leaves a queue whose ring is empty.
pub queue_flush-IsView :
    (q : Queue) (xs : List ℕ)
    → IsView q xs
    → ((queue_flush q).0 ≡ reverse xs) × IsView (queue_flush q).1 []
unfolding queue_flush
queue_flush-IsView q xs v = flush_from-IsView (q.items_count + 1) q xs v (omega (arith, v.counted))
