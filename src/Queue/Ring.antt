-- ===== src/Queue/Ring.antt =====
-- Rings of nodes: the segments between two nodes, and what keeps them.
use colinux_64bit.Base.{ℕ, ◌≡◌, ◌≢◌, sym, ap, ◌∙◌, List, [], ◌∷◌, ◌++◌, arith}
use colinux_64bit.Queue.{Links, put}

-- Linked nodes from a over xs to b.
abbrev pub Segment : Links → ℕ → List ℕ → ℕ → Type 0
Segment s a [] b = (s.next a ≡ b) × (s.prev b ≡ a)
Segment s a (x ∷ xs) b = (s.next a ≡ x) × (s.prev x ≡ a) × Segment s x xs b

abbrev pub Avoids : ℕ → List ℕ → Type 0
Avoids p [] = Unit
Avoids p (x ∷ xs) = (p ≢ x) × Avoids p xs

abbrev pub AreDistinct : List ℕ → Type 0
AreDistinct [] = Unit
AreDistinct (x ∷ xs) = Avoids x xs × AreDistinct xs

pub put_same : (f : ℕ → ℕ) (p q : ℕ) → put f p q p ≡ q
put_same f p q = ground arith

pub put_other : (f : ℕ → ℕ) (p q x : ℕ) → p ≢ x → put f p q x ≡ f x
put_other f p q x h = ground (arith, h)

abbrev pub AgreeOn : (ℕ → ℕ) → (ℕ → ℕ) → List ℕ → Type 0
AgreeOn f g [] = Unit
AgreeOn f g (x ∷ xs) = (f x ≡ g x) × AgreeOn f g xs

-- A segment is read at the next links of its nodes but the last, and the previous links of its nodes
-- but the first.
pub frame :
    (s t : Links) (a : ℕ) (xs : List ℕ) (b : ℕ)
    → Segment s a xs b
    → AgreeOn t.next s.next (a ∷ xs)
    → AgreeOn t.prev s.prev xs
    → t.prev b ≡ s.prev b
    → Segment t a xs b
frame s t a [] b g h k m = (h.0 ∙ g.0, m ∙ g.1)
frame s t a (x ∷ xs) b g h k m = (h.0 ∙ g.0, k.0 ∙ g.1, frame s t x xs b g.2 h.1 k.1 m)

pub put_twice-AgreeOn :
    (f : ℕ → ℕ) (p q p' q' : ℕ) (xs : List ℕ)
    → Avoids p xs
    → Avoids p' xs
    → AgreeOn (put (put f p q) p' q') f xs
put_twice-AgreeOn f p q p' q' [] h k = tt
put_twice-AgreeOn f p q p' q' (x ∷ xs) h k = (
  put_other (put f p q) p' q' x k.0 ∙ put_other f p q x h.0,
  put_twice-AgreeOn f p q p' q' xs h.1 k.1,
)

-- The node before the end of a segment is one of its nodes.
pub before_end :
    (s : Links) (p a : ℕ) (xs : List ℕ) (b : ℕ)
    → Segment s a xs b
    → Avoids p (a ∷ xs)
    → s.prev b ≢ p
before_end s p a [] b g h = λ e. h.0 (sym e ∙ g.1)
before_end s p a (x ∷ xs) b g h = before_end s p x xs b g.2 h.1

-- A segment to y becomes one to b: of its links, only the last one of each direction changes. The
-- links of z and z' may change too, where these are not in it.
pub redirect :
    (s t : Links) (a : ℕ) (xs : List ℕ) (y b z z' : ℕ)
    → Segment s a xs y
    → AreDistinct (a ∷ xs)
    → Avoids b xs
    → Avoids z (a ∷ xs)
    → Avoids z' xs
    → t.next (s.prev y) ≡ b
    → t.prev b ≡ s.prev y
    → ((p : ℕ) → s.prev y ≢ p → z ≢ p → t.next p ≡ s.next p)
    → ((p : ℕ) → b ≢ p → z' ≢ p → t.prev p ≡ s.prev p)
    → Segment t a xs b
redirect s t a [] y b z z' g d v w w' n m f h = (ap t.next (sym g.1) ∙ n, m ∙ g.1)
redirect s t a (x ∷ xs) y b z z' g d v w w' n m f h = (
  f a (before_end s a x xs y g.2 d.0) w.0 ∙ g.0,
  h x v.0 w'.0 ∙ g.1,
  redirect s t x xs y b z z' g.2 d.1 v.1 w.1 w'.1 n m f h,
)

-- A segment over a list and one more node, taken apart and put together.
pub split_last :
    (s : Links) (a : ℕ) (xs : List ℕ) (y b : ℕ)
    → Segment s a (xs ++ y ∷ []) b
    → Segment s a xs y × Segment s y [] b
split_last s a [] y b g = ((g.0, g.1), g.2)
split_last s a (x ∷ xs) y b g = let r = split_last s x xs y b g.2 in ((g.0, g.1, r.0), r.1)

pub join_last :
    (s : Links) (a : ℕ) (xs : List ℕ) (y b : ℕ)
    → Segment s a xs y
    → Segment s y [] b
    → Segment s a (xs ++ y ∷ []) b
join_last s a [] y b g h = (g.0, g.1, h)
join_last s a (x ∷ xs) y b g h = (g.0, g.1, join_last s x xs y b g.2 h)
