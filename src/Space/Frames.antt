-- ===== src/Space/Frames.antt =====
-- How the table of page numbers changes.
use colinux_64bit.Base.{ℕ, ◌≡◌, ap, inl, inr, ◌==◌, if◌then◌else◌, arith, Bool-cases, ==_iff}
use colinux_64bit.Rc.{Rc}
use colinux_64bit.Space.{Space, group_of, index_of, frame_of, set_entry, ensure_group}

-- A page number is its group and its index.
same_page : (m n : ℕ) → group_of m ≡ group_of n → index_of m ≡ index_of n → m ≡ n
same_page m n e f = omega arith

pub frame_of-set_entry :
    (s : Space) (n p m : ℕ) → frame_of (set_entry s n p) m ≡ (if m == n then p else frame_of s m)
unfolding frame_of set_entry
frame_of-set_entry s n p m = elim (Bool-cases (group_of m == group_of n)) [
  | inl e ↦
      rw e (ground (arith, same_page m n, ap s.pp_pfns ((==_iff (group_of m) (group_of n)).0 e)))
  | inr e ↦ rw e (ground (arith, ap group_of))
]

-- A new group has no pages: the map from pages to frames is the same.
pub frame_of-ensure_group :
    (fail : Rc) (k : ℕ) (s : Space) (m : ℕ) → frame_of (ensure_group fail k s).1 m ≡ frame_of s m
unfolding frame_of ensure_group
frame_of-ensure_group fail k s m = elim (Bool-cases (group_of m == k)) [
  | inl e ↦ ground (arith, ap s.pp_pfns ((==_iff (group_of m) k).0 e))
  | inr e ↦ ground arith
]
