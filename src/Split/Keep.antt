-- ===== src/Split/Keep.antt =====
-- What each call of the callback keeps, the page loop keeps.
use colinux_64bit.Base.{ℕ, zero, suc, ◌-◌, ◌≡◌, ◌<◌, ◌≤◌, arith, inl, inr, ◌==◌, false, Bool-cases}
use colinux_64bit.Prog.{Prog}
use colinux_64bit.Prog.Holds.{Holds, bind-Holds}
use colinux_64bit.Arch.{add32, word}
use colinux_64bit.Split.{part_size, split, split_by_pages}

-- From any address of a word, a round with bytes left takes some of them.
part_size_pos : (a n : ℕ) → a < word → (n == 0) ≡ false → (0 < part_size a n) × (part_size a n ≤ n)
unfolding part_size
part_size_pos a n h e = ground arith

module _ {S : Type 0} (P : S → Type 0) (func : ℕ → ℕ → Prog S)
    (keep : (offset part : ℕ) (s : S) → P s → Holds P (func offset part s)) where
  split-Holds :
      (fuel offset size : ℕ) (s : S)
      → size < fuel
      → offset < word
      → P s
      → Holds P (split fuel func offset size s)
  unfolding split
  split-Holds zero offset size s lt w p = absurd (omega arith)
  split-Holds (suc fuel) offset size s lt w p = elim (Bool-cases (size == 0)) [
    | inl e ↦ rw e p
    | inr e ↦
        let pos = part_size_pos offset size w e in
        rw e (
          bind-Holds P (func offset (part_size offset size) s)
            (split fuel func (add32 offset (part_size offset size)) (size - part_size offset size))
            (keep offset (part_size offset size) s p)
            (λ t q. split-Holds fuel _ _ t (omega arith) (omega arith) q))
  ]

  -- From any address, for any size: the loop ends, and what each call keeps holds at its end.
  pub split_by_pages-Holds :
      (offset size : ℕ) (s : S) → offset < word → P s → Holds P (split_by_pages func offset size s)
  unfolding split_by_pages
  split_by_pages-Holds offset size s w p = split-Holds (suc size) offset size s (omega arith) w p
