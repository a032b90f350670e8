-- ===== src/Split/Pieces.antt =====
-- The pieces that the page loop visits: they cover the range in order, byte by byte, and none
-- crosses a page border.
use colinux_64bit.Base.{
  ℕ, zero, suc, ◌+◌, ◌-◌, ◌%◌, ◌≤◌, ◌<◌, ◌≡◌, ap, ◌∙◌, inl, inr, List, [], ◌∷◌, ◌++◌, false, ◌==◌,
  if◌then◌else◌, arith, Bool-cases, ==_iff, dec_lt,
}
use mathlib.Core.Path.{fun_ext}
use mathlib.Core.List.{append-nil}
use native.Mathlib.Nat.{add-zero, zero-add, suc-add}
use colinux_64bit.Prog.{Prog}
use colinux_64bit.Arch.{add32, page_size, word}
use colinux_64bit.Split.{part_size, split, split_by_pages, run_pieces}

-- Addresses from `a`, `n` of them.
abbrev pub range : ℕ → ℕ → List ℕ
range a zero = []
range a (suc n) = a ∷ range (a + 1) n

abbrev pub addresses : List (ℕ × ℕ) → List ℕ
addresses [] = []
addresses ((a, n) ∷ ps) = range a n ++ addresses ps

-- Every piece is non-empty and lies in one page.
abbrev pub InPages : List (ℕ × ℕ) → Type 0
InPages [] = Unit
InPages ((a, n) ∷ ps) = (0 < n) × (a % page_size + n ≤ page_size) × InPages ps

pub part_size_bounds :
    (a n : ℕ)
    → 0 < n
    → a + n ≤ word
    → (0 < part_size a n) × (part_size a n ≤ n) × (a % page_size + part_size a n ≤ page_size)
unfolding part_size
part_size_bounds a n h k = ground arith

pub range-append : (a m n : ℕ) → range a m ++ range (a + m) n ≡ range a (m + n)
range-append a zero n = rw (add-zero a, zero-add n)
range-append a (suc m) n =
    let shift : a + suc m ≡ a + 1 + m = omega arith in
    rw (shift, suc-add m n) (ap (◌∷◌ a) (range-append (a + 1) m n))

-- A piece, and what is left after it: the next address wraps only if nothing is left.
range-add32 :
    (a p n : ℕ) → p ≤ n → a + n ≤ word → range a p ++ range (add32 a p) (n - p) ≡ range a n
range-add32 a p n h k = elim (dec_lt (a + p) word) [
  | yes q ↦
      let e : add32 a p ≡ a + p = omega arith in
      let f : p + (n - p) ≡ n = omega arith in rw e (range-append a p (n - p) ∙ ap (range a) f)
  | no q ↦
      let e : n - p ≡ 0 = omega arith in
      let f : p ≡ n = omega arith in rw e (append-nil (range a p) ∙ ap (range a) f)
]

-- The cuts of the loop, whatever the callback.
pub cut : ℕ → ℕ → ℕ → List (ℕ × ℕ)
cut zero a n = []
cut (suc fuel) a n =
    let part = part_size a n in
    let rest = cut fuel (add32 a part) (n - part) in if n == 0 then [] else (a, part) ∷ rest

-- What is known of a round with bytes left.
pub record Round (fuel a n : ℕ) : Type 0 where
  pub some_left : 0 < part_size a n
  pub no_more : part_size a n ≤ n
  pub in_page : a % page_size + part_size a n ≤ page_size
  pub fuel_left : n - part_size a n < fuel
  pub in_space : add32 a (part_size a n) + (n - part_size a n) ≤ word

pub round : (fuel a n : ℕ) → n < suc fuel → a + n ≤ word → (n == 0) ≡ false → Round fuel a n
round fuel a n h k e = ground (arith, part_size_bounds a n)

addresses-cut : (fuel a n : ℕ) → n < fuel → a + n ≤ word → addresses (cut fuel a n) ≡ range a n
unfolding cut
addresses-cut zero a n h k = elim h [ ]
addresses-cut (suc fuel) a n h k = elim (Bool-cases (n == 0)) [
  | inl e ↦ rw (e, (==_iff n 0).0 e)
  | inr e ↦
      let r = round fuel a n h k e in
      rw
        (e, addresses-cut fuel (add32 a (part_size a n)) (n - part_size a n) r.fuel_left r.in_space)
        (range-add32 a (part_size a n) n r.no_more k)
]

cut-InPages : (fuel a n : ℕ) → n < fuel → a + n ≤ word → InPages (cut fuel a n)
unfolding cut
cut-InPages zero a n h k = elim h [ ]
cut-InPages (suc fuel) a n h k = elim (Bool-cases (n == 0)) [
  | inl e ↦ rw e tt
  | inr e ↦
      let r = round fuel a n h k e in
      rw e (
        r.some_left,
        r.in_page,
        cut-InPages fuel (add32 a (part_size a n)) (n - part_size a n) r.fuel_left r.in_space,
      )
]

split-cut :
    {S : Type 0} (func : ℕ → ℕ → Prog S) (fuel a n : ℕ)
    → n < fuel
    → a + n ≤ word
    → split fuel func a n ≡ run_pieces func (cut fuel a n)
unfolding cut split run_pieces
split-cut func zero a n h k = elim h [ ]
split-cut func (suc fuel) a n h k = fun_ext λ s. elim (Bool-cases (n == 0)) [
  | inl e ↦ rw e
  | inr e ↦
      let r = round fuel a n h k e in
      rw (
        e,
        split-cut func fuel (add32 a (part_size a n)) (n - part_size a n) r.fuel_left r.in_space,
      )
]

-- For a range inside the address space there is a list of pieces that together are exactly the
-- range, in order and each byte once, none of them empty or across a page border, such that for
-- every callback the loop ends and is the callback run on these pieces, stopped at the first that
-- fails.
pub split_by_pages-run_pieces :
    (a n : ℕ)
    → a + n ≤ word
    → (ps : List (ℕ × ℕ)) × (addresses ps ≡ range a n)
      × InPages ps
      × ((S : Type 0) (func : ℕ → ℕ → Prog S) → split_by_pages func a n ≡ run_pieces func ps)
unfolding split_by_pages
split_by_pages-run_pieces a n h = (
  cut (suc n) a n,
  addresses-cut (suc n) a n (omega arith) h,
  cut-InPages (suc n) a n (omega arith) h,
  λ S func. split-cut func (suc n) a n (omega arith) h,
)
