-- ===== src/Console/Safe.antt =====
-- Which messages keep to the buffer.
use native.Mathlib.Nat.{mul-le-mul_left, mul_comm, mul-sub, mul-suc, mul-add}
use colinux_64bit.Base.{
  ℕ, suc, ◌+◌, ◌-◌, ◌*◌, ◌%◌, ◌^◌, ◌≤◌, ◌<◌, ◌≡◌, refl, sym, Bool, true, false, not, ◌||◌, Option,
  some, List, ◌==◌, ltb, leb, if◌then◌else◌, length, arith,
}
use colinux_64bit.Rc.{ok, error}
use colinux_64bit.Arch.{word}
use colinux_64bit.Console.{
  Console, screen, Message, scroll_up, scroll_down, putcs, init_scrollbuffer, clear, bmove, Change,
  do_scroll_up, do_scroll_down, move_lines,
}
use colinux_64bit.Console.Cells.{
  cells_between, memmove, fill, and_then, HasLength, and_then-HasLength, memmove-HasLength,
  fill-HasLength, cells_between-le,
}

-- The screen is part of the buffer, which has all its cells; their bytes are counted by a word.
pub record IsConsole (c : Console) : Type 0 where
  pub fits : c.y ≤ c.max_y
  pub full : length c.buffer ≡ c.x * c.max_y
  pub small : c.x * c.max_y < 2 ^ 31

-- What a message has to keep to for its effect to be on the screen.
abbrev pub IsOnScreen : Console → Message → Type 0
IsOnScreen c (scroll_up top bottom lines charattr) = (bottom < c.y) × (top + lines ≤ bottom + 1)
IsOnScreen c (scroll_down top bottom lines charattr) = (bottom < c.y) × (top + lines ≤ bottom + 1)
IsOnScreen c (putcs y x count cells) = count ≤ length cells
IsOnScreen c (init_scrollbuffer y x count cells) = count ≤ length cells
IsOnScreen c (clear t l b r charattr) = (b < c.y) × (l ≤ r) × (r < c.x)
IsOnScreen c (bmove y x t l b r) =
    (b < c.y) × (l ≤ r) × (r < c.x) × (t ≤ b) × (y + (b - t) < c.y) × (x + (r - l) < c.x)
IsOnScreen c message = Unit

abbrev pub Keeps : Console → Option (List ℕ) → Type 0
Keeps c o = HasLength (length c.buffer) o

-- Lines of the screen, and cells in a line.
pub screen_lines : (c : Console) → IsConsole c → screen c + c.x * c.y ≡ length c.buffer
screen_lines c v =
    omega (arith, mul_comm (c.max_y - c.y) c.x, mul-sub c.x c.max_y c.y, mul-le-mul_left c.x v.fits)

pub lines_le : (c : Console) (k : ℕ) → IsConsole c → k ≤ c.y → screen c + c.x * k ≤ length c.buffer
lines_le c k v h = omega (arith, screen_lines c v, mul-le-mul_left c.x h)

pub line_le :
    (c : Console) (k p : ℕ)
    → IsConsole c
    → k < c.y
    → p ≤ c.x
    → screen c + c.x * k + p ≤ length c.buffer
line_le c k p v h q = omega (arith, lines_le c (suc k) v h, mul-suc c.x k)

pub if_Keeps :
    (c : Console) (b : Bool) (p q : Change)
    → Keeps c p.1
    → Keeps c q.1
    → Keeps c (if b then p else q).1
if_Keeps c true p q h k = h
if_Keeps c false p q h k = k

move-fill-Keeps :
    (c : Console) (dst src n to s blank : ℕ)
    → dst + n ≤ length c.buffer
    → src + n ≤ length c.buffer
    → to + s ≤ length c.buffer
    → Keeps c (and_then (memmove c.buffer dst src n) (λ buffer. fill buffer to s blank))
move-fill-Keeps c dst src n to s blank h k m =
    and_then-HasLength (length c.buffer) (memmove c.buffer dst src n) _
      (memmove-HasLength c.buffer dst src n h k)
      (λ buffer e. rw (sym e) (fill-HasLength buffer to s blank (omega (arith, e))))

module _ (c : Console) (v : IsConsole c) (t b lines blank : ℕ) (h : b ≤ c.y)
    (k : t + lines ≤ b) where
  scrolled : c.x * t + c.x * lines ≤ c.x * b
  scrolled = omega (arith, mul-add c.x t lines, mul-le-mul_left c.x k)

  offset : (c.x * b + word - c.x * lines) % word ≡ c.x * b - c.x * lines
  offset = omega (arith, scrolled, lines_le c b v h, v.full, v.small)

  full_offset : (c.x * c.max_y + word - c.x * lines) % word ≡ c.x * c.max_y - c.x * lines
  full_offset = omega (arith, scrolled, lines_le c b v h, v.full, v.small)

  pub do_scroll_up-Keeps : Keeps c (do_scroll_up c t b lines blank).1
  unfolding do_scroll_up
  do_scroll_up-Keeps =
      let l = lines_le c b v h in
      let m : cells_between (c.x * b - c.x * lines) (c.x * t) ≡ c.x * b - c.x * lines - c.x * t =
        cells_between-le _ _ (omega (arith, scrolled)) (omega (arith, l, v.full, v.small)) in
      let z : cells_between (c.x * c.max_y - c.x * lines) 0 ≡ c.x * c.max_y - c.x * lines - 0 =
        cells_between-le _ _ (omega arith) (omega (arith, v.small)) in
      rw (offset, m, full_offset, z)
        (if_Keeps c (not (t == 0) || not (b == c.y)) _ _
          (if_Keeps c (ltb c.max_y b) (error, some c.buffer) _ refl
            (if_Keeps c (leb c.max_y (t + lines)) (error, some c.buffer) (ok, _) refl
              (move-fill-Keeps c _ _ _ _ _ blank (omega (arith, l, scrolled))
                (omega (arith, l, scrolled)) (omega (arith, l, scrolled)))))
          (move-fill-Keeps c _ _ _ _ _ blank (omega (arith, l, scrolled, v.full))
            (omega (arith, l, scrolled, v.full)) (omega (arith, l, scrolled, v.full))))

  pub do_scroll_down-Keeps : Keeps c (do_scroll_down c t b lines blank).1
  unfolding do_scroll_down move_lines
  do_scroll_down-Keeps =
      let l = lines_le c b v h in
      let w = lines_le c c.y v (omega arith) in
      let u = mul-le-mul_left c.x h in
      let m : cells_between (c.x * b) (c.x * t + c.x * lines) ≡ c.x * b - (c.x * t + c.x * lines) =
        cells_between-le _ _ scrolled (omega (arith, l, v.full, v.small)) in
      let z : cells_between (c.x * c.y) (c.x * lines) ≡ c.x * c.y - c.x * lines =
        cells_between-le _ _ (omega (arith, scrolled, u)) (omega (arith, w, v.full, v.small)) in
      rw (m, z)
        (if_Keeps c (not (t == 0) || not (b == c.y)) _ _
          (if_Keeps c (ltb c.max_y b) (error, some c.buffer) _ refl
            (if_Keeps c (leb c.max_y (t + lines)) (error, some c.buffer) (ok, _) refl
              (move-fill-Keeps c _ _ _ _ _ blank (omega (arith, l, scrolled))
                (omega (arith, l, scrolled)) (omega (arith, l, scrolled)))))
          (move-fill-Keeps c _ _ _ _ _ blank (omega (arith, w, u, scrolled))
            (omega (arith, w, u, scrolled)) (omega (arith, w, u, scrolled))))
