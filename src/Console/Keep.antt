-- ===== src/Console/Keep.antt =====
-- Every message that keeps to the screen keeps the console in order.
use native.Mathlib.Nat.{mul-le-mul_left, mul_comm, mul-suc}
use colinux_64bit.Base.{
  ℕ, zero, suc, ◌+◌, ◌-◌, ◌*◌, ◌≤◌, ◌<◌, ◌≡◌, refl, sym, ◌∙◌, inl, inr, Bool, true, false, ◌||◌,
  Option, none, some, List, [], ◌∷◌, ltb, leb, if◌then◌else◌, length, take, arith, Bool-cases,
  leb→le, length-take,
}
use colinux_64bit.Rc.{Rc, error}
use colinux_64bit.Console.{
  Console, screen, Message, scroll_up, scroll_down, putcs, init_scrollbuffer, putc, cursor_move,
  clear, bmove, startup, config, switch, other, Change, do_putcs, clear_rows, move_row, move_up,
  move_down, do_bmove, change, new_cursor, reply, op_result, console_op,
}
use colinux_64bit.Console.Cells.{
  cells_between, fill, and_then-HasLength, memmove-HasLength, write_cells-HasLength, fill-HasLength,
  cells_between-le,
}
use colinux_64bit.Console.Safe.{
  IsConsole, IsOnScreen, Keeps, lines_le, line_le, do_scroll_up-Keeps, do_scroll_down-Keeps,
}

-- The test of a position; where it fails, the position is inside.
guard-Keeps :
    (c : Console) (rows y x : ℕ) (q : Change)
    → (y < rows → x < c.x → Keeps c q.1)
    → Keeps c (if leb rows y || leb c.x x then (error, some c.buffer) else q).1
guard-Keeps c rows y x q h = elim (Bool-cases (leb rows y || leb c.x x)) [
  | inl e ↦ rw e refl
  | inr e ↦ rw e (h (ground arith) (ground arith))
]

do_putcs-Keeps :
    (c : Console) (origin rows y x count : ℕ) (cells : List ℕ)
    → origin + c.x * rows ≤ length c.buffer
    → count ≤ length cells
    → Keeps c (do_putcs c origin rows y x count cells).1
unfolding do_putcs
do_putcs-Keeps c origin rows y x count cells h k = guard-Keeps c rows y x _ (λ i j.
    let n = if ltb (c.x - x) count then c.x - x else count in
    let a : n ≤ c.x - x = ground arith in
    let b : ltb (length cells) n ≡ false = ground arith in
    rw b (
      write_cells-HasLength c.buffer (origin + c.x * y + x) (take n cells)
        (omega (arith, length-take n cells, mul-le-mul_left c.x i, mul-suc c.x y))))

clear_rows-Keeps :
    (c : Console) (rows t l r blank : ℕ) (buffer : List ℕ)
    → IsConsole c
    → t + rows ≤ c.y
    → l ≤ r
    → r < c.x
    → length buffer ≡ length c.buffer
    → Keeps c (clear_rows c rows t l r blank buffer)
unfolding clear_rows
clear_rows-Keeps c zero t l r blank buffer v h k m e = e
clear_rows-Keeps c (suc rows) t l r blank buffer v h k m e =
    let a = line_le c t (suc r) v (omega arith) m in
    and_then-HasLength (length c.buffer) (fill buffer (screen c + c.x * t + l) (suc r - l) blank) _
      (rw (sym e)
        (fill-HasLength buffer (screen c + c.x * t + l) (suc r - l) blank (omega (arith, a, e))))
      (λ buffer' e'. clear_rows-Keeps c rows (suc t) l r blank buffer' v (omega arith) k m e')

move_row-Keeps :
    (c : Console) (y x t l r : ℕ) (buffer : List ℕ)
    → IsConsole c
    → y < c.y
    → t < c.y
    → x + (r - l) < c.x
    → l ≤ r
    → r < c.x
    → length buffer ≡ length c.buffer
    → Keeps c (move_row c y x t l r buffer)
unfolding move_row
move_row-Keeps c y x t l r buffer v h k p q m e =
    let a = line_le c y (x + (r - l) + 1) v h (omega arith) in
    let b = line_le c t (r + 1) v k (omega arith) in
    let n : cells_between (r + 1) l ≡ r + 1 - l =
      cells_between-le (r + 1) l (omega arith) (omega (arith, b, v.small, v.full)) in
    rw (n, sym e)
      (memmove-HasLength buffer (screen c + c.x * y + x) (screen c + c.x * t + l) (r + 1 - l)
        (omega (arith, a, e)) (omega (arith, b, e)))

module _ (c : Console) (x l r : ℕ) (v : IsConsole c) (p : x + (r - l) < c.x) (q : l ≤ r)
    (m : r < c.x) where
  move_up-Keeps :
      (rows y t : ℕ) (buffer : List ℕ)
      → y + rows ≤ c.y
      → t + rows ≤ c.y
      → length buffer ≡ length c.buffer
      → Keeps c (move_up c rows y x t l r buffer)
  unfolding move_up
  move_up-Keeps zero y t buffer h k e = e
  move_up-Keeps (suc rows) y t buffer h k e =
      and_then-HasLength (length c.buffer) (move_row c y x t l r buffer) _
        (move_row-Keeps c y x t l r buffer v (omega arith) (omega arith) p q m e)
        (λ buffer' e'. move_up-Keeps rows (suc y) (suc t) buffer' (omega arith) (omega arith) e')

  move_down-Keeps :
      (rows y t : ℕ) (buffer : List ℕ)
      → y + rows ≤ c.y
      → t + rows ≤ c.y
      → length buffer ≡ length c.buffer
      → Keeps c (move_down c rows y x t l r buffer)
  unfolding move_down
  move_down-Keeps zero y t buffer h k e = e
  move_down-Keeps (suc rows) y t buffer h k e =
      and_then-HasLength (length c.buffer) (move_row c (y + rows) x (t + rows) l r buffer) _
        (move_row-Keeps c (y + rows) x (t + rows) l r buffer v (omega arith) (omega arith) p q m e)
        (λ buffer' e'. move_down-Keeps rows y t buffer' (omega arith) (omega arith) e')

if_option-Keeps :
    (c : Console) (b : Bool) (p q : Option (List ℕ))
    → Keeps c p
    → Keeps c q
    → Keeps c (if b then p else q)
if_option-Keeps c true p q h k = h
if_option-Keeps c false p q h k = k

change-Keeps :
    (c : Console) (message : Message)
    → IsConsole c
    → IsOnScreen c message
    → Keeps c (change c message).1
unfolding change do_bmove clear_rows
change-Keeps c (scroll_up t bottom lines charattr) v h =
    do_scroll_up-Keeps c v t (bottom + 1) lines charattr (omega (arith, h.0)) h.1
change-Keeps c (scroll_down t bottom lines charattr) v h =
    do_scroll_down-Keeps c v t (bottom + 1) lines charattr (omega (arith, h.0)) h.1
change-Keeps c (putcs y x count cells) v h =
    do_putcs-Keeps c (screen c) c.y y x count cells (lines_le c c.y v (omega arith)) h
change-Keeps c (init_scrollbuffer y x count cells) v h =
    do_putcs-Keeps c 0 c.max_y y x count cells (omega (arith, v.full)) h
change-Keeps c (putc x y charattr) v h = guard-Keeps c c.y y x _ (λ i j.
    write_cells-HasLength c.buffer (screen c + c.x * y + x) (charattr ∷ [])
      (omega (arith, line_le c y (x + 1) v i (omega arith))))
change-Keeps c (cursor_move position) v h = refl
change-Keeps c (clear t l b r charattr) v h = elim (Bool-cases (leb t b)) [
  | inl i ↦
      clear_rows-Keeps c (suc b - t) t l r charattr c.buffer v (omega (arith, h.0, leb→le t b i))
        h.1 h.2 refl
  | inr i ↦ let e : suc b - t ≡ 0 = ground (arith, i) in rw (e, clear_rows) refl
]
change-Keeps c (bmove y x t l b r) v h =
    if_option-Keeps c (ltb y t) _ _
      (move_up-Keeps c x l r v h.5 h.1 h.2 (suc b - t) y t c.buffer (omega (arith, h.3, h.4))
        (omega (arith, h.0, h.3)) refl)
      (move_down-Keeps c x l r v h.5 h.1 h.2 (suc b - t) y t c.buffer (omega (arith, h.3, h.4))
        (omega (arith, h.0, h.3)) refl)
change-Keeps c startup v h = refl
change-Keeps c (config rows cols attr) v h = refl
change-Keeps c switch v h =
    fill-HasLength c.buffer 0 (c.x * (c.max_y - c.y)) 0
      (omega (arith, mul_comm (c.max_y - c.y) c.x, lines_le c 0 v (omega arith)))
change-Keeps c other v h = refl

op_result-IsConsole :
    (c : Console) (message : Message) (r : Change)
    → IsConsole c
    → Keeps c r.1
    → (rc : Rc) × (c' : Console) × (message' : Message) × (op_result c message r
        ≡ some (rc, c', message'))
      × IsConsole c'
      × (c'.x ≡ c.x)
      × (c'.y ≡ c.y)
      × (c'.max_y ≡ c.max_y)
unfolding op_result
op_result-IsConsole c message (rc, none) v k = absurd k
op_result-IsConsole c message (rc, some buffer) v k = (
  rc,
  record c { buffer = buffer; cursor = new_cursor c message },
  reply c message,
  refl,
  record { fits = v.fits; full = k ∙ v.full; small = v.small },
  refl,
  refl,
  refl,
)

-- In a console whose screen is inside its buffer, every message that keeps to the screen (texts
-- only have to have their cells) is carried out without an access outside the buffer, and leaves
-- such a console of the same size. This covers every operation.
pub console_op-IsConsole :
    (c : Console) (message : Message)
    → IsConsole c
    → IsOnScreen c message
    → (rc : Rc) × (c' : Console) × (message' : Message) × (console_op c message
        ≡ some (rc, c', message'))
      × IsConsole c'
      × (c'.x ≡ c.x)
      × (c'.y ≡ c.y)
      × (c'.max_y ≡ c.max_y)
unfolding console_op
console_op-IsConsole c message v h =
    op_result-IsConsole c message (change c message) v (change-Keeps c message v h)
