-- ===== src/Console.antt =====
-- src/colinux/common/console.c: the buffer of a console and the messages that change it. The buffer
-- is the list of its cells, the screen its last `y` lines. An access outside the buffer, or outside
-- a message's data, is `none`. Fields of messages are 16-bit numbers (`co_console_unit`).
pub mod Cells
pub mod Safe
pub mod Keep
pub mod Scroll
pub mod Effect
mod Tests
use colinux_64bit.Base.{
  ℕ, zero, suc, ◌+◌, ◌-◌, ◌*◌, ◌/◌, ◌%◌, ◌^◌, Bool, true, false, not, ◌&&◌, ◌||◌, Option, none,
  some, List, [], ◌∷◌, ◌++◌, ◌==◌, ltb, leb, if◌then◌else◌, length, take, drop, replicate,
}
use colinux_64bit.Rc.{Rc, ok, error, out_of_memory}
use colinux_64bit.Arch.{word}
use colinux_64bit.Console.Cells.{cells_between, memmove, fill, write_cells, and_then}

-- `co_console_t` with the fields of its configuration that the code reads.
pub record Console : Type 0 where
  pub x : ℕ
  pub y : ℕ
  pub max_y : ℕ
  pub attr : ℕ
  pub buffer : List ℕ
  pub cursor : ℕ × ℕ × ℕ

-- `console->screen`, as an index of the buffer.
abbrev pub screen : Console → ℕ
screen c = (c.max_y - c.y) * c.x

-- `co_console_create`, where there is memory or not.
unfoldable pub console_create : Bool → ℕ → ℕ → ℕ → ℕ → Rc × Option Console
console_create false x y max_y attr = (out_of_memory, none)
console_create true x y max_y attr = (
  ok,
  some (record {
    x = x;
    y = y;
    max_y = max_y;
    attr = attr;
    buffer = replicate (x * max_y) 0;
    cursor = (0, 0, 0);
  }),
)

-- `co_console_message_t`; `other` stands for the operations that the code ignores.
pub data Message : Type 0 where
  scroll_up scroll_down : (top bottom lines charattr : ℕ) → Message
  putcs init_scrollbuffer : (y x count : ℕ) (data_cells : List ℕ) → Message
  putc : (x y charattr : ℕ) → Message
  cursor_move : ℕ × ℕ × ℕ → Message
  clear : (top left bottom right charattr : ℕ) → Message
  bmove : (row column top left bottom right : ℕ) → Message
  startup : Message
  config : (rows cols attr : ℕ) → Message
  switch : Message
  other : Message

-- The changed buffer, or the error that leaves it.
abbrev pub Change : Type 0
Change = Rc × Option (List ℕ)

-- CO_OPERATION_CONSOLE_SCROLL_UP, with `b` one more than the last line.
unfoldable pub do_scroll_up : Console → ℕ → ℕ → ℕ → ℕ → Change
do_scroll_up c t b lines blank =
    let s_count = c.x * lines in
    if not (t == 0) || not (b == c.y)
    then (if ltb c.max_y b
        then (error, some c.buffer)
        else if leb c.max_y (t + lines)
        then (error, some c.buffer)
        else let offs = (c.x * b + word - s_count) % word in
          (
            ok,
            and_then
                (memmove c.buffer (screen c + c.x * t) (screen c + c.x * t + s_count)
                  (cells_between offs (c.x * t)))
                (λ buffer. fill buffer (screen c + offs) s_count blank),
          ))
    else let offs = (c.x * c.max_y + word - s_count) % word in
      (
        ok,
        and_then (memmove c.buffer 0 s_count (cells_between offs 0))
            (λ buffer. fill buffer offs s_count blank),
      )

-- CO_OPERATION_CONSOLE_SCROLL_DOWN; `n` cells move down by `s_count`.
unfoldable pub move_lines : Console → ℕ → ℕ → ℕ → ℕ → Change
move_lines c dest s_count blank n = (
  ok,
  and_then (memmove c.buffer (dest + s_count) dest n) (λ buffer. fill buffer dest s_count blank),
)

unfoldable pub do_scroll_down : Console → ℕ → ℕ → ℕ → ℕ → Change
do_scroll_down c t b lines blank =
    let s_count = c.x * lines in
    if not (t == 0) || not (b == c.y)
    then (if ltb c.max_y b
        then (error, some c.buffer)
        else if leb c.max_y (t + lines)
        then (error, some c.buffer)
        else move_lines c (screen c + c.x * t) s_count blank
            (cells_between (c.x * b) (c.x * t + s_count)))
    else move_lines c (screen c) s_count blank (cells_between (c.x * c.y) s_count)

-- CO_OPERATION_CONSOLE_PUTCS and CO_OPERATION_CONSOLE_INIT_SCROLLBUFFER: cells from line `y` and
-- column `x` on, in an area of `rows` lines that starts at `origin`.
unfoldable pub do_putcs : Console → ℕ → ℕ → ℕ → ℕ → ℕ → List ℕ → Change
do_putcs c origin rows y x count cells =
    if leb rows y || leb c.x x
    then (error, some c.buffer)
    else let n = if ltb (c.x - x) count then c.x - x else count in
      (
        ok,
        (if ltb (length cells) n
            then none
            else write_cells c.buffer (origin + c.x * y + x) (take n cells)),
      )

-- CO_OPERATION_CONSOLE_CLEAR: `rows` lines from `t` on.
unfoldable pub clear_rows : Console → ℕ → ℕ → ℕ → ℕ → ℕ → List ℕ → Option (List ℕ)
clear_rows c zero t l r blank buffer = some buffer
clear_rows c (suc rows) t l r blank buffer =
    and_then (fill buffer (screen c + c.x * t + l) (suc r - l) blank)
      (λ buffer'. clear_rows c rows (suc t) l r blank buffer')

-- CO_OPERATION_CONSOLE_BMOVE: upwards from the first line, or downwards from the last one.
unfoldable pub move_row : Console → ℕ → ℕ → ℕ → ℕ → ℕ → List ℕ → Option (List ℕ)
move_row c y x t l r buffer =
    memmove buffer (screen c + c.x * y + x) (screen c + c.x * t + l) (cells_between (r + 1) l)

unfoldable pub move_up : Console → ℕ → ℕ → ℕ → ℕ → ℕ → ℕ → List ℕ → Option (List ℕ)
move_up c zero y x t l r buffer = some buffer
move_up c (suc rows) y x t l r buffer =
    and_then (move_row c y x t l r buffer) (λ buffer'. move_up c rows (suc y) x (suc t) l r buffer')

unfoldable pub move_down : Console → ℕ → ℕ → ℕ → ℕ → ℕ → ℕ → List ℕ → Option (List ℕ)
move_down c zero y x t l r buffer = some buffer
move_down c (suc rows) y x t l r buffer =
    and_then (move_row c (y + rows) x (t + rows) l r buffer)
      (λ buffer'. move_down c rows y x t l r buffer')

unfoldable pub do_bmove : Console → ℕ → ℕ → ℕ → ℕ → ℕ → ℕ → Option (List ℕ)
do_bmove c y x t l b r =
    if ltb y t
    then move_up c (suc b - t) y x t l r c.buffer
    else move_down c (suc b - t) y x t l r c.buffer

-- What a message changes in the buffer.
unfoldable pub change : Console → Message → Change
change c (scroll_up top bottom lines charattr) = do_scroll_up c top (bottom + 1) lines charattr
change c (scroll_down top bottom lines charattr) = do_scroll_down c top (bottom + 1) lines charattr
change c (putcs y x count cells) = do_putcs c (screen c) c.y y x count cells
change c (init_scrollbuffer y x count cells) = do_putcs c 0 c.max_y y x count cells
change c (putc x y charattr) =
    if leb c.y y || leb c.x x
    then (error, some c.buffer)
    else (ok, write_cells c.buffer (screen c + c.x * y + x) (charattr ∷ []))
change c (clear t l b r charattr) = (ok, clear_rows c (suc b - t) t l r charattr c.buffer)
change c (bmove y x t l b r) = (ok, do_bmove c y x t l b r)
change c switch = (ok, fill c.buffer 0 (c.x * (c.max_y - c.y)) 0)
change c message = (ok, some c.buffer)

abbrev pub new_cursor : Console → Message → ℕ × ℕ × ℕ
new_cursor c (cursor_move position) = position
new_cursor c message = c.cursor

abbrev pub reply : Console → Message → Message
reply c startup = config c.y c.x c.attr
reply c message = message

-- `co_console_op`: the code, the console and the message afterwards.
unfoldable pub op_result : Console → Message → Change → Option (Rc × Console × Message)
op_result c message (rc, none) = none
op_result c message (rc, some buffer) =
    some (rc, record c { buffer = buffer; cursor = new_cursor c message }, reply c message)

unfoldable pub console_op : Console → Message → Option (Rc × Console × Message)
console_op c message = op_result c message (change c message)
