-- ===== src/Console/Tests.antt =====
-- A console of two lines of three cells, with one line of history.
use colinux_64bit.Base.{
  ◌+◌, ◌-◌, ◌*◌, if◌then◌else◌, leb, ltb, ◌&&◌, get_or, ℕ, ◌≡◌, refl, Option, some, none, List, [],
  ◌∷◌, arith,
}
use Prim.Native.Nat.{min}
use colinux_64bit.Rc.{Rc}
use colinux_64bit.Console.{
  Console, Message, scroll_up, bmove, putcs, console_op, op_result, change, do_putcs,
}
use colinux_64bit.Console.Cells.{write_cells}
use colinux_64bit.Console.Safe.{IsConsole}
use colinux_64bit.Console.Keep.{console_op-IsConsole}
use colinux_64bit.Console.Effect.{cell_of, putcs-cell_of, scroll_up-cell_of}
use colinux_64bit.Console.Scroll.{scroll_up_overruns}

abbrev small_console : Console
small_console = record {
  x = 3;
  y = 2;
  max_y = 3;
  attr = 7;
  buffer = 1 ∷ 2 ∷ 3 ∷ 4 ∷ 5 ∷ 6 ∷ 7 ∷ 8 ∷ 9 ∷ [];
  cursor = (0, 0, 0);
}

small_console-IsConsole : IsConsole small_console
small_console-IsConsole = record { fits = omega arith; full = refl; small = omega arith }

abbrev result : Option (Rc × Console × Message) → List ℕ
result none = []
result (some (rc, c, message)) = c.buffer

text :
    result (console_op small_console (putcs 1 1 5 (65 ∷ 66 ∷ 67 ∷ 68 ∷ 69 ∷ [])))
    ≡ 1 ∷ 2 ∷ 3 ∷ 4 ∷ 5 ∷ 6 ∷ 7 ∷ 65 ∷ 66 ∷ []
unfolding console_op op_result change do_putcs write_cells
text = refl

console_op-IsConsole_example :
    (rc : Rc) × (c' : Console) × (message' : Message) × (console_op small_console
        (bmove 1 0 0 1 0 2)
      ≡ some (rc, c', message'))
    × IsConsole c'
    × (c'.x ≡ 3)
    × (c'.y ≡ 2)
    × (c'.max_y ≡ 3)
console_op-IsConsole_example =
    console_op-IsConsole small_console (bmove 1 0 0 1 0 2) small_console-IsConsole
      (omega arith, omega arith, omega arith, omega arith, omega arith, omega arith)

scroll_up_overruns_example : console_op small_console (scroll_up 1 2 1 32) ≡ none
scroll_up_overruns_example =
    scroll_up_overruns small_console 1 2 1 32 small_console-IsConsole (omega arith) (omega arith)
      (omega arith) (omega arith)

putcs-cell_of_example :
    cell_of (change small_console (putcs 1 1 5 (65 ∷ 66 ∷ 67 ∷ 68 ∷ 69 ∷ []))).1 8 ≡ (
      if leb 7 8 && ltb 8 (7 + min 5 2)
      then get_or (65 ∷ 66 ∷ 67 ∷ 68 ∷ 69 ∷ []) (8 - 7) 0
      else get_or small_console.buffer 8 0)
putcs-cell_of_example =
    putcs-cell_of small_console 1 1 5 (65 ∷ 66 ∷ 67 ∷ 68 ∷ 69 ∷ []) 8 small_console-IsConsole
      (omega arith) (omega arith) (omega arith)

scroll_up-cell_of_example :
    cell_of (change small_console (scroll_up 0 1 1 32)).1 4
    ≡ (if ltb (4 + 3 * 1) 9 then get_or small_console.buffer (4 + 3 * 1) 0 else 32)
scroll_up-cell_of_example =
    scroll_up-cell_of small_console 1 1 32 4 small_console-IsConsole refl (omega arith)
      (omega arith)
