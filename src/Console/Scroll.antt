-- ===== src/Console/Scroll.antt =====
-- Scrolling a region whose last line is below the screen.
use native.Mathlib.Nat.{mul-le-mul_left, mul-add}
use colinux_64bit.Base.{
  ℕ, ◌+◌, ◌-◌, ◌*◌, ◌%◌, ◌≤◌, ◌<◌, ◌≡◌, refl, ap, Bool, true, false, not, ◌&&◌, ◌||◌, Option, none,
  List, ◌==◌, ltb, leb, if◌then◌else◌, length, arith,
}
use colinux_64bit.Rc.{ok}
use colinux_64bit.Arch.{word}
use colinux_64bit.Console.{Console, screen, scroll_up, do_scroll_up, change, op_result, console_op}
use colinux_64bit.Console.Cells.{cells_between, in_bounds, memmove, cells_between-le}
use colinux_64bit.Console.Safe.{IsConsole, screen_lines}

and_false : (b : Bool) (x : Option (List ℕ)) → (if b && false then x else none) ≡ none
and_false true x = refl
and_false false x = refl

or_not_false : (b : Bool) → (not b || true) ≡ true
or_not_false true = refl
or_not_false false = refl

memmove_past :
    (buffer : List ℕ) (dst src n : ℕ)
    → 0 < n
    → length buffer < src + n
    → memmove buffer dst src n ≡ none
unfolding memmove
memmove_past buffer dst src n h k =
    let e : in_bounds buffer src n ≡ false = ground arith in
    rw e (and_false (in_bounds buffer dst n) _)

do_scroll_up_past :
    (c : Console) (top bottom lines charattr : ℕ)
    → IsConsole c
    → 0 < c.x
    → c.y ≤ bottom
    → bottom < c.max_y
    → top + lines ≤ bottom
    → do_scroll_up c top (bottom + 1) lines charattr ≡ (ok, none)
unfolding do_scroll_up
do_scroll_up_past c t bottom lines charattr v p h k m =
    let below : (bottom + 1 == c.y) ≡ false = ground arith in
    let first : ltb c.max_y (bottom + 1) ≡ false = ground arith in
    let second : leb c.max_y (t + lines) ≡ false = ground arith in
    let a = mul-le-mul_left c.x m in
    let b : c.x * (bottom + 1) ≤ c.x * c.max_y = mul-le-mul_left c.x (omega arith) in
    let d = mul-le-mul_left c.x h in
    let e = mul-add c.x bottom 1 in
    let f = mul-add c.x t lines in
    let one : c.x * 1 ≡ c.x = omega arith in
    let offset : (c.x * (bottom + 1) + word - c.x * lines) % word
        ≡ c.x * (bottom + 1) - c.x * lines =
      omega (arith, a, b, e, f, v.small) in
    let n : cells_between (c.x * (bottom + 1) - c.x * lines) (c.x * t)
        ≡ c.x * (bottom + 1) - c.x * lines - c.x * t =
      cells_between-le _ _ (omega (arith, a, e, f)) (omega (arith, b, v.small)) in
    let z =
      memmove_past c.buffer (screen c + c.x * t) (screen c + c.x * t + c.x * lines)
        (c.x * (bottom + 1) - c.x * lines - c.x * t) (omega (arith, a, e, f, one, p))
        (omega (arith, a, d, e, f, one, p, screen_lines c v)) in
    rw (below, or_not_false (t == 0), first, second, offset, n, z) refl

-- In a console whose screen is inside its buffer and has columns: scrolling up a region that ends
-- below the screen, though not below as many lines as the buffer has, and that keeps a line, passes
-- the tests and reads outside the buffer.
pub scroll_up_overruns :
    (c : Console) (top bottom lines charattr : ℕ)
    → IsConsole c
    → 0 < c.x
    → c.y ≤ bottom
    → bottom < c.max_y
    → top + lines ≤ bottom
    → console_op c (scroll_up top bottom lines charattr) ≡ none
unfolding console_op change op_result
scroll_up_overruns c t bottom lines charattr v p h k m =
    ap (op_result c (scroll_up t bottom lines charattr))
      (do_scroll_up_past c t bottom lines charattr v p h k m)
