-- ===== src/Console/Effect.antt =====
-- The cells after a text is written, and after the whole screen is scrolled up.
use Prim.Native.Nat.{min}
use native.Mathlib.Nat.{mul-le-mul_left}
use colinux_64bit.Base.{
  ℕ, zero, suc, ◌+◌, ◌-◌, ◌*◌, ◌%◌, ◌≤◌, ◌<◌, ◌≡◌, refl, ◌∙◌, inl, inr, true, false, not, ◌&&◌,
  ◌||◌, Option, none, some, List, [], ◌∷◌, ◌++◌, ◌==◌, ltb, leb, if◌then◌else◌, length, take, drop,
  replicate, get_or, arith, Bool-cases, length-take, length-drop, length-append, length-replicate,
  get_or-take, get_or-drop, ltb→lt,
}
use colinux_64bit.Arch.{word}
use colinux_64bit.Console.{Console, screen, scroll_up, putcs, do_scroll_up, do_putcs, change}
use colinux_64bit.Console.Cells.{
  cells_between, in_bounds, memmove, fill, write_cells, and_then, HasLength, memmove-HasLength,
  cells_between-le,
}
use colinux_64bit.Console.Safe.{IsConsole, line_le}

get_or-append :
    (xs ys : List ℕ) (i d : ℕ)
    → get_or (xs ++ ys) i d
      ≡ (if ltb i (length xs) then get_or xs i d else get_or ys (i - length xs) d)
get_or-append [] ys i d = let e : i - 0 ≡ i = omega arith in rw e (ground arith)
get_or-append (x ∷ xs) ys zero d = ground arith
get_or-append (x ∷ xs) ys (suc i) d =
    let e : suc i - suc (length xs) ≡ i - length xs = omega arith in
    let f : ltb (suc i) (suc (length xs)) ≡ ltb i (length xs) = ground arith in
    rw (e, f) (get_or-append xs ys i d)

get_or-replicate : (n a i d : ℕ) → i < n → get_or (replicate n a) i d ≡ a
get_or-replicate zero a i d h = absurd (omega arith)
get_or-replicate (suc n) a zero d h = refl
get_or-replicate (suc n) a (suc i) d h = get_or-replicate n a i d (omega arith)

-- A cell of a result; outside it is 0.
abbrev pub cell_of : Option (List ℕ) → ℕ → ℕ
cell_of none i = 0
cell_of (some buffer) i = get_or buffer i 0

-- `cells` laid over a buffer from `dst` on.
laid_over :
    (buffer cells : List ℕ) (dst i : ℕ)
    → dst ≤ length buffer
    → get_or (take dst buffer ++ cells ++ drop (dst + length cells) buffer) i 0 ≡ (
        if leb dst i && ltb i (dst + length cells)
        then get_or cells (i - dst) 0
        else get_or buffer i 0)
laid_over buffer cells dst i h =
    let l : length (take dst buffer) ≡ dst = omega (arith, length-take dst buffer) in
    let m : length (take dst buffer ++ cells) ≡ dst + length cells =
      omega (arith, l, length-append (take dst buffer) cells) in
    rw
      (
        get_or-append (take dst buffer ++ cells) (drop (dst + length cells) buffer) i 0,
        m,
        get_or-append (take dst buffer) cells i 0,
        l,
        get_or-drop (dst + length cells) buffer (i - (dst + length cells)) 0,
      )
      (elim (Bool-cases (ltb i dst)) [
        | inl a ↦ rw (get_or-take dst buffer i 0 (ltb→lt i dst a)) (ground arith)
        | inr a ↦ elim (Bool-cases (ltb i (dst + length cells))) [
          | inl b ↦ ground arith
          | inr b ↦
              let e : dst + length cells + (i - (dst + length cells)) ≡ i = ground arith in
              rw e (ground arith)
        ]
      ])

write_cells-cell_of :
    (buffer : List ℕ) (dst : ℕ) (cells : List ℕ) (i : ℕ)
    → dst + length cells ≤ length buffer
    → cell_of (write_cells buffer dst cells) i ≡ (
        if leb dst i && ltb i (dst + length cells)
        then get_or cells (i - dst) 0
        else get_or buffer i 0)
unfolding write_cells
write_cells-cell_of buffer dst cells i h =
    let e : in_bounds buffer dst (length cells) ≡ true = ground arith in
    rw e (laid_over buffer cells dst i (omega arith))

memmove-cell_of :
    (buffer : List ℕ) (dst src n i : ℕ)
    → dst + n ≤ length buffer
    → src + n ≤ length buffer
    → cell_of (memmove buffer dst src n) i ≡ (
        if leb dst i && ltb i (dst + n)
        then get_or buffer (src + (i - dst)) 0
        else get_or buffer i 0)
unfolding memmove
memmove-cell_of buffer dst src n i h k =
    let e : (in_bounds buffer dst n && in_bounds buffer src n) ≡ true = ground arith in
    let l : length (take n (drop src buffer)) ≡ n =
      omega (arith, length-take n (drop src buffer), length-drop src buffer) in
    let o = laid_over buffer (take n (drop src buffer)) dst i (omega arith) in
    rw e ((rw l at o) ∙ moved (i - dst))
  where
    moved :
        (j : ℕ)
        → (if leb dst i && ltb i (dst + n)
            then get_or (take n (drop src buffer)) (i - dst) 0
            else get_or buffer i 0)
          ≡ (if leb dst i && ltb i (dst + n)
              then get_or buffer (src + (i - dst)) 0
              else get_or buffer i 0)
    moved j = elim (Bool-cases (ltb (i - dst) n)) [
      | inl a ↦
          rw
            (
              get_or-take n (drop src buffer) (i - dst) 0 (ltb→lt (i - dst) n a),
              get_or-drop src buffer (i - dst) 0,
            )
            refl
      | inr a ↦ ground arith
    ]

-- The cells of a text, of which n are taken.
taken :
    (buffer cells : List ℕ) (dst n i : ℕ)
    → n ≤ length cells
    → dst + n ≤ length buffer
    → cell_of (write_cells buffer dst (take n cells)) i
      ≡ (if leb dst i && ltb i (dst + n) then get_or cells (i - dst) 0 else get_or buffer i 0)
taken buffer cells dst n i h k =
    let l : length (take n cells) ≡ n = omega (arith, length-take n cells) in
    let w = write_cells-cell_of buffer dst (take n cells) i (omega (arith, l)) in
    (rw l at w) ∙ same (i - dst)
  where
    same :
        (j : ℕ)
        → (if leb dst i && ltb i (dst + n)
            then get_or (take n cells) (i - dst) 0
            else get_or buffer i 0)
          ≡ (if leb dst i && ltb i (dst + n) then get_or cells (i - dst) 0 else get_or buffer i 0)
    same j = elim (Bool-cases (ltb (i - dst) n)) [
      | inl a ↦ rw (get_or-take n cells (i - dst) 0 (ltb→lt (i - dst) n a)) refl
      | inr a ↦ ground arith
    ]

-- A text from a place on the screen on, in a console whose screen is inside its buffer: its cells
-- are there, as many as the line still takes, and every other cell of the buffer, the history
-- included, is as before.
pub putcs-cell_of :
    (c : Console) (y x count : ℕ) (cells : List ℕ) (i : ℕ)
    → IsConsole c
    → y < c.y
    → x < c.x
    → count ≤ length cells
    → let at = screen c + c.x * y + x in
      cell_of (change c (putcs y x count cells)).1 i ≡ (
        if leb at i && ltb i (at + min count (c.x - x))
        then get_or cells (i - at) 0
        else get_or c.buffer i 0)
unfolding change do_putcs
putcs-cell_of c y x count cells i v h k e =
    let g : (leb c.y y || leb c.x x) ≡ false = ground arith in
    let n : (if ltb (c.x - x) count then c.x - x else count) ≡ min count (c.x - x) = ground arith in
    let f : ltb (length cells) (min count (c.x - x)) ≡ false = ground arith in
    rw (g, n, f)
      (taken c.buffer cells (screen c + c.x * y + x) (min count (c.x - x)) i (omega arith)
        (omega (arith, line_le c y (x + min count (c.x - x)) v h (omega arith))))

-- The move of a whole buffer by `s` cells, and the blanks behind it.
moved_up :
    (buffer : List ℕ) (s total blank i : ℕ)
    → length buffer ≡ total
    → s ≤ total
    → i < total
    → cell_of
        (and_then
          (memmove buffer 0 s (total - s - 0))
          (λ b. write_cells b (total - s) (replicate s blank)))
        i
      ≡ (if ltb (i + s) total then get_or buffer (i + s) 0 else blank)
moved_up buffer s total blank i e h k =
    let m = memmove-HasLength buffer 0 s (total - s - 0) (omega arith) (omega arith) in
    let q = memmove-cell_of buffer 0 s (total - s - 0) i (omega arith) (omega arith) in
    over (memmove buffer 0 s (total - s - 0)) m q
  where
    last :
        (b : List ℕ)
        → get_or b i 0 ≡ (
            if leb 0 i && ltb i (0 + (total - s - 0))
            then get_or buffer (s + (i - 0)) 0
            else get_or buffer i 0)
        → (cell : ℕ) → (i - (total - s) < s → cell ≡ blank)
        → (if leb (total - s) i && ltb i (total - s + s) then cell else get_or b i 0)
          ≡ (if ltb (i + s) total then get_or buffer (i + s) 0 else blank)
    last b q cell f = elim (Bool-cases (ltb (i + s) total)) [
      | inl a ↦
          let z : s + (i - 0) ≡ i + s = omega arith in let r = rw z at q in ground (arith, a, r)
      | inr a ↦ ground (arith, a, f (ground arith))
    ]

    over :
        (o : Option (List ℕ))
        → HasLength (length buffer) o
        → cell_of o i ≡ (
            if leb 0 i && ltb i (0 + (total - s - 0))
            then get_or buffer (s + (i - 0)) 0
            else get_or buffer i 0)
        → cell_of (and_then o (λ b. write_cells b (total - s) (replicate s blank))) i
          ≡ (if ltb (i + s) total then get_or buffer (i + s) 0 else blank)
    over none m q = absurd m
    over (some b) m q =
        write_cells-cell_of b (total - s) (replicate s blank) i
          (omega (arith, length-replicate s blank))
        ∙ rw (length-replicate s blank) (
            last b q (get_or (replicate s blank) (i - (total - s)) 0)
              (get_or-replicate s blank (i - (total - s)) 0))

-- The whole screen scrolled up by at most as many lines as it has, in a console whose screen is
-- inside its buffer: the buffer with its history moves up by the lines, and the lines that become
-- free at its end are blank.
pub scroll_up-cell_of :
    (c : Console) (bottom lines charattr i : ℕ)
    → IsConsole c
    → bottom + 1 ≡ c.y
    → lines ≤ c.y
    → i < c.x * c.max_y
    → cell_of (change c (scroll_up 0 bottom lines charattr)).1 i ≡ (
        if ltb (i + c.x * lines) (c.x * c.max_y)
        then get_or c.buffer (i + c.x * lines) 0
        else charattr)
unfolding change do_scroll_up fill
scroll_up-cell_of c bottom lines charattr i v b h k =
    let g : (not (0 == 0) || not (bottom + 1 == c.y)) ≡ false = ground arith in
    let s : c.x * lines ≤ c.x * c.max_y = mul-le-mul_left c.x (omega arith) in
    let o : (c.x * c.max_y + word - c.x * lines) % word ≡ c.x * c.max_y - c.x * lines =
      omega (arith, s, v.small) in
    let z : cells_between (c.x * c.max_y - c.x * lines) 0 ≡ c.x * c.max_y - c.x * lines - 0 =
      cells_between-le _ _ (omega arith) (omega (arith, v.small)) in
    rw (g, o, z)
      (moved_up c.buffer (c.x * lines) (c.x * c.max_y) charattr i (omega (arith, v.full)) s k)
