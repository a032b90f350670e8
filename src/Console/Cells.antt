-- ===== src/Console/Cells.antt =====
-- Copies between and into cells of a buffer, with the buffer's bounds.
use colinux_64bit.Base.{
  ℕ, ◌+◌, ◌-◌, ◌*◌, ◌/◌, ◌%◌, ◌^◌, ◌≤◌, ◌<◌, ◌≡◌, Bool, true, ◌||◌, ◌&&◌, Option, none, some, List,
  ◌++◌, ◌==◌, leb, if◌then◌else◌, length, take, drop, replicate, arith, length-append, length-take,
  length-drop, length-replicate,
}
use colinux_64bit.Arch.{word}

-- `(a - b) * sizeof(co_console_cell_t)` on words, in cells of two bytes.
abbrev pub cells_between : ℕ → ℕ → ℕ
cells_between a b = (a + word - b) * 2 % word / 2

-- Whether n cells from an index on are inside the buffer. No cell is.
abbrev pub in_bounds : List ℕ → ℕ → ℕ → Bool
in_bounds buffer at n = (n == 0) || leb (at + n) (length buffer)

-- `memmove` inside the buffer, and a loop that writes one cell n times.
unfoldable pub memmove : List ℕ → ℕ → ℕ → ℕ → Option (List ℕ)
memmove buffer dst src n =
    if in_bounds buffer dst n && in_bounds buffer src n
    then some (take dst buffer ++ take n (drop src buffer) ++ drop (dst + n) buffer)
    else none

unfoldable pub write_cells : List ℕ → ℕ → List ℕ → Option (List ℕ)
write_cells buffer dst cells =
    if in_bounds buffer dst (length cells)
    then some (take dst buffer ++ cells ++ drop (dst + length cells) buffer)
    else none

unfoldable pub fill : List ℕ → ℕ → ℕ → ℕ → Option (List ℕ)
fill buffer dst n cell = write_cells buffer dst (replicate n cell)

abbrev pub and_then : Option (List ℕ) → (List ℕ → Option (List ℕ)) → Option (List ℕ)
and_then none k = none
and_then (some buffer) k = k buffer

-- A buffer of a given length.
abbrev pub HasLength : ℕ → Option (List ℕ) → Type 0
HasLength n none = ⊥
HasLength n (some buffer) = length buffer ≡ n

pub and_then-HasLength :
    (n : ℕ) (o : Option (List ℕ)) (k : List ℕ → Option (List ℕ))
    → HasLength n o
    → ((buffer : List ℕ) → length buffer ≡ n → HasLength n (k buffer))
    → HasLength n (and_then o k)
and_then-HasLength n none k h f = absurd h
and_then-HasLength n (some buffer) k h f = f buffer h

pub memmove-HasLength :
    (buffer : List ℕ) (dst src n : ℕ)
    → dst + n ≤ length buffer
    → src + n ≤ length buffer
    → HasLength (length buffer) (memmove buffer dst src n)
unfolding memmove
memmove-HasLength buffer dst src n h k =
    let e : (in_bounds buffer dst n && in_bounds buffer src n) ≡ true = ground arith in
    rw e (
      omega (
        arith,
        length-append (take dst buffer ++ take n (drop src buffer)) (drop (dst + n) buffer),
        length-append (take dst buffer) (take n (drop src buffer)),
        length-take dst buffer,
        length-take n (drop src buffer),
        length-drop src buffer,
        length-drop (dst + n) buffer,
      ))

pub write_cells-HasLength :
    (buffer : List ℕ) (dst : ℕ) (cells : List ℕ)
    → dst + length cells ≤ length buffer
    → HasLength (length buffer) (write_cells buffer dst cells)
unfolding write_cells
write_cells-HasLength buffer dst cells h =
    let e : in_bounds buffer dst (length cells) ≡ true = ground arith in
    rw e (
      omega (
        arith,
        length-append (take dst buffer ++ cells) (drop (dst + length cells) buffer),
        length-append (take dst buffer) cells,
        length-take dst buffer,
        length-drop (dst + length cells) buffer,
      ))

pub fill-HasLength :
    (buffer : List ℕ) (dst n cell : ℕ)
    → dst + n ≤ length buffer
    → HasLength (length buffer) (fill buffer dst n cell)
unfolding fill
fill-HasLength buffer dst n cell h =
    write_cells-HasLength buffer dst (replicate n cell) (omega (arith, length-replicate n cell))

pub cells_between-le : (a b : ℕ) → b ≤ a → a < 2 ^ 31 → cells_between a b ≡ a - b
cells_between-le a b h k = omega arith
