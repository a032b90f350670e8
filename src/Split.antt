-- ===== src/Split.antt =====
-- src/colinux/kernel/pages.c, `co_split_by_pages_and_callback`: the loop that cuts a range of guest
-- addresses at the page borders. The loop of src/colinux/kernel/transfer.c cuts in the same way.
pub mod Pieces
pub mod Keep
mod Tests
use colinux_64bit.Base.{
  ℕ, zero, suc, ◌+◌, ◌-◌, ◌/◌, ◌*◌, ◌%◌, Option, none, some, List, [], ◌∷◌, ◌==◌, ltb,
  if◌then◌else◌,
}
use colinux_64bit.Rc.{Rc, ok}
use colinux_64bit.Prog.{Prog, bind}
use colinux_64bit.Arch.{add32, sub32, page_base, page_size}

-- The bytes from an address to the end of its page, cut at the bytes that are left.
unfoldable pub part_size : ℕ → ℕ → ℕ
part_size offset size =
    let part = sub32 (page_base (add32 offset page_size)) offset in
    if ltb size part then size else part

-- The `while` loop on fuel: `func offset part` is the callback with its data in the state.
unfoldable pub split : {S : Type 0} → ℕ → (ℕ → ℕ → Prog S) → ℕ → ℕ → Prog S
split zero func offset size s = none
split (suc fuel) func offset size s =
    let part = part_size offset size in
    let rest = split fuel func (add32 offset part) (size - part) in
    if size == 0 then some (ok, s) else bind (func offset part s) rest

-- Each round leaves fewer bytes, so the size bounds the rounds.
unfoldable pub split_by_pages : {S : Type 0} → (ℕ → ℕ → Prog S) → ℕ → ℕ → Prog S
unfolding split
split_by_pages func offset size = split (suc size) func offset size

-- The callback on a list of pieces, stopped by the first that fails.
unfoldable pub run_pieces : {S : Type 0} → (ℕ → ℕ → Prog S) → List (ℕ × ℕ) → Prog S
run_pieces func [] s = some (ok, s)
run_pieces func ((offset, part) ∷ ps) s = bind (func offset part s) (run_pieces func ps)
