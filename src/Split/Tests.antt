-- ===== src/Split/Tests.antt =====
-- The page loop at concrete ranges.
use colinux_64bit.Base.{ℕ, ◌≡◌, refl, List, arith}
use colinux_64bit.Prog.{Prog}
use colinux_64bit.Split.{part_size, split_by_pages, run_pieces}
use colinux_64bit.Split.Pieces.{addresses, range, InPages, split_by_pages-run_pieces}

-- To the end of the page, and at the top of the address space, where the sum wraps.
part_size_at_border : part_size 4090 20 ≡ 6
unfolding part_size
part_size_at_border = refl

part_size_at_top : part_size 0xffff_fff0 0x10 ≡ 0x10
unfolding part_size
part_size_at_top = refl

split_by_pages-run_pieces_example :
    (ps : List (ℕ × ℕ)) × (addresses ps ≡ range 4090 20)
    × InPages ps
    × ((S : Type 0) (func : ℕ → ℕ → Prog S) → split_by_pages func 4090 20 ≡ run_pieces func ps)
split_by_pages-run_pieces_example = split_by_pages-run_pieces 4090 20 (omega arith)
