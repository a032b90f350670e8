-- ===== src/Block/Tests.antt =====
-- Two users of one device, whose host opens every file.
use colinux_64bit.Base.{
  ℕ, ◌≡◌, Bool, ◌<◌, ◌+◌, refl, List, [], ◌∷◌, arith, some, none, true, false, leb, if◌then◌else◌,
}
use mathlib.Core.Path.{subst}
use mathlib.Core.Option.{some-injective, none-ne-some}
use colinux_64bit.Rc.{ok, error}
use colinux_64bit.Arch.{word}
use colinux_64bit.Block.{
  BlockType, open_, read, close, BlockDev, closed, Request, FileOps, file_service, serve, count,
  request_on, intern_block_request, Devices, dev_from_index,
}
use colinux_64bit.Block.Count.{
  IsConsistent, AllConsistent, users, opens_on, closes_on, run, run_counts,
}

abbrev host : FileOps Unit
host = record {
  file_open = λ w. (ok, w);
  file_read = λ r w. (ok, w);
  file_write = λ r w. (error, w);
  file_close = λ w. w;
  file_size = λ size w. (ok, 512, w);
}

abbrev idle : BlockDev
idle = record { size = 0; conf = none; use_count = 0; unit = 0; state = closed }

abbrev table : Devices
table j = if leb j 0 then some idle else none

idle-IsConsistent : IsConsistent idle
idle-IsConsistent = record { idle = λ e. refl; busy = λ n. absurd (n refl) }

of_none : (b : Bool) (d : BlockDev) → (if b then some idle else none) ≡ some d → IsConsistent d
of_none true d e = subst IsConsistent (some-injective idle d e) idle-IsConsistent
of_none false d e = absurd (none-ne-some d e)

table-AllConsistent : AllConsistent table
table-AllConsistent j d e = of_none (leb j 0) d e

abbrev asks : BlockType → ℕ × Request
asks type = (0, record { type = type; retcode = false; disk_size = 0; alias = [] })

abbrev requests : List (ℕ × Request)
requests = asks open_ ∷ asks open_ ∷ asks read ∷ asks close ∷ []

answers :
    (run host table requests tt).1
    ≡ (0, open_, ok) ∷ (0, open_, ok) ∷ (0, read, ok) ∷ (0, close, ok) ∷ []
unfolding run intern_block_request request_on serve file_service count dev_from_index
answers = refl

few : (j : ℕ) → users table j + 4 < word
few j = ground arith

run_counts_example :
    let (devs', log, w') = run host table requests tt in
    AllConsistent devs'
    × ((j : ℕ) → users devs' j + closes_on j log ≡ users table j + opens_on j log)
run_counts_example = run_counts host requests table tt table-AllConsistent (λ j. few j)
