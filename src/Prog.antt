-- ===== src/Prog.antt =====
-- C functions that change a state and return a `co_rc_t`: `none` is a loop that runs out of fuel.
pub mod Holds
use colinux_64bit.Base.{Option, none, some}
use colinux_64bit.Rc.{Rc, ok}

abbrev pub Prog : Type 0 → Type 0
Prog S = S → Option (Rc × S)

-- `if (!CO_OK(rc)) return rc;` and then the rest.
abbrev pub and_then : {S : Type 0} → Rc → S → Prog S → Option (Rc × S)
and_then ok s k = k s
and_then e s k = some (e, s)

abbrev pub bind : {S : Type 0} → Option (Rc × S) → Prog S → Option (Rc × S)
bind none k = none
bind (some (rc, s)) k = and_then rc s k
