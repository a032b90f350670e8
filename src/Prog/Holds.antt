-- ===== src/Prog/Holds.antt =====
-- What holds of the state that a function leaves, on success and on failure. A function that runs out
-- of fuel leaves none, so nothing holds of it: these are statements of total correctness.
use colinux_64bit.Base.{Option, none, some}
use colinux_64bit.Rc.{Rc, ok}
use colinux_64bit.Prog.{Prog, and_then, bind}

abbrev pub Holds : {S : Type 0} → (S → Type 0) → Option (Rc × S) → Type 0
Holds P none = ⊥
Holds P (some (rc, s)) = P s

module _ {S : Type 0} (P : S → Type 0) where
  and_then-Holds :
      (rc : Rc) (s : S) (k : Prog S)
      → P s
      → ((t : S) → P t → Holds P (k t))
      → Holds P (and_then rc s k)
  and_then-Holds ok s k p h = h s p
  and_then-Holds _ s k p h = p

  pub bind-Holds :
      (o : Option (Rc × S)) (k : Prog S)
      → Holds P o
      → ((t : S) → P t → Holds P (k t))
      → Holds P (bind o k)
  bind-Holds none k p h = absurd p
  bind-Holds (some (rc, s)) k p h = and_then-Holds rc s k p h

-- On success only; the function still has to end.
abbrev pub OnOk : {S : Type 0} → (S → Type 0) → Option (Rc × S) → Type 0
OnOk P none = ⊥
OnOk P (some (ok, s)) = P s
OnOk P (some (rc, s)) = Unit

module _ {S : Type 0} (P Q : S → Type 0) where
  and_then-OnOk :
      (rc : Rc) (s : S) (k : Prog S)
      → OnOk P (some (rc, s))
      → ((t : S) → P t → OnOk Q (k t))
      → OnOk Q (and_then rc s k)
  and_then-OnOk ok s k p h = h s p
  and_then-OnOk _ s k p h = tt

  pub bind-OnOk :
      (o : Option (Rc × S)) (k : Prog S)
      → OnOk P o
      → ((t : S) → P t → OnOk Q (k t))
      → OnOk Q (bind o k)
  bind-OnOk none k p h = absurd p
  bind-OnOk (some (rc, s)) k p h = and_then-OnOk rc s k p h

pub map-OnOk :
    {S : Type 0} (P Q : S → Type 0) (o : Option (Rc × S))
    → ((t : S) → P t → Q t)
    → OnOk P o
    → OnOk Q o
map-OnOk P Q none f p = p
map-OnOk P Q (some (ok, s)) f p = f s p
map-OnOk P Q (some (_, s)) f p = tt

pub always-OnOk : {S : Type 0} (P : S → Type 0) (rc : Rc) (s : S) → P s → OnOk P (some (rc, s))
always-OnOk P ok s p = p
always-OnOk P _ s p = tt

pub both-OnOk :
    {S : Type 0} (P Q : S → Type 0) (o : Option (Rc × S))
    → OnOk P o
    → OnOk Q o
    → OnOk (λ s. P s × Q s) o
both-OnOk P Q none p q = p
both-OnOk P Q (some (ok, s)) p q = (p, q)
both-OnOk P Q (some (_, s)) p q = tt

pub Holds-OnOk :
    {S : Type 0} (P Q : S → Type 0) (o : Option (Rc × S))
    → ((t : S) → P t → Q t)
    → Holds P o
    → OnOk Q o
Holds-OnOk P Q none f p = p
Holds-OnOk P Q (some (ok, s)) f p = f s p
Holds-OnOk P Q (some (_, s)) f p = tt
