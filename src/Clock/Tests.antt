-- ===== src/Clock/Tests.antt =====
-- The division and the clock at concrete inputs.
use colinux_64bit.Base.{ℕ, ◌/◌, ◌%◌, ◌^◌, ◌≡◌, refl, some, [], ◌∷◌, arith}
use colinux_64bit.Clock.{Clock, div64_32}
use colinux_64bit.Clock.Divide.{div64_32-div}
use colinux_64bit.Clock.Jiffies.{ticks, IsClock, Accounts, ticks-Accounts}

div64_32_large : div64_32 18446744073709551615 10 ≡ some (1844674407370955161, 5)
unfolding div64_32
div64_32_large = refl

-- A counter of 3,579,545 counts a second, that goes back once.
abbrev acpi_clock : Clock
acpi_clock = record { timestamp = 1000; timestamp_freq = 3_579_545; timestamp_reminder = 0 }

ticks-Accounts_example :
    (j : ℕ) × (c' : Clock) × (ticks (40_000 ∷ 30_000 ∷ 100_000 ∷ []) acpi_clock ≡ some (j, c'))
    × IsClock 100_000 c'
    × Accounts (40_000 ∷ 30_000 ∷ 100_000 ∷ []) acpi_clock j c'
ticks-Accounts_example =
    ticks-Accounts 100_000 (40_000 ∷ 30_000 ∷ 100_000 ∷ []) acpi_clock (omega arith)
      (record { running = omega arith; word = omega arith; part = omega arith; long = omega arith })

div64_32-div_example : div64_32 (2 ^ 40) 7 ≡ some (2 ^ 40 / 7, 2 ^ 40 % 7)
div64_32-div_example = div64_32-div (2 ^ 40) 7 (omega arith) (omega arith) (omega arith)
