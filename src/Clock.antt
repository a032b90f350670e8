-- ===== src/Clock.antt =====
-- src/colinux/common/common.h, `co_div64_32`, and src/colinux/kernel/monitor.c,
-- `callback_return_jiffies`: the guest's time in ticks of 10 ms, from the host's counter.
pub mod Divide
pub mod Jiffies
mod Tests
use colinux_64bit.Base.{
  ℕ, zero, suc, ◌+◌, ◌-◌, ◌*◌, ◌/◌, ◌%◌, ◌^◌, Bool, true, false, ◌&&◌, Option, none, some, ltb, leb,
  ◌==◌, if◌then◌else◌,
}

-- `unsigned long long`
abbrev pub quad : ℕ
quad = 2 ^ 64

-- The first loop: `b` and `d` are doubled while `b`, read as signed, is positive and less than the
-- rest. `none` is a loop that takes more rounds than the fuel.
unfoldable pub double_up : ℕ → ℕ → ℕ → ℕ → Option (ℕ × ℕ)
double_up zero rem b d = none
double_up (suc fuel) rem b d =
    let rest = double_up fuel rem ((b + b) % quad) ((d + d) % quad) in
    if ltb 0 b && (ltb b (2 ^ 63) && ltb b rem) then rest else some (b, d)

-- The second loop, which ends when `d` is shifted to 0: the quotient and the rest.
unfoldable pub subtract_down : ℕ → ℕ → ℕ → ℕ → ℕ → Option (ℕ × ℕ)
subtract_down zero rem b d res = none
subtract_down (suc fuel) rem b d res =
    let rem' = if leb b rem then rem - b else rem in
    let res' = if leb b rem then (res + d) % quad else res in
    let rest = subtract_down fuel rem' (b / 2) (d / 2) res' in
    if d / 2 == 0 then some (res', rem') else rest

unfoldable pub divide_rest : ℕ → ℕ → Option (ℕ × ℕ) → Option (ℕ × ℕ)
divide_rest rem res none = none
divide_rest rem res (some (b, d)) = subtract_down 65 rem b d res

-- Where the high word holds the divisor, that part is divided first.
unfoldable pub reduced_rem : ℕ → ℕ → ℕ
reduced_rem n base =
    let high = n / 2 ^ 32 in if leb base high then n - high / base * base * 2 ^ 32 else n

unfoldable pub reduced_res : ℕ → ℕ → ℕ
reduced_res n base = let high = n / 2 ^ 32 in if leb base high then high / base * 2 ^ 32 else 0

-- `co_div64_32` for a divisor that is not 0: the new `*n`, and the result.
unfoldable pub div64_32 : ℕ → ℕ → Option (ℕ × ℕ)
unfolding reduced_rem reduced_res double_up divide_rest subtract_down
div64_32 n base =
    divide_rest (reduced_rem n base) (reduced_res n base) (double_up 65 (reduced_rem n base) base 1)

-- The fields of `co_monitor_t` for the guest's time.
pub record Clock : Type 0 where
  pub timestamp : ℕ
  pub timestamp_freq : ℕ
  pub timestamp_reminder : ℕ

-- The division by the frequency, which is passed as an `unsigned long`; `params[1]` is one too.
unfoldable pub set_jiffies : ℕ → Clock → Option (ℕ × ℕ) → Option (ℕ × Clock)
set_jiffies now c none = none
set_jiffies now c (some (diff, reminder)) =
    some (diff % 2 ^ 32, record c { timestamp_reminder = reminder; timestamp = now })

-- `callback_return_jiffies` for the host's counter: `params[1]` and the clock.
unfoldable pub callback_return_jiffies : ℕ → Clock → Option (ℕ × Clock)
unfolding set_jiffies
callback_return_jiffies now c =
    if ltb c.timestamp now
    then set_jiffies now c (
        div64_32 ((c.timestamp_reminder + 100 * (now - c.timestamp)) % quad)
          (c.timestamp_freq % 2 ^ 32))
    else some (0, c)
