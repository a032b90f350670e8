-- ===== src/Clock/Jiffies.antt =====
-- The guest's clock loses no time: over any readings of the host's counter.
use colinux_64bit.Base.{
  ℕ, ◌+◌, ◌-◌, ◌*◌, ◌/◌, ◌%◌, ◌^◌, ◌≤◌, ◌<◌, ◌≡◌, refl, ap, ◌∙◌, inl, inr, Option, none, some, List,
  [], ◌∷◌, ltb, if◌then◌else◌, Bool-cases, ltb→lt, arith,
}
use native.Mathlib.Nat.{
  zero-mul, mul_comm, mod-eq_of_lt, mod-lt, div-add-mod', div-lt_iff_lt-mul, add-mul,
}
use colinux_64bit.Clock.{quad, Clock, callback_return_jiffies}
use colinux_64bit.Clock.Divide.{div64_32-div}

-- The readings of the counter at the guest's calls, and all the ticks that the guest is given.
add_ticks : ℕ → Option (ℕ × Clock) → Option (ℕ × Clock)
add_ticks j none = none
add_ticks j (some (k, c)) = some (j + k, c)

abbrev then_ticks : (Clock → Option (ℕ × Clock)) → Option (ℕ × Clock) → Option (ℕ × Clock)
then_ticks rest none = none
then_ticks rest (some (j, c)) = add_ticks j (rest c)

pub ticks : List ℕ → Clock → Option (ℕ × Clock)
ticks [] c = some (0, c)
ticks (now ∷ times) c = then_ticks (ticks times) (callback_return_jiffies now c)

-- A clock that runs: the rest of a tick is less than one, and until `last` no tick is lost to a
-- word.
pub record IsClock (last : ℕ) (c : Clock) : Type 0 where
  pub running : 0 < c.timestamp_freq
  pub word : c.timestamp_freq < 2 ^ 32
  pub part : c.timestamp_reminder < c.timestamp_freq
  pub long : c.timestamp_freq + 100 * last < c.timestamp_freq * 2 ^ 32

-- The latest of the readings, from one on that is known.
abbrev pub latest : ℕ → List ℕ → ℕ
latest known [] = known
latest known (now ∷ times) = latest (if ltb known now then now else known) times

-- The account of a clock over some readings: it has the latest of them, and the ticks given, in
-- counts of the frequency, with the rest are the time up to there.
pub record Accounts (times : List ℕ) (c : Clock) (j : ℕ) (c' : Clock) : Type 0 where
  pub freq : c'.timestamp_freq ≡ c.timestamp_freq
  pub forward : c'.timestamp ≡ latest c.timestamp times
  pub account :
      j * c.timestamp_freq + c'.timestamp_reminder + 100 * c.timestamp
      ≡ c.timestamp_reminder + 100 * c'.timestamp

abbrev pub AllUpTo : ℕ → List ℕ → Type 0
AllUpTo last [] = Unit {0}
AllUpTo last (now ∷ times) = (now ≤ last) × AllUpTo last times

jiffies_step :
    (last now : ℕ) (c : Clock)
    → now ≤ last
    → IsClock last c
    → (j : ℕ) × (c' : Clock) × (callback_return_jiffies now c ≡ some (j, c'))
      × IsClock last c'
      × Accounts (now ∷ []) c j c'
unfolding callback_return_jiffies
jiffies_step last now c n i = elim (Bool-cases (ltb c.timestamp now)) [
  | inr t ↦ (
    0,
    c,
    rw t refl,
    i,
    record { freq = refl; forward = rw t refl; account = omega (arith, zero-mul c.timestamp_freq) },
  )
  | inl t ↦
      let before = ltb→lt _ _ t in
      let all = c.timestamp_reminder + 100 * (now - c.timestamp) in
      let short : all < c.timestamp_freq * 2 ^ 32 = omega (arith, i.part, i.long) in
      let flat : all % quad ≡ all = mod-eq_of_lt (omega (arith, i.word)) in
      let freq : c.timestamp_freq % 2 ^ 32 ≡ c.timestamp_freq = mod-eq_of_lt i.word in
      let word : all / c.timestamp_freq % 2 ^ 32 ≡ all / c.timestamp_freq =
        mod-eq_of_lt
          ((div-lt_iff_lt-mul i.running).1 (rw (mul_comm (2 ^ 32) c.timestamp_freq) short)) in
      (
        all / c.timestamp_freq,
        record c { timestamp_reminder = all % c.timestamp_freq; timestamp = now },
        rw
            (
              t,
              flat,
              freq,
              div64_32-div all c.timestamp_freq (omega (arith, i.word)) i.running i.word,
            )
            (rw word refl),
        record { running = i.running; word = i.word; part = mod-lt all i.running; long = i.long },
        record {
          freq = refl;
          forward = rw t refl;
          account = omega (arith, div-add-mod' all c.timestamp_freq);
        },
      )
]

-- Over any readings of the counter up to `last`, also such that go back, on a clock with a
-- frequency that is a word and not 0, a rest below it, and no tick lost to a word until `last`: the
-- division ends each time, and the ticks that the guest is given with the rest that is kept are
-- exactly the time from the clock's own reading to the latest one, which the clock then has; the
-- clock stays such a clock.
pub ticks-Accounts :
    (last : ℕ) (times : List ℕ) (c : Clock)
    → AllUpTo last times
    → IsClock last c
    → (j : ℕ) × (c' : Clock) × (ticks times c ≡ some (j, c'))
      × IsClock last c'
      × Accounts times c j c'
unfolding ticks add_ticks
ticks-Accounts last [] c n i = (
  0,
  c,
  refl,
  i,
  record { freq = refl; forward = refl; account = omega (arith, zero-mul c.timestamp_freq) },
)
ticks-Accounts last (now ∷ times) c n i =
    let (j, c1, e, i1, a) = jiffies_step last now c n.0 i in
    let (k, c2, f, i2, b) = ticks-Accounts last times c1 n.1 i1 in
    (
      j + k,
      c2,
      rw (e, f) refl,
      i2,
      record {
        freq = b.freq ∙ a.freq;
        forward = b.forward ∙ ap (λ k. latest k times) a.forward;
        account =
            let same : k * c1.timestamp_freq ≡ k * c.timestamp_freq = ap (λ m. k * m) a.freq in
            omega (arith, add-mul j k c.timestamp_freq, a.account, b.account, same);
      },
    )
