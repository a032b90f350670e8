-- ===== src/Clock/Divide.antt =====
-- `co_div64_32` is the division.
use colinux_64bit.Base.{
  ℕ, zero, suc, ◌+◌, ◌-◌, ◌*◌, ◌/◌, ◌%◌, ◌^◌, ◌≤◌, ◌<◌, ◌≡◌, refl, sym, ap, ◌∙◌, inl, inr, true,
  false, ◌&&◌, some, ltb, leb, ◌==◌, if◌then◌else◌, Bool-cases, leb→le, arith,
}
use native.Mathlib.Nat.{
  mul-add, add-mul, mul_comm, mul_right_comm, zero-mul, mod-eq_of_lt, mul-add-div_right,
  div-eq_of_lt, le-mul_of_pos_right, div-mul-le_self, mul-add-mod_self_right, mul-one,
}
use colinux_64bit.Clock.{
  quad, double_up, subtract_down, divide_rest, reduced_rem, reduced_res, div64_32,
}

pow2 : ℕ → ℕ
pow2 zero = 1
pow2 (suc k) = pow2 k + pow2 k

pow2_pos : (k : ℕ) → 0 < pow2 k
unfolding pow2
pow2_pos zero = omega arith
pow2_pos (suc k) = omega (arith, pow2_pos k)

pow2-suc : (k : ℕ) → pow2 (suc k) ≡ pow2 k + pow2 k
unfolding pow2
pow2-suc k = refl

mul_pow2-suc : (b k : ℕ) → b * pow2 (suc k) ≡ b * pow2 k + b * pow2 k
unfolding pow2
mul_pow2-suc b k = mul-add b (pow2 k) (pow2 k)

le-mul_pos : (base d : ℕ) → 0 < base → d ≤ base * d
le-mul_pos base d h = grind arith

double_up_lem :
    (fuel k rem base b : ℕ)
    → b ≡ base * pow2 k
    → k + fuel ≡ 65
    → 0 < base
    → b < quad
    → rem < quad
    → quad ≤ b * pow2 fuel
    → (j : ℕ) × (j < 65)
      × (base * pow2 j < quad)
      × (rem < 2 * (base * pow2 j))
      × (double_up fuel rem b (pow2 k) ≡ some (base * pow2 j, pow2 j))
unfolding double_up
double_up_lem zero k rem base b e n p h r q = unfold pow2 in absurd (grind arith)
double_up_lem (suc fuel) k rem base b e n p h r q =
    elim (Bool-cases (ltb 0 b && (ltb b (2 ^ 63) && ltb b rem))) [
      | inr t ↦
          (k, omega arith, omega (arith, e), ground arith, rw t (ap (λ m. some (m, pow2 k)) e))
      | inl t ↦
          let small : b < 2 ^ 63 = ground arith in
          let grown : b + b ≡ base * pow2 (suc k) = omega (arith, e, mul_pow2-suc base k) in
          let far : quad ≤ (b + b) * pow2 fuel =
            omega (arith, q, add-mul b b (pow2 fuel), mul_pow2-suc b fuel) in
          let pw : (pow2 k + pow2 k) % quad ≡ pow2 (suc k) =
            mod-eq_of_lt (omega (arith, e, le-mul_pos base (pow2 k) p)) ∙ sym (pow2-suc k) in
          let bw : (b + b) % quad ≡ b + b = mod-eq_of_lt (omega arith) in
          rw (t, pw, bw)
            (double_up_lem fuel (suc k) rem base (b + b) grown (omega arith) p (omega arith) r far)
    ]

-- The quotient and the rest are the only ones.
div_unique : (n base q r : ℕ) → q * base + r ≡ n → r < base → (q ≡ n / base) × (r ≡ n % base)
div_unique n base q r e h = (
  sym (
      ap (λ m. m / base) (sym e)
      ∙ mul-add-div_right (omega arith) q r
      ∙ ap (λ m. q + m) (div-eq_of_lt h)
      ∙ omega arith),
  sym (ap (λ m. m % base) (sym e) ∙ mul-add-mod_self_right q base r ∙ mod-eq_of_lt h),
)

abbrev next_rem : ℕ → ℕ → ℕ
next_rem rem b = if leb b rem then rem - b else rem

abbrev next_res : ℕ → ℕ → ℕ → ℕ → ℕ
next_res rem b d res = if leb b rem then (res + d) % quad else res

-- One round keeps the dividend; the rest falls below `b`.
round_lem :
    (rem base d res n : ℕ)
    → 0 < base
    → rem < 2 * (base * d)
    → res * base + rem ≡ n
    → n < quad
    → (next_rem rem (base * d) < base * d)
      × (next_res rem (base * d) d res * base + next_rem rem (base * d) ≡ n)
round_lem rem base d res n p h e q = elim (Bool-cases (leb (base * d) rem)) [
  | inr t ↦ rw t (ground arith, e)
  | inl t ↦
      let le = leb→le _ _ t in
      let sums : (res + d) * base ≡ res * base + base * d =
        add-mul res d base ∙ ap (λ m. res * base + m) (mul_comm d base) in
      let flat : res + d ≤ (res + d) * base = le-mul_of_pos_right (res + d) p in
      let whole : (res + d) % quad ≡ res + d = mod-eq_of_lt (omega arith) in
      rw (t, whole) (omega arith, omega arith)
]

subtract_down_lem :
    (k fuel rem base res n : ℕ)
    → k < fuel
    → 0 < base
    → rem < 2 * (base * pow2 k)
    → res * base + rem ≡ n
    → n < quad
    → subtract_down fuel rem (base * pow2 k) (pow2 k) res ≡ some (n / base, n % base)
unfolding subtract_down
subtract_down_lem k zero rem base res n f p h e q = absurd (omega arith)
subtract_down_lem zero (suc fuel) rem base res n f p h e q =
    let r = round_lem rem base (pow2 0) res n p h e q in
    let one : base * pow2 0 ≡ base = unfold pow2 in mul-one base in
    let last : ((pow2 0 / 2) == 0) ≡ true = unfold pow2 in refl in
    let u = div_unique n base _ _ r.1 (omega (arith, r.0, one)) in
    rw last (λ i. some (u.0 i, u.1 i))
subtract_down_lem (suc k) (suc fuel) rem base res n f p h e q =
    let r = round_lem rem base (pow2 (suc k)) res n p h e q in
    let half : pow2 (suc k) / 2 ≡ pow2 k = omega (arith, pow2-suc k) in
    let half_b : base * pow2 (suc k) / 2 ≡ base * pow2 k = omega (arith, mul_pow2-suc base k) in
    let more : (pow2 (suc k) / 2 == 0) ≡ false = ground (arith, half, pow2_pos k) in
    rw (more, half, half_b)
      (subtract_down_lem k fuel _ base _ n (omega arith) p (omega (arith, r.0, mul_pow2-suc base k))
        r.1 q)

-- The first reduction keeps the dividend, and leaves a rest that is divided in time.
reduced_lem :
    (n base : ℕ) → 0 < base → n < quad → (reduced_res n base * base + reduced_rem n base ≡ n)
unfolding reduced_res reduced_rem
reduced_lem n base p q = elim (Bool-cases (leb base (n / 2 ^ 32))) [
  | inr t ↦ rw t (omega (arith, zero-mul base))
  | inl t ↦
      let high = n / 2 ^ 32 in
      let swap : high / base * 2 ^ 32 * base ≡ high / base * base * 2 ^ 32 =
        mul_right_comm (high / base) (2 ^ 32) base in
      let part = div-mul-le_self high base in rw (t, swap) (omega (arith, part))
]

reduced_rem-le : (n base : ℕ) → reduced_rem n base ≤ n
unfolding reduced_rem
reduced_rem-le n base = ground arith

far : (base : ℕ) → 0 < base → quad ≤ base * pow2 65
unfolding pow2
far base p = omega arith

-- For a dividend of 64 bits and a divisor that is a word and not 0, the loops of co_div64_32 come
-- to an end with the quotient and the rest.
pub div64_32-div :
    (n base : ℕ) → n < quad → 0 < base → base < 2 ^ 32 → div64_32 n base ≡ some (n / base, n % base)
unfolding div64_32 divide_rest
div64_32-div n base h p w =
    let rem = reduced_rem n base in
    let (j, less, fits, near, found) =
      double_up_lem 65 0 rem base base (sym (unfold pow2 in mul-one base)) refl p (omega arith)
        (omega (arith, reduced_rem-le n base)) (far base p) in
    let first : double_up 65 rem base 1 ≡ some (base * pow2 j, pow2 j) = unfold pow2 in found in
    rw first (
      subtract_down_lem j 65 rem base (reduced_res n base) n less p near (reduced_lem n base p h) h)
