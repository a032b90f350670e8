-- ===== src/Unicode/Bounds.antt =====
-- What the conversions write fits the lengths that they are given.
use colinux_64bit.Base.{
  ℕ, zero, suc, ◌+◌, ◌-◌, ◌≤◌, ◌<◌, ◌≡◌, refl, ap, List, [], ◌∷◌, leb, length, drop, arith,
  Bool-cases, inl, inr, ◌⊎◌, length-append, Option, none, some,
}
use colinux_64bit.Rc.{ok, error}
use colinux_64bit.Unicode.{
  Utf8Row, utf8_table, wctomb_from, utf8_wctomb, tail_bytes, bytes_or, step_bytes, step_size,
  wcstombs, wcstombs_from, mbstowcs, mbstowcs_from,
}

length-tail_bytes : (l shift : ℕ) → length (tail_bytes l shift) ≡ shift
unfolding tail_bytes
length-tail_bytes l zero = refl
length-tail_bytes l (suc shift) = ap suc (length-tail_bytes l shift)

-- The rows of the table from its nth on, by the bytes behind the first.
abbrev Numbered : List Utf8Row → ℕ → Type 0
Numbered [] n = Unit
Numbered (t ∷ ts) n = (t.shift ≡ n) × Numbered ts (suc n)

wctomb_from-length :
    (ts : List Utf8Row) (n l m : ℕ)
    → Numbered ts n
    → length (bytes_or [] (wctomb_from ts l m)) ≤ n + m
unfolding wctomb_from
wctomb_from-length [] n l m h = omega arith
wctomb_from-length (t ∷ ts) n l zero h = omega arith
wctomb_from-length (t ∷ ts) n l (suc m) h = elim (Bool-cases (leb l t.lmask)) [
  | inl e ↦ rw e (omega (arith, h.0, length-tail_bytes l t.shift))
  | inr e ↦ rw e (omega (arith, wctomb_from-length ts (suc n) l m h.1))
]

one_or :
    (o : Option (List ℕ)) (m : ℕ)
    → 0 < m
    → length (bytes_or [] o) ≤ m
    → length (bytes_or (0x3f ∷ []) o) ≤ m
one_or none m h k = omega arith
one_or (some bs) m h k = k

step_bytes-length : (c m : ℕ) → 0 < m → length (step_bytes c m) ≤ m
unfolding step_bytes utf8_wctomb
step_bytes-length c m h =
    let k =
      wctomb_from-length utf8_table 0 c m (refl, (refl, (refl, (refl, (refl, (refl, tt)))))) in
    ground (arith, one_or (wctomb_from utf8_table c m) m h (omega (arith, k)))

wcstombs_from-length : (cs : List ℕ) (m : ℕ) → length (wcstombs_from cs m) ≤ m
unfolding wcstombs_from
wcstombs_from-length [] m = omega arith
wcstombs_from-length (c ∷ cs) m = ground (
  arith,
  step_bytes-length c m,
  wcstombs_from-length cs (m - length (step_bytes c m)),
  length-append (step_bytes c m) (wcstombs_from cs (m - length (step_bytes c m))),
)

mbstowcs_from-length : (m : ℕ) (ip : List ℕ) → length (mbstowcs_from m ip) ≤ m
unfolding mbstowcs_from
mbstowcs_from-length zero ip = omega arith
mbstowcs_from-length (suc m) ip =
    ground (arith, mbstowcs_from-length m (drop (step_size ip (suc m)) ip))

-- Whatever the input: encoding writes at most the bytes that it is given, the closing 0 included,
-- where it is given any, and it fails where not; decoding writes at most the characters that it is
-- given, with the closing 0 behind them.
pub conversions_fit :
    (src : List ℕ) (n : ℕ)
    → (let (rc, bs) = wcstombs src n in
        ((rc ≡ ok) × (length bs + 1 ≤ n)) ⊎ ((rc ≡ error) × (n ≡ 0) × (bs ≡ [])))
      × (let (rc, cs) = mbstowcs src n in (rc ≡ ok) × (length cs ≤ n))
unfolding wcstombs mbstowcs mbstowcs_from
conversions_fit src zero = (inr (refl, refl, refl), (refl, omega arith))
conversions_fit src (suc n) = (
  inl (refl, omega (arith, wcstombs_from-length src n)),
  (refl, mbstowcs_from-length (suc n) src),
)
