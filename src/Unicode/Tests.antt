-- ===== src/Unicode/Tests.antt =====
-- The text "aé€": characters of one, two and three bytes.
use colinux_64bit.Base.{ℕ, ◌≡◌, ◌≤◌, ◌+◌, refl, List, [], ◌∷◌, arith, length, ◌⊎◌, true}
use colinux_64bit.Rc.{ok, error}
use colinux_64bit.Unicode.{
  wcstombs, mbstowcs, mbstrlen, wctowbstrlen, dup_to_wc, wctowbstrlen, step_bytes, utf8_wctomb,
  wctomb_from, tail_bytes, wcstombs_from,
}
use colinux_64bit.Unicode.Text.{utf8, IsText}
use colinux_64bit.Unicode.RoundTrip.{wcstombs-mbstowcs, dup_to_wc_garbles}
use colinux_64bit.Unicode.Bounds.{conversions_fit}

abbrev text : List ℕ
text = 0x61 ∷ 0xe9 ∷ 0x20ac ∷ []

text-IsText : IsText text
text-IsText =
    ((omega arith, omega arith), ((omega arith, omega arith), ((omega arith, omega arith), tt)))

encoded : wcstombs text 10 ≡ (ok, 0x61 ∷ 0xc3 ∷ 0xa9 ∷ 0xe2 ∷ 0x82 ∷ 0xac ∷ [])
unfolding wcstombs wcstombs_from step_bytes utf8_wctomb wctomb_from tail_bytes
encoded = refl

six : wctowbstrlen text 3 ≤ 6
unfolding wctowbstrlen step_bytes utf8_wctomb wctomb_from tail_bytes
six = omega arith

wcstombs-mbstowcs_example :
    (bs : List ℕ) × (wcstombs text 7 ≡ (ok, bs))
    × (length bs ≡ wctowbstrlen text 3)
    × (mbstrlen bs ≡ 3)
    × (mbstowcs bs 6 ≡ (ok, text))
wcstombs-mbstowcs_example = wcstombs-mbstowcs text 6 text-IsText six

dup_to_wc_garbles_example : dup_to_wc (λ n. true) (utf8 (0x20ac ∷ [])) ≡ (ok, 0x3f ∷ 0x3f ∷ [], 1)
dup_to_wc_garbles_example = dup_to_wc_garbles 0x20ac (omega arith, omega arith) (omega arith)

abbrev three : ℕ
three = 3

conversions_fit_example :
    (let (rc, bs) = wcstombs text three in
      ((rc ≡ ok) × (length bs + 1 ≤ 3)) ⊎ ((rc ≡ error) × (three ≡ 0) × (bs ≡ [])))
    × (let (rc, cs) = mbstowcs text 3 in (rc ≡ ok) × (length cs ≤ 3))
conversions_fit_example = conversions_fit text 3
