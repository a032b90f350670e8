-- ===== src/Unicode/Text.antt =====
-- Texts of 16-bit characters and their UTF-8, described without the tables of the code.
use colinux_64bit.Base.{
  ℕ, ◌+◌, ◌-◌, ◌/◌, ◌%◌, ◌≤◌, ◌<◌, ◌≡◌, ◌≢◌, refl, inl, inr, true, List, [], ◌∷◌, ◌++◌, ltb, leb,
  if◌then◌else◌, length, drop, arith, Bool-cases, ltb→lt, lt→ltb,
}
use colinux_64bit.Unicode.{mbstowcs_from, at, step_bytes, step_size, step_char}
use colinux_64bit.Unicode.Char.{
  wctomb_two, wctomb_three, mbtowc_two, mbtowc_three, mbtowc_three_short, mbtowc_inner,
}

-- The UTF-8 of a character.
abbrev pub char_bytes : ℕ → List ℕ
char_bytes c =
    if ltb 0x7f c
    then (if ltb 0x7ff c
        then (0xe0 + c / 0x1000) ∷ (0x80 + c / 0x40 % 0x40) ∷ (0x80 + c % 0x40) ∷ []
        else (0xc0 + c / 0x40) ∷ (0x80 + c % 0x40) ∷ [])
    else c ∷ []

abbrev pub utf8 : List ℕ → List ℕ
utf8 [] = []
utf8 (c ∷ cs) = char_bytes c ++ utf8 cs

-- A character, not the NUL.
abbrev pub IsChar : ℕ → Type 0
IsChar c = (0 < c) × (c < 0x1_0000)

abbrev pub IsText : List ℕ → Type 0
IsText [] = Unit
IsText (c ∷ cs) = IsChar c × IsText cs

-- The three lengths of a character's UTF-8.
data Shape : ℕ → List ℕ → Type 0 where
  one : (c : ℕ) → 0 < c → c ≤ 0x7f → Shape c (c ∷ [])
  two : (c : ℕ) → 0x7f < c → c ≤ 0x7ff → Shape c ((0xc0 + c / 0x40) ∷ (0x80 + c % 0x40) ∷ [])
  three :
      (c : ℕ)
      → 0x7ff < c
      → c < 0x1_0000
      → Shape c ((0xe0 + c / 0x1000) ∷ (0x80 + c / 0x40 % 0x40) ∷ (0x80 + c % 0x40) ∷ [])

char_bytes-Shape : (c : ℕ) → IsChar c → Shape c (char_bytes c)
char_bytes-Shape c h = elim (Bool-cases (ltb 0x7f c)) [
  | inr e ↦ rw e (one c (omega (arith, h.0)) (ground arith))
  | inl e ↦ elim (Bool-cases (ltb 0x7ff c)) [
    | inl f ↦ rw (e, f) (three c (ltb→lt 0x7ff c f) h.1)
    | inr f ↦ rw (e, f) (two c (ltb→lt 0x7f c e) (ground arith))
  ]
]

step_bytes-Shape : (c m : ℕ) (bs : List ℕ) → Shape c bs → length bs ≤ m → step_bytes c m ≡ bs
unfolding step_bytes
step_bytes-Shape c m _ (one _ h k) r = ground arith
step_bytes-Shape c m _ (two _ h k) r =
    let e : m ≡ 2 + (m - 2) = omega arith in rw (e, lt→ltb 0x7f c h, wctomb_two c (m - 2) h k) refl
step_bytes-Shape c m _ (three _ h k) r =
    let e : m ≡ 3 + (m - 3) = omega arith in
    let f : 0x7f < c = omega arith in rw (e, lt→ltb 0x7f c f, wctomb_three c (m - 3) h k) refl

lead_byte : (a b : ℕ) → 0x80 ≤ a → leb 0x80 (a + b) ≡ true
lead_byte a b h = ground arith

step-Shape :
    (c m : ℕ) (bs s : List ℕ)
    → Shape c bs
    → length bs ≤ m
    → (step_size (bs ++ s) m ≡ length bs) × (step_char (bs ++ s) m ≡ c)
unfolding step_size step_char
step-Shape c m _ s (one _ h k) r = ground arith
step-Shape c m _ s (two _ h k) r =
    let e : m ≡ 2 + (m - 2) = omega arith in
    rw (e, lead_byte 0xc0 (c / 0x40) (omega arith), mbtowc_two c (m - 2) s h k) (refl, refl)
step-Shape c m _ s (three _ h k) r =
    let e : m ≡ 3 + (m - 3) = omega arith in
    rw (e, lead_byte 0xe0 (c / 0x1000) (omega arith), mbtowc_three c (m - 3) s h k) (refl, refl)

-- One round of the encoder, of the decoder, where there is room.
pub step_bytes-char :
    (c m : ℕ) → IsChar c → length (char_bytes c) ≤ m → step_bytes c m ≡ char_bytes c
step_bytes-char c m h k = step_bytes-Shape c m (char_bytes c) (char_bytes-Shape c h) k

pub step-char :
    (c m : ℕ) (s : List ℕ)
    → IsChar c
    → length (char_bytes c) ≤ m
    → (step_size (char_bytes c ++ s) m ≡ length (char_bytes c))
      × (step_char (char_bytes c ++ s) m ≡ c)
step-char c m s h k = step-Shape c m (char_bytes c) s (char_bytes-Shape c h) k

pub at-char : (c : ℕ) (s : List ℕ) → IsChar c → at (char_bytes c ++ s) ≢ 0
at-char c s h = ground arith

pub drop-char : (c : ℕ) (s : List ℕ) → drop (length (char_bytes c)) (char_bytes c ++ s) ≡ s
drop-char c s = ground arith

-- A character of three bytes where two are allowed: both rounds give a question mark.
pub garbled :
    (c : ℕ) → 0x7ff < c → IsChar c → mbstowcs_from 2 (char_bytes c ++ []) ≡ 0x3f ∷ 0x3f ∷ []
unfolding mbstowcs_from step_size step_char
garbled c k h =
    let e : 0x7f < c = omega arith in
    rw
      (
        lt→ltb 0x7f c e,
        lt→ltb 0x7ff c k,
        lead_byte 0xe0 (c / 0x1000) (omega arith),
        mbtowc_three_short c [] k h.1,
        lead_byte 0x80 (c / 0x40 % 0x40) (omega arith),
        mbtowc_inner (c / 0x40 % 0x40) ((0x80 + c % 0x40) ∷ []) (omega arith),
      )
      (ground arith)
