-- ===== src/Unicode/RoundTrip.antt =====
-- Texts through the encoder and back through the decoder.
use colinux_64bit.Base.{
  ℕ, zero, suc, ◌+◌, ◌-◌, ◌≤◌, ◌<◌, ◌≡◌, refl, sym, ap, ◌∙◌, true, false, List, [], ◌∷◌, ◌++◌, ◌==◌,
  length, arith, length-append,
}
use colinux_64bit.Rc.{ok}
use colinux_64bit.Unicode.{
  at, wcstombs, wcstombs_from, mbstowcs, mbstowcs_from, mbstrlen, mbstrlen_from, co_strlen,
  wctowbstrlen, dup_to_wc,
}
use colinux_64bit.Unicode.Text.{
  char_bytes, utf8, IsChar, IsText, step_bytes-char, step-char, at-char, drop-char, garbled,
}

nonempty : (c : ℕ) → 0 < length (char_bytes c)
nonempty c = ground arith

-- The encoder.
round-bytes :
    (c m : ℕ) (cs : List ℕ)
    → IsChar c
    → length (char_bytes c) ≤ m
    → wcstombs_from (c ∷ cs) m ≡ char_bytes c ++ wcstombs_from cs (m - length (char_bytes c))
unfolding wcstombs_from
round-bytes c m cs h k =
    let e : (m == 0) ≡ false = ground (arith, nonempty c) in
    let f : (c == 0) ≡ false = ground (arith, h.0) in rw (e, f, step_bytes-char c m h k) refl

wcstombs_from-utf8 :
    (cs : List ℕ) (m : ℕ) → IsText cs → length (utf8 cs) ≤ m → wcstombs_from cs m ≡ utf8 cs
unfolding wcstombs_from
wcstombs_from-utf8 [] m t r = refl
wcstombs_from-utf8 (c ∷ cs) m t r =
    let e : length (char_bytes c) + length (utf8 cs) ≤ m =
      omega (arith, length-append (char_bytes c) (utf8 cs)) in
    round-bytes c m cs t.0 (omega arith)
    ∙ ap (λ bs. char_bytes c ++ bs)
        (wcstombs_from-utf8 cs (m - length (char_bytes c)) t.1 (omega arith))

wctowbstrlen-utf8 :
    (cs : List ℕ) (m : ℕ) → IsText cs → length cs ≤ m → wctowbstrlen cs m ≡ length (utf8 cs)
unfolding wctowbstrlen
wctowbstrlen-utf8 [] m t r = refl
wctowbstrlen-utf8 (c ∷ cs) zero t r = absurd (omega arith)
wctowbstrlen-utf8 (c ∷ cs) (suc m) t r =
    let f : (c == 0) ≡ false = ground (arith, t.0.0) in
    let k : length (char_bytes c) ≤ 8 = ground arith in
    rw
      (
        f,
        step_bytes-char c 8 t.0 k,
        wctowbstrlen-utf8 cs m t.1 (omega arith),
        length-append (char_bytes c) (utf8 cs),
      )
      refl

-- The decoder, with a count that leaves room for each character.
abbrev Fits : List ℕ → ℕ → Type 0
Fits [] m = Unit
Fits (c ∷ cs) zero = ⊥
Fits (c ∷ cs) (suc m) = (length (char_bytes c) ≤ suc m) × Fits cs m

mbstowcs_from-utf8 : (cs : List ℕ) (m : ℕ) → IsText cs → Fits cs m → mbstowcs_from m (utf8 cs) ≡ cs
unfolding mbstowcs_from
mbstowcs_from-utf8 [] zero t r = refl
mbstowcs_from-utf8 [] (suc m) t r = refl
mbstowcs_from-utf8 (c ∷ cs) zero t r = absurd r
mbstowcs_from-utf8 (c ∷ cs) (suc m) t r =
    let f : (at (char_bytes c ++ utf8 cs) == 0) ≡ false = ground (arith, at-char c (utf8 cs) t.0) in
    let s = step-char c (suc m) (utf8 cs) t.0 r.0 in
    rw (f, s.0, s.1, drop-char c (utf8 cs), mbstowcs_from-utf8 cs m t.1 r.1) refl

mbstrlen_from-utf8 :
    (cs : List ℕ) (fuel m : ℕ)
    → IsText cs
    → length (utf8 cs) ≤ m
    → m ≤ fuel
    → mbstrlen_from fuel m (utf8 cs) ≡ length cs
unfolding mbstrlen_from
mbstrlen_from-utf8 [] zero m t r k = refl
mbstrlen_from-utf8 [] (suc fuel) m t r k = ground arith
mbstrlen_from-utf8 (c ∷ cs) zero m t r k =
    absurd (omega (arith, nonempty c, length-append (char_bytes c) (utf8 cs)))
mbstrlen_from-utf8 (c ∷ cs) (suc fuel) m t r k =
    let l : length (char_bytes c) + length (utf8 cs) ≤ m =
      omega (arith, length-append (char_bytes c) (utf8 cs)) in
    let e : (m == 0) ≡ false = ground (arith, nonempty c) in
    let f : (at (char_bytes c ++ utf8 cs) == 0) ≡ false = ground (arith, at-char c (utf8 cs) t.0) in
    let s = step-char c m (utf8 cs) t.0 (omega arith) in
    rw
      (
        e,
        f,
        s.0,
        drop-char c (utf8 cs),
        mbstrlen_from-utf8 cs fuel (m - length (char_bytes c)) t.1 (omega arith)
            (omega (arith, nonempty c)),
      )
      refl

strlen-char :
    (c : ℕ) (s : List ℕ)
    → IsChar c
    → co_strlen (char_bytes c ++ s) ≡ length (char_bytes c) + co_strlen s
strlen-char c s h = ground arith

strlen-utf8 : (cs : List ℕ) → IsText cs → co_strlen (utf8 cs) ≡ length (utf8 cs)
strlen-utf8 [] t = refl
strlen-utf8 (c ∷ cs) t =
    rw (strlen-char c (utf8 cs) t.0, strlen-utf8 cs t.1, length-append (char_bytes c) (utf8 cs))
      refl

mbstrlen-utf8 : (cs : List ℕ) → IsText cs → mbstrlen (utf8 cs) ≡ length cs
unfolding mbstrlen
mbstrlen-utf8 cs t = mbstrlen_from-utf8 cs _ _ t (omega (arith, strlen-utf8 cs t)) (omega arith)

Fits-room : (cs : List ℕ) (m : ℕ) → length (utf8 cs) ≤ m → Fits cs m
Fits-room [] m r = tt
Fits-room (c ∷ cs) zero r =
    absurd (omega (arith, nonempty c, length-append (char_bytes c) (utf8 cs)))
Fits-room (c ∷ cs) (suc m) r =
    let l : length (char_bytes c) + length (utf8 cs) ≤ suc m =
      omega (arith, length-append (char_bytes c) (utf8 cs)) in
    (omega arith, Fits-room cs m (omega (arith, nonempty c)))

-- For every text of 16-bit characters without a NUL: encoding it with room for its bytes and the
-- closing 0 succeeds, and gives as many bytes as `wctowbstrlen` says; of these, `mbstrlen` counts
-- the characters, and decoding them, with a count of at least the bytes, gives the text back.
pub wcstombs-mbstowcs :
    (cs : List ℕ) (m : ℕ)
    → IsText cs
    → wctowbstrlen cs (length cs) ≤ m
    → (bs : List ℕ) × (wcstombs cs (suc m) ≡ (ok, bs))
      × (length bs ≡ wctowbstrlen cs (length cs))
      × (mbstrlen bs ≡ length cs)
      × (mbstowcs bs m ≡ (ok, cs))
unfolding wcstombs mbstowcs
wcstombs-mbstowcs cs m t r =
    let l = wctowbstrlen-utf8 cs (length cs) t (omega arith) in
    let k : length (utf8 cs) ≤ m = omega arith in
    (
      utf8 cs,
      rw (wcstombs_from-utf8 cs m t k) refl,
      sym l,
      mbstrlen-utf8 cs t,
      rw (mbstowcs_from-utf8 cs m t (Fits-room cs m k)) refl,
    )

abbrev AllBelow : ℕ → List ℕ → Type 0
AllBelow n [] = Unit
AllBelow n (c ∷ cs) = (c < n) × AllBelow n cs

Fits-below : (cs : List ℕ) (m : ℕ) → AllBelow 0x800 cs → length cs < m → Fits cs m
Fits-below [] m h r = tt
Fits-below (c ∷ cs) zero h r = absurd (omega arith)
Fits-below (c ∷ cs) (suc m) h r =
    let k : length (char_bytes c) ≤ 2 = ground (arith, h.0) in
    (omega arith, Fits-below cs m h.1 (omega arith))

-- The UTF-8 of a text of characters below 0x800 is duplicated to that text with its length, where
-- there is memory.
pub dup_to_wc-utf8 :
    (cs : List ℕ)
    → IsText cs
    → AllBelow 0x800 cs
    → dup_to_wc (λ n. true) (utf8 cs) ≡ (ok, cs, length cs)
unfolding dup_to_wc mbstowcs
dup_to_wc-utf8 cs t h =
    let e : length cs + 1 - 1 ≡ length cs = omega arith in
    rw
      (
        mbstrlen-utf8 cs t,
        mbstowcs_from-utf8 cs (length cs + 1) t (Fits-below cs (length cs + 1) h (omega arith)),
        e,
      )
      refl

-- The UTF-8 of one character from 0x800 on is not duplicated: the count of one character and the
-- closing 0 is taken for a limit of two bytes, so its first two bytes become question marks.
pub dup_to_wc_garbles :
    (c : ℕ)
    → IsChar c
    → 0x800 ≤ c
    → dup_to_wc (λ n. true) (utf8 (c ∷ [])) ≡ (ok, 0x3f ∷ 0x3f ∷ [], 1)
unfolding dup_to_wc mbstowcs
dup_to_wc_garbles c h k = rw (mbstrlen-utf8 (c ∷ []) (h, tt), garbled c (omega arith) h) refl
