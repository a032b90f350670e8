-- ===== src/Unicode/Char.antt =====
-- One character: encoding and decoding.
use colinux_64bit.Base.{
  ℕ, suc, ◌+◌, ◌*◌, ◌/◌, ◌%◌, ◌≤◌, ◌<◌, ◌≡◌, ◌≢◌, none, some, List, [], ◌∷◌, arith, ◌∙◌,
}
use colinux_64bit.Unicode.{
  row, Utf8Row, masked, mbtowc_from, utf8_mbtowc, tail_bytes, wctomb_from, utf8_wctomb,
}

-- The characters of two bytes, of three, and of one.
pub wctomb_two :
    (wc maxlen : ℕ)
    → 0x7f < wc
    → wc ≤ 0x7ff
    → utf8_wctomb wc (2 + maxlen) ≡ some ((0xc0 + wc / 0x40) ∷ (0x80 + wc % 0x40) ∷ [])
unfolding utf8_wctomb wctomb_from tail_bytes
wctomb_two wc maxlen h k = ground arith

pub wctomb_three :
    (wc maxlen : ℕ)
    → 0x7ff < wc
    → wc < 0x1_0000
    → utf8_wctomb wc (3 + maxlen)
      ≡ some ((0xe0 + wc / 0x1000) ∷ (0x80 + wc / 0x40 % 0x40) ∷ (0x80 + wc % 0x40) ∷ [])
unfolding utf8_wctomb wctomb_from tail_bytes
wctomb_three wc maxlen h k = ground arith

-- One round of the decoder: on to the next row with the next byte, or the end.
skip_row :
    (c0 n nc l b c : ℕ) (t : Utf8Row) (ts : List Utf8Row) (s : List ℕ)
    → masked c0 t.cmask ≢ t.cval
    → suc nc < n
    → c < 0x40
    → mbtowc_from c0 n (t ∷ ts) nc l (b ∷ (0x80 + c) ∷ s)
      ≡ mbtowc_from c0 n ts (suc nc) (l * 0x40 + c) ((0x80 + c) ∷ s)
unfolding mbtowc_from
skip_row c0 n nc l b c t ts s h k m = ground arith

stop_row :
    (c0 n nc l wc : ℕ) (t : Utf8Row) (ts : List Utf8Row) (s : List ℕ)
    → masked c0 t.cmask ≡ t.cval
    → t.lval ≤ wc
    → l % suc t.lmask ≡ wc
    → wc < 0x1_0000
    → mbtowc_from c0 n (t ∷ ts) nc l s ≡ some (wc, suc nc)
unfolding mbtowc_from
stop_row c0 n nc l wc t ts s h k e m = ground arith

pub mbtowc_two :
    (wc n : ℕ) (s : List ℕ)
    → 0x7f < wc
    → wc ≤ 0x7ff
    → utf8_mbtowc ((0xc0 + wc / 0x40) ∷ (0x80 + wc % 0x40) ∷ s) (2 + n) ≡ some (wc, 2)
unfolding utf8_mbtowc
mbtowc_two wc n s h k =
    skip_row (0xc0 + wc / 0x40) (2 + n) 0 (0xc0 + wc / 0x40) (0xc0 + wc / 0x40) (wc % 0x40)
      (row 0x80 0x00 0 0x7f 0) _ s (omega arith) (omega arith) (omega arith)
    ∙ stop_row (0xc0 + wc / 0x40) (2 + n) 1 ((0xc0 + wc / 0x40) * 0x40 + wc % 0x40) wc
        (row 0xe0 0xc0 1 0x7ff 0x80) _ ((0x80 + wc % 0x40) ∷ s) (omega arith) (omega arith)
        (omega arith) (omega arith)

pub mbtowc_three :
    (wc n : ℕ) (s : List ℕ)
    → 0x7ff < wc
    → wc < 0x1_0000
    → utf8_mbtowc
        ((0xe0 + wc / 0x1000) ∷ (0x80 + wc / 0x40 % 0x40) ∷ (0x80 + wc % 0x40) ∷ s)
        (3 + n)
      ≡ some (wc, 3)
unfolding utf8_mbtowc
mbtowc_three wc n s h k =
    let b : ℕ = 0xe0 + wc / 0x1000 in
    let c : ℕ = wc / 0x40 % 0x40 in
    let d : ℕ = wc % 0x40 in
    skip_row b (3 + n) 0 b b c (row 0x80 0x00 0 0x7f 0) _ ((0x80 + d) ∷ s) (omega arith)
      (omega arith) (omega arith)
    ∙ skip_row b (3 + n) 1 (b * 0x40 + c) (0x80 + c) d (row 0xe0 0xc0 1 0x7ff 0x80) _ s
        (omega arith) (omega arith) (omega arith)
    ∙ stop_row b (3 + n) 2 ((b * 0x40 + c) * 0x40 + d) wc (row 0xf0 0xe0 2 0xffff 0x800) _
        ((0x80 + d) ∷ s) (omega arith) (omega arith) (omega arith) (omega arith)

-- A row that wants more bytes than there are.
short_row :
    (c0 n nc l : ℕ) (t : Utf8Row) (ts : List Utf8Row) (s : List ℕ)
    → masked c0 t.cmask ≢ t.cval
    → n ≤ suc nc
    → mbtowc_from c0 n (t ∷ ts) nc l s ≡ none
unfolding mbtowc_from
short_row c0 n nc l t ts s h k = ground arith

pub mbtowc_three_short :
    (wc : ℕ) (s : List ℕ)
    → 0x7ff < wc
    → wc < 0x1_0000
    → utf8_mbtowc ((0xe0 + wc / 0x1000) ∷ (0x80 + wc / 0x40 % 0x40) ∷ (0x80 + wc % 0x40) ∷ s) 2
      ≡ none
unfolding utf8_mbtowc
mbtowc_three_short wc s h k =
    let b : ℕ = 0xe0 + wc / 0x1000 in
    let c : ℕ = wc / 0x40 % 0x40 in
    let d : ℕ = wc % 0x40 in
    skip_row b 2 0 b b c (row 0x80 0x00 0 0x7f 0) _ ((0x80 + d) ∷ s) (omega arith) (omega arith)
      (omega arith)
    ∙ short_row b 2 1 (b * 0x40 + c) (row 0xe0 0xc0 1 0x7ff 0x80) _ ((0x80 + c) ∷ (0x80 + d) ∷ s)
        (omega arith) (omega arith)

pub mbtowc_inner : (b : ℕ) (s : List ℕ) → b < 0x40 → utf8_mbtowc ((0x80 + b) ∷ s) 1 ≡ none
unfolding utf8_mbtowc
mbtowc_inner b s h =
    short_row (0x80 + b) 1 0 (0x80 + b) (row 0x80 0x00 0 0x7f 0) _ ((0x80 + b) ∷ s) (omega arith)
      (omega arith)
