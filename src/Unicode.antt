-- ===== src/Unicode.antt =====
-- src/colinux/common/unicode.c: UTF-8 for the 16-bit `co_wchar_t`. A string is the list of its
-- bytes or wide characters, and what lies behind the list is its NUL. The results of a conversion
-- are what it writes before the closing 0. Lengths (`int` in C) are not negative.
pub mod Char
pub mod Text
pub mod RoundTrip
pub mod Bounds
mod Tests
use colinux_64bit.Base.{
  ℕ, zero, suc, ◌+◌, ◌-◌, ◌*◌, ◌/◌, ◌%◌, ◌^◌, Bool, true, false, Option, none, some, List, [], ◌∷◌,
  ◌++◌, ◌==◌, ltb, leb, if◌then◌else◌, length, drop, get_or,
}
use colinux_64bit.Rc.{Rc, ok, error, out_of_memory}

-- `struct utf8_table`, less its end row.
pub record Utf8Row : Type 0 where
  pub cmask : ℕ
  pub cval : ℕ
  pub shift : ℕ
  pub lmask : ℕ
  pub lval : ℕ

abbrev pub row : ℕ → ℕ → ℕ → ℕ → ℕ → Utf8Row
row cmask cval shift lmask lval = record {
  cmask = cmask;
  cval = cval;
  shift = shift;
  lmask = lmask;
  lval = lval;
}

abbrev pub utf8_table : List Utf8Row
utf8_table =
    row 0x80 0x00 0 0x7f 0
    ∷ row 0xe0 0xc0 1 0x7ff 0x80
    ∷ row 0xf0 0xe0 2 0xffff 0x800
    ∷ row 0xf8 0xf0 3 0x1f_ffff 0x1_0000
    ∷ row 0xfc 0xf8 4 0x3ff_ffff 0x20_0000
    ∷ row 0xfe 0xfc 5 0x7fff_ffff 0x400_0000
    ∷ []

-- `*s`
abbrev pub at : List ℕ → ℕ
at s = get_or s 0 0

-- `c0 & t->cmask`: a mask of the upper bits of a byte.
abbrev pub masked : ℕ → ℕ → ℕ
masked c0 cmask = c0 - c0 % (0x100 - cmask)

-- `(*s ^ 0x80) & 0xFF`
abbrev pub flipped : ℕ → ℕ
flipped b = if ltb b 0x80 then b + 0x80 else b - 0x80

-- The loop of `utf8_mbtowc`, from the row `t`: the character and its number of bytes. `l & t->lmask`
-- and `(l << 6) | c` are a remainder and a sum here; `*p = l` cuts to 16 bits.
unfoldable pub mbtowc_from : ℕ → ℕ → List Utf8Row → ℕ → ℕ → List ℕ → Option (ℕ × ℕ)
mbtowc_from c0 n [] nc l s = none
mbtowc_from c0 n (t ∷ ts) nc l s =
    if masked c0 t.cmask == t.cval
    then (if ltb (l % suc t.lmask) t.lval then none else some (l % suc t.lmask % 0x1_0000, suc nc))
    else if leb n (suc nc)
    then none
    else if leb 0x40 (flipped (at (drop 1 s)))
    then none
    else mbtowc_from c0 n ts (suc nc) (l * 0x40 + flipped (at (drop 1 s))) (drop 1 s)

-- `utf8_mbtowc`
unfoldable pub utf8_mbtowc : List ℕ → ℕ → Option (ℕ × ℕ)
utf8_mbtowc s n = mbtowc_from (at s) n utf8_table 0 (at s) s

-- The bytes after the first: `c` counts down to 0 in steps of 6, `shift` is that in sixes.
unfoldable pub tail_bytes : ℕ → ℕ → List ℕ
tail_bytes l zero = []
tail_bytes l (suc shift) = (0x80 + l / 2 ^ (6 * shift) % 0x40) ∷ tail_bytes l shift

-- The loop of `utf8_wctomb`.
unfoldable pub wctomb_from : List Utf8Row → ℕ → ℕ → Option (List ℕ)
wctomb_from [] l maxlen = none
wctomb_from (t ∷ ts) l zero = none
wctomb_from (t ∷ ts) l (suc maxlen) =
    if leb l t.lmask
    then some ((t.cval + l / 2 ^ (6 * t.shift)) ∷ tail_bytes l t.shift)
    else wctomb_from ts l maxlen

-- `utf8_wctomb`, of a place to write to.
unfoldable pub utf8_wctomb : ℕ → ℕ → Option (List ℕ)
utf8_wctomb wc maxlen = wctomb_from utf8_table wc maxlen

abbrev pub size_or : ℕ → Option (ℕ × ℕ) → ℕ
size_or d none = d
size_or d (some (wc, size)) = size

-- The bytes that one round of a loop takes, and the character that it makes of them.
unfoldable pub step_size : List ℕ → ℕ → ℕ
step_size ip maxlen = if leb 0x80 (at ip) then size_or 1 (utf8_mbtowc ip maxlen) else 1

abbrev pub char_or : ℕ → Option (ℕ × ℕ) → ℕ
char_or d none = d
char_or d (some (wc, size)) = wc

unfoldable pub step_char : List ℕ → ℕ → ℕ
step_char ip maxlen = if leb 0x80 (at ip) then char_or 0x3f (utf8_mbtowc ip maxlen) else at ip

-- `co_strlen`
abbrev pub co_strlen : List ℕ → ℕ
co_strlen [] = 0
co_strlen (c ∷ cs) = if c == 0 then 0 else suc (co_strlen cs)

-- The loop of `co_utf8_mbstrlen`; each round takes at least one byte, so `maxlen` rounds are enough.
unfoldable pub mbstrlen_from : ℕ → ℕ → List ℕ → ℕ
mbstrlen_from zero maxlen ip = 0
mbstrlen_from (suc fuel) maxlen ip =
    let rest = mbstrlen_from fuel (maxlen - step_size ip maxlen) (drop (step_size ip maxlen) ip) in
    if maxlen == 0 then 0 else if at ip == 0 then 0 else suc rest

-- `co_utf8_mbstrlen`
unfoldable pub mbstrlen : List ℕ → ℕ
mbstrlen src = mbstrlen_from (co_strlen src) (co_strlen src) src

-- `co_utf8_mcstrlen`
unfoldable pub mcstrlen : List ℕ → ℕ
mcstrlen src = co_strlen src

-- The loop of `co_utf8_mbstowcs`. It counts the characters down, and gives that count to
-- `utf8_mbtowc` as the number of bytes that are left.
unfoldable pub mbstowcs_from : ℕ → List ℕ → List ℕ
mbstowcs_from zero ip = []
mbstowcs_from (suc maxlen) ip =
    let rest = mbstowcs_from maxlen (drop (step_size ip (suc maxlen)) ip) in
    if at ip == 0 then [] else step_char ip (suc maxlen) ∷ rest

-- `co_utf8_mbstowcs`
unfoldable pub mbstowcs : List ℕ → ℕ → Rc × List ℕ
mbstowcs src maxlen = (ok, mbstowcs_from maxlen src)

abbrev pub bytes_or : List ℕ → Option (List ℕ) → List ℕ
bytes_or d none = d
bytes_or d (some bs) = bs

-- What one round of `co_utf8_wcstombs` writes.
unfoldable pub step_bytes : ℕ → ℕ → List ℕ
step_bytes c maxlen = if ltb 0x7f c then bytes_or (0x3f ∷ []) (utf8_wctomb c maxlen) else c ∷ []

-- The loop of `co_utf8_wcstombs`.
unfoldable pub wcstombs_from : List ℕ → ℕ → List ℕ
wcstombs_from [] maxlen = []
wcstombs_from (c ∷ cs) maxlen =
    let rest = wcstombs_from cs (maxlen - length (step_bytes c maxlen)) in
    if maxlen == 0 then [] else if c == 0 then [] else step_bytes c maxlen ++ rest

-- `co_utf8_wcstombs`: `maxlen - 1` is negative where there is no room for the closing 0.
unfoldable pub wcstombs : List ℕ → ℕ → Rc × List ℕ
wcstombs src zero = (error, [])
wcstombs src (suc maxlen) = (ok, wcstombs_from src maxlen)

-- `co_utf8_wctowbstrlen`
unfoldable pub wctowbstrlen : List ℕ → ℕ → ℕ
wctowbstrlen [] maxlen = 0
wctowbstrlen (c ∷ cs) zero = 0
wctowbstrlen (c ∷ cs) (suc maxlen) =
    if c == 0 then 0 else length (step_bytes c 8) + wctowbstrlen cs maxlen

-- `co_utf8_dup_to_wc`: the characters, and the size that the caller gets. `has_memory` says whether
-- `co_os_malloc` gives `size + 1` characters.
unfoldable pub dup_to_wc : (ℕ → Bool) → List ℕ → Rc × List ℕ × ℕ
dup_to_wc has_memory src =
    let size = mbstrlen src + 1 in
    if has_memory (size + 1)
    then (let (rc, buffer) = mbstowcs src size in (rc, buffer, size - 1))
    else (out_of_memory, [], 0)
