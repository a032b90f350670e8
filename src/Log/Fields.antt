-- ===== src/Log/Fields.antt =====
-- common/debug.c and user/debug/main.c: a list of fields, written one behind the other and walked.
use colinux_64bit.Base.{
  ℕ, zero, suc, ◌+◌, ◌-◌, ◌%◌, ◌^◌, ◌≤◌, ◌<◌, ◌≡◌, ◌≢◌, refl, false, Option, List, [], ◌∷◌, ◌++◌,
  ◌==◌, length, take, drop, get_or, length-append, arith,
}
use mathlib.Core.List.{append_assoc}
use colinux_64bit.Log.Write.{long_bytes}
use colinux_64bit.Log.Tlv.{
  add_const_string, c_string, long_at, print_xml_text, escape, push, each_field,
}

pub drop-append {ℓ} : {A : Type ℓ} (xs ys : List A) → drop (length xs) (xs ++ ys) ≡ ys
drop-append [] ys = refl
drop-append (x ∷ xs) ys = drop-append xs ys

-- A type and a value, and the bytes of a list of them.
abbrev pub encode : List (ℕ × List ℕ) → List ℕ
encode [] = []
encode ((kind, value) ∷ fields) = kind ∷ length value ∷ (value ++ encode fields)

-- What a walk gives for a list of fields, with the memory behind.
abbrev pub collect {ℓ} :
    {A : Type ℓ} → (ℕ → List ℕ → Option A) → List (ℕ × List ℕ) → List ℕ → List A
collect f [] rest = []
collect f ((kind, value) ∷ fields) rest =
    push (f kind (value ++ (encode fields ++ rest))) (collect f fields rest)

each_field-zero {ℓ} :
    {A : Type ℓ} (f : ℕ → List ℕ → Option A) (fuel : ℕ) (block : List ℕ)
    → each_field f fuel 0 block ≡ []
unfolding each_field
each_field-zero f zero block = refl
each_field-zero f (suc fuel) block = refl

pub each_field-encode {ℓ} :
    {A : Type ℓ} (f : ℕ → List ℕ → Option A) (fuel : ℕ) (fields : List (ℕ × List ℕ)) (rest : List ℕ)
    → length (encode fields) ≤ fuel
    → each_field f fuel (length (encode fields)) (encode fields ++ rest) ≡ collect f fields rest
unfolding each_field
each_field-encode f fuel [] rest h = each_field-zero f fuel rest
each_field-encode f zero ((kind, value) ∷ fields) rest h = absurd (omega arith)
each_field-encode f (suc fuel) ((kind, value) ∷ fields) rest h =
    let long = length-append value (encode fields) in
    let e : suc (suc (length (value ++ encode fields))) - (2 + length value)
        ≡ length (encode fields) =
      omega (arith, long) in
    let two : 2 + length value ≡ suc (suc (length value)) = omega arith in
    let n : (suc (suc (length (value ++ encode fields))) == 0) ≡ false = ground arith in
    rw
      (
        e,
        two,
        n,
        append_assoc value (encode fields) rest,
        drop-append value (encode fields ++ rest),
        each_field-encode f fuel fields rest (omega (arith, long)),
      )
      refl

abbrev pub NoNul : List ℕ → Type 0
NoNul [] = Unit {0}
NoNul (b ∷ l) = (b ≢ 0) × NoNul l

pub c_string-append : (s rest : List ℕ) → NoNul s → c_string (s ++ (0 ∷ rest)) ≡ s
unfolding c_string
c_string-append [] rest h = refl
c_string-append (b ∷ s) rest h =
    let e : (b == 0) ≡ false = ground (arith, h.0) in rw (e, c_string-append s rest h.1)

-- The text as XML.
pub xml_text : List ℕ → List ℕ
xml_text [] = []
xml_text (b ∷ s) = escape b ++ xml_text s

pub print_xml_text-append :
    (s rest : List ℕ) → NoNul s → print_xml_text (s ++ (0 ∷ rest)) ≡ xml_text s
unfolding print_xml_text xml_text
print_xml_text-append [] rest h = refl
print_xml_text-append (b ∷ s) rest h =
    let e : (b == 0) ≡ false = ground (arith, h.0) in rw (e, print_xml_text-append s rest h.1)

pub long_at-long_bytes :
    (n : ℕ) → n < 2 ^ 32 → (rest : List ℕ) → long_at (long_bytes n ++ rest) 0 ≡ n
unfolding long_at long_bytes
long_at-long_bytes n h rest = omega arith

take_all : (l : List ℕ) → take (length l) l ≡ l
take_all [] = refl
take_all (b ∷ l) = rw (take_all l) refl

pub char_at-long_bytes : (n : ℕ) → n < 256 → (rest : List ℕ) → get_or (long_bytes n ++ rest) 0 0 ≡ n
unfolding long_bytes
char_at-long_bytes n h rest = omega arith

-- The two words of a time.
pub low_at :
    (low high : ℕ)
    → low < 2 ^ 32
    → (rest : List ℕ) → long_at ((long_bytes low ++ long_bytes high) ++ rest) 0 ≡ low
unfolding long_at long_bytes
low_at low high h rest = omega arith

pub high_at :
    (low high : ℕ)
    → high < 2 ^ 32
    → (rest : List ℕ) → long_at ((long_bytes low ++ long_bytes high) ++ rest) 4 ≡ high
unfolding long_at long_bytes
high_at low high h rest = omega arith

pub add_const_string_lem :
    (kind : ℕ) (s : List ℕ)
    → length s < 255
    → add_const_string kind s ≡ kind ∷ length (s ++ (0 ∷ [])) ∷ (s ++ (0 ∷ []))
unfolding add_const_string
add_const_string_lem kind s h =
    let e : (length s + 1) % 256 ≡ length (s ++ (0 ∷ [])) =
      omega (arith, length-append s (0 ∷ [])) in
    rw (e, take_all (s ++ (0 ∷ []))) refl
