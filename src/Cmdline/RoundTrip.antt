-- ===== src/Cmdline/RoundTrip.antt =====
-- Arguments written to a file one after the other, and read back.
use colinux_64bit.Base.{
  ℕ, suc, ◌+◌, ◌-◌, ◌≡◌, refl, inl, inr, Bool, true, false, not, ◌&&◌, Option, none, some, List, [],
  ◌∷◌, ◌++◌, ◌==◌, ltb, length, arith, length-append, take-append, Bool-cases,
}
use mathlib.Core.List.{append-nil, append_assoc}
use colinux_64bit.Rc.{ok}
use colinux_64bit.Cmdline.Parser.{
  State, init, param, param_equal, no_mark, start_of_param, end_of_param, starts_param,
  parser_states, outside_row,
}
use colinux_64bit.Cmdline.{dup_param, Out, between, end_param, on_mark, list_params, list_file}

-- A character of an argument: no control character, blank, quotation mark or `#`.
abbrev pub is_plain : ℕ → Bool
is_plain c = ltb 0x20 c && not (c == 0x22) && not (c == 0x23)

abbrev pub ArePlain : List ℕ → Type 0
ArePlain [] = Unit
ArePlain (c ∷ cs) = (is_plain c ≡ true) × ArePlain cs

abbrev pub IsParam : List ℕ → Type 0
IsParam [] = ⊥
IsParam (c ∷ cs) = (starts_param c ≡ true) × ArePlain cs

abbrev pub AreParams : List (List ℕ) → Type 0
AreParams [] = Unit
AreParams (p ∷ ps) = IsParam p × AreParams ps

-- Each argument with a blank behind it.
abbrev pub joined : List (List ℕ) → List ℕ
joined [] = []
joined (p ∷ ps) = p ++ 0x20 ∷ joined ps

abbrev reading : List (List ℕ) → ℕ → Option (List ℕ) → Out
reading written mem start = record { written = written; mem = mem; param_start = start }

-- The end of an argument.
at_end :
    (state : State) (s rest text : List ℕ) (written : List (List ℕ)) (mem : ℕ)
    → parser_states state 0x20 ≡ (init, end_of_param)
    → between s (0x20 ∷ rest) ≡ text
    → list_params state (0x20 ∷ rest) (reading written (suc mem) (some s))
      ≡ list_params init rest (reading (written ++ text ∷ []) mem none)
unfolding list_params on_mark end_param dup_param
at_end state s rest text written mem e h = rw (e, h) refl

inside_equal :
    (cs s rest text : List ℕ) (written : List (List ℕ)) (mem : ℕ)
    → ArePlain cs
    → between s (0x20 ∷ rest) ≡ text
    → list_params param_equal (cs ++ 0x20 ∷ rest) (reading written (suc mem) (some s))
      ≡ list_params init rest (reading (written ++ text ∷ []) mem none)
unfolding list_params parser_states on_mark
inside_equal [] s rest text written mem h e = at_end param_equal s rest text written mem refl e
inside_equal (c ∷ cs) s rest text written mem h e =
    let p : parser_states param_equal c ≡ (param_equal, no_mark) = ground (arith, h.0) in
    let z : (c == 0) ≡ false = ground (arith, h.0) in
    rw (p, z) (inside_equal cs s rest text written mem h.1 e)

inside :
    (cs s rest text : List ℕ) (written : List (List ℕ)) (mem : ℕ)
    → ArePlain cs
    → between s (0x20 ∷ rest) ≡ text
    → list_params param (cs ++ 0x20 ∷ rest) (reading written (suc mem) (some s))
      ≡ list_params init rest (reading (written ++ text ∷ []) mem none)
unfolding list_params parser_states on_mark
inside [] s rest text written mem h e = at_end param s rest text written mem refl e
inside (c ∷ cs) s rest text written mem h e =
    let z : (c == 0) ≡ false = ground (arith, h.0) in
    elim (Bool-cases (c == 0x3d)) [
      | inl f ↦
          let p : parser_states param c ≡ (param_equal, no_mark) = ground (arith, h.0, f) in
          rw (p, z) (inside_equal cs s rest text written mem h.1 e)
      | inr f ↦
          let p : parser_states param c ≡ (param, no_mark) = ground (arith, h.0, f) in
          rw (p, z) (inside cs s rest text written mem h.1 e)
    ]

between-append : (p q : List ℕ) → between (p ++ q) q ≡ p
between-append p q =
    let e : length p + length q - length q ≡ length p = omega arith in
    rw (length-append p q, e) (take-append p q)

list_params-joined :
    (ps written : List (List ℕ)) (mem : ℕ)
    → AreParams ps
    → list_params init (joined ps) (reading written (length ps + mem) none)
      ≡ (ok, reading (written ++ ps) mem none)
unfolding list_params parser_states on_mark outside_row
list_params-joined [] written mem h =
    let z : 0 + mem ≡ mem = omega arith in rw (z, append-nil written) refl
list_params-joined ([] ∷ ps) written mem h = absurd h.0
list_params-joined ((c ∷ cs) ∷ ps) written mem h =
    let z : (c == 0) ≡ false = ground (arith, h.0.0) in
    let p : parser_states init c ≡ (param, start_of_param) = ground (arith, h.0.0) in
    let m : suc (length ps) + mem ≡ suc (length ps + mem) = omega arith in
    rw
      (
        p,
        z,
        m,
        inside cs (c ∷ (cs ++ 0x20 ∷ joined ps)) (joined ps) (c ∷ cs) written (length ps + mem)
            h.0.1 (between-append (c ∷ cs) (0x20 ∷ joined ps)),
        list_params-joined ps (written ++ (c ∷ cs) ∷ []) mem h.1,
        append_assoc written ((c ∷ cs) ∷ []) ps,
      )
      refl

-- Arguments that start with a letter, a digit or a point, and hold no control character, blank,
-- quotation mark or `#`: a file of them, a blank behind each, is read back as exactly these, where
-- there is memory for them, and takes just that memory.
pub list_file-joined :
    (ps written : List (List ℕ)) (mem : ℕ)
    → AreParams ps
    → list_file (ok, joined ps) (written, length ps + mem) ≡ (ok, written ++ ps, mem)
unfolding list_file
list_file-joined [] written mem h =
    let z : 0 + mem ≡ mem = omega arith in rw (z, append-nil written) refl
list_file-joined ([] ∷ ps) written mem h = absurd h.0
list_file-joined ((c ∷ cs) ∷ ps) written mem h =
    rw (list_params-joined ((c ∷ cs) ∷ ps) written mem h) refl
