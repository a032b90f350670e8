-- ===== src/Cmdline/Scan.antt =====
-- The two passes over one file agree.
use Prim.Native.Nat.{min}
use colinux_64bit.Base.{
  ℕ, zero, suc, ◌+◌, ◌-◌, ◌≡◌, refl, sym, ◌∙◌, inl, inr, Bool, true, false, not, ◌&&◌, ◌||◌, Option,
  none, some, List, [], ◌∷◌, ◌==◌, length, arith, length-append, Bool-cases,
}
use mathlib.Core.Bool.{false≢true}
use colinux_64bit.Rc.{Rc, ok}
use colinux_64bit.Cmdline.Parser.{
  State, init, whitespace, comment, param, param_equal, param_equal_str, Mark, no_mark,
  start_of_param, end_of_param, parser_states, outside_row,
}
use colinux_64bit.Cmdline.{
  dup_param, ends, count_params, Out, between, end_param, on_mark, list_params,
}

-- Inside a parameter its start is known.
abbrev pub is_inside : State → Bool
is_inside init = false
is_inside whitespace = false
is_inside comment = false
is_inside _ = true

abbrev pub has_start : Option (List ℕ) → Bool
has_start none = false
has_start (some s) = true

abbrev pub Started : State → Option (List ℕ) → Type 0
Started state s = is_inside state ≡ true → has_start s ≡ true

-- Where the table marks an end, the machine was inside and leaves; where it marks a start, it enters.
abbrev pub marked : State → State × Mark → Bool
marked state (state', start_of_param) = true
marked state (state', end_of_param) = is_inside state && not (is_inside state')
marked state (state', no_mark) = not (is_inside state') || is_inside state

pub parser_states-marked : (state : State) (c : ℕ) → marked state (parser_states state c) ≡ true
unfolding parser_states outside_row
parser_states-marked init c = ground arith
parser_states-marked whitespace c = ground arith
parser_states-marked comment c = ground arith
parser_states-marked param c = ground arith
parser_states-marked param_equal c = ground arith
parser_states-marked param_equal_str c = ground arith

-- `n` strings are written while there is memory.
pub record Adds (n : ℕ) (written : List (List ℕ)) (mem : ℕ) (rc : Rc) (written' : List (List ℕ))
    (mem' : ℕ) : Type 0 where
  pub returns : rc ≡ ok
  pub count : length written' ≡ length written + min n mem
  pub left : mem' ≡ mem - n

abbrev pub AddsOut : ℕ → Out → Rc × Out → Type 0
AddsOut n out (rc, out') = Adds n out.written out.mem rc out'.written out'.mem

end_param_cases :
    (filescan : List ℕ) (out : Out) (start : Option (List ℕ)) (mem : ℕ)
    → out.param_start ≡ start
    → out.mem ≡ mem
    → has_start start ≡ true
    → AddsOut 1 out (end_param filescan out)
unfolding end_param dup_param
end_param_cases filescan out none mem e m h = absurd (false≢true h)
end_param_cases filescan out (some s) zero e m h =
    rw (e, m) (record { returns = refl; count = omega arith; left = omega arith })
end_param_cases filescan out (some s) (suc mem) e m h =
    let l = length-append out.written (between s filescan ∷ []) in
    rw (e, m) (record { returns = refl; count = omega (arith, l); left = omega arith })

end_param-AddsOut :
    (filescan : List ℕ) (out : Out)
    → has_start out.param_start ≡ true
    → AddsOut 1 out (end_param filescan out)
unfolding end_param dup_param
end_param-AddsOut filescan out h = end_param_cases filescan out out.param_start out.mem refl refl h

on_mark-AddsOut :
    (state state' : State) (mark : Mark) (filescan : List ℕ) (out : Out)
    → marked state (state', mark) ≡ true
    → Started state out.param_start
    → AddsOut (ends mark) out (on_mark mark filescan out)
      × Started state' (on_mark mark filescan out).1.param_start
unfolding on_mark end_param dup_param
on_mark-AddsOut state state' start_of_param filescan out h k =
    (record { returns = refl; count = omega arith; left = omega arith }, λ e. refl)
on_mark-AddsOut state state' end_of_param filescan out h k =
    let i : is_inside state ≡ true = ground (arith, h) in
    let o : is_inside state' ≡ false = ground (arith, h) in
    (end_param-AddsOut filescan out (k i), λ e. absurd (false≢true (sym o ∙ e)))
on_mark-AddsOut state state' no_mark filescan out h k = (
  record { returns = refl; count = omega arith; left = omega arith },
  λ e. k (ground (arith, h, e)),
)

pub Adds-trans :
    (a b : ℕ) (written : List (List ℕ)) (mem : ℕ) (rc : Rc) (written' : List (List ℕ)) (mem' : ℕ)
    (rc' : Rc) (written'' : List (List ℕ)) (mem'' : ℕ)
    → Adds a written mem rc written' mem'
    → Adds b written' mem' rc' written'' mem''
    → Adds (a + b) written mem rc' written'' mem''
Adds-trans a b written mem rc written' mem' rc' written'' mem'' h k = record {
  returns = k.returns;
  count = omega (arith, h.count, k.count, h.left);
  left = omega (arith, h.left, k.left);
}

pub count_params-add :
    (state : State) (cs : List ℕ) (k : ℕ) → count_params state cs k ≡ k + count_params state cs 0
unfolding count_params
count_params-add state [] k = omega arith
count_params-add state (c ∷ cs) k = elim (Bool-cases (c == 0)) [
  | inl e ↦ rw e (omega arith)
  | inr e ↦ rw e (
      omega (
        arith,
        count_params-add (parser_states state c).0 cs (k + ends (parser_states state c).1),
        count_params-add (parser_states state c).0 cs (0 + ends (parser_states state c).1),
      ))
]

pub list_params-AddsOut :
    (state : State) (cs : List ℕ) (out : Out)
    → Started state out.param_start
    → AddsOut (count_params state cs 0) out (list_params state cs out)
unfolding list_params count_params
list_params-AddsOut state [] out h =
    let p = parser_states state 0 in
    let e : 0 + ends p.1 ≡ ends p.1 = omega arith in
    rw e (on_mark-AddsOut state p.0 p.1 [] out (parser_states-marked state 0) h).0
list_params-AddsOut state (c ∷ cs) out h =
    let p = parser_states state c in
    let q = on_mark p.1 (c ∷ cs) out in
    let m = on_mark-AddsOut state p.0 p.1 (c ∷ cs) out (parser_states-marked state c) h in
    elim (Bool-cases (c == 0)) [
      | inl e ↦
          let z : 0 + ends p.1 ≡ ends p.1 = omega arith in
          rw (e, m.0.returns, z) (record { returns = refl; count = m.0.count; left = m.0.left })
      | inr e ↦
          let z : 0 + ends p.1 ≡ ends p.1 = omega arith in
          rw (e, m.0.returns, z, count_params-add p.0 cs (ends p.1))
            (Adds-trans (ends p.1) (count_params p.0 cs 0) out.written out.mem q.0 q.1.written
              q.1.mem (list_params p.0 cs q.1).0 (list_params p.0 cs q.1).1.written
              (list_params p.0 cs q.1).1.mem m.0 (list_params-AddsOut p.0 cs q.1 m.1))
    ]
