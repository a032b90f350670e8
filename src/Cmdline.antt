-- ===== src/Cmdline.antt =====
-- src/colinux/user/cmdline.c: the arguments of a program, and the files of arguments that an
-- argument `@file` names. A string is the list of its characters; `argv` is a list whose entries
-- are NULL (`none`) once they are consumed. `mem` is the number of allocations that still succeed.
pub mod Parser
pub mod Args
pub mod Scan
pub mod Passes
pub mod RoundTrip
mod Tests
use colinux_64bit.Base.{
  ℕ, zero, suc, ◌+◌, ◌-◌, Bool, true, false, not, Option, none, some, List, [], ◌∷◌, ◌++◌, ◌==◌,
  ltb, leb, if◌then◌else◌, length, take, drop, get_or,
}
use colinux_64bit.Rc.{Rc, ok, error, out_of_memory, co_ok}
use colinux_64bit.Cmdline.Parser.{State, init, Mark, parser_states}

-- `dup_param`: the string, where there is memory.
unfoldable pub dup_param : List ℕ → ℕ → Option (List ℕ × ℕ)
dup_param text zero = none
dup_param text (suc mem) = some (text, mem)

-- The pass that only counts (`list_output` is NULL): what the mark of one character adds.
abbrev pub ends : Mark → ℕ
ends Mark.end_of_param = 1
ends _ = 0

unfoldable pub count_params : State → List ℕ → ℕ → ℕ
count_params state [] count = count + ends (parser_states state 0).1
count_params state (c ∷ cs) count =
    let (state', mark) = parser_states state c in
    let rest = count_params state' cs (count + ends mark) in
    if c == 0 then count + ends mark else rest

-- What the pass that writes changes: the strings in `argv` so far, in order, and `param_start`, a
-- pointer into the buffer, as the characters from there on.
pub record Out : Type 0 where
  pub written : List (List ℕ)
  pub mem : ℕ
  pub param_start : Option (List ℕ)

-- The characters from the pointer `s` to the later pointer `e`.
abbrev pub between : List ℕ → List ℕ → List ℕ
between s e = take (length s - length e) s

-- `PARAM_PARSE_MARK_END_OF_PARAM`. Without memory the `break` leaves only the `switch`, and the
-- code of `dup_param` is lost.
unfoldable pub end_param : List ℕ → Out → Rc × Out
end_param filescan out = elim out.param_start [
  | none ↦ (error, out)
  | some s ↦ elim (dup_param (between s filescan) out.mem) [
    | none ↦ (ok, out)
    | some (text, mem) ↦
        (ok, record out { written = out.written ++ text ∷ []; mem = mem; param_start = none })
  ]
]

unfoldable pub on_mark : Mark → List ℕ → Out → Rc × Out
on_mark Mark.start_of_param filescan out = (ok, record out { param_start = some filescan })
on_mark Mark.end_of_param filescan out = end_param filescan out
on_mark Mark.no_mark filescan out = (ok, out)

-- The loop of `get_params_list` where it writes.
unfoldable pub list_params : State → List ℕ → Out → Rc × Out
list_params state [] out = on_mark (parser_states state 0).1 [] out
list_params state (c ∷ cs) out =
    let (state', mark) = parser_states state c in
    let (rc, out') = on_mark mark (c ∷ cs) out in
    let rest = list_params state' cs out' in
    if not (co_ok rc) then (rc, out') else if c == 0 then (ok, out') else rest

-- `get_params_list`, both ways. The file is a parameter, as it is loaded.
unfoldable pub count_file : Rc × List ℕ → ℕ → Rc × ℕ
count_file (ok, []) count = (ok, count)
count_file (ok, buf) count = (ok, count_params init buf count)
count_file (rc, buf) count = (rc, count)

unfoldable pub list_file : Rc × List ℕ → List (List ℕ) × ℕ → Rc × List (List ℕ) × ℕ
list_file (ok, []) (written, mem) = (ok, written, mem)
list_file (ok, buf) (written, mem) =
    let (rc, out) =
      list_params init buf (record { written = written; mem = mem; param_start = none }) in
    (rc, out.written, out.mem)
list_file (rc, buf) (written, mem) = (rc, written, mem)

-- An argument that names a file, by the name.
abbrev pub file_name : List ℕ → Option (List ℕ)
file_name [] = none
file_name (c ∷ cs) = if c == 0x40 then some cs else none

module _ (load : List ℕ → Rc × List ℕ) where
  -- The first loop of `eval_params_file`, and its body.
  unfoldable pub count_arg : Option (List ℕ) → ℕ → Rc × ℕ
  count_arg none count = (ok, count + 1)
  count_arg (some name) count = count_file (load name) count

  unfoldable pub count_args : List (List ℕ) → ℕ → Rc × ℕ
  count_args [] count = (ok, count)
  count_args (arg ∷ args) count =
      let (rc, count') = count_arg (file_name arg) count in
      let rest = count_args args count' in if co_ok rc then rest else (rc, count')

  -- The second loop, and its body.
  unfoldable pub list_arg : Option (List ℕ) → List ℕ → List (List ℕ) → ℕ → Rc × List (List ℕ) × ℕ
  list_arg none arg written mem = elim (dup_param arg mem) [
    | none ↦ (out_of_memory, written, mem)
    | some (text, mem') ↦ (ok, written ++ text ∷ [], mem')
  ]
  list_arg (some name) arg written mem = list_file (load name) (written, mem)

  unfoldable pub list_args : List (List ℕ) → List (List ℕ) → ℕ → Rc × List (List ℕ) × ℕ
  list_args [] written mem = (ok, written, mem)
  list_args (arg ∷ args) written mem =
      let (rc, written', mem') = list_arg (file_name arg) arg written mem in
      let rest = list_args args written' mem' in if co_ok rc then rest else (rc, written', mem')

  -- `eval_params_file`: the new arguments. On failure the strings
  -- written so far and the new array are freed, and `args` stay; otherwise the old array is freed.
  unfoldable pub eval_params_file : List (List ℕ) → ℕ → Rc × List (List ℕ) × ℕ
  eval_params_file args zero =
      let (rc, count) = count_args args 0 in
      if co_ok rc then (out_of_memory, args, 0) else (rc, args, 0)
  eval_params_file args (suc mem) =
      let (rc, count) = count_args args 0 in
      let (rc', written, mem') = list_args args [] mem in
      if co_ok rc
      then (if co_ok rc' then (ok, written, suc mem') else (rc', args, suc (mem' + length written)))
      else (rc, args, suc mem)

  -- `co_cmdline_params_alloc`: the object, a copy of the array, and `eval_params_file`.
  unfoldable pub params_alloc : List (List ℕ) → ℕ → Rc × List (List ℕ) × ℕ
  params_alloc args zero = (out_of_memory, [], 0)
  params_alloc args (suc zero) = (out_of_memory, [], 1)
  params_alloc args (suc (suc mem)) =
      let (rc, args', mem') = eval_params_file args mem in
      if co_ok rc then (ok, args', mem') else (rc, [], suc (suc mem'))
