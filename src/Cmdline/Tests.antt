-- ===== src/Cmdline/Tests.antt =====
-- A file of two arguments, "a=1" and "b", and a program's arguments "-k", "on", "-v".
use colinux_64bit.Base.{arith, ℕ, suc, ◌+◌, ◌-◌, ◌≤◌, ◌≡◌, refl, true, some, List, [], ◌∷◌, length}
use colinux_64bit.Rc.{Rc, ok}
use colinux_64bit.Cmdline.{
  count_args, count_arg, count_file, count_params, list_args, list_file, eval_params_file,
}
use colinux_64bit.Cmdline.Parser.{parser_states, outside_row}
use colinux_64bit.Cmdline.Passes.{eval_params_file_fits}
use colinux_64bit.Cmdline.RoundTrip.{AreParams, joined, list_file-joined}
use colinux_64bit.Cmdline.Args.{Argv, one_argument_parameter}
use colinux_64bit.Cmdline.Args.Consume.{FoundIn, one_argument_parameter-FoundIn}

abbrev params : List (List ℕ)
params = (0x61 ∷ 0x3d ∷ 0x31 ∷ []) ∷ (0x62 ∷ []) ∷ []

params-AreParams : AreParams params
params-AreParams = ((refl, (refl, (refl, tt))), ((refl, tt), tt))

list_file-joined_example : list_file (ok, joined params) ([], 2 + 5) ≡ (ok, params, 5)
list_file-joined_example = list_file-joined params [] 5 params-AreParams

abbrev load : List ℕ → Rc × List ℕ
load name = (ok, joined params)

abbrev args : List (List ℕ)
args = (0x40 ∷ 0x66 ∷ []) ∷ (0x63 ∷ []) ∷ []

counted : count_args load args 0 ≡ (ok, 3)
unfolding count_args count_arg count_file count_params parser_states outside_row
counted = refl

eval_params_file_fits_example :
    (length (list_args load args [] 1).1 ≤ 3)
    × ((args' : List (List ℕ)) × (eval_params_file load args 9 ≡ (ok, args', suc (8 - 3)))
        × (length args' ≡ 3))
eval_params_file_fits_example = eval_params_file_fits load args 3 8 1 counted (omega arith)

abbrev argv : Argv
argv = some (0x2d ∷ 0x6b ∷ []) ∷ some (0x6f ∷ 0x6e ∷ []) ∷ some (0x2d ∷ 0x76 ∷ []) ∷ []

abbrev key : List ℕ
key = 0x2d ∷ 0x6b ∷ []

one_argument_parameter-FoundIn_example :
    FoundIn true 10 key argv (one_argument_parameter true argv key 10)
one_argument_parameter-FoundIn_example = one_argument_parameter-FoundIn true argv key 10
