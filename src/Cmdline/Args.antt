-- ===== src/Cmdline/Args.antt =====
-- The functions of src/colinux/user/cmdline.c that consume arguments. What one consumes becomes
-- NULL (`none`) in `argv`. A buffer for an argument takes what fits before its NUL.
pub mod Consume
use colinux_64bit.Base.{
  ℕ, zero, suc, ◌+◌, ◌-◌, Bool, true, false, not, ◌&&◌, ◌||◌, Option, none, some, List, [], ◌∷◌,
  ◌++◌, ◌==◌, ltb, leb, if◌then◌else◌, length, take, drop, get_or, map,
}
use colinux_64bit.Rc.{Rc, ok, error}

abbrev pub Argv : Type 0
Argv = List (Option (List ℕ))

-- `co_strcmp(a, b) == 0`
abbrev pub equal : List ℕ → List ℕ → Bool
equal [] [] = true
equal [] (y ∷ ys) = false
equal (x ∷ xs) [] = false
equal (x ∷ xs) (y ∷ ys) = (x == y) && equal xs ys

abbrev pub is_named : List ℕ → Option (List ℕ) → Bool
is_named name none = false
is_named name (some arg) = equal arg name

-- `co_cmdline_params_argumentless_parameter`
unfoldable pub argumentless_parameter : Argv → List ℕ → Argv × Bool
argumentless_parameter [] name = ([], false)
argumentless_parameter (arg ∷ argv) name =
    let (argv', exists) = argumentless_parameter argv name in
    if is_named name arg then (none ∷ argv, true) else (arg ∷ argv', exists)

-- The argument behind a parameter: the entry of `argv`, where it is there, not NULL and does not
-- start with '-'.
abbrev pub first_char : List ℕ → ℕ
first_char text = get_or text 0 0

unfoldable pub argument_of : Argv → Option (List ℕ)
argument_of [] = none
argument_of (none ∷ argv) = none
argument_of (some text ∷ argv) = if first_char text == 0x2d then none else some text

abbrev pub clear_next : Argv → Argv
clear_next [] = []
clear_next (arg ∷ argv) = none ∷ argv

-- What `one_arugment_parameter` gives back: the code, the arguments, whether the parameter is there,
-- and the text for its argument, if one is there.
pub record Found : Type 0 where
  pub rc : Rc
  pub argv : Argv
  pub exists : Bool
  pub argument : Option (List ℕ)

-- The body of the loop, for the parameter that is found. `needed` is `*argument` on entry.
unfoldable pub take_parameter : Bool → Option (List ℕ) → Argv → ℕ → Option (List ℕ) → Found
take_parameter true arg argv arg_size none = record {
  rc = error;
  argv = arg ∷ argv;
  exists = false;
  argument = none;
}
take_parameter false arg argv arg_size none = record {
  rc = ok;
  argv = none ∷ argv;
  exists = true;
  argument = none;
}
take_parameter needed arg argv arg_size (some text) = record {
  rc = ok;
  argv = none ∷ clear_next argv;
  exists = true;
  argument = some (take (arg_size - 1) text);
}

-- `one_arugment_parameter`
unfoldable pub one_argument_parameter : Bool → Argv → List ℕ → ℕ → Found
one_argument_parameter needed [] name arg_size = record {
  rc = ok;
  argv = [];
  exists = false;
  argument = none;
}
one_argument_parameter needed (arg ∷ argv) name arg_size =
    let rest = one_argument_parameter needed argv name arg_size in
    if is_named name arg
    then take_parameter needed arg argv arg_size (argument_of argv)
    else record rest { argv = arg ∷ rest.argv }

-- `co_cmdline_params_one_arugment_parameter`, `co_cmdline_params_one_optional_arugment_parameter`
unfoldable pub params_one_argument : Argv → List ℕ → ℕ → Found
params_one_argument argv name arg_size = one_argument_parameter true argv name arg_size

unfoldable pub params_one_optional_argument : Argv → List ℕ → ℕ → Found
params_one_optional_argument argv name arg_size = one_argument_parameter false argv name arg_size

-- `co_cmdline_params_check_for_no_unparsed_parameters`
abbrev pub count_left : Argv → ℕ
count_left [] = 0
count_left (none ∷ argv) = count_left argv
count_left (some arg ∷ argv) = suc (count_left argv)

unfoldable pub check_for_no_unparsed : Argv → Rc
check_for_no_unparsed argv = if count_left argv == 0 then ok else error

-- `co_remove_quotation_marks`. `none` is a copy of `length - 1` bytes for the length 0.
abbrev pub last_char : List ℕ → ℕ
last_char [] = 0
last_char (c ∷ []) = c
last_char (c ∷ cs) = last_char cs

unfoldable pub remove_quotation_marks : List ℕ → Option (List ℕ)
remove_quotation_marks [] = some []
remove_quotation_marks (c ∷ cs) =
    if (c == 0x22) && (last_char (c ∷ cs) == 0x22)
    then (if length cs == 0 then none else some (take (length cs - 1) cs))
    else some (c ∷ cs)
