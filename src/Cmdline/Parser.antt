-- ===== src/Cmdline/Parser.antt =====
-- The table `parser_states` of src/colinux/user/cmdline.c: a state machine over characters.
use colinux_64bit.Base.{ℕ, Bool, ◌&&◌, ◌||◌, ◌==◌, ltb, leb, if◌then◌else◌}

-- `param_parse_state_t`, `param_parse_mark_t`
pub data State : Type 0 where
  init whitespace comment param param_equal param_equal_str : State

pub data Mark : Type 0 where
  no_mark start_of_param end_of_param : Mark

-- 'a' ... 'z', 'A' ... 'Z', '0' ... '9', '.'
abbrev pub starts_param : ℕ → Bool
starts_param c =
    (leb 0x61 c && leb c 0x7a)
    || (leb 0x41 c && leb c 0x5a)
    || (leb 0x30 c && leb c 0x39)
    || (c == 0x2e)

-- ' ', '\t', '\n', '\r'
abbrev pub is_blank : ℕ → Bool
is_blank c = (c == 0x20) || (c == 0x09) || (c == 0x0a) || (c == 0x0d)

-- The rows of the table; `#` is 0x23, `"` 0x22 and `=` 0x3d.
unfoldable pub outside_row : ℕ → State × Mark
outside_row c =
    if c == 0x23
    then (comment, no_mark)
    else if starts_param c
    then (param, start_of_param)
    else if is_blank c
    then (whitespace, no_mark)
    else (init, no_mark)

unfoldable pub parser_states : State → ℕ → State × Mark
parser_states init c = outside_row c
parser_states whitespace c = outside_row c
parser_states comment c = if c == 0x0a then (init, no_mark) else (comment, no_mark)
parser_states param c =
    if c == 0x23
    then (comment, end_of_param)
    else if c == 0x22
    then (param_equal_str, no_mark)
    else if c == 0x3d
    then (param_equal, no_mark)
    else if leb c 0x20
    then (init, end_of_param)
    else (param, no_mark)
parser_states param_equal c =
    if c == 0x23
    then (comment, end_of_param)
    else if c == 0x22
    then (param_equal_str, no_mark)
    else if leb c 0x20
    then (init, end_of_param)
    else (param_equal, no_mark)
parser_states param_equal_str c =
    if c == 0x23
    then (comment, end_of_param)
    else if c == 0x22
    then (param, no_mark)
    else if ltb c 0x20
    then (init, end_of_param)
    else (param_equal_str, no_mark)
