-- ===== src/Log/Tlv.antt =====
-- common/debug.c: the record of an event, by type, length and value; user/debug/main.c: taking it apart.
use colinux_64bit.Base.{
  ℕ, zero, suc, ◌+◌, ◌-◌, ◌*◌, ◌%◌, Bool, Option, none, some, List, [], ◌∷◌, ◌++◌, ◌==◌, ltb,
  if◌then◌else◌, take, drop, get_or, length,
}
use colinux_64bit.Log.Write.{long_bytes, type_driver_index}

-- The other types of `co_debug_type_t`
abbrev pub type_timestamp : ℕ
type_timestamp = 1

abbrev pub type_string : ℕ
type_string = 2

abbrev pub type_module : ℕ
type_module = 3

abbrev pub type_local_index : ℕ
type_local_index = 4

abbrev pub type_facility : ℕ
type_facility = 5

abbrev pub type_level : ℕ
type_level = 6

abbrev pub type_line : ℕ
type_line = 7

abbrev pub type_func : ℕ
type_func = 8

abbrev pub type_file : ℕ
type_file = 9

-- `tlv_add_const_string`: the string's own 0 is part of the value, and the length is a byte.
unfoldable pub add_const_string : ℕ → List ℕ → List ℕ
add_const_string kind str =
    let size = (length str + 1) % 256 in kind ∷ size ∷ take size (str ++ (0 ∷ []))

-- `tlv_add_timestamp`
unfoldable pub add_timestamp : ℕ → ℕ → List ℕ
add_timestamp low high = type_timestamp ∷ 8 ∷ (long_bytes low ++ long_bytes high)

-- `tlv_add_unsigned_long`
unfoldable pub add_unsigned_long : ℕ → ℕ → List ℕ
add_unsigned_long kind n = kind ∷ 4 ∷ long_bytes n

-- `tlv_add_char`, whose value is as long.
unfoldable pub add_char : ℕ → ℕ → List ℕ
add_char kind n = kind ∷ 4 ∷ long_bytes n

-- The arguments of `co_debug_`, with the time, the local index and the text that the host's
-- `co_vsnprintf` gives.
pub record Event : Type 0 where
  pub module_name : List ℕ
  pub filename : List ℕ
  pub time_low : ℕ
  pub time_high : ℕ
  pub local_index : ℕ
  pub facility : ℕ
  pub func : List ℕ
  pub line : ℕ
  pub level : ℕ
  pub text : List ℕ

-- The buffer that `co_debug_` fills and gives to `co_debug_buf`.
unfoldable pub debug_event : Event → List ℕ
debug_event e =
    add_const_string type_module e.module_name
    ++ (add_const_string type_file e.filename
        ++ (add_timestamp e.time_low e.time_high
            ++ (add_unsigned_long type_local_index e.local_index
                ++ (add_char type_facility e.facility
                    ++ (add_const_string type_func e.func
                        ++ (add_unsigned_long type_line e.line
                            ++ (add_char type_level e.level
                                ++ add_const_string type_string e.text)))))))

-- What `parse_tlv` prints as an attribute.
pub data Attribute : Type 0 where
  timestamp : ℕ → ℕ → Attribute
  module_name file function : List ℕ → Attribute
  facility line level local_index driver_index : ℕ → Attribute

-- A C string in memory.
unfoldable pub c_string : List ℕ → List ℕ
c_string [] = []
c_string (b ∷ l) = if b == 0 then [] else b ∷ c_string l

-- An `unsigned int` in memory.
unfoldable pub long_at : List ℕ → ℕ → ℕ
long_at l i =
    get_or l i 0
    + 256 * get_or l (i + 1) 0
    + 65536 * get_or l (i + 2) 0
    + 16777216 * get_or l (i + 3) 0

abbrev pub if_attribute : Bool → Attribute → Option Attribute → Option Attribute
if_attribute c a o = if c then some a else o

-- The cases of the first loop of `parse_tlv`, on a type and the memory from the value on.
unfoldable pub attribute_of : ℕ → List ℕ → Option Attribute
unfolding c_string long_at
attribute_of kind value =
    if_attribute (kind == type_timestamp) (timestamp (long_at value 4) (long_at value 0)) (
      if_attribute (kind == type_module) (module_name (c_string value)) (
        if_attribute (kind == type_file) (file (c_string value)) (
          if_attribute (kind == type_func) (function (c_string value)) (
            if_attribute (kind == type_facility) (facility (get_or value 0 0)) (
              if_attribute (kind == type_line) (line (long_at value 0)) (
                if_attribute (kind == type_level) (level (get_or value 0 0)) (
                  if_attribute (kind == type_local_index) (local_index (long_at value 0)) (
                    if_attribute (kind == type_driver_index) (driver_index (long_at value 0))
                      none))))))))

abbrev pub push {ℓ} : {A : Type ℓ} → Option A → List A → List A
push none l = l
push (some a) l = a ∷ l

-- `print_xml_text`, for a string of memory.
unfoldable pub escape : ℕ → List ℕ
escape b =
    if b == b'&'
    then b'&' ∷ b'a' ∷ b'm' ∷ b'p' ∷ b';' ∷ []
    else if b == b'<'
    then b'&' ∷ b'l' ∷ b't' ∷ b';' ∷ []
    else if b == b'>'
    then b'&' ∷ b'g' ∷ b't' ∷ b';' ∷ []
    else b ∷ []

unfoldable pub print_xml_text : List ℕ → List ℕ
unfolding escape
print_xml_text [] = []
print_xml_text (b ∷ l) = if b == 0 then [] else escape b ++ print_xml_text l

-- A loop of `parse_tlv` over the `left` bytes of `block`: `ptlv` moves by two and its length. Each
-- round moves on, so `left` rounds are enough.
unfoldable pub each_field {ℓ} : {A : Type ℓ} → (ℕ → List ℕ → Option A) → ℕ → ℕ → List ℕ → List A
each_field f zero left block = []
each_field f (suc fuel) left block =
    let size = get_or block 1 0 in
    let rest = each_field f fuel (left - (2 + size)) (drop (2 + size) block) in
    if left == 0 then [] else push (f (get_or block 0 0) (drop 2 block)) rest

unfoldable pub string_of : ℕ → List ℕ → Option (List ℕ)
unfolding print_xml_text
string_of kind value = if kind == type_string then some (print_xml_text value) else none

-- What `parse_tlv` prints for a record: the attributes of the element, and the texts in it.
pub record Entry : Type 0 where
  pub attributes : List Attribute
  pub strings : List (List ℕ)

-- `parse_tlv`, with `tlv->length`.
unfoldable pub parse_tlv : ℕ → List ℕ → Entry
unfolding each_field attribute_of string_of
parse_tlv size block = record {
  attributes = each_field attribute_of size size block;
  strings = each_field string_of size size block;
}

-- `parse_tlv_buffer`; a round takes two bytes at least, so `size` rounds are enough.
unfoldable pub parse_tlv_rounds : ℕ → ℕ → List ℕ → List Entry
unfolding parse_tlv
parse_tlv_rounds zero size block = []
parse_tlv_rounds (suc fuel) size block =
    let len = get_or block 1 0 in
    let rest = parse_tlv_rounds fuel (size - (2 + len)) (drop (2 + len) block) in
    if ltb size 2 then [] else parse_tlv len (drop 2 block) ∷ rest

unfoldable pub parse_tlv_buffer : List ℕ → ℕ → List Entry
unfolding parse_tlv_rounds
parse_tlv_buffer block size = parse_tlv_rounds size size block
