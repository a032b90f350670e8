-- ===== src/Log/RoundTrip.antt =====
-- The log's way from an event to what the debug daemon prints of it.
use colinux_64bit.Base.{
  ℕ, zero, suc, ◌+◌, ◌-◌, ◌^◌, ◌≤◌, ◌<◌, ◌≡◌, refl, ◌∙◌, false, List, [], ◌∷◌, ◌++◌, ltb, length,
  length-append, arith,
}
use mathlib.Core.Path.{subst}
use mathlib.Core.List.{append_assoc}
use colinux_64bit.Log.Write.{long_bytes, type_driver_index}
use colinux_64bit.Log.Content.{log_record}
use colinux_64bit.Log.Tlv.{
  type_timestamp, type_string, type_module, type_local_index, type_facility, type_level, type_line,
  type_func, type_file, add_timestamp, add_unsigned_long, add_char, Event, debug_event, timestamp,
  module_name, file, function, facility, line, level, local_index, driver_index, c_string,
  attribute_of, string_of, print_xml_text, Entry, parse_tlv, parse_tlv_rounds, parse_tlv_buffer,
}
use colinux_64bit.Log.Fields.{
  drop-append, encode, collect, each_field-encode, NoNul, c_string-append, xml_text,
  print_xml_text-append, long_at-long_bytes, char_at-long_bytes, low_at, high_at,
  add_const_string_lem,
}

-- The strings of an event are C strings of less than 255 bytes, its numbers are words or bytes.
pub record IsEvent (e : Event) : Type 0 where
  pub module_string : NoNul e.module_name × (length e.module_name < 255)
  pub file_string : NoNul e.filename × (length e.filename < 255)
  pub func_string : NoNul e.func × (length e.func < 255)
  pub text_string : NoNul e.text × (length e.text < 255)
  pub words :
      (e.time_low < 2 ^ 32) × (e.time_high < 2 ^ 32) × (e.local_index < 2 ^ 32) × (e.line < 2 ^ 32)
  pub chars : (e.facility < 256) × (e.level < 256)

abbrev pub string_field : ℕ → List ℕ → ℕ × List ℕ
string_field kind s = (kind, s ++ (0 ∷ []))

-- The fields of an event, and the index that the driver adds.
abbrev pub fields : Event → ℕ → List (ℕ × List ℕ)
fields e index =
    string_field type_module e.module_name
    ∷ string_field type_file e.filename
    ∷ (type_timestamp, long_bytes e.time_low ++ long_bytes e.time_high)
    ∷ (type_local_index, long_bytes e.local_index)
    ∷ (type_facility, long_bytes e.facility)
    ∷ string_field type_func e.func
    ∷ (type_line, long_bytes e.line)
    ∷ (type_level, long_bytes e.level)
    ∷ string_field type_string e.text
    ∷ (type_driver_index, long_bytes index)
    ∷ []

encode-fields :
    (e : Event) (index : ℕ)
    → IsEvent e
    → encode (fields e index) ≡ debug_event e ++ (type_driver_index ∷ 4 ∷ long_bytes index)
unfolding debug_event add_timestamp add_unsigned_long add_char long_bytes
encode-fields e index h =
    rw
      (
        debug_event,
        add_const_string_lem type_module e.module_name h.module_string.1,
        add_const_string_lem type_file e.filename h.file_string.1,
        add_const_string_lem type_func e.func h.func_string.1,
        add_const_string_lem type_string e.text h.text_string.1,
      )
      (simp append_assoc)

-- What the daemon is to print of an event.
pub entry : Event → ℕ → Entry
entry e index = record {
  attributes =
      module_name e.module_name
      ∷ file e.filename
      ∷ timestamp e.time_high e.time_low
      ∷ local_index e.local_index
      ∷ facility e.facility
      ∷ function e.func
      ∷ line e.line
      ∷ level e.level
      ∷ driver_index index
      ∷ [];
  strings = xml_text e.text ∷ [];
}

string_end : (s : List ℕ) → NoNul s → (rest : List ℕ) → c_string ((s ++ (0 ∷ [])) ++ rest) ≡ s
string_end s h rest = rw (append_assoc s (0 ∷ []) rest) (c_string-append s rest h)

printed :
    (s : List ℕ) → NoNul s → (rest : List ℕ) → print_xml_text ((s ++ (0 ∷ [])) ++ rest) ≡ xml_text s
printed s h rest = rw (append_assoc s (0 ∷ []) rest) (print_xml_text-append s rest h)

collect-attributes :
    (e : Event) (index : ℕ) (rest : List ℕ)
    → IsEvent e
    → index < 2 ^ 32
    → collect attribute_of (fields e index) rest ≡ (entry e index).attributes
unfolding entry attribute_of
collect-attributes e index rest h i =
    rw
      (
        string_end e.module_name h.module_string.0,
        string_end e.filename h.file_string.0,
        string_end e.func h.func_string.0,
        low_at e.time_low e.time_high h.words.0,
        high_at e.time_low e.time_high h.words.1,
        long_at-long_bytes e.local_index h.words.2,
        long_at-long_bytes e.line h.words.3,
        char_at-long_bytes e.facility h.chars.0,
        char_at-long_bytes e.level h.chars.1,
        long_at-long_bytes index i,
      )
      refl

collect-strings :
    (e : Event) (index : ℕ) (rest : List ℕ)
    → IsEvent e
    → collect string_of (fields e index) rest ≡ (entry e index).strings
unfolding entry string_of
collect-strings e index rest h = rw (printed e.text h.text_string.0) refl

parse_tlv-encode :
    (fs : List (ℕ × List ℕ)) (block rest : List ℕ)
    → encode fs ≡ block
    → parse_tlv (length block) (block ++ rest)
      ≡ record { attributes = collect attribute_of fs rest; strings = collect string_of fs rest }
unfolding parse_tlv
parse_tlv-encode fs block rest p =
    subst
      (λ b.
        parse_tlv (length b) (b ++ rest)
        ≡ record { attributes = collect attribute_of fs rest; strings = collect string_of fs rest })
      p
      (rw
        (
          each_field-encode attribute_of (length (encode fs)) fs rest (omega arith),
          each_field-encode string_of (length (encode fs)) fs rest (omega arith),
        )
        refl)

-- Of the body of a record that the driver makes of an event, the parser takes the event.
parse_tlv-event :
    (e : Event) (index : ℕ) (rest : List ℕ)
    → IsEvent e
    → index < 2 ^ 32
    → parse_tlv
        (length (debug_event e ++ (type_driver_index ∷ 4 ∷ long_bytes index)))
        ((debug_event e ++ (type_driver_index ∷ 4 ∷ long_bytes index)) ++ rest)
      ≡ entry e index
parse_tlv-event e index rest h i =
    parse_tlv-encode (fields e index) _ rest (encode-fields e index h)
    ∙ rw (collect-attributes e index rest h i, collect-strings e index rest h) refl

-- The records of a sequence of events, with the driver's indices.
abbrev pub records : List (Event × ℕ) → List ℕ
records [] = []
records ((e, index) ∷ l) = log_record index (debug_event e) ++ records l

abbrev pub entries : List (Event × ℕ) → List Entry
entries [] = []
entries ((e, index) ∷ l) = entry e index ∷ entries l

abbrev pub AreEvents : List (Event × ℕ) → Type 0
AreEvents [] = Unit {0}
AreEvents ((e, index) ∷ l) = (IsEvent e × (index < 2 ^ 32)) × AreEvents l

log_record_framed :
    (index : ℕ) (body : List ℕ)
    → log_record index body
      ≡ 0
        ∷ length (body ++ (type_driver_index ∷ 4 ∷ long_bytes index))
        ∷ (body ++ (type_driver_index ∷ 4 ∷ long_bytes index))
unfolding log_record long_bytes
log_record_framed index body =
    let n : length body + 6 ≡ length (body ++ (type_driver_index ∷ 4 ∷ long_bytes index)) =
      omega (arith, length-append body (type_driver_index ∷ 4 ∷ long_bytes index)) in
    rw n refl

log_record_long : (index : ℕ) (body : List ℕ) → 2 ≤ length (log_record index body)
unfolding log_record
log_record_long index body = omega arith

parse_tlv_rounds-step :
    (fuel : ℕ) (b tail rest : List ℕ)
    → parse_tlv_rounds
        (suc fuel)
        (length ((0 ∷ length b ∷ b) ++ tail))
        (((0 ∷ length b ∷ b) ++ tail) ++ rest)
      ≡ parse_tlv (length b) (b ++ (tail ++ rest))
        ∷ parse_tlv_rounds fuel (length tail) (tail ++ rest)
unfolding parse_tlv_rounds
parse_tlv_rounds-step fuel b tail rest =
    let e : suc (suc (length (b ++ tail))) - (2 + length b) ≡ length tail =
      omega (arith, length-append b tail) in
    let two : 2 + length b ≡ suc (suc (length b)) = omega arith in
    let n : ltb (suc (suc (length (b ++ tail)))) 2 ≡ false = ground arith in
    rw (e, two, n, append_assoc b tail rest, drop-append b (tail ++ rest)) refl

-- `parse_tlv_buffer` over records of events gives the events, in their order.
pub parse_tlv_rounds-records :
    (fuel : ℕ) (l : List (Event × ℕ)) (rest : List ℕ)
    → AreEvents l
    → length (records l) ≤ fuel
    → parse_tlv_rounds fuel (length (records l)) (records l ++ rest) ≡ entries l
parse_tlv_rounds-records zero [] rest h n = unfold parse_tlv_rounds in refl
parse_tlv_rounds-records (suc fuel) [] rest h n = unfold parse_tlv_rounds in refl
parse_tlv_rounds-records zero ((e, index) ∷ l) rest h n = absurd (
    omega (
      arith,
      length-append (log_record index (debug_event e)) (records l),
      log_record_long index (debug_event e),
    ))
parse_tlv_rounds-records (suc fuel) ((e, index) ∷ l) rest h n =
    let b = debug_event e ++ (type_driver_index ∷ 4 ∷ long_bytes index) in
    let shorter : length (records l) ≤ fuel = omega (
      arith,
      length-append (log_record index (debug_event e)) (records l),
      log_record_long index (debug_event e),
    ) in
    rw
      (
        log_record_framed index (debug_event e),
        parse_tlv_rounds-step fuel b (records l) rest,
        parse_tlv-event e index (records l ++ rest) h.0.0 h.0.1,
        parse_tlv_rounds-records fuel l rest h.1 shorter,
      )
      refl

pub parse_tlv_buffer-records :
    (l : List (Event × ℕ)) (rest : List ℕ)
    → AreEvents l
    → parse_tlv_buffer (records l ++ rest) (length (records l)) ≡ entries l
unfolding parse_tlv_buffer
parse_tlv_buffer-records l rest h =
    parse_tlv_rounds-records (length (records l)) l rest h (omega arith)
