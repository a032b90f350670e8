-- ===== src/Log/Tests.antt =====
-- The log at concrete inputs.
use colinux_64bit.Base.{
  ℕ, ◌+◌, ◌≤◌, ◌≡◌, refl, ap, true, false, none, some, List, [], ◌∷◌, ◌++◌, leb, if◌then◌else◌,
  length, take, replicate, take-append, length-append, length-replicate, arith,
}
use mathlib.Core.Path.{subst}
use mathlib.Core.Option.{some-injective}
use colinux_64bit.Rc.{ok, error}
use colinux_64bit.Log.Vector.{bytes, Vectors, nil, cons, AreFramed, text, write_vector_size}
use colinux_64bit.Log.Section.{get_section, Section, Malloc, Log, Host, find, resize_section}
use colinux_64bit.Log.Write.{debug_write_log, long_bytes}
use colinux_64bit.Log.Read.{read_section, Copying, debug_read, debug_free}
use colinux_64bit.Log.Sound.{
  IsSound, sum, IsValid, IsRoomy, Allocates, SameButBuffer, resize_section-same,
}
use colinux_64bit.Log.Append.{WritesValid, debug_write_log-IsValid}
use colinux_64bit.Log.Content.{log_record, extend, debug_write_log-view}
use colinux_64bit.Log.Refine.{view, drain}
use colinux_64bit.Log.Loop.{debug_read-drain}
use colinux_64bit.Log.Life.{debug_free_lem}
use colinux_64bit.Log.Tlv.{
  Event, debug_event, add_const_string, add_timestamp, add_unsigned_long, add_char,
  parse_tlv_buffer,
}
use colinux_64bit.Log.RoundTrip.{IsEvent, records, entries, AreEvents}
use colinux_64bit.Log.Entries.{AreRecords, events, debug_read-entries, debug_read-all}

-- `co_os_malloc` that gives cleared memory.
abbrev calloc : Malloc
calloc n = some (replicate n 0)

calloc-Allocates : Allocates calloc
calloc-Allocates n buffer e =
    omega (arith, ap length (some-injective _ _ e), length-replicate {0} {A = ℕ} n 0)

abbrev sample_event : Event
sample_event = record {
  module_name = b'm' ∷ [];
  filename = b'c' ∷ [];
  time_low = 5;
  time_high = 6;
  local_index = 1;
  facility = 3;
  func = b'f' ∷ [];
  line = 300;
  level = 10;
  text = b'a' ∷ b'<' ∷ b'b' ∷ [];
}

sample_event-IsEvent : IsEvent sample_event
sample_event-IsEvent = record {
  module_string = omega arith;
  file_string = omega arith;
  func_string = omega arith;
  text_string = omega arith;
  words = omega arith;
  chars = omega arith;
}

abbrev sample_record : List ℕ
sample_record = records ((sample_event, 1) ∷ [])

-- A section with one record, and a log of it.
abbrev sample_section : Section
sample_section = record {
  buffer = sample_record ++ replicate 100 0;
  buffer_size = length sample_record + 100;
  peak_size = 4096;
  filled = length sample_record;
  refcount = 1;
  max_size = 0x10000;
  folded = true;
  listed = true;
}

abbrev sample_log : Log
sample_log = record {
  ready = true;
  freeing = false;
  sections = (7, sample_section) ∷ [];
  section = none;
  totals = record { count = 1; size = length sample_record + 100; filled = length sample_record };
  driver_index = 1;
  wakeups = 0;
}

sample_section-IsSound : IsSound sample_section
sample_section-IsSound = record {
  linked = refl;
  one_reference = refl;
  fits = omega arith;
  allocated = omega (arith, length-append sample_record (replicate 100 0));
}

sample_log-IsValid : IsValid sample_log
unfolding sum
sample_log-IsValid = record {
  sound = (sample_section-IsSound, tt);
  counts = (refl, omega arith, omega arith);
}

sample_log-AreRecords : AreRecords (view sample_log.sections)
unfolding view
sample_log-AreRecords = (
  (
    (sample_event, 1) ∷ [],
    ((sample_event-IsEvent, omega arith), tt),
    take-append sample_record (replicate 100 0),
  ),
  tt,
)

abbrev copying : Copying
copying = record { copied = λ a. true; malloc = λ a. calloc }

debug_read-all_example :
    parse_tlv_buffer
      (debug_read copying sample_log (replicate 200 0) 200).2.buffer
      (debug_read copying sample_log (replicate 200 0) 200).2.filled
    ≡ entries (events (view sample_log.sections) sample_log-AreRecords)
debug_read-all_example =
    debug_read-all copying sample_log (replicate 200 0) 200 (λ a. calloc-Allocates)
      sample_log-IsValid (omega arith) sample_log-AreRecords (λ a. refl)
      (unfold log_record debug_event add_const_string add_timestamp add_unsigned_long add_char
          long_bytes in
        omega arith)

debug_read-entries_example :
    ((es : List (Event × ℕ)) × AreEvents es
      × (parse_tlv_buffer
            (debug_read copying sample_log (replicate 90 0) 90).2.buffer
            (debug_read copying sample_log (replicate 90 0) 90).2.filled
          ≡ entries es))
    × AreRecords (view (debug_read copying sample_log (replicate 90 0) 90).1.sections)
debug_read-entries_example =
    debug_read-entries copying sample_log (replicate 90 0) 90 (λ a. calloc-Allocates)
      sample_log-IsValid (omega arith) sample_log-AreRecords

debug_read-drain_example :
    IsValid (debug_read copying sample_log (replicate 90 0) 90).1
    × ((debug_read copying sample_log (replicate 90 0) 90).2.filled ≤ 90)
    × (length (debug_read copying sample_log (replicate 90 0) 90).2.buffer
        ≡ length {A = ℕ} (replicate 90 0))
    × (take
          (debug_read copying sample_log (replicate 90 0) 90).2.filled
          (debug_read copying sample_log (replicate 90 0) 90).2.buffer
        ≡ (drain copying.copied 90 (view sample_log.sections)).0)
    × (view (debug_read copying sample_log (replicate 90 0) 90).1.sections
        ≡ (drain copying.copied 90 (view sample_log.sections)).1)
debug_read-drain_example =
    debug_read-drain copying sample_log (replicate 90 0) 90 (λ a. calloc-Allocates)
      sample_log-IsValid (omega arith)

-- A folded section is released by the reader.
debug_read_releases : (debug_read copying sample_log (replicate 90 0) 90).1.sections ≡ []
unfolding debug_read read_section get_section resize_section
debug_read_releases =
    unfold log_record debug_event add_const_string add_timestamp add_unsigned_long add_char
      long_bytes in
    refl

abbrev host : Host
host = record { address = some 9; mutex = ok; malloc = calloc }

abbrev hello : Vectors
hello = cons (bytes 2 (1 ∷ 2 ∷ [])) (cons (bytes 1 (3 ∷ [])) nil)

debug_write_log-IsValid_example : WritesValid (debug_write_log host sample_log none hello)
debug_write_log-IsValid_example =
    debug_write_log-IsValid host sample_log none hello calloc-Allocates
      (λ a e.
        unfold find in subst (λ n. find n sample_log.sections ≡ none) (some-injective _ _ e) refl)
      tt sample_log-IsValid

debug_write_log-view_example :
    (d' : Log) × (debug_write_log host sample_log (some 7) hello
      ≡ some (
        (if leb (sample_section.filled + length (text hello) + 8) sample_section.buffer_size
            then ok
            else error),
        d',
        some 7,
      ))
    × (view d'.sections
        ≡ extend 7
            (if leb (sample_section.filled + length (text hello) + 8) sample_section.buffer_size
              then log_record (sample_log.driver_index + 1) (text hello)
              else [])
            (view sample_log.sections))
debug_write_log-view_example =
    debug_write_log-view host sample_log 7 sample_section hello calloc-Allocates sample_log-IsValid
      (unfold find in refl) refl
      (unfold log_record debug_event add_const_string add_timestamp add_unsigned_long add_char
          long_bytes in
        omega arith)
      (unfold AreFramed in omega arith) (unfold write_vector_size in omega arith)

debug_free_lem_example : debug_free sample_log ≡ (
  ok,
  record sample_log {
    ready = false;
    freeing = true;
    totals = record sample_log.totals { count = 0; size = 0 };
    sections = [];
  },
)
debug_free_lem_example = debug_free_lem sample_log sample_log-IsValid

resize_section-same_example :
    ((resize_section calloc sample_log.totals sample_section).0 ≡ sample_log.totals)
    × SameButBuffer sample_section (resize_section calloc sample_log.totals sample_section).1
    × IsRoomy (resize_section calloc sample_log.totals sample_section).1
resize_section-same_example =
    resize_section-same calloc sample_log.totals sample_section calloc-Allocates
      (record { fits = sample_section-IsSound.fits; allocated = sample_section-IsSound.allocated })
