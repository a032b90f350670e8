-- ===== src/Log/Write.antt =====
-- kernel/debug.c: writing to the log.
use colinux_64bit.Base.{
  ℕ, ◌+◌, ◌/◌, ◌%◌, Bool, true, Option, none, some, List, [], ◌∷◌, ◌++◌, ltb, if◌then◌else◌, length,
}
use mathlib.Core.Option
use colinux_64bit.Rc.{Rc, ok, co_ok}
use colinux_64bit.Log.Vector.{bytes, nested, Vectors, nil, cons, write_vector_size}
use colinux_64bit.Log.Section.{
  Section, Totals, Log, Host, find, create_section, append_to_buffer, get_section, put_section,
  max_fill,
}

-- The end of `co_debug_writev`: `section_ptr` is cleared when the section is gone, and the reader
-- is woken after a record.
unfoldable pub written : ℕ → Rc → Bool × Log → Rc × Log × Option ℕ
written a rc (alive, d) = (
  rc,
  (if co_ok rc then record d { wakeups = d.wakeups + 1 } else d),
  (if alive then some a else none),
)

unfoldable pub put_written : ℕ → Log → Rc × Totals × Section → Rc × Log × Option ℕ
put_written a d (rc, t, s) = written a rc (put_section a s (record d { totals = t }))

-- The append, on the section that `get_section` gave.
unfoldable pub write_section : Host → ℕ → Section → Log → Vectors → Rc × Log × Option ℕ
write_section host a s d v = put_written a d (append_to_buffer host.malloc d.totals s v)

-- A new section goes to the end of the list, and a second reference to it is taken.
unfoldable pub write_new : Host → Rc × Option (ℕ × Section) → Log → Vectors → Rc × Log × Option ℕ
write_new host (rc, none) d v = (rc, d, none)
write_new host (rc, some (a, s)) d v =
    let linked = record s { listed = true } in
    let held = get_section linked in
    write_section host a (record held { refcount = held.refcount + 1 })
      (record d {
        totals = record d.totals {
          count = d.totals.count + 1;
          size = d.totals.size + s.buffer_size;
        };
        sections = d.sections ++ ((a, linked) ∷ []);
      })
      v

-- A pointer to a section that is gone is a fault, `none`.
unfoldable pub write_found :
    Host → ℕ → Option Section → Log → Vectors → Option (Rc × Log × Option ℕ)
write_found host a none d v = none
write_found host a (some s) d v = some (write_section host a (get_section s) d v)

unfoldable pub write_at : Host → Log → Option ℕ → Vectors → Option (Rc × Log × Option ℕ)
write_at host d none v = some (write_new host (create_section host) d v)
write_at host d (some a) v = write_found host a (find a d.sections) d v

-- `co_debug_writev`: the result, the log, and `*section_ptr`.
unfoldable pub debug_writev : Host → Log → Option ℕ → Vectors → Option (Rc × Log × Option ℕ)
debug_writev host d ptr v =
    if ltb max_fill d.totals.filled
    then some (ok, d, ptr)
    else if d.freeing
    then some (ok, d, ptr)
    else write_at host d ptr v

-- CO_DEBUG_TYPE_TLV and CO_DEBUG_TYPE_DRIVER_INDEX of common/debug.h
abbrev pub type_tlv : ℕ
type_tlv = 0

abbrev pub type_driver_index : ℕ
type_driver_index = 10

-- An `int` or `unsigned long` in memory.
unfoldable pub long_bytes : ℕ → List ℕ
long_bytes n = (n % 256) ∷ (n / 256 % 256) ∷ (n / 65536 % 256) ∷ (n / 16777216 % 256) ∷ []

-- `driver_local_vec`, with the index
unfoldable pub driver_local_vec : ℕ → Vectors
unfolding long_bytes
driver_local_vec index =
    cons (bytes 2 (type_driver_index ∷ 4 ∷ [])) (cons (bytes 4 (long_bytes index)) nil)

-- `local_vec` of `co_debug_write_log`: the header, whose length is a byte, the record and the index.
unfoldable pub local_vec : ℕ → ℕ → Vectors → Vectors
unfolding driver_local_vec
local_vec index size v =
    cons (bytes 2 (type_tlv ∷ ((size + 2 + 4) % 256) ∷ []))
      (cons (nested size v) (cons (nested (2 + 4) (driver_local_vec index)) nil))

-- `co_debug_write_log`
unfoldable pub debug_write_log : Host → Log → Option ℕ → Vectors → Option (Rc × Log × Option ℕ)
unfolding local_vec
debug_write_log host d ptr v =
    let size = write_vector_size v in
    if ltb 0xf8 size
    then some (ok, d, ptr)
    else debug_writev host (record d { driver_index = d.driver_index + 1 }) ptr
        (local_vec (d.driver_index + 1) size v)

-- The driver's own pointer, after the call.
unfoldable pub keep_pointer : Rc × Log × Option ℕ → Log
keep_pointer (rc, d, ptr) = record d { section = ptr }

-- `co_debug_buf` of a loaded driver: its own records, in the section of the log itself.
unfoldable pub debug_buf : Host → Log → List ℕ → Option Log
unfolding keep_pointer
debug_buf host d buf =
    if d.ready
    then Option.map keep_pointer
        (debug_write_log host d d.section (cons (bytes (length buf) buf) nil))
    else some d
