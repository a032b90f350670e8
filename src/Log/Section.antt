-- ===== src/Log/Section.antt =====
-- kernel/debug.c and debug.h: the sections of the log, the log's state, and the helpers on one
-- section. A `long` is a number; `Sound` shows that no difference below falls under 0.
use colinux_64bit.Base.{
  ℕ, ◌+◌, ◌-◌, ◌*◌, ◌/◌, Bool, true, false, not, Option, none, some, List, [], ◌∷◌, ◌==◌, ltb, leb,
  if◌then◌else◌, take,
}
use colinux_64bit.Rc.{Rc, ok, error, out_of_memory, co_ok}
use colinux_64bit.Log.Memory.{memcpy}
use colinux_64bit.Log.Vector.{Vectors, write_vector_size, memcpy_vector}

-- CO_DEBUG_MAX_FILL, CO_DEBUG_SECTION_BUFFER_MAX_SIZE, CO_DEBUG_SECTION_BUFFER_START_SIZE
abbrev pub max_fill : ℕ
max_fill = 0x100000

abbrev pub section_buffer_max_size : ℕ
section_buffer_max_size = 0x10000

abbrev pub section_buffer_start_size : ℕ
section_buffer_start_size = 0x1000

-- `co_debug_section_t`; `listed` says that `node` is linked into the list of sections.
pub record Section : Type 0 where
  pub buffer : List ℕ
  pub buffer_size : ℕ
  pub peak_size : ℕ
  pub filled : ℕ
  pub refcount : ℕ
  pub max_size : ℕ
  pub folded : Bool
  pub listed : Bool

-- `sections_count`, `sections_total_size` and `sections_total_filled` of the log.
pub record Totals : Type 0 where
  pub count : ℕ
  pub size : ℕ
  pub filled : ℕ

-- `co_manager_debug_t`. `sections` has the sections that exist, by their addresses, in the order of
-- the list; `section` is the driver's own; `driver_index` is the static `debug_driver_index`;
-- `wakeups` counts the calls of `co_os_wait_wakeup`.
pub record Log : Type 0 where
  pub ready : Bool
  pub freeing : Bool
  pub sections : List (ℕ × Section)
  pub section : Option ℕ
  pub totals : Totals
  pub driver_index : ℕ
  pub wakeups : ℕ

-- `co_os_malloc` of a buffer in one call, by the size: memory with whatever it holds, or nothing.
abbrev pub Malloc : Type 0
Malloc = ℕ → Option (List ℕ)

-- What else the host answers to a call that creates a section: its address, and the mutex.
pub record Host : Type 0 where
  pub address : Option ℕ
  pub mutex : Rc
  pub malloc : Malloc

unfoldable pub find : ℕ → List (ℕ × Section) → Option Section
find a [] = none
find a ((b, s) ∷ l) = if b == a then some s else find a l

unfoldable pub store : ℕ → Section → List (ℕ × Section) → List (ℕ × Section)
store a s' [] = []
store a s' ((b, s) ∷ l) = if b == a then (b, s') ∷ l else (b, s) ∷ store a s' l

-- `co_os_free(section)`
unfoldable pub release : ℕ → List (ℕ × Section) → List (ℕ × Section)
release a [] = []
release a ((b, s) ∷ l) = if b == a then l else (b, s) ∷ release a l

abbrev pub new_section : List ℕ → Section
new_section buffer = record {
  buffer = buffer;
  buffer_size = section_buffer_start_size;
  peak_size = section_buffer_start_size;
  filled = 0;
  refcount = 0;
  max_size = section_buffer_max_size;
  folded = false;
  listed = false;
}

-- With the mutex there.
unfoldable pub with_mutex : Rc → ℕ → List ℕ → Rc × Option (ℕ × Section)
with_mutex mutex a buffer =
    if co_ok mutex then (ok, some (a, new_section buffer)) else (mutex, none)

unfoldable pub with_buffer : Host → ℕ → Option (List ℕ) → Rc × Option (ℕ × Section)
with_buffer host a none = (out_of_memory, none)
with_buffer host a (some buffer) = with_mutex host.mutex a buffer

unfoldable pub with_section : Host → Option ℕ → Rc × Option (ℕ × Section)
with_section host none = (out_of_memory, none)
with_section host (some a) = with_buffer host a (host.malloc section_buffer_start_size)

-- `create_section`
unfoldable pub create_section : Host → Rc × Option (ℕ × Section)
unfolding with_section with_buffer with_mutex
create_section host = with_section host host.address

-- The `new_size` of `resize_section`; 0 where it returns.
unfoldable pub new_size : Section → ℕ
new_size s =
    if leb (s.buffer_size / 2) s.filled
    then (if ltb s.max_size (s.buffer_size * 2) then 0 else s.buffer_size * 2)
    else if ltb s.filled section_buffer_start_size
    then s.peak_size / 2
    else 0

unfoldable pub resize_to : Option (List ℕ) → ℕ → Totals → Section → Totals × Section
resize_to none size t s = (t, s)
resize_to (some buffer) size t s = (
  record t { size = t.size + size - s.buffer_size },
  record s {
    buffer = memcpy buffer 0 (take s.filled s.buffer);
    buffer_size = size;
    peak_size = if ltb s.peak_size size then size else s.peak_size;
  },
)

-- `resize_section`
unfoldable pub resize_section : Malloc → Totals → Section → Totals × Section
unfolding new_size resize_to
resize_section malloc t s =
    let size = new_size s in
    if size == 0
    then (t, s)
    else if not (s.buffer_size == size)
    then (t, s)
    else resize_to (malloc size) size t s

unfoldable pub append_to : Totals × Section → Vectors → Rc × Totals × Section
append_to (t, s) v = if ltb s.buffer_size (s.filled + write_vector_size v) then (error, t, s) else (
  ok,
  record t { filled = t.filled + write_vector_size v },
  record s { buffer = memcpy_vector s.buffer s.filled v; filled = s.filled + write_vector_size v },
)

-- `append_to_buffer`
unfoldable pub append_to_buffer : Malloc → Totals → Section → Vectors → Rc × Totals × Section
append_to_buffer malloc t s v = append_to (resize_section malloc t s) v

-- `get_section`
unfoldable pub get_section : Section → Section
get_section s = record s { refcount = s.refcount + 1 }

-- `put_section` of the section at an address, with what the code has made of it; the answer tells
-- whether it still exists.
unfoldable pub put_section : ℕ → Section → Log → Bool × Log
put_section a s d =
    if s.refcount == 1
    then (
      false,
      record d {
        sections = release a d.sections;
        totals = record d.totals {
          count = d.totals.count - 1;
          size = d.totals.size - s.buffer_size;
        };
      },
    )
    else (true, record d { sections = store a (record s { refcount = s.refcount - 1 }) d.sections })
