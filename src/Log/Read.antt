-- ===== src/Log/Read.antt =====
-- kernel/debug.c: reading the log, folding a section of a descriptor that is closed, and the log's
-- own start and end.
use colinux_64bit.Base.{
  ℕ, ◌+◌, ◌-◌, Bool, true, false, not, ◌&&◌, Option, none, some, List, [], ◌∷◌, ◌==◌, ltb,
  if◌then◌else◌, take,
}
use colinux_64bit.Rc.{Rc, ok, out_of_memory, co_ok}
use colinux_64bit.Log.Memory.{memcpy}
use colinux_64bit.Log.Section.{
  Section, Totals, Malloc, Log, find, get_section, put_section, resize_section,
}

-- The user's buffer and how much of it is filled.
pub record Reader : Type 0 where
  pub buffer : List ℕ
  pub filled : ℕ

-- What the host answers for the section at an address: whether `co_copy_to_user` succeeds, and
-- `co_os_malloc`.
pub record Copying : Type 0 where
  pub copied : ℕ → Bool
  pub malloc : ℕ → Malloc

-- The state of the loop: the totals, the reader, the section.
pub record Pass : Type 0 where
  pub totals : Totals
  pub reader : Reader
  pub section : Section

-- A section that fits is copied whole, and is then empty; the answer is `saved`.
unfoldable pub save_section : Bool → ℕ → Pass → Bool × Pass
save_section copied size p =
    if not (ltb (size - p.reader.filled) p.section.filled) && copied
    then (
      true,
      record {
        totals = record p.totals { filled = p.totals.filled - p.section.filled };
        reader = record {
          buffer = memcpy p.reader.buffer p.reader.filled (take p.section.filled p.section.buffer);
          filled = p.reader.filled + p.section.filled;
        };
        section = record p.section { filled = 0 };
      },
    )
    else (false, p)

-- A folded section that is saved leaves the list, which drops the list's reference.
unfoldable pub unlink_folded : Bool → Section → Section
unlink_folded saved s =
    if saved && s.folded
    then record s { listed = false; refcount = s.refcount - 1; folded = false }
    else s

unfoldable pub resize_open : Malloc → Totals × Section → Totals × Section
resize_open malloc (t, s) = if not s.folded then resize_section malloc t s else (t, s)

-- `put_section` in the loop: the totals, and the section if it still exists.
unfoldable pub put_read : Totals × Section → Totals × Option Section
put_read (t, s) =
    if s.refcount == 1
    then (record t { count = t.count - 1; size = t.size - s.buffer_size }, none)
    else (t, some (record s { refcount = s.refcount - 1 }))

unfoldable pub after_save : Malloc → Bool × Pass → Reader × (Totals × Option Section)
unfolding put_read resize_open unlink_folded
after_save malloc (saved, p) =
    (p.reader, put_read (resize_open malloc (p.totals, unlink_folded saved p.section)))

-- The body of the loop of `co_debug_read`.
unfoldable pub read_section :
    Copying → ℕ → ℕ → Totals → Reader → Section → Reader × (Totals × Option Section)
unfolding save_section after_save
read_section c size a t r s =
    after_save (c.malloc a)
      (save_section (c.copied a) size (record { totals = t; reader = r; section = get_section s }))

abbrev pub keep : ℕ → Option Section → List (ℕ × Section) → List (ℕ × Section)
keep a none l = l
keep a (some s) l = (a, s) ∷ l

unfoldable pub read_rest :
    ℕ → Option Section → Reader × Totals × List (ℕ × Section) → Reader × Totals × List (ℕ × Section)
read_rest a kept (r, t, l) = (r, t, keep a kept l)

unfoldable pub visit :
    Copying → ℕ → ℕ → Totals → Reader → Section → Reader × (Totals × Option Section)
visit c size a t r s = if s.listed then read_section c size a t r s else (r, (t, some s))

-- The loop of `co_debug_read` over the list.
unfoldable pub read_sections :
    Copying → ℕ → Reader → Totals → List (ℕ × Section) → Reader × Totals × List (ℕ × Section)
unfolding visit read_rest
read_sections c size r t [] = (r, t, [])
read_sections c size r t ((a, s) ∷ l) =
    let x = visit c size a t r s in read_rest a x.1.1 (read_sections c size x.0 x.1.0 l)

unfoldable pub read_done : Log → Reader × Totals × List (ℕ × Section) → Rc × Log × Reader
read_done d (r, t, l) = (ok, record d { totals = t; sections = l }, r)

-- `co_debug_read`: `filled` of the reader is `*read_size`.
unfoldable pub debug_read : Copying → Log → List ℕ → ℕ → Rc × Log × Reader
unfolding read_sections read_done
debug_read c d buffer size =
    read_done d (read_sections c size (record { buffer = buffer; filled = 0 }) d.totals d.sections)

-- The shrunk buffer takes the place of the old one.
unfoldable pub shrink : Option (List ℕ) → Totals → Section → Rc × Totals × Section
shrink none t s = (out_of_memory, t, s)
shrink (some shrunk) t s = (
  ok,
  record t { size = t.size - s.buffer_size + s.filled },
  record s { buffer = memcpy shrunk 0 (take s.filled s.buffer); buffer_size = s.filled },
)

unfoldable pub put_folded : ℕ → Log → Rc × Totals × Section → Rc × Log
put_folded a d (rc, t, s) =
    (rc, (put_section a (record s { folded = true }) (record d { totals = t })).1)

unfoldable pub fold_found : Malloc → Log → ℕ → Option Section → Option (Rc × Log)
fold_found malloc d a none = none
fold_found malloc d a (some s) =
    some (put_folded a d (shrink (malloc (s.filled + 1)) d.totals (get_section s)))

-- `co_debug_fold` of the section at an address, `none` if that is gone.
unfoldable pub debug_fold : Malloc → Log → ℕ → Option (Rc × Log)
unfolding fold_found
debug_fold malloc d a = fold_found malloc d a (find a d.sections)

-- `co_debug_init`, with the results of `co_os_mutex_create` and `co_os_wait_create`.
unfoldable pub debug_init : Rc → Rc → Log → Rc × Log
debug_init mutex wait d =
    let cleared = record d {
      freeing = false;
      section = none;
      totals = record d.totals { filled = 0; size = 0 };
      sections = [];
    } in
    if not (co_ok mutex)
    then (mutex, cleared)
    else if not (co_ok wait)
    then (wait, cleared)
    else (wait, record cleared { ready = true })

-- The body of the loop of `co_debug_free`, for a section of the list.
unfoldable pub free_section : Totals → Section → Totals × Option Section
unfolding put_read
free_section t s =
    let held = get_section s in
    put_read (t, record held { listed = false; refcount = held.refcount - 1 })

unfoldable pub free_visit : Totals → Section → Totals × Option Section
unfolding free_section
free_visit t s = if s.listed then free_section t s else (t, some s)

unfoldable pub free_rest :
    ℕ → Option Section → Totals × List (ℕ × Section) → Totals × List (ℕ × Section)
free_rest a kept (t, l) = (t, keep a kept l)

unfoldable pub free_sections : Totals → List (ℕ × Section) → Totals × List (ℕ × Section)
unfolding free_visit free_rest
free_sections t [] = (t, [])
free_sections t ((a, s) ∷ l) = let x = free_visit t s in free_rest a x.1 (free_sections x.0 l)

unfoldable pub free_done : Log → Totals × List (ℕ × Section) → Rc × Log
free_done d (t, l) = (ok, record d { ready = false; freeing = true; totals = t; sections = l })

-- `co_debug_free`
unfoldable pub debug_free : Log → Rc × Log
unfolding free_sections free_done
debug_free d = free_done d (free_sections d.totals d.sections)
