-- ===== src/Log/Append.antt =====
-- kernel/debug.c: writing to the log keeps it sound.
use colinux_64bit.Base.{
  ℕ, ◌+◌, ◌≤◌, ◌≡◌, refl, sym, ap, ◌∙◌, inl, inr, Bool, true, false, Option, none, some, List, [],
  ◌∷◌, ◌++◌, ◌==◌, ltb, if◌then◌else◌, length, Bool-cases, Option-cases, ==_iff, arith,
}
use mathlib.Core.Option.{none-ne-some}
use colinux_64bit.Rc.{Rc, co_ok}
use colinux_64bit.Log.Vector.{Vectors, write_vector_size, length-memcpy_vector}
use colinux_64bit.Log.Section.{
  Section, Totals, Malloc, Log, Host, find, store, create_section, with_section, with_buffer,
  with_mutex, resize_section, append_to, append_to_buffer, get_section, put_section,
  section_buffer_start_size, new_section, max_fill,
}
use colinux_64bit.Log.Write.{
  written, put_written, write_section, write_new, write_found, write_at, debug_writev,
  debug_write_log,
}
use colinux_64bit.Log.Sound.{
  IsSound, AllSound, sum, Counts, IsValid, sum-store, AllSound-store, find-IsSound, sum-append_one,
  Allocates, IsRoomy, resize_section-same,
}

-- What an append makes of the totals and the section.
abbrev pub Appended : Totals → Section → Rc × Totals × Section → Type 0
Appended t s x =
    IsRoomy x.2
    × (x.1.filled + s.filled ≡ t.filled + x.2.filled)
    × (x.1.count ≡ t.count)
    × (x.1.size ≡ t.size)
    × (x.2.buffer_size ≡ s.buffer_size)
    × (x.2.refcount ≡ s.refcount)
    × (x.2.listed ≡ s.listed)

append_to-Appended :
    (t : Totals) (s : Section) (v : Vectors) → IsRoomy s → Appended t s (append_to (t, s) v)
unfolding append_to
append_to-Appended t s v r = ground (arith, length-memcpy_vector s.buffer s.filled v)

pub append_to_buffer-Appended :
    (malloc : Malloc) (t : Totals) (s : Section) (v : Vectors)
    → Allocates malloc
    → IsRoomy s
    → Appended t s (append_to_buffer malloc t s v)
unfolding append_to_buffer
append_to_buffer-Appended malloc t s v alloc r =
    let same = resize_section-same malloc t s alloc r in
    let x = resize_section malloc t s in
    let a = append_to-Appended x.0 x.1 v same.2 in
    (
      a.0,
      omega (arith, a.1, same.1.0, ap (λ (u : Totals). u.filled) same.0),
      a.2 ∙ ap (λ (u : Totals). u.count) same.0,
      a.3 ∙ ap (λ (u : Totals). u.size) same.0,
      a.4 ∙ same.1.1,
      a.5 ∙ same.1.2,
      a.6 ∙ same.1.4,
    )

pub put_section_two :
    (a : ℕ) (s : Section) (d : Log)
    → s.refcount ≡ 2
    → put_section a s d
      ≡ (true, record d { sections = store a (record s { refcount = 1 }) d.sections })
unfolding put_section
put_section_two a s d h = ground arith

-- The section is put back with the list's reference only.
pub put_section-IsValid :
    (a : ℕ) (s₀ s : Section) (d : Log)
    → find a d.sections ≡ some s₀
    → ((s' : Section) → IsSound s' → AllSound (store a s' d.sections))
    → (s.refcount ≡ 2) × (s.listed ≡ true) × IsRoomy s
    → (d.totals.count ≡ sum (λ s. 1) d.sections)
      × (d.totals.size + s₀.buffer_size ≡ sum (λ s. s.buffer_size) d.sections + s.buffer_size)
      × (d.totals.filled + s₀.filled ≡ sum (λ s. s.filled) d.sections + s.filled)
    → IsValid (put_section a s d).1
put_section-IsValid a s₀ s d found others held counts =
    let s' = record s { refcount = 1 } in
    rw (put_section_two a s d held.0) (record {
      sound = others s' (record {
        linked = held.1;
        one_reference = refl;
        fits = held.2.fits;
        allocated = held.2.allocated;
      });
      counts = (
        omega (arith, counts.0, sum-store (λ s. 1) a s₀ s' d.sections found),
        omega (arith, counts.1, sum-store (λ s. s.buffer_size) a s₀ s' d.sections found),
        omega (arith, counts.2, sum-store (λ s. s.filled) a s₀ s' d.sections found),
      );
    })

written-IsValid : (a : ℕ) (rc : Rc) (x : Bool × Log) → IsValid x.1 → IsValid (written a rc x).1
unfolding written
written-IsValid a rc (alive, d) h = elim (Bool-cases (co_ok rc)) [
  | inl e ↦ rw e (record { sound = h.sound; counts = h.counts })
  | inr e ↦ rw e h
]

-- The log while `s`, a copy of `s₀`, is held twice.
record IsHeld (a : ℕ) (s₀ s : Section) (d : Log) : Type 0 where
  found : find a d.sections ≡ some s₀
  others : (s' : Section) → IsSound s' → AllSound (store a s' d.sections)
  counts : Counts d.totals d.sections
  twice : s.refcount ≡ 2
  linked : s.listed ≡ true
  roomy : IsRoomy s
  same_filled : s.filled ≡ s₀.filled
  same_size : s.buffer_size ≡ s₀.buffer_size

write_section-IsValid :
    (host : Host) (a : ℕ) (s₀ s : Section) (d : Log) (v : Vectors)
    → Allocates host.malloc
    → IsHeld a s₀ s d
    → IsValid (write_section host a s d v).1
unfolding write_section put_written
write_section-IsValid host a s₀ s d v alloc h =
    let x = append_to_buffer host.malloc d.totals s v in
    let app = append_to_buffer-Appended host.malloc d.totals s v alloc h.roomy in
    written-IsValid a x.0 (put_section a x.2 (record d { totals = x.1 })) (
      put_section-IsValid a s₀ x.2 (record d { totals = x.1 }) h.found h.others
        (app.5 ∙ h.twice, app.6 ∙ h.linked, app.0)
        (
          app.2 ∙ h.counts.0,
          omega (arith, app.3, app.4, h.counts.1, h.same_size),
          omega (arith, app.1, h.same_filled, h.counts.2),
        ))

get_section-IsHeld :
    (a : ℕ) (s : Section) (d : Log)
    → IsValid d
    → find a d.sections ≡ some s
    → IsHeld a s (get_section s) d
unfolding get_section
get_section-IsHeld a s d h found =
    let i = find-IsSound a s d.sections h.sound found in
    record {
      found = found;
      others = λ s' k. AllSound-store a s' d.sections h.sound k;
      counts = h.counts;
      twice = omega (arith, i.one_reference);
      linked = i.linked;
      roomy = record { fits = i.fits; allocated = i.allocated };
      same_filled = refl;
      same_size = refl;
    }

-- What the code relies on: memory that is in use is not given again.
abbrev pub IsFresh : Host → Log → Type 0
IsFresh host d = (a : ℕ) → host.address ≡ some a → find a d.sections ≡ none

-- A section at a fresh address.
find-append_fresh :
    (a : ℕ) (s : Section) (l : List (ℕ × Section))
    → find a l ≡ none
    → find a (l ++ ((a, s) ∷ [])) ≡ some s
unfolding find
find-append_fresh a s [] h = rw ((==_iff a a).1 refl)
find-append_fresh a s ((b, r) ∷ l) h = elim (Bool-cases (b == a)) [
  | inl e ↦ absurd (none-ne-some r (sym (rw e at h)))
  | inr e ↦ rw e (find-append_fresh a s l (rw e at h))
]

AllSound-append_fresh :
    (a : ℕ) (s s' : Section) (l : List (ℕ × Section))
    → find a l ≡ none
    → AllSound l
    → IsSound s'
    → AllSound (store a s' (l ++ ((a, s) ∷ [])))
unfolding find store
AllSound-append_fresh a s s' [] h k i = rw ((==_iff a a).1 refl) (i, tt)
AllSound-append_fresh a s s' ((b, r) ∷ l) h k i = elim (Bool-cases (b == a)) [
  | inl e ↦ absurd (none-ne-some r (sym (rw e at h)))
  | inr e ↦ rw e (k.0, AllSound-append_fresh a s s' l (rw e at h) k.1 i)
]

-- `record` of `write_new`: the log with a new section `s` linked at its end.
abbrev linked_new : ℕ → Section → Log → Log
linked_new a s d = record d {
  totals = record d.totals { count = d.totals.count + 1; size = d.totals.size + s.buffer_size };
  sections = d.sections ++ ((a, record s { listed = true }) ∷ []);
}

new_section-IsHeld :
    (a : ℕ) (buffer : List ℕ) (d : Log)
    → IsValid d
    → find a d.sections ≡ none
    → section_buffer_start_size ≤ length buffer
    → IsHeld a
        (record (new_section buffer) { listed = true })
        (record (new_section buffer) { listed = true; refcount = 2 })
        (linked_new a (new_section buffer) d)
new_section-IsHeld a buffer d h fresh room =
    let s = record (new_section buffer) { listed = true } in
    record {
      found = find-append_fresh a s d.sections fresh;
      others = λ s' k. AllSound-append_fresh a s s' d.sections fresh h.sound k;
      counts = (
        omega (arith, h.counts.0, sum-append_one (λ s. 1) d.sections a s),
        omega (arith, h.counts.1, sum-append_one (λ s. s.buffer_size) d.sections a s),
        omega (arith, h.counts.2, sum-append_one (λ s. s.filled) d.sections a s),
      );
      twice = refl;
      linked = refl;
      roomy = record { fits = omega arith; allocated = room };
      same_filled = refl;
      same_size = refl;
    }

write_new-IsValid :
    (host : Host) (d : Log) (v : Vectors)
    → Allocates host.malloc
    → IsFresh host d
    → IsValid d
    → IsValid (write_new host (create_section host) d v).1
unfolding write_new create_section get_section write_section
write_new-IsValid host d v alloc fresh h = elim (Option-cases host.address) [
  | inl e ↦ rw (e, with_section) h
  | inr (a, e) ↦ elim (Option-cases (host.malloc section_buffer_start_size)) [
    | inl f ↦ rw (e, with_section, f, with_buffer) h
    | inr (buffer, f) ↦ elim (Bool-cases (co_ok host.mutex)) [
      | inl g ↦
          rw (e, with_section, f, with_buffer, with_mutex, g)
            (write_section-IsValid host a _ _ _ v alloc
              (new_section-IsHeld a buffer d h (fresh a e) (alloc _ buffer f)))
      | inr g ↦ rw (e, with_section, f, with_buffer, with_mutex, g) h
    ]
  ]
]

-- What `co_debug_writev` and `co_debug_write_log` give: a log that is sound.
abbrev pub WritesValid : Option (Rc × Log × Option ℕ) → Type 0
WritesValid none = ⊥
WritesValid (some x) = IsValid x.1

-- The section that a descriptor points to is in the log.
abbrev pub PointsTo : Option ℕ → List (ℕ × Section) → Type 0
PointsTo none l = Unit {0}
PointsTo (some a) l = (s : Section) × (find a l ≡ some s)

if-WritesValid :
    (c : Bool) (x y : Option (Rc × Log × Option ℕ))
    → WritesValid x
    → WritesValid y
    → WritesValid (if c then x else y)
if-WritesValid true x y h k = h
if-WritesValid false x y h k = k

write_at-IsValid :
    (host : Host) (d : Log) (ptr : Option ℕ) (v : Vectors)
    → Allocates host.malloc
    → IsFresh host d
    → PointsTo ptr d.sections
    → IsValid d
    → WritesValid (write_at host d ptr v)
unfolding write_at write_found
write_at-IsValid host d none v alloc fresh p h = write_new-IsValid host d v alloc fresh h
write_at-IsValid host d (some a) v alloc fresh (s, found) h =
    rw found
      (write_section-IsValid host a s (get_section s) d v alloc (get_section-IsHeld a s d h found))

debug_writev-IsValid :
    (host : Host) (d : Log) (ptr : Option ℕ) (v : Vectors)
    → Allocates host.malloc
    → IsFresh host d
    → PointsTo ptr d.sections
    → IsValid d
    → WritesValid (debug_writev host d ptr v)
unfolding debug_writev
debug_writev-IsValid host d ptr v alloc fresh p h =
    if-WritesValid (ltb max_fill d.totals.filled) _ _ h
      (if-WritesValid d.freeing _ _ h (write_at-IsValid host d ptr v alloc fresh p h))

-- On a sound log, with a pointer to a section of it or none, and with memory that is not in use
-- already, writing a record never goes through a pointer to a section that is gone, and leaves a
-- sound log, whatever becomes of the record: the totals are the sums over the sections, each
-- section has one reference and fits its buffer.
pub debug_write_log-IsValid :
    (host : Host) (d : Log) (ptr : Option ℕ) (v : Vectors)
    → Allocates host.malloc
    → IsFresh host d
    → PointsTo ptr d.sections
    → IsValid d
    → WritesValid (debug_write_log host d ptr v)
unfolding debug_write_log
debug_write_log-IsValid host d ptr v alloc fresh p h =
    if-WritesValid (ltb 0xf8 (write_vector_size v)) _ _ h (
      debug_writev-IsValid host (record d { driver_index = d.driver_index + 1 }) ptr _ alloc fresh p
        (record { sound = h.sound; counts = h.counts }))
