-- ===== src/Log/Drain.antt =====
-- kernel/debug.c: what one section goes through when the log is read.
use colinux_64bit.Base.{
  ℕ, ◌+◌, ◌-◌, ◌≡◌, refl, ap, ◌∙◌, Bool, true, false, not, ◌&&◌, Option, none, some, ltb,
  if◌then◌else◌, take, arith,
}
use colinux_64bit.Log.Memory.{memcpy}
use colinux_64bit.Log.Section.{Section, Totals, Malloc, get_section}
use colinux_64bit.Log.Read.{
  Reader, Copying, Pass, save_section, unlink_folded, resize_open, put_read, after_save,
  read_section,
}
use colinux_64bit.Log.Sound.{IsSound, Allocates, IsRoomy, SameButBuffer, resize_section-same}

put_read_last :
    (t : Totals) (s : Section)
    → s.refcount ≡ 1
    → put_read (t, s) ≡ (record t { count = t.count - 1; size = t.size - s.buffer_size }, none)
unfolding put_read
put_read_last t s h = ground arith

put_read_shared :
    (t : Totals) (s : Section)
    → s.refcount ≡ 2
    → put_read (t, s) ≡ (t, some (record s { refcount = 1 }))
unfolding put_read
put_read_shared t s h = ground arith

unlink_folded_saved :
    (s : Section)
    → s.folded ≡ true
    → unlink_folded true s ≡ record s { listed = false; refcount = s.refcount - 1; folded = false }
unfolding unlink_folded
unlink_folded_saved s h = ground arith

unlink_folded_open : (saved : Bool) (s : Section) → s.folded ≡ false → unlink_folded saved s ≡ s
unfolding unlink_folded
unlink_folded_open true s h = ground arith
unlink_folded_open false s h = refl

unlink_folded_unsaved : (s : Section) → unlink_folded false s ≡ s
unfolding unlink_folded
unlink_folded_unsaved s = refl

abbrev Resized : Totals → Section → Totals × Section → Type 0
Resized t s x = (x.0 ≡ t) × SameButBuffer s x.1 × IsRoomy x.1

if-Resized :
    (c : Bool) (t : Totals) (s : Section) (x y : Totals × Section)
    → Resized t s x
    → Resized t s y
    → Resized t s (if c then x else y)
if-Resized true t s x y h k = h
if-Resized false t s x y h k = k

resize_open-Resized :
    (malloc : Malloc) (t : Totals) (s : Section)
    → Allocates malloc
    → IsRoomy s
    → Resized t s (resize_open malloc (t, s))
unfolding resize_open
resize_open-Resized malloc t s alloc r =
    if-Resized (not s.folded) t s _ _ (resize_section-same malloc t s alloc r)
      (refl, (refl, refl, refl, refl, refl, refl), r)

-- A folded section that is saved is gone.
after_save_gone :
    (malloc : Malloc) (p : Pass)
    → Allocates malloc
    → IsRoomy p.section
    → p.section.refcount ≡ 2
    → p.section.folded ≡ true
    → after_save malloc (true, p) ≡ (
      p.reader,
      (
        record p.totals {
          count = p.totals.count - 1;
          size = p.totals.size - p.section.buffer_size;
        },
        none,
      ),
    )
unfolding after_save
after_save_gone malloc p alloc r two f =
    let s = record p.section {
      listed = false;
      refcount = p.section.refcount - 1;
      folded = false;
    } in
    let x = resize_open malloc (p.totals, s) in
    let k =
      resize_open-Resized malloc p.totals s alloc
        (record { fits = r.fits; allocated = r.allocated }) in
    rw (unlink_folded_saved p.section f) (
      ap (λ (y : Totals × Option Section). (p.reader, y))
        (put_read_last x.0 x.1 (k.1.2 ∙ omega (arith, two)) ∙ rw (k.0, k.1.1)))

-- Any other is put back.
pub record IsKept (s : Section) (x : Totals × Option Section) (t : Totals) : Type 0 where
  pub section : Section
  pub kept : x.1 ≡ some section
  pub totals : x.0 ≡ t
  pub same_filled : section.filled ≡ s.filled
  pub same_size : section.buffer_size ≡ s.buffer_size
  pub same_folded : section.folded ≡ s.folded
  pub same_listed : section.listed ≡ s.listed
  pub same_text : take section.filled section.buffer ≡ take s.filled s.buffer
  pub one_reference : section.refcount ≡ 1
  pub roomy : IsRoomy section

after_save-IsKept :
    (malloc : Malloc) (saved : Bool) (p : Pass)
    → Allocates malloc
    → IsRoomy p.section
    → p.section.refcount ≡ 2
    → unlink_folded saved p.section ≡ p.section
    → ((after_save malloc (saved, p)).0 ≡ p.reader)
      × IsKept p.section (after_save malloc (saved, p)).1 p.totals
unfolding after_save
after_save-IsKept malloc saved p alloc r two f =
    let x = resize_open malloc (p.totals, p.section) in
    let k = resize_open-Resized malloc p.totals p.section alloc r in
    rw (f, put_read_shared x.0 x.1 (k.1.2 ∙ two))
      (
        refl,
        record {
          section = record x.1 { refcount = 1 };
          kept = refl;
          totals = k.0;
          same_filled = k.1.0;
          same_size = k.1.1;
          same_folded = k.1.3;
          same_listed = k.1.4;
          same_text = k.1.5;
          one_reference = refl;
          roomy = record { fits = k.2.fits; allocated = k.2.allocated };
        },
      )

-- Whether the section's text fits and is copied: the test of the loop.
abbrev pub is_saved : Copying → ℕ → ℕ → Reader → ℕ → Bool
is_saved c size a r filled = not (ltb (size - r.filled) filled) && c.copied a

save_section_saved :
    (copied : Bool) (size : ℕ) (p : Pass)
    → (not (ltb (size - p.reader.filled) p.section.filled) && copied) ≡ true
    → save_section copied size p ≡ (
      true,
      record {
        totals = record p.totals { filled = p.totals.filled - p.section.filled };
        reader = record {
          buffer = memcpy p.reader.buffer p.reader.filled (take p.section.filled p.section.buffer);
          filled = p.reader.filled + p.section.filled;
        };
        section = record p.section { filled = 0 };
      },
    )
unfolding save_section
save_section_saved copied size p h = rw h

save_section_kept :
    (copied : Bool) (size : ℕ) (p : Pass)
    → (not (ltb (size - p.reader.filled) p.section.filled) && copied) ≡ false
    → save_section copied size p ≡ (false, p)
unfolding save_section
save_section_kept copied size p h = rw h

abbrev entering : Totals → Reader → Section → Pass
entering t r s = record { totals = t; reader = r; section = record s { refcount = s.refcount + 1 } }

abbrev pub extended : Reader → Section → Reader
extended r s = record {
  buffer = memcpy r.buffer r.filled (take s.filled s.buffer);
  filled = r.filled + s.filled;
}

-- The three ways through the loop's body for a sound section.
pub read_section_gone :
    (c : Copying) (size a : ℕ) (t : Totals) (r : Reader) (s : Section)
    → Allocates (c.malloc a)
    → IsSound s
    → is_saved c size a r s.filled ≡ true
    → s.folded ≡ true
    → read_section c size a t r s ≡ (
      extended r s,
      (
        record { count = t.count - 1; size = t.size - s.buffer_size; filled = t.filled - s.filled },
        none,
      ),
    )
unfolding read_section get_section
read_section_gone c size a t r s alloc i saved f =
    rw (save_section_saved (c.copied a) size (entering t r s) saved) (
      after_save_gone (c.malloc a) _ alloc
        (record { fits = omega (arith, i.fits); allocated = i.allocated })
        (omega (arith, i.one_reference)) f)

pub read_section_emptied :
    (c : Copying) (size a : ℕ) (t : Totals) (r : Reader) (s : Section)
    → Allocates (c.malloc a)
    → IsSound s
    → is_saved c size a r s.filled ≡ true
    → s.folded ≡ false
    → ((read_section c size a t r s).0 ≡ extended r s)
      × IsKept
          (record s { refcount = s.refcount + 1; filled = 0 })
          (read_section c size a t r s).1
          (record t { filled = t.filled - s.filled })
unfolding read_section get_section
read_section_emptied c size a t r s alloc i saved f =
    rw (save_section_saved (c.copied a) size (entering t r s) saved) (
      after_save-IsKept (c.malloc a) true _ alloc
        (record { fits = omega arith; allocated = i.allocated }) (omega (arith, i.one_reference))
        (unlink_folded_open true _ f))

pub read_section-IsKept :
    (c : Copying) (size a : ℕ) (t : Totals) (r : Reader) (s : Section)
    → Allocates (c.malloc a)
    → IsSound s
    → is_saved c size a r s.filled ≡ false
    → ((read_section c size a t r s).0 ≡ r)
      × IsKept (record s { refcount = s.refcount + 1 }) (read_section c size a t r s).1 t
unfolding read_section get_section
read_section-IsKept c size a t r s alloc i saved =
    rw (save_section_kept (c.copied a) size (entering t r s) saved) (
      after_save-IsKept (c.malloc a) false _ alloc
        (record { fits = i.fits; allocated = i.allocated }) (omega (arith, i.one_reference))
        (unlink_folded_unsaved _))
