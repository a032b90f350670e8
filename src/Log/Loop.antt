-- ===== src/Log/Loop.antt =====
-- kernel/debug.c: the loop of `co_debug_read` drains the log, chunk by chunk.
use colinux_64bit.Base.{
  ℕ, ◌+◌, ◌-◌, ◌≤◌, ◌≡◌, refl, sym, ap, ◌∙◌, inl, inr, true, List, [], ◌∷◌, length, take,
  Bool-cases, arith,
}
use mathlib.Core.Path.{subst}
use mathlib.Core.List.{append-nil}
use colinux_64bit.Log.Memory.{length-memcpy}
use colinux_64bit.Log.Section.{Section, Totals, Log}
use colinux_64bit.Log.Read.{
  Reader, Copying, visit, read_section, read_sections, read_done, debug_read,
}
use colinux_64bit.Log.Sound.{AllSound, sum, IsValid, Allocates}
use colinux_64bit.Log.Drain.{
  is_saved, extended, read_section_gone, read_section_emptied, read_section-IsKept,
}
use colinux_64bit.Log.Steps.{without, IsDrained-gone, IsDrained-emptied, IsDrained-kept}
use colinux_64bit.Log.Refine.{view, drain, IsDrained, Covers, is_saved-fits}

Covers-tail :
    (t t' : Totals) (a : ℕ) (s : Section) (l : List (ℕ × Section))
    → Covers t ((a, s) ∷ l)
    → (t.count ≤ t'.count + 1)
      × (t.size ≤ t'.size + s.buffer_size)
      × (t.filled ≤ t'.filled + s.filled)
    → Covers t' l
unfolding sum
Covers-tail t t' a s l h k = record {
  count = omega (arith, h.count, k.0);
  size_of = omega (arith, h.size_of, k.1);
  filled = omega (arith, h.filled, k.2);
}

visit_listed :
    (c : Copying) (size a : ℕ) (t : Totals) (r : Reader) (s : Section)
    → s.listed ≡ true
    → visit c size a t r s ≡ read_section c size a t r s
unfolding visit
visit_listed c size a t r s h = rw h

-- The loop over sections that are sound.
pub read_sections-IsDrained :
    (c : Copying) (size : ℕ) (r : Reader) (t : Totals) (l : List (ℕ × Section))
    → ((a : ℕ) → Allocates (c.malloc a))
    → AllSound l
    → Covers t l
    → size ≤ length r.buffer
    → r.filled ≤ size
    → IsDrained c size r t l (read_sections c size r t l)
unfolding read_sections sum
read_sections-IsDrained c size r t [] alloc i covers room start =
    unfold drain view in
    record {
      sound = tt;
      count = refl;
      size_of = refl;
      filled = refl;
      within = start;
      whole = refl;
      text = sym (append-nil _);
      rest = refl;
    }
read_sections-IsDrained c size r t ((a, s) ∷ l) alloc i covers room start =
    rw (visit_listed c size a t r s i.0.linked) (elim (Bool-cases (is_saved c size a r s.filled)) [
      | inr kept ↦
          let (e, k) = read_section-IsKept c size a t r s (alloc a) i.0 kept in
          let y = (read_section c size a t r s).1 in
          rw e (
            IsDrained-kept c size a t r s l _ i.0 covers room start kept y k (
              read_sections-IsDrained c size r y.0 l alloc i.1
                (Covers-tail t y.0 a s l covers
                  (rw k.totals (omega arith, omega arith, omega arith)))
                room start))
      | inl saved ↦
          let room' : size ≤ length (extended r s).buffer =
            subst (λ n. size ≤ n) (sym (length-memcpy r.buffer r.filled (take s.filled s.buffer)))
              room in
          let fits = is_saved-fits c size a r s.filled saved start in
          elim (Bool-cases s.folded) [
            | inl f ↦ rw (read_section_gone c size a t r s (alloc a) i.0 saved f) (
                IsDrained-gone c size a t r s l _ i.0 covers room start saved f (
                  read_sections-IsDrained c size (extended r s) (without t s) l alloc i.1
                    (Covers-tail t (without t s) a s l covers
                      (omega arith, omega arith, omega arith))
                    room' fits))
            | inr f ↦
                let (e, k) = read_section_emptied c size a t r s (alloc a) i.0 saved f in
                let y = (read_section c size a t r s).1 in
                rw e (
                  IsDrained-emptied c size a t r s l _ i.0 covers room start saved f y k (
                    read_sections-IsDrained c size (extended r s) y.0 l alloc i.1
                      (Covers-tail t y.0 a s l covers
                        (rw k.totals (omega arith, omega arith, omega arith)))
                      room' fits))
          ]
    ])

-- Reading a sound log of sections is draining a list of texts: the reader's buffer, of at least the
-- size it names, gets what `drain` takes, within that size and without a change of the buffer's
-- length; the log keeps what `drain` leaves, and is sound again.
pub debug_read-drain :
    (c : Copying) (d : Log) (buffer : List ℕ) (size : ℕ)
    → ((a : ℕ) → Allocates (c.malloc a))
    → IsValid d
    → size ≤ length buffer
    → IsValid (debug_read c d buffer size).1
      × ((debug_read c d buffer size).2.filled ≤ size)
      × (length (debug_read c d buffer size).2.buffer ≡ length buffer)
      × (take (debug_read c d buffer size).2.filled (debug_read c d buffer size).2.buffer
          ≡ (drain c.copied size (view d.sections)).0)
      × (view (debug_read c d buffer size).1.sections ≡ (drain c.copied size (view d.sections)).1)
unfolding debug_read read_done
debug_read-drain c d buffer size alloc v room =
    let r : Reader = record { buffer = buffer; filled = 0 } in
    let z : size - 0 ≡ size = omega arith in
    let h =
      read_sections-IsDrained c size r d.totals d.sections alloc v.sound
        (record {
          count = omega (arith, v.counts);
          size_of = omega (arith, v.counts);
          filled = omega (arith, v.counts);
        })
        room (omega arith) in
    (
      record {
        sound = h.sound;
        counts = (
          omega (arith, h.count, v.counts),
          omega (arith, h.size_of, v.counts),
          omega (arith, h.filled, v.counts),
        );
      },
      h.within,
      h.whole,
      h.text ∙ ap (λ n. (drain c.copied n (view d.sections)).0) z,
      h.rest ∙ ap (λ n. (drain c.copied n (view d.sections)).1) z,
    )
