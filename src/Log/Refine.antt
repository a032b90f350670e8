-- ===== src/Log/Refine.antt =====
-- kernel/debug.c: `co_debug_read` against a log that is a list of texts.
use colinux_64bit.Base.{
  ℕ, ◌+◌, ◌-◌, ◌≤◌, ◌≡◌, refl, Bool, true, false, not, ◌&&◌, List, [], ◌∷◌, ◌++◌, ltb,
  if◌then◌else◌, length, take, length-take, arith,
}
use mathlib.Core.Path.{subst}
use colinux_64bit.Log.Memory.{memcpy, take-memcpy}
use colinux_64bit.Log.Section.{Section, Totals}
use colinux_64bit.Log.Read.{Reader, Copying}
use colinux_64bit.Log.Sound.{IsSound, AllSound, sum}
use colinux_64bit.Log.Drain.{is_saved, extended}

-- What is to be seen of a section: who filled it, whether that descriptor is closed, and the text.
pub record Chunk : Type 0 where
  pub address : ℕ
  pub closed : Bool
  pub text : List ℕ

abbrev pub chunk : ℕ → Section → Chunk
chunk a s = record { address = a; closed = s.folded; text = take s.filled s.buffer }

unfoldable pub view : List (ℕ × Section) → List Chunk
view [] = []
view ((a, s) ∷ l) = chunk a s ∷ view l

-- A reader with some room takes each text whole, if it fits what is left of the room and the copy
-- succeeds. A chunk that is taken is empty, and gone if its descriptor is closed.
unfoldable pub drain : (ℕ → Bool) → ℕ → List Chunk → List ℕ × List Chunk
drain copied room [] = ([], [])
drain copied room (c ∷ l) =
    let saved = not (ltb room (length c.text)) && copied c.address in
    let rest = drain copied (if saved then room - length c.text else room) l in
    (
      (if saved then c.text else []) ++ rest.0,
      (if saved && c.closed
          then rest.1
          else record c { text = if saved then [] else c.text } ∷ rest.1),
    )

-- What the loop makes of a reader, totals and a list, against the abstract log.
pub record IsDrained (c : Copying) (size : ℕ) (r : Reader) (t : Totals) (l : List (ℕ × Section))
    (x : Reader × Totals × List (ℕ × Section)) : Type 0 where
  pub sound : AllSound x.2
  pub count : x.1.count + sum (λ s. 1) l ≡ t.count + sum (λ s. 1) x.2
  pub size_of : x.1.size + sum (λ s. s.buffer_size) l ≡ t.size + sum (λ s. s.buffer_size) x.2
  pub filled : x.1.filled + sum (λ s. s.filled) l ≡ t.filled + sum (λ s. s.filled) x.2
  pub within : x.0.filled ≤ size
  pub whole : length x.0.buffer ≡ length r.buffer
  pub text :
      take x.0.filled x.0.buffer
      ≡ take r.filled r.buffer ++ (drain c.copied (size - r.filled) (view l)).0
  pub rest : view x.2 ≡ (drain c.copied (size - r.filled) (view l)).1

-- The totals count at least the sections still to come.
pub record Covers (t : Totals) (l : List (ℕ × Section)) : Type 0 where
  pub count : sum (λ s. 1) l ≤ t.count
  pub size_of : sum (λ s. s.buffer_size) l ≤ t.size
  pub filled : sum (λ s. s.filled) l ≤ t.filled

pub length-text : (s : Section) → IsSound s → length (take s.filled s.buffer) ≡ s.filled
length-text s i = omega (arith, length-take s.filled s.buffer, i.fits, i.allocated)

pub is_saved-fits :
    (c : Copying) (size a : ℕ) (r : Reader) (n : ℕ)
    → is_saved c size a r n ≡ true
    → r.filled ≤ size
    → r.filled + n ≤ size
is_saved-fits c size a r n h k = ground arith

-- One step of `drain`, by what the test says.
pub drain_saved :
    (c : Copying) (size a : ℕ) (r : Reader) (s : Section) (l : List (ℕ × Section))
    → IsSound s
    → is_saved c size a r s.filled ≡ true
    → drain c.copied (size - r.filled) (view ((a, s) ∷ l)) ≡ (
        let rest = drain c.copied (size - (r.filled + s.filled)) (view l) in
        (
          take s.filled s.buffer ++ rest.0,
          (if s.folded
              then rest.1
              else record { address = a; closed = s.folded; text = [] } ∷ rest.1),
        ))
unfolding drain view
drain_saved c size a r s l i h =
    let e : size - r.filled - s.filled ≡ size - (r.filled + s.filled) = omega arith in
    rw (length-text s i, h, e) refl

pub drain_kept :
    (c : Copying) (size a : ℕ) (r : Reader) (s : Section) (l : List (ℕ × Section))
    → IsSound s
    → is_saved c size a r s.filled ≡ false
    → drain c.copied (size - r.filled) (view ((a, s) ∷ l))
      ≡ (let rest = drain c.copied (size - r.filled) (view l) in (rest.0, chunk a s ∷ rest.1))
unfolding drain view
drain_kept c size a r s l i h = rw (length-text s i, h) refl

pub extended-text :
    (r : Reader) (s : Section)
    → IsSound s
    → r.filled + s.filled ≤ length r.buffer
    → take (extended r s).filled (extended r s).buffer
      ≡ take r.filled r.buffer ++ take s.filled s.buffer
extended-text r s i h =
    subst
      (λ n.
        take (r.filled + n) (memcpy r.buffer r.filled (take s.filled s.buffer))
        ≡ take r.filled r.buffer ++ take s.filled s.buffer)
      (length-text s i)
      (take-memcpy r.buffer r.filled (take s.filled s.buffer) (omega (arith, length-text s i)))
