-- ===== src/Log/Sound.antt =====
-- The log's totals are those of its sections, and no section is filled past its buffer: every
-- operation of kernel/debug.c keeps it.
use colinux_64bit.Base.{
  ℕ, ◌+◌, ◌≤◌, ◌≡◌, refl, ◌⊎◌, inl, inr, true, false, Option, none, some, List, [], ◌∷◌, ◌++◌, ◌==◌,
  length, take, Bool-cases, ==_iff, arith,
}
use mathlib.Core.Path.{subst}
use mathlib.Core.Option.{some-injective}
use colinux_64bit.Log.Memory.{length-memcpy, take-copy}
use colinux_64bit.Log.Section.{
  Section, Totals, Malloc, Log, find, store, release, new_size, resize_to, resize_section,
}

-- A section at rest: the list's reference only, and room for what it holds.
pub record IsSound (s : Section) : Type 0 where
  pub linked : s.listed ≡ true
  pub one_reference : s.refcount ≡ 1
  pub fits : s.filled ≤ s.buffer_size
  pub allocated : s.buffer_size ≤ length s.buffer

abbrev pub AllSound : List (ℕ × Section) → Type 0
AllSound [] = Unit {0}
AllSound ((a, s) ∷ l) = IsSound s × AllSound l

-- The sum of a number of each section.
unfoldable pub sum : (Section → ℕ) → List (ℕ × Section) → ℕ
sum f [] = 0
sum f ((a, s) ∷ l) = f s + sum f l

-- The totals are the sums, and `rest` more of each.
abbrev pub Counts : Totals → List (ℕ × Section) → Type 0
Counts t l =
    (t.count ≡ sum (λ s. 1) l)
    × (t.size ≡ sum (λ s. s.buffer_size) l)
    × (t.filled ≡ sum (λ s. s.filled) l)

pub record IsValid (d : Log) : Type 0 where
  pub sound : AllSound d.sections
  pub counts : Counts d.totals d.sections

pub find_head :
    (b a : ℕ) (r s : Section) (l : List (ℕ × Section))
    → find a ((b, r) ∷ l) ≡ some s
    → (((b == a) ≡ true) × (r ≡ s)) ⊎ (((b == a) ≡ false) × (find a l ≡ some s))
unfolding find
find_head b a r s l h = elim (Bool-cases (b == a)) [
  | inl e ↦ inl (e, some-injective r s (rw e at h))
  | inr e ↦ inr (e, rw e at h)
]

pub sum-store :
    (f : Section → ℕ) (a : ℕ) (s s' : Section) (l : List (ℕ × Section))
    → find a l ≡ some s
    → sum f (store a s' l) + f s ≡ sum f l + f s'
unfolding sum store
sum-store f a s s' [] h = unfold find in cc
sum-store f a s s' ((b, r) ∷ l) h = elim (find_head b a r s l h) [
  | inl p ↦ rw (p.0, ← p.1) (omega arith)
  | inr p ↦ rw p.0 (omega (arith, sum-store f a s s' l p.1))
]

pub sum-release :
    (f : Section → ℕ) (a : ℕ) (s : Section) (l : List (ℕ × Section))
    → find a l ≡ some s
    → sum f (release a l) + f s ≡ sum f l
unfolding sum release
sum-release f a s [] h = unfold find in cc
sum-release f a s ((b, r) ∷ l) h = elim (find_head b a r s l h) [
  | inl p ↦ rw (p.0, ← p.1) (omega arith)
  | inr p ↦ rw p.0 (omega (arith, sum-release f a s l p.1))
]

pub AllSound-store :
    (a : ℕ) (s' : Section) (l : List (ℕ × Section))
    → AllSound l
    → IsSound s'
    → AllSound (store a s' l)
unfolding store
AllSound-store a s' [] h k = h
AllSound-store a s' ((b, r) ∷ l) h k = elim (Bool-cases (b == a)) [
  | inl e ↦ rw e (k, h.1)
  | inr e ↦ rw e (h.0, AllSound-store a s' l h.1 k)
]

pub find-IsSound :
    (a : ℕ) (s : Section) (l : List (ℕ × Section)) → AllSound l → find a l ≡ some s → IsSound s
find-IsSound a s [] h e = unfold find in cc
find-IsSound a s ((b, r) ∷ l) h e = elim (find_head b a r s l e) [
  | inl p ↦ subst IsSound p.1 h.0
  | inr p ↦ find-IsSound a s l h.1 p.1
]

pub sum-append_one :
    (f : Section → ℕ) (l : List (ℕ × Section)) (a : ℕ) (s : Section)
    → sum f (l ++ ((a, s) ∷ [])) ≡ sum f l + f s
unfolding sum
sum-append_one f [] a s = omega arith
sum-append_one f ((b, r) ∷ l) a s = omega (arith, sum-append_one f l a s)

-- What the code relies on: `co_os_malloc` gives as many bytes as it is asked for.
abbrev pub Allocates : Malloc → Type 0
Allocates malloc = (n : ℕ) (buffer : List ℕ) → malloc n ≡ some buffer → n ≤ length buffer

-- Where a section is sound but for its references, and what of it an operation leaves alone.
pub record IsRoomy (s : Section) : Type 0 where
  pub fits : s.filled ≤ s.buffer_size
  pub allocated : s.buffer_size ≤ length s.buffer

abbrev pub SameButBuffer : Section → Section → Type 0
SameButBuffer s s' =
    (s'.filled ≡ s.filled)
    × (s'.buffer_size ≡ s.buffer_size)
    × (s'.refcount ≡ s.refcount)
    × (s'.folded ≡ s.folded)
    × (s'.listed ≡ s.listed)
    × (take s'.filled s'.buffer ≡ take s.filled s.buffer)

resize_to-same :
    (m : Option (List ℕ)) (t : Totals) (s : Section)
    → IsRoomy s
    → ((buffer : List ℕ) → m ≡ some buffer → s.buffer_size ≤ length buffer)
    → ((resize_to m s.buffer_size t s).0 ≡ t)
      × SameButBuffer s (resize_to m s.buffer_size t s).1
      × IsRoomy (resize_to m s.buffer_size t s).1
unfolding resize_to
resize_to-same none t s r h = (refl, (refl, refl, refl, refl, refl, refl), r)
resize_to-same (some buffer) t s r h =
    let room : s.buffer_size ≤ length buffer = h buffer refl in
    (
      ground arith,
      (
        refl,
        refl,
        refl,
        refl,
        refl,
        take-copy s.filled s.buffer buffer (omega (arith, r.fits, r.allocated))
            (omega (arith, r.fits)),
      ),
      record {
        fits = r.fits;
        allocated = omega (arith, length-memcpy buffer 0 (take s.filled s.buffer));
      },
    )

-- Resizing a section that fits its buffer changes neither the totals nor the size of its buffer nor
-- its text, whatever memory there is: the code goes on only where the new size is the old one.
pub resize_section-same :
    (malloc : Malloc) (t : Totals) (s : Section)
    → Allocates malloc
    → IsRoomy s
    → ((resize_section malloc t s).0 ≡ t)
      × SameButBuffer s (resize_section malloc t s).1
      × IsRoomy (resize_section malloc t s).1
unfolding resize_section
resize_section-same malloc t s alloc r = elim (Bool-cases (new_size s == 0)) [
  | inl z ↦ rw z (refl, (refl, refl, refl, refl, refl, refl), r)
  | inr z ↦ elim (Bool-cases (s.buffer_size == new_size s)) [
    | inl e ↦
        rw (z, e)
          (subst
            (λ n.
              ((resize_to (malloc n) n t s).0 ≡ t)
              × SameButBuffer s (resize_to (malloc n) n t s).1
              × IsRoomy (resize_to (malloc n) n t s).1)
            ((==_iff _ _).0 e) (resize_to-same (malloc s.buffer_size) t s r (alloc s.buffer_size)))
    | inr e ↦ rw (z, e) (refl, (refl, refl, refl, refl, refl, refl), r)
  ]
]
