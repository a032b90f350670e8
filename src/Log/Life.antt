-- ===== src/Log/Life.antt =====
-- kernel/debug.c: folding the section of a descriptor that is closed, and the start and end of the log.
use colinux_64bit.Base.{
  ℕ, ◌+◌, ◌-◌, ◌≤◌, ◌≡◌, refl, sym, ◌∙◌, inl, inr, true, false, Option, none, some, List, [], ◌∷◌,
  ◌==◌, if◌then◌else◌, length, take, Bool-cases, arith,
}
use colinux_64bit.Rc.{Rc, ok, co_ok}
use colinux_64bit.Log.Memory.{length-memcpy, take-copy}
use colinux_64bit.Log.Section.{Section, Totals, Malloc, Log, find, store, get_section}
use colinux_64bit.Log.Read.{
  shrink, put_folded, fold_found, debug_fold, debug_init, put_read, free_section, free_visit,
  free_rest, free_sections, free_done, debug_free,
}
use colinux_64bit.Log.Sound.{
  IsValid, IsSound, AllSound, sum, find-IsSound, find_head, sum-release, AllSound-store, Allocates,
  IsRoomy,
}
use colinux_64bit.Log.Append.{put_section_two, put_section-IsValid}
use colinux_64bit.Log.Refine.{Chunk, view}

-- The chunk of an address, marked as that of a closed descriptor.
pub close : ℕ → List Chunk → List Chunk
close a [] = []
close a (c ∷ l) = if c.address == a then record c { closed = true } ∷ l else c ∷ close a l

view-store_closed :
    (a : ℕ) (s s' : Section) (l : List (ℕ × Section))
    → find a l ≡ some s
    → s'.folded ≡ true
    → take s'.filled s'.buffer ≡ take s.filled s.buffer
    → view (store a s' l) ≡ close a (view l)
unfolding view store close
view-store_closed a s s' [] h f t = unfold find in cc
view-store_closed a s s' ((b, r) ∷ l) h f t = elim (find_head b a r s l h) [
  | inl p ↦ rw (p.0, p.1, f, t) refl
  | inr p ↦ rw (p.0, view-store_closed a s s' l p.1 f t) refl
]

-- What shrinking makes of the totals and a held section.
abbrev Shrunk : Totals → Section → Rc × Totals × Section → Type 0
Shrunk t s x =
    IsRoomy x.2
    × (x.1.filled ≡ t.filled)
    × (x.1.count ≡ t.count)
    × (x.1.size + s.buffer_size ≡ t.size + x.2.buffer_size)
    × (x.2.filled ≡ s.filled)
    × (x.2.refcount ≡ s.refcount)
    × (x.2.listed ≡ s.listed)
    × (take x.2.filled x.2.buffer ≡ take s.filled s.buffer)

shrink-Shrunk :
    (m : Option (List ℕ)) (t : Totals) (s : Section)
    → ((buffer : List ℕ) → m ≡ some buffer → s.filled + 1 ≤ length buffer)
    → IsRoomy s
    → s.buffer_size ≤ t.size
    → Shrunk t s (shrink m t s)
unfolding shrink
shrink-Shrunk none t s h r c = (r, refl, refl, omega arith, refl, refl, refl, refl)
shrink-Shrunk (some b) t s h r c =
    let room = h b refl in
    (
      record {
        fits = omega arith;
        allocated = omega (arith, length-memcpy b 0 (take s.filled s.buffer));
      },
      refl,
      refl,
      omega arith,
      refl,
      refl,
      refl,
      take-copy s.filled s.buffer b (omega (arith, r.fits, r.allocated)) (omega arith),
    )

sum_le :
    (f : Section → ℕ) (a : ℕ) (s : Section) (l : List (ℕ × Section))
    → find a l ≡ some s
    → f s ≤ sum f l
sum_le f a s l h = omega (arith, sum-release f a s l h)

-- Folding a section of a sound log gives a result, with memory for the smaller buffer or not; it
-- keeps the log sound and every text as it is, and marks the section's chunk as that of a closed
-- descriptor.
pub debug_fold-close :
    (malloc : Malloc) (d : Log) (a : ℕ) (s : Section)
    → Allocates malloc
    → IsValid d
    → find a d.sections ≡ some s
    → (rc : Rc) × (d' : Log) × (debug_fold malloc d a ≡ some (rc, d'))
      × IsValid d'
      × (view d'.sections ≡ close a (view d.sections))
unfolding debug_fold fold_found get_section put_folded
debug_fold-close malloc d a s alloc v found =
    let i = find-IsSound a s d.sections v.sound found in
    let held = get_section s in
    let x = shrink (malloc (s.filled + 1)) d.totals held in
    let k =
      shrink-Shrunk (malloc (s.filled + 1)) d.totals held (alloc (s.filled + 1))
        (record { fits = i.fits; allocated = i.allocated })
        (omega (arith, v.counts, sum_le (λ s. s.buffer_size) a s d.sections found)) in
    (
      x.0,
      (put_folded a d x).1,
      rw found refl,
      put_section-IsValid a s (record x.2 { folded = true }) (record d { totals = x.1 }) found
          (λ s' q. AllSound-store a s' d.sections v.sound q)
          (
            k.5 ∙ omega (arith, i.one_reference),
            k.6 ∙ i.linked,
            record { fits = k.0.fits; allocated = k.0.allocated },
          )
          (k.2 ∙ v.counts.0, omega (arith, k.3, v.counts), omega (arith, k.1, k.4, v.counts)),
      rw
          (put_section_two a (record x.2 { folded = true }) (record d { totals = x.1 })
            (k.5 ∙ omega (arith, i.one_reference)))
          (view-store_closed a s (record x.2 { refcount = 1; folded = true }) d.sections found refl
            k.7),
    )

-- `co_debug_init` on cleared memory gives a log that is sound, ready exactly when its result is good.
pub debug_init-IsValid :
    (mutex wait : Rc) (d : Log)
    → d.totals.count ≡ 0
    → IsValid (debug_init mutex wait d).1
      × ((debug_init mutex wait d).1.ready
          ≡ (if co_ok (debug_init mutex wait d).0 then true else d.ready))
unfolding debug_init sum
debug_init-IsValid mutex wait d h = elim (Bool-cases (co_ok mutex)) [
  | inr e ↦ rw (e, e) (record { sound = tt; counts = (h, refl, refl) }, refl)
  | inl e ↦ elim (Bool-cases (co_ok wait)) [
    | inr f ↦ rw (e, f, f) (record { sound = tt; counts = (h, refl, refl) }, refl)
    | inl f ↦ rw (e, f, f) (record { sound = tt; counts = (h, refl, refl) }, refl)
  ]
]

free_visit_gone :
    (t : Totals) (s : Section)
    → IsSound s
    → free_visit t s ≡ (record t { count = t.count - 1; size = t.size - s.buffer_size }, none)
unfolding free_visit free_section get_section put_read
free_visit_gone t s i = ground (arith, i.linked, i.one_reference)

free_sections-empty :
    (t : Totals) (l : List (ℕ × Section))
    → AllSound l
    → sum (λ s. 1) l ≡ t.count
    → sum (λ s. s.buffer_size) l ≡ t.size
    → free_sections t l ≡ (record t { count = 0; size = 0 }, [])
unfolding free_sections free_rest sum
free_sections-empty t [] i c z = ground arith
free_sections-empty t ((a, s) ∷ l) i c z =
    rw
      (
        free_visit_gone t s i.0,
        free_sections-empty (record t { count = t.count - 1; size = t.size - s.buffer_size }) l i.1
            (omega arith) (omega arith),
      )
      refl

-- `co_debug_free` of a sound log releases every section, down to no section and no memory.
pub debug_free_lem :
    (d : Log)
    → IsValid d
    → debug_free d ≡ (
      ok,
      record d {
        ready = false;
        freeing = true;
        totals = record d.totals { count = 0; size = 0 };
        sections = [];
      },
    )
unfolding debug_free free_done
debug_free_lem d v =
    rw (free_sections-empty d.totals d.sections v.sound (sym v.counts.0) (sym v.counts.1)) refl
