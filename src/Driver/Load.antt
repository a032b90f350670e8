-- ===== src/Driver/Load.antt =====
-- What the driver holds of the host after loading, and after unloading.
use colinux_64bit.Base.{
  ◌⊎◌, inl, inr, ℕ, zero, suc, ◌+◌, ◌-◌, ◌/◌, ◌^◌, ◌≤◌, ◌≡◌, ◌≢◌, refl, sym, ap, ◌∙◌, true, false,
  Option, none, some, List, [], ◌++◌, length, arith, Option-cases,
}
use mathlib.Core.Bool.{false≢true}
use colinux_64bit.Rc.{Rc, ok, co_ok}
use colinux_64bit.Arch.{ptrs_per_pte}
use colinux_64bit.Driver.{
  not_initialized, initialized, Host, Manager, Answers, fill_pfns, fill_pgds, Pgds, pgd_frames,
  put_pages, alloc_pgds, alloc_rest, alloc_with, free_pfns, free_pgds, free_reversed_pfns, Loaded,
  loaded, err_mutex, err_debug, err_arch, err_os, unload_host, manager_unload, pgds_count,
}
use colinux_64bit.Driver.Maps.{
  occurs, occurs-append, occurs-put_pages, fill_pfns-occurs, fill_pgds-occurs,
}

-- The same locks, logs and data of the host are held.
pub record SameHeld (h h' : Host) : Type 0 where
  pub mutexes : h'.mutexes ≡ h.mutexes
  pub debugs : h'.debugs ≡ h.debugs
  pub archdeps : h'.archdeps ≡ h.archdeps
  pub osdeps : h'.osdeps ≡ h.osdeps

-- And the same memory and frames are unused.
pub record SameMemory (h h' : Host) : Type 0 where
  pub blocks : h'.blocks ≡ h.blocks
  pub frames : (x : ℕ) → occurs x h'.frames ≡ occurs x h.frames

abbrev pub settled : Manager → Manager
settled m = record m { state = initialized }

abbrev pub Allocated : Host → Option (Rc × Manager × Host) → Type 0
Allocated h none = ⊥
Allocated h (some (rc, m, h')) =
    SameHeld h h'
    × (h'.frames_at_init ≡ h.frames_at_init)
    × (co_ok rc ≡ true
        → SameMemory h (free_reversed_pfns (settled m) h')
          × SameHeld h (free_reversed_pfns (settled m) h'))

abbrev same_held : (h : Host) → SameHeld h h
same_held h = record { mutexes = refl; debugs = refl; archdeps = refl; osdeps = refl }

-- Both tables are there: freeing them gives their frames back.
abbrev with_maps : Manager → ℕ → List ℕ → List ℕ → Manager
with_maps m count pfns pgds = record m {
  reversed_page_count = count;
  reversed_map_pfns = some pfns;
  reversed_map_pgds = some pgds;
}

freed :
    (m : Manager) (h : Host) (count : ℕ) (pfns pgds : List ℕ)
    → length pfns ≡ count
    → ((free_reversed_pfns (with_maps m count pfns pgds) h).blocks ≡ suc (suc h.blocks))
      × ((x : ℕ)
          → occurs x (free_reversed_pfns (with_maps m count pfns pgds) h).frames
            ≡ occurs x (pgd_frames pgds) + (occurs x pfns + occurs x h.frames))
      × SameHeld h (free_reversed_pfns (with_maps m count pfns pgds) h)
unfolding free_reversed_pfns free_pfns free_pgds
freed m h count pfns pgds e =
    let z : count - length pfns ≡ 0 = omega (arith, e) in
    rw z (
      refl,
      λ x. omega (
        arith,
        occurs-put_pages x (pgd_frames pgds) (put_pages (pfns ++ []) h.frames),
        occurs-put_pages x (pfns ++ []) h.frames,
        occurs-append x pfns [],
      ),
      record { mutexes = refl; debugs = refl; archdeps = refl; osdeps = refl },
    )

-- The second table, after the first.
abbrev first_table : Manager → List ℕ → Manager
first_table m pfns = record m {
  reversed_page_count = m.hostmem_pages / ptrs_per_pte;
  reversed_map_pfns = some pfns;
}

abbrev after_first : Host → ℕ → List ℕ → Host
after_first h blocks frames = record h { blocks = blocks; frames = frames }

alloc_pgds-Allocated :
    (m : Manager) (h : Host) (blocks : ℕ) (pfns frames : List ℕ)
    → m.hostmem_pages ≤ 2 ^ 20
    → h.blocks ≡ suc (suc blocks)
    → length pfns ≡ m.hostmem_pages / ptrs_per_pte
    → ((x : ℕ) → occurs x pfns + occurs x frames ≡ occurs x h.frames)
    → Allocated h (alloc_pgds (first_table m pfns) (after_first h (suc blocks) frames) pfns)
unfolding alloc_pgds
alloc_pgds-Allocated m h blocks pfns frames p b l o =
    let start : Pgds = record { pgds = []; frames = frames; tables = h.tables } in
    let q = fill_pgds m.hostmem_pages pgds_count 0 pfns start in
    let h' : Host = record h { blocks = blocks; frames = q.1.frames; tables = q.1.tables } in
    let f = freed (settled m) h' (m.hostmem_pages / ptrs_per_pte) pfns q.1.pgds l in
    (
      record { mutexes = refl; debugs = refl; archdeps = refl; osdeps = refl },
      refl,
      λ e. (
        record {
          blocks = f.0 ∙ sym b;
          frames = λ x.
              omega
                (arith, f.1 x, o x, fill_pgds-occurs m.hostmem_pages pgds_count 0 pfns start p e x);
        },
        record {
          mutexes = f.2.mutexes;
          debugs = f.2.debugs;
          archdeps = f.2.archdeps;
          osdeps = f.2.osdeps;
        },
      ),
    )

alloc_rest-Allocated :
    (m : Manager) (h : Host) (blocks : ℕ) (r : Rc × List ℕ × List ℕ)
    → m.hostmem_pages ≤ 2 ^ 20
    → h.blocks ≡ suc (suc blocks)
    → (co_ok r.0 ≡ true
        → (length r.1 ≡ m.hostmem_pages / ptrs_per_pte)
          × ((x : ℕ) → occurs x r.1 + occurs x r.2 ≡ occurs x h.frames))
    → Allocated h (alloc_rest m h (suc blocks) r)
unfolding alloc_rest
alloc_rest-Allocated m h blocks (ok, pfns, frames) p b f =
    alloc_pgds-Allocated m h blocks pfns frames p b (f refl).0 (f refl).1
alloc_rest-Allocated m h blocks (_, pfns, frames) p b f = (
  record { mutexes = refl; debugs = refl; archdeps = refl; osdeps = refl },
  refl,
  λ e. absurd (false≢true e),
)

pub alloc_with-Allocated :
    (m : Manager) (h : Host) (blocks : ℕ)
    → m.hostmem_pages ≤ 2 ^ 20
    → blocks ≢ 1
    → h.blocks ≡ blocks
    → Allocated h (alloc_with blocks m h)
unfolding alloc_with
alloc_with-Allocated m h zero p b e = (
  record { mutexes = refl; debugs = refl; archdeps = refl; osdeps = refl },
  refl,
  λ f. absurd (false≢true f),
)
alloc_with-Allocated m h (suc zero) p b e = absurd (b refl)
alloc_with-Allocated m h (suc (suc blocks)) p b e =
    alloc_rest-Allocated m h blocks
      (fill_pfns m.hostmem_pages (m.hostmem_pages / ptrs_per_pte) [] h.frames) p e
      (λ f.
        let r = fill_pfns-occurs m.hostmem_pages (m.hostmem_pages / ptrs_per_pte) [] h.frames f in
        (omega (arith, r.0), λ x. omega (arith, r.1 x)))

kept_at_init : (m : Manager) (h : Host) → (free_reversed_pfns m h).frames_at_init ≡ h.frames_at_init
unfolding free_reversed_pfns free_pfns free_pgds
kept_at_init m h = elim (Option-cases m.reversed_map_pfns) [
  | inl e ↦ elim (Option-cases m.reversed_map_pgds) [
    | inl f ↦ rw (e, f) refl
    | inr (q, f) ↦ rw (e, f) refl
  ]
  | inr (p, e) ↦ elim (Option-cases m.reversed_map_pgds) [
    | inl f ↦ rw (e, f) refl
    | inr (q, f) ↦ rw (e, f) refl
  ]
]

-- After a failure: every frame is unused as before, and the same locks, logs and data are held, but
-- for the data of the page allocator where its lock was refused. After a success, unloading gives
-- everything back, and freeing the reverse tables alone every frame.
pub record HeldBut (lost : ℕ) (h h' : Host) : Type 0 where
  pub mutexes : h'.mutexes ≡ h.mutexes
  pub debugs : h'.debugs ≡ h.debugs
  pub archdeps : h'.archdeps ≡ h.archdeps
  pub osdeps : h'.osdeps ≡ h.osdeps + lost
  pub frames : h'.frames ≡ h.frames

abbrev pub Failed : Answers → Host → Host → Type 0
Failed a h h' =
    HeldBut 0 h h' ⊎ ((a.os_malloc ≡ true) × (co_ok a.os_mutex_create ≡ false) × HeldBut 1 h h')

abbrev pub Returns : Answers → Host → Loaded → Type 0
Returns a h none = ⊥
Returns a h (some (rc, m, h')) =
    ((co_ok rc ≡ false) × (m.state ≡ not_initialized) × Failed a h h')
    ⊎ ((rc ≡ ok)
        × SameHeld h (manager_unload m h').1
        × SameMemory h (manager_unload m h').1
        × ((x : ℕ) → occurs x (free_reversed_pfns m h').frames ≡ occurs x h.frames))

-- What a host h' holds more than h, with the same memory.
pub record IsHolding (h : Host) (mutexes debugs archdeps osdeps : ℕ) (h' : Host) : Type 0 where
  pub mutexes_held : h'.mutexes ≡ h.mutexes + mutexes
  pub debugs_held : h'.debugs ≡ h.debugs + debugs
  pub archdeps_held : h'.archdeps ≡ h.archdeps + archdeps
  pub osdeps_held : h'.osdeps ≡ h.osdeps + osdeps
  pub same_blocks : h'.blocks ≡ h.blocks
  pub same_frames : h'.frames ≡ h.frames

pub loaded-Returns :
    (a : Answers) (h h' : Host) (o : Loaded)
    → IsHolding h 1 1 1 1 h'
    → h'.frames_at_init ≡ h.frames
    → Allocated h' o
    → Returns a h (loaded o)
unfolding loaded err_os err_arch err_debug err_mutex manager_unload unload_host
loaded-Returns a h h' none k i o = absurd o
loaded-Returns a h h' (some (ok, m, h'')) k i o =
    let f = o.2 refl in
    inr (
      refl,
      record {
        mutexes = omega (arith, f.1.mutexes, k.mutexes_held);
        debugs = omega (arith, f.1.debugs, k.debugs_held);
        archdeps = omega (arith, f.1.archdeps, k.archdeps_held);
        osdeps = omega (arith, f.1.osdeps, k.osdeps_held);
      },
      record {
        blocks = f.0.blocks ∙ k.same_blocks;
        frames = λ x. ap (occurs x) (kept_at_init (settled m) h'' ∙ o.1 ∙ i);
      },
      λ x. f.0.frames x ∙ ap (occurs x) k.same_frames,
    )
loaded-Returns a h h' (some (_, m, h'')) k i o = inl (
  refl,
  refl,
  inl (record {
    mutexes = omega (arith, o.0.mutexes, k.mutexes_held);
    debugs = omega (arith, o.0.debugs, k.debugs_held);
    archdeps = omega (arith, o.0.archdeps, k.archdeps_held);
    osdeps = omega (arith, o.0.osdeps, k.osdeps_held);
    frames = o.1 ∙ i;
  }),
)
