-- ===== src/Driver/Leak.antt =====
-- Loading that runs out of frames or of memory half-way.
use colinux_64bit.Base.{
  Bool-cases, ◌⊎◌, inl, inr, ℕ, zero, suc, ◌+◌, ◌/◌, ◌*◌, ◌^◌, ◌≤◌, ◌<◌, ◌≡◌, refl, true, false,
  some, List, [], ◌∷◌, ◌++◌, ltb, leb, length, arith,
}
use colinux_64bit.Rc.{ok, out_of_memory}
use colinux_64bit.Arch.{ptrs_per_pte, page_size}
use colinux_64bit.Driver.{
  Host, Answers, get_page, fill_pfns, alloc_rest, alloc_with, alloc_reversed_pfns, Loaded, loaded,
  err_mutex, err_debug, err_arch, err_os, load_os, load_os_lock, load_arch, load_debug, load_pages,
  load_lock, manager_load, unload_host, manager_unload, usage_limit,
}

-- A host all of whose functions succeed.
abbrev pub all_ok : ℕ → Answers
all_ok pages = record {
  mutex_create = ok;
  physical_memory_pages = (ok, pages);
  debug_init = ok;
  arch_init = ok;
  os_malloc = true;
  os_mutex_create = ok;
}

abbrev pub FramesBelow : ℕ → List ℕ → Type 0
FramesBelow pages [] = Unit
FramesBelow pages (p ∷ ps) = (p < pages) × FramesBelow pages ps

fill_pfns_runs_out :
    (pages left : ℕ) (pfns frames : List ℕ)
    → FramesBelow pages frames
    → length frames < left
    → (pfns' : List ℕ) × (fill_pfns pages left pfns frames ≡ (out_of_memory, pfns', []))
unfolding fill_pfns get_page
fill_pfns_runs_out pages zero pfns frames b h = absurd (omega arith)
fill_pfns_runs_out pages (suc left) pfns [] b h = (pfns, refl)
fill_pfns_runs_out pages (suc left) pfns (p ∷ frames) b h =
    let e : leb pages p ≡ false = ground (arith, b.0) in
    let r = fill_pfns_runs_out pages left (pfns ++ p ∷ []) frames b.1 (omega arith) in
    (r.0, rw (e, fill_pfns) r.1)

-- Loading fails for want of memory; unloading leaves the host with `frames` as unused frames and
-- with `blocks` blocks of memory.
abbrev pub IsLost : List ℕ → ℕ → Loaded → Type 0
IsLost frames blocks (some (out_of_memory, m, h)) =
    ((manager_unload m h).1.frames ≡ frames) × ((manager_unload m h).1.blocks ≡ blocks)
IsLost frames blocks o = ⊥

-- On a host with fewer unused frames than the reverse table has pages, all of them below its end:
-- where all else succeeds, loading fails with OUT_OF_MEMORY. The host has its frames back, but a
-- block of memory, the table's, is lost: unloading does not give it back.
pub manager_load_leaks :
    (pages blocks : ℕ) (h : Host)
    → pages ≤ 2 ^ 20
    → h.blocks ≡ suc blocks
    → FramesBelow pages h.frames
    → length h.frames < pages / ptrs_per_pte
    → IsLost h.frames blocks (manager_load (all_ok pages) h)
unfolding manager_load load_lock load_pages load_debug load_arch load_os load_os_lock
    alloc_reversed_pfns alloc_with alloc_rest loaded err_os err_arch err_debug err_mutex
    manager_unload unload_host
manager_load_leaks pages blocks h p b f l =
    let e : ltb 0x10_0000 pages ≡ false = ground arith in
    let r = fill_pfns_runs_out pages (pages / ptrs_per_pte) [] h.frames f l in
    rw (e, b, r.1) (refl, refl)

-- A host of at most 4 GB: the limit in bytes does not wrap, and is at most the host's memory; from
-- 256 MB on it leaves 64 MB, and below that a quarter.
pub usage_limit_fits :
    (pages : ℕ)
    → pages ≤ 2 ^ 20
    → (usage_limit (pages / 256) ≤ pages * page_size)
      × (((256 ≤ pages / 256) × (usage_limit (pages / 256) + 64 * 2 ^ 20 ≡ pages / 256 * 2 ^ 20))
          ⊎ ((pages / 256 < 256) × (usage_limit (pages / 256) ≡ pages / 256 * 3 / 4 * 2 ^ 20)))
unfolding usage_limit
usage_limit_fits pages h = (
  ground arith,
  elim (Bool-cases (leb 256 (pages / 256))) [
    | inl e ↦ inl (ground arith, ground arith)
    | inr e ↦ inr (ground arith, ground arith)
  ],
)
