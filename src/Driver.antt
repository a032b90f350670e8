-- ===== src/Driver.antt =====
-- Loading and unloading of the driver: co_manager_load and co_manager_unload of
-- src/colinux/kernel/manager.c, with the reverse page tables of src/colinux/kernel/reversedpfns.c.
-- What the driver holds of the host is counted in `Host`. A write through a NULL pointer is `none`.
-- The frames come from the page allocator of `co_os_manager_init`, and all go back to the host with
-- `co_os_manager_free`; nobody else takes frames meanwhile.
pub mod Maps
pub mod Load
pub mod Life
pub mod Leak
mod Tests
use colinux_64bit.Base.{
  ℕ, zero, suc, ◌+◌, ◌-◌, ◌*◌, ◌/◌, ◌%◌, ◌^◌, Bool, true, false, Option, none, some, List, [], ◌∷◌,
  ◌++◌, ◌==◌, ltb, leb, if◌then◌else◌, length, take, drop, replicate, get_or,
}
use colinux_64bit.Rc.{Rc, ok, error, out_of_memory, co_ok}
use colinux_64bit.Arch.{word, page_size, page_flags, ptrs_per_pte, ptrs_per_pgd}

-- `co_manager_state_t`
pub data DriverState : Type 0 where
  not_initialized initialized_debug initialized_arch initialized_osdep initialized : DriverState

-- The host: its unused frames, its blocks of memory, the bytes of mapped frames as tables of words,
-- and what the driver holds of it.
pub record Host : Type 0 where
  pub frames : List ℕ
  pub blocks : ℕ
  pub tables : List (ℕ × List ℕ)
  pub mutexes : ℕ
  pub debugs : ℕ
  pub archdeps : ℕ
  pub osdeps : ℕ
  pub frames_at_init : List ℕ

-- The fields of `co_manager_t` that loading and unloading use. The entries of `reversed_map_pfns`
-- behind those in the list are 0.
pub record Manager : Type 0 where
  pub state : DriverState
  pub hostmem_pages : ℕ
  pub hostmem_amount : ℕ
  pub hostmem_usage_limit : ℕ
  pub reversed_map_pfns : Option (List ℕ)
  pub reversed_page_count : ℕ
  pub reversed_map_pgds : Option (List ℕ)

-- What the host's functions answer while the driver is loaded.
pub record Answers : Type 0 where
  pub mutex_create : Rc
  pub physical_memory_pages : Rc × ℕ
  pub debug_init : Rc
  pub arch_init : Rc
  pub os_malloc : Bool
  pub os_mutex_create : Rc

-- `reversed_map_pgds_count`
abbrev pub pgds_count : ℕ
pgds_count = 0x100_0000 / ptrs_per_pte / ptrs_per_pgd / 4

-- `co_manager_get_page`: a frame that is too high is taken all the same.
pub data Page : Type 0 where
  no_page : Rc → List ℕ → Page
  page : ℕ → List ℕ → Page

unfoldable pub get_page : ℕ → List ℕ → Page
get_page hostmem_pages [] = no_page out_of_memory []
get_page hostmem_pages (p ∷ frames) =
    if leb hostmem_pages p then no_page error frames else page p frames

-- The first loop of `co_manager_alloc_reversed_pfns`: the entries so far, and the unused frames.
unfoldable pub fill_pfns : ℕ → ℕ → List ℕ → List ℕ → Rc × List ℕ × List ℕ
fill_pfns hostmem_pages zero pfns frames = (ok, pfns, frames)
fill_pfns hostmem_pages (suc left) pfns frames = elim (get_page hostmem_pages frames) [
  | no_page rc rest ↦ (rc, pfns, rest)
  | page p rest ↦ fill_pfns hostmem_pages left (pfns ++ p ∷ []) rest
]

-- An entry for a frame.
abbrev pub entry_of : ℕ → ℕ
entry_of pfn = pfn * page_size % word + page_flags

-- The loop over `pte[j]`: `left` entries, from the frames that are left.
abbrev pub ptes : ℕ → List ℕ → List ℕ
ptes zero pfns = []
ptes (suc left) [] = 0 ∷ ptes left []
ptes (suc left) (p ∷ pfns) = entry_of p ∷ ptes left pfns

-- The second loop: `pfns` are the frames that no table has yet.
pub record Pgds : Type 0 where
  pub pgds : List ℕ
  pub frames : List ℕ
  pub tables : List (ℕ × List ℕ)

unfoldable pub fill_pgds : ℕ → ℕ → ℕ → List ℕ → Pgds → Rc × Pgds
fill_pgds hostmem_pages zero covered pfns r = (ok, r)
fill_pgds hostmem_pages (suc left) covered pfns r =
    let uncovered =
      fill_pgds hostmem_pages left covered pfns (record r { pgds = r.pgds ++ 0 ∷ [] }) in
    let covering : Rc × Pgds = elim (get_page hostmem_pages r.frames) [
      | no_page rc rest ↦ (rc, record r { frames = rest })
      | page p rest ↦
          fill_pgds hostmem_pages left (covered + ptrs_per_pte * ptrs_per_pgd)
            (drop ptrs_per_pte pfns)
            (record {
              pgds = r.pgds ++ entry_of p ∷ [];
              frames = rest;
              tables = (p, ptes ptrs_per_pte pfns) ∷ r.tables;
            })
    ] in
    if leb hostmem_pages covered then uncovered else covering

-- The second half of `co_manager_alloc_reversed_pfns`, with the first table there.
unfoldable pub alloc_pgds : Manager → Host → List ℕ → Option (Rc × Manager × Host)
alloc_pgds m h pfns = elim h.blocks [
  | zero ↦ none
  | suc blocks ↦
      let (rc, r) =
        fill_pgds m.hostmem_pages pgds_count 0 pfns
          (record { pgds = []; frames = h.frames; tables = h.tables }) in
      some (
        rc,
        record m { reversed_map_pgds = some r.pgds },
        record h { blocks = blocks; frames = r.frames; tables = r.tables },
      )
]

-- The first table as it is filled, and the second half where that is done.
unfoldable pub alloc_rest : Manager → Host → ℕ → Rc × List ℕ × List ℕ → Option (Rc × Manager × Host)
alloc_rest m h blocks (rc, pfns, frames) =
    let m' = record m {
      reversed_page_count = m.hostmem_pages / ptrs_per_pte;
      reversed_map_pfns = some pfns;
    } in
    let h' = record h { blocks = blocks; frames = frames } in
    if co_ok rc then alloc_pgds m' h' pfns else some (rc, m', h')

-- By the blocks of memory that the host has.
unfoldable pub alloc_with : ℕ → Manager → Host → Option (Rc × Manager × Host)
alloc_with zero m h =
    some (out_of_memory, record m { reversed_page_count = m.hostmem_pages / ptrs_per_pte }, h)
alloc_with (suc blocks) m h =
    alloc_rest m h blocks (fill_pfns m.hostmem_pages (m.hostmem_pages / ptrs_per_pte) [] h.frames)

-- `co_manager_alloc_reversed_pfns`
unfoldable pub alloc_reversed_pfns : Manager → Host → Option (Rc × Manager × Host)
alloc_reversed_pfns m h = alloc_with h.blocks m h

-- `co_manager_free_reversed_pfns`: a frame goes to the head of the unused ones.
unfoldable pub put_pages : List ℕ → List ℕ → List ℕ
put_pages [] frames = frames
put_pages (p ∷ ps) frames = put_pages ps (p ∷ frames)

abbrev pub pgd_frames : List ℕ → List ℕ
pgd_frames [] = []
pgd_frames (e ∷ es) = if e == 0 then pgd_frames es else e / page_size ∷ pgd_frames es

unfoldable pub free_pfns : Manager → Host → Host
free_pfns m h = elim m.reversed_map_pfns [
  | none ↦ h
  | some pfns ↦ record h {
    frames = put_pages (pfns ++ replicate (m.reversed_page_count - length pfns) 0) h.frames;
    blocks = suc h.blocks;
  }
]

unfoldable pub free_pgds : Manager → Host → Host
free_pgds m h = elim m.reversed_map_pgds [
  | none ↦ h
  | some pgds ↦ record h { frames = put_pages (pgd_frames pgds) h.frames; blocks = suc h.blocks }
]

unfoldable pub free_reversed_pfns : Manager → Host → Host
free_reversed_pfns m h = free_pgds m (free_pfns m h)

-- `set_hostmem_usage_limit`
unfoldable pub usage_limit : ℕ → ℕ
usage_limit amount = (if leb 256 amount then amount - 64 else amount * 3 / 4) * 2 ^ 20 % word

-- The error path of `co_manager_load`, from each of its labels.
abbrev pub Loaded : Type 0
Loaded = Option (Rc × Manager × Host)

unfoldable pub err_mutex : Rc → Manager → Host → Loaded
err_mutex rc m h =
    some (rc, record m { state = not_initialized }, record h { mutexes = h.mutexes - 1 })

unfoldable pub err_debug : Rc → Manager → Host → Loaded
err_debug rc m h = err_mutex rc m (record h { debugs = h.debugs - 1 })

unfoldable pub err_arch : Rc → Manager → Host → Loaded
err_arch rc m h = err_debug rc m (record h { archdeps = h.archdeps - 1 })

-- `co_winnt_free_all_pages`: the host has all the frames that it had at `co_os_manager_init`.
abbrev pub free_all_pages : Host → Host
free_all_pages h = record h { frames = h.frames_at_init }

-- `co_os_manager_free`
abbrev pub os_manager_free : Host → Host
os_manager_free h = record (free_all_pages h) { osdeps = h.osdeps - 1 }

unfoldable pub err_os : Rc → Manager → Host → Loaded
err_os rc m h = err_arch rc m (os_manager_free h)

-- The steps of `co_manager_load`, the last one first.
unfoldable pub loaded : Loaded → Loaded
loaded none = none
loaded (some (ok, m, h)) = some (ok, record m { state = initialized }, h)
loaded (some (rc, m, h)) = err_os rc m h

-- `co_os_manager_init`: where the lock is refused, what was allocated before is not freed.
abbrev pub os_init : Host → Host
os_init h = record h { osdeps = h.osdeps + 1; frames_at_init = h.frames }

unfoldable pub load_os_lock : Rc → Manager → Host → Loaded
load_os_lock ok m h =
    loaded (alloc_reversed_pfns (record m { state = initialized_osdep }) (os_init h))
load_os_lock rc m h = err_arch rc m (os_init h)

unfoldable pub load_os : Answers → Manager → Host → Loaded
load_os a m h =
    if a.os_malloc then load_os_lock a.os_mutex_create m h else err_arch out_of_memory m h

unfoldable pub load_arch : Answers → Rc → Manager → Host → Loaded
load_arch a ok m h =
    load_os a (record m { state = initialized_arch }) (record h { archdeps = h.archdeps + 1 })
load_arch a rc m h = err_debug rc m h

unfoldable pub load_debug : Answers → Rc → Manager → Host → Loaded
load_debug a ok m h =
    load_arch a a.arch_init (record m { state = initialized_debug })
      (record h { debugs = h.debugs + 1 })
load_debug a rc m h = err_mutex rc m h

unfoldable pub load_pages : Answers → Rc × ℕ → Manager → Host → Loaded
load_pages a (ok, pages) m h =
    let m' = record m { hostmem_pages = pages; hostmem_amount = pages / 256 } in
    if ltb 0x10_0000 pages
    then err_mutex error m' h
    else load_debug a a.debug_init (record m' { hostmem_usage_limit = usage_limit (pages / 256) }) h
load_pages a (rc, pages) m h = err_mutex rc m h

-- `co_memset` of the whole manager.
abbrev pub cleared : Manager
cleared = record {
  state = not_initialized;
  hostmem_pages = 0;
  hostmem_amount = 0;
  hostmem_usage_limit = 0;
  reversed_map_pfns = none;
  reversed_page_count = 0;
  reversed_map_pgds = none;
}

unfoldable pub load_lock : Answers → Rc → Host → Loaded
load_lock a ok h =
    load_pages a a.physical_memory_pages cleared (record h { mutexes = h.mutexes + 1 })
load_lock a rc h = some (rc, cleared, h)

-- `co_manager_load`
unfoldable pub manager_load : Answers → Host → Loaded
manager_load a h = load_lock a a.mutex_create h

-- `co_manager_unload`: what is freed in the state, from the top of the state downwards.
unfoldable pub unload_host : DriverState → Manager → Host → Host
unload_host initialized m h =
    let h' = free_reversed_pfns m h in
    let h'' = os_manager_free (record h' { mutexes = h'.mutexes - 1 }) in
    record h'' { archdeps = h''.archdeps - 1; debugs = h''.debugs - 1 }
unload_host initialized_osdep m h =
    let h' = os_manager_free h in record h' { archdeps = h'.archdeps - 1; debugs = h'.debugs - 1 }
unload_host initialized_arch m h = record h { archdeps = h.archdeps - 1; debugs = h.debugs - 1 }
unload_host initialized_debug m h = record h { debugs = h.debugs - 1 }
unload_host not_initialized m h = h

unfoldable pub manager_unload : Manager → Host → Manager × Host
manager_unload m h = (record m { state = not_initialized }, unload_host m.state m h)
