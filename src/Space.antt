-- ===== src/Space.antt =====
-- The guest's pseudo-physical memory as the host driver keeps it: the part of `co_monitor_t` and
-- `co_manager_t` that src/colinux/kernel/pages.c, transfer.c and reversedpfns.c work on.
--
-- `co_pfn_t **pp_pfns` is a function from the 1024 groups: `none` is a group that is not allocated,
-- and 0 an entry with no page. The host answers `co_os_get_page` from `host_pages` in order, and
-- has `heap_blocks` more blocks for `co_os_malloc`. `co_os_map` gives the bytes of a host frame.
pub mod Memory
pub mod Frames
pub mod Valid
pub mod Example
use colinux_64bit.Base.{
  ℕ, zero, suc, ◌+◌, ◌-◌, ◌*◌, ◌/◌, ◌%◌, ◌^◌, Option, none, some, List, [], ◌∷◌, ◌==◌, ltb, leb,
  if◌then◌else◌, ◌&&◌,
}
use colinux_64bit.Rc.{Rc, ok, error, out_of_memory}
use colinux_64bit.Prog.{Prog}
use colinux_64bit.Arch.{page_size, ptrs_per_pte, word}

-- The bytes of the host's frames, by frame and offset.
abbrev pub Ram : Type 0
Ram = ℕ → ℕ → ℕ

abbrev pub PfnTable : Type 0
PfnTable = ℕ → Option (ℕ → ℕ)

pub record Space : Type 0 where
  pub pp_pfns : PfnTable
  pub end_physical : ℕ
  pub blocks_allocated : ℕ
  pub hostmem_pages : ℕ
  pub reversed_map_pfns : ℕ → ℕ
  pub reversed_page_count : ℕ
  pub host_pages : List ℕ
  pub heap_blocks : ℕ
  pub ram : Ram

-- `co_memcpy` into a mapped frame.
abbrev pub store : Ram → ℕ → ℕ → ℕ → Ram
store ram frame at b f o = if f == frame && o == at then b else ram f o

unfoldable pub write_bytes : Ram → ℕ → ℕ → List ℕ → Ram
write_bytes ram frame at [] = ram
write_bytes ram frame at (b ∷ bs) = write_bytes (store ram frame at b) frame (at + 1) bs

-- `co_memcpy` out of a mapped frame.
unfoldable pub read_bytes : Ram → ℕ → ℕ → ℕ → List ℕ
read_bytes ram frame at zero = []
read_bytes ram frame at (suc n) = ram frame at ∷ read_bytes ram frame (at + 1) n

-- An `unsigned long` in memory, little-endian.
abbrev pub long_bytes : ℕ → List ℕ
long_bytes x = x % 256 ∷ x / 256 % 256 ∷ x / 65536 % 256 ∷ x / 16777216 % 256 ∷ []

-- `group[index]` in a table of page numbers.
abbrev pub group_of : ℕ → ℕ
group_of n = n / ptrs_per_pte

abbrev pub index_of : ℕ → ℕ
index_of n = n % ptrs_per_pte

-- The entry of a page, 0 where its group is missing.
abbrev pub entry : Option (ℕ → ℕ) → ℕ → ℕ
entry none i = 0
entry (some g) i = g i

unfoldable pub frame_of : Space → ℕ → ℕ
frame_of s n = entry (s.pp_pfns (group_of n)) (index_of n)

-- `pp_pfns[group] = block` and `pp_pfns[group][index] = pfn`
abbrev pub set_group : PfnTable → ℕ → (ℕ → ℕ) → PfnTable
set_group t k g j = if j == k then some g else t j

abbrev pub set_index : (ℕ → ℕ) → ℕ → ℕ → ℕ → ℕ
set_index g i p j = if j == i then p else g j

unfoldable pub set_entry : Space → ℕ → ℕ → Space
set_entry s n p = record s {
  pp_pfns =
      set_group s.pp_pfns (group_of n) (set_index (entry (s.pp_pfns (group_of n))) (index_of n) p);
}

-- `co_monitor_get_pfn`
unfoldable pub get_pfn : Space → ℕ → Option ℕ
get_pfn s address = elim (s.pp_pfns (group_of (address / page_size))) [
  | none ↦ none
  | some g ↦ some (g (index_of (address / page_size)))
]

-- `co_os_get_page`
unfoldable pub os_get_page : Space → Option (ℕ × Space)
os_get_page s = elim s.host_pages [
  | [] ↦ none
  | p ∷ rest ↦ some (p, record s { host_pages = rest })
]

-- `co_os_put_page`: the host hands a returned frame out again, and first. That the allocator may give
-- a whole bucket of unused frames back to Windows is left out.
unfoldable pub os_put_page : Space → ℕ → Space
os_put_page s p = record s { host_pages = p ∷ s.host_pages }

-- `co_manager_get_page`: the frame is given by the state in which it is entered for page `n`.
unfoldable pub get_page_for : ℕ → Space → Rc × Space
get_page_for n s = elim (os_get_page s) [
  | none ↦ (out_of_memory, s)
  | some (p, s') ↦ if leb s.hostmem_pages p then (error, s') else (ok, set_entry s' n p)
]

-- `co_monitor_malloc` of a group, cleared by `co_memset`; `fail` is the caller's code on NULL.
unfoldable pub ensure_group : Rc → ℕ → Space → Rc × Space
ensure_group fail k s = elim (s.pp_pfns k) [
  | some g ↦ (ok, s)
  | none ↦ elim s.heap_blocks [
    | zero ↦ (fail, s)
    | suc left ↦ (
      ok,
      record s {
        pp_pfns = set_group s.pp_pfns k (λ _. 0);
        blocks_allocated = (s.blocks_allocated + 1) % word;
        heap_blocks = left;
      },
    )
  ]
]
