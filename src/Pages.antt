-- ===== src/Pages.antt =====
-- src/colinux/kernel/pages.c, and `co_manager_set_reversed_pfn` of reversedpfns.c: allocating the
-- frames of guest pages on demand, and filling them through the page loop of `Split`.
pub mod Keep
pub mod Free
pub mod Fill
mod Tests
use colinux_64bit.Base.{
  ℕ, zero, suc, ◌+◌, ◌-◌, ◌*◌, ◌/◌, ◌%◌, ◌^◌, Bool, true, false, Option, none, some, List, [], ◌∷◌,
  ◌==◌, leb, if◌then◌else◌, take, drop, replicate,
}
use colinux_64bit.Rc.{Rc, ok, error, out_of_memory}
use colinux_64bit.Prog.{Prog, bind}
use colinux_64bit.Arch.{
  word, add32, sub32, page_size, page_base, page_offset, page_flags, ptrs_per_pte, kernel_offset,
  pseudo_ram_page_tables,
}
use colinux_64bit.Split.{split_by_pages}
use colinux_64bit.Space.{
  Space, Ram, frame_of, group_of, get_pfn, set_entry, ensure_group, get_page_for, os_put_page,
  write_bytes, long_bytes,
}

-- `co_manager_scan_pfns_callback_t`: on a mapped frame, an offset in it and a size. The code returns
-- CO_RC(OK) whatever the callback returns.
abbrev pub Callback : Type 0 → Type 0
Callback D = ℕ → ℕ → ℕ → Ram × D → Ram × D

abbrev pub lift : {D : Type 0} → D → Rc × Space → Option (Rc × (Space × D))
lift d (rc, s) = some (rc, (s, d))

-- A page with no frame gets one from the host.
unfoldable pub ensure_page : ℕ → Space → Rc × Space
ensure_page n s = if frame_of s n == 0 then get_page_for n s else (ok, s)

-- `if (cbdata->func)`: map the page, call, unmap.
unfoldable pub call_back : {D : Type 0} → Option (Callback D) → ℕ → ℕ → Prog (Space × D)
call_back none offset size (s, d) = some (ok, (s, d))
call_back (some func) offset size (s, d) =
    let (ram, d') = func (frame_of s (offset / page_size)) (page_offset offset) size (s.ram, d) in
    some (ok, (record s { ram = ram }, d'))

-- The page's own part of the callback, with the group there.
unfoldable pub scan_page : {D : Type 0} → Option (Callback D) → Bool → ℕ → ℕ → Prog (Space × D)
scan_page func true offset size (s, d) =
    bind (lift d (ensure_page (offset / page_size) s)) (call_back func offset size)
scan_page func false offset size (s, d) = some (ok, (s, d))

-- `scan_pfns_split_callback`
unfoldable pub scan_pfns_split_callback :
    {D : Type 0} → Option (Callback D) → Bool → ℕ → ℕ → Prog (Space × D)
scan_pfns_split_callback func alloc_pages offset size (s, d) =
    bind (lift d (ensure_group error (group_of (offset / page_size)) s))
      (scan_page func alloc_pages offset size)

-- `co_manager_scan_pfns_and_callback`
unfoldable pub scan_pfns_and_callback :
    {D : Type 0} → ℕ → ℕ → Option (Callback D) → Bool → Prog (Space × D)
scan_pfns_and_callback address size func alloc_pages =
    split_by_pages (scan_pfns_split_callback func alloc_pages) address size

-- `copy_callback`: the data is the rest of the source buffer.
unfoldable pub copy_callback : Callback (List ℕ)
copy_callback frame at size (ram, source) =
    (write_bytes ram frame at (take size source), drop size source)

-- `co_monitor_copy_and_create_pfns`
unfoldable pub copy_and_create_pfns : Space → ℕ → ℕ → List ℕ → Option (Rc × (Space × List ℕ))
copy_and_create_pfns s address size source =
    scan_pfns_and_callback address size (some copy_callback) true (s, source)

-- `co_monitor_scan_and_create_pfns`
unfoldable pub scan_and_create_pfns : Space → ℕ → ℕ → Option (Rc × (Space × Unit {0}))
scan_and_create_pfns s address size = scan_pfns_and_callback address size none true (s, tt)

-- The entry of a page table for a frame. The low 12 bits of the shifted frame are clear, so the
-- flags are added.
abbrev pub pte_of : ℕ → ℕ
pte_of pfn = if pfn == 0 then 0 else pfn * page_size % word + page_flags

-- The loop of `create_ptes_callback`, for the number of entries left.
unfoldable pub put_ptes : ℕ → ℕ → ℕ → Ram × List ℕ → Ram × List ℕ
put_ptes zero frame at (ram, pfns) = (ram, pfns)
put_ptes (suc n) frame at (ram, []) = (ram, [])
put_ptes (suc n) frame at (ram, pfn ∷ pfns) =
    put_ptes n frame (at + 4) (write_bytes ram frame at (long_bytes (pte_of pfn)), pfns)

-- `create_ptes_callback`
unfoldable pub create_ptes_callback : Callback (List ℕ)
create_ptes_callback frame at size = put_ptes (size / 4) frame at

-- `co_monitor_create_ptes`
unfoldable pub create_ptes : Space → ℕ → ℕ → List ℕ → Option (Rc × (Space × List ℕ))
create_ptes s address size source =
    scan_pfns_and_callback address size (some create_ptes_callback) true (s, source)

-- `co_manager_set_reversed_pfn`
unfoldable pub set_reversed_pfn : ℕ → ℕ → Space → Rc × Space
set_reversed_pfn real pseudo s =
    let top_level = real / ptrs_per_pte in
    if leb s.reversed_page_count top_level then (error, s) else (
      ok,
      record s {
        ram =
            write_bytes s.ram (s.reversed_map_pfns top_level) (4 * (real % ptrs_per_pte))
              (long_bytes pseudo);
      },
    )

-- The number of a page in the guest's RAM, and the address of its entry in the page tables.
abbrev pub virtual_pfn : ℕ → ℕ
virtual_pfn address = sub32 address kernel_offset / page_size

abbrev pub pte_address : ℕ → ℕ
pte_address address = add32 pseudo_ram_page_tables (4 * virtual_pfn address)

-- The state, without the data of a loop.
abbrev pub state_of : {D : Type 0} → Option (Rc × (Space × D)) → Option (Rc × Space)
state_of none = none
state_of (some (rc, (s, d))) = some (rc, s)

-- The entry for the page's frame in the guest's page tables.
unfoldable pub create_pte : ℕ → Prog Space
create_pte address s =
    state_of (create_ptes s (pte_address address) 4 (frame_of s (address / page_size) ∷ []))

-- `next, map the page`
unfoldable pub map_page : ℕ → Prog Space
map_page address s =
    bind (some (set_reversed_pfn (frame_of s (address / page_size)) (virtual_pfn address) s))
      (create_pte address)

unfoldable pub new_page : ℕ → Prog Space
new_page address s =
    if frame_of s (address / page_size) == 0
    then bind (some (get_page_for (address / page_size) s)) (map_page address)
    else some (ok, s)

-- `co_monitor_alloc_and_map_page`
unfoldable pub alloc_and_map_page : ℕ → Prog Space
alloc_and_map_page address s =
    bind (some (ensure_group out_of_memory (group_of (address / page_size)) s)) (new_page address)

-- The rest of a function that ignores a return code.
abbrev pub whatever : Option (Rc × Space) → Prog Space → Option (Rc × Space)
whatever none k = none
whatever (some (rc, s)) k = k s

-- `co_os_put_page`, and the entry is cleared.
abbrev pub drop_page : ℕ → Prog Space
drop_page n s = some (ok, set_entry (os_put_page s (frame_of s n)) n 0)

-- The frame of page `n` goes back to the host, if there is one.
unfoldable pub release_page : ℕ → Prog Space
release_page n s =
    if frame_of s n == 0
    then some (ok, s)
    else whatever (some (set_reversed_pfn (frame_of s n) 0 s)) (drop_page n)

-- `co_monitor_free_and_unmap_page`
unfoldable pub free_and_unmap_page : ℕ → Prog Space
free_and_unmap_page address s =
    let n = address / page_size in
    elim (s.pp_pfns (group_of n)) [
      | none ↦ some (error, s)
      | some g ↦
          whatever (state_of (create_ptes s (pte_address address) 4 (0 ∷ []))) (release_page n)
    ]

-- What `copy_region_split_callback` writes: the next bytes of the data, or zeros where it is NULL.
abbrev pub region_bytes : ℕ → Option (List ℕ) → List ℕ
region_bytes size none = replicate size 0
region_bytes size (some bs) = take size bs

abbrev pub region_rest : ℕ → Option (List ℕ) → Option (List ℕ)
region_rest size none = none
region_rest size (some bs) = some (drop size bs)

abbrev pub attach : {D : Type 0} → D → Option (Rc × Space) → Option (Rc × (Space × D))
attach d none = none
attach d (some r) = lift d r

-- The page's frame is looked up again, mapped and written.
unfoldable pub write_region : ℕ → ℕ → Prog (Space × Option (List ℕ))
write_region offset size (s, bs) = elim (get_pfn s (page_base offset)) [
  | none ↦ some (error, (s, bs))
  | some pfn ↦ some (
    ok,
    (
      record s { ram = write_bytes s.ram pfn (page_offset offset) (region_bytes size bs) },
      region_rest size bs,
    ),
  )
]

-- `copy_region_split_callback`
unfoldable pub copy_region_split_callback : ℕ → ℕ → Prog (Space × Option (List ℕ))
copy_region_split_callback offset size (s, bs) =
    bind (attach bs (alloc_and_map_page (page_base offset) s)) (write_region offset size)

-- `co_monitor_copy_region`
unfoldable pub copy_region :
    Space → ℕ → ℕ → Option (List ℕ) → Option (Rc × (Space × Option (List ℕ)))
copy_region s address size bs = split_by_pages copy_region_split_callback address size (s, bs)
