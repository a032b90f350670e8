-- ===== src/Transfer.antt =====
-- src/colinux/kernel/transfer.c: copying between the host and the guest's kernel addresses, page
-- by page through the guest's table of frames. A copy's data is a list: the bytes still to write,
-- or the bytes read so far (`*host += size` moves to the rest of the list, or to its end).
pub mod Bytes
pub mod Copy
pub mod Bounds
pub mod RoundTrip
mod Tests
use colinux_64bit.Base.{
  ℕ, ◌+◌, ◌-◌, ◌/◌, ◌*◌, ◌%◌, ◌^◌, Option, none, some, List, [], ◌∷◌, ◌++◌, ◌==◌, ltb, leb, ◌||◌,
  if◌then◌else◌, take, drop,
}
use colinux_64bit.Rc.{Rc, ok, error, transfer_off_bounds}
use colinux_64bit.Prog.{Prog}
use colinux_64bit.Arch.{add32, sub32, page_base, page_offset, page_size, kernel_offset}
use colinux_64bit.Split.{split_by_pages}
use colinux_64bit.Space.{Space, get_pfn, write_bytes, read_bytes}

-- `co_monitor_transfer_dir_t`
pub data Dir : Type 0 where
  from_host from_linux : Dir

-- `co_monitor_transfer_func_t`: on a frame, from an offset in it, a number of bytes.
abbrev pub HostFunc : Type 0 → Type 0
HostFunc D = Dir → ℕ → ℕ → ℕ → Space × D → Rc × (Space × D)

-- The two tests that both functions begin with.
pub off_bounds : Space → ℕ → ℕ → Option Rc
off_bounds s vaddr size =
    if ltb vaddr kernel_offset || leb s.end_physical vaddr
    then some transfer_off_bounds
    else if ltb (add32 vaddr size) kernel_offset || ltb s.end_physical (add32 vaddr size)
    then some transfer_off_bounds
    else none

-- `co_monitor_host_linuxvm_transfer_map`: the frame, and the offset of `*start` in the mapped page.
pub transfer_map : Space → ℕ → ℕ → Rc × Option (ℕ × ℕ)
unfolding off_bounds
transfer_map s vaddr size = elim (off_bounds s vaddr size) [
  | some rc ↦ (rc, none)
  | none ↦
      if size == 0 || ltb (sub32 (page_base (add32 vaddr page_size)) vaddr) size
      then (transfer_off_bounds, none)
      else elim (get_pfn s vaddr) [
        | none ↦ (error, none)
        | some pfn ↦ (ok, some (pfn, page_offset vaddr))
      ]
]

-- One round of the `while` loop: the frame of the page, and the callback on the mapped page.
pub transfer_page : {D : Type 0} → HostFunc D → Dir → ℕ → ℕ → Prog (Space × D)
transfer_page func dir vaddr one_copy (s, d) = elim (get_pfn s vaddr) [
  | none ↦ some (error, (s, d))
  | some pfn ↦ some (func dir pfn (page_offset vaddr) one_copy (s, d))
]

-- `co_monitor_host_linuxvm_transfer`
pub transfer : {D : Type 0} → HostFunc D → ℕ → ℕ → Dir → Prog (Space × D)
unfolding off_bounds transfer_page
transfer func vaddr size dir (s, d) = elim (off_bounds s vaddr size) [
  | some rc ↦ some (rc, (s, d))
  | none ↦ split_by_pages (transfer_page func dir) vaddr size (s, d)
]

-- `co_monitor_transfer_memcpy`
pub transfer_memcpy : HostFunc (List ℕ)
transfer_memcpy from_host frame at size (s, host) =
    (ok, (record s { ram = write_bytes s.ram frame at (take size host) }, drop size host))
transfer_memcpy from_linux frame at size (s, host) =
    (ok, (s, host ++ read_bytes s.ram frame at size))

-- `co_monitor_host_to_linuxvm`
pub host_to_linuxvm : Space → List ℕ → ℕ → ℕ → Option (Rc × (Space × List ℕ))
host_to_linuxvm s from to size = transfer transfer_memcpy to size from_host (s, from)

-- `co_monitor_linuxvm_to_host`
pub linuxvm_to_host : Space → ℕ → ℕ → Option (Rc × (Space × List ℕ))
linuxvm_to_host s from size = transfer transfer_memcpy from size from_linux (s, [])
