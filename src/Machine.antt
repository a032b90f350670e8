-- ===== src/Machine.antt =====
-- src/colinux/kernel/monitor.c: the guest's memory as the driver's calls change it: pages that the
-- guest allocates and frees, and loading the kernel's sections and the initial RAM disk.
pub mod Alloc
pub mod Load
pub mod Create
pub mod Life
mod Tests
use colinux_64bit.Base.{
  ℕ, zero, suc, ◌+◌, ◌*◌, ◌/◌, ◌%◌, Bool, true, false, Option, none, some, List, leb, if◌then◌else◌,
}
use colinux_64bit.Rc.{Rc, ok, error}
use colinux_64bit.Prog.{Prog, bind}
use colinux_64bit.Arch.{word, add32, sub32, page_size, kernel_offset}
use colinux_64bit.Space.{Space}
use colinux_64bit.Pages.{whatever, alloc_and_map_page, free_and_unmap_page, copy_region}

-- `co_free_pages`: what a page answers is ignored. A negative `num_pages` is no round, as 0 is.
unfoldable pub free_pages : ℕ → ℕ → Prog Space
free_pages address zero s = some (ok, s)
free_pages address (suc left) s =
    whatever (free_and_unmap_page address s) (free_pages (add32 address page_size) left)

-- Where page `i` has no success, the pages before it are freed and the code is returned.
abbrev pub answer : Rc → Option (Rc × Space) → Option (Rc × Space)
answer rc none = none
answer rc (some (freed, s)) = some (rc, s)

abbrev pub next_or_back : Option (Rc × Space) → Prog Space → Prog Space → Option (Rc × Space)
next_or_back none next back = none
next_or_back (some (ok, s)) next back = next s
next_or_back (some (rc, s)) next back = answer rc (back s)

-- The loop of `co_alloc_pages`, from page `i` at `scan_address`, for the number of pages left.
unfoldable pub alloc_from : ℕ → ℕ → ℕ → ℕ → Prog Space
alloc_from address i scan_address zero s = some (ok, s)
alloc_from address i scan_address (suc left) s =
    next_or_back (alloc_and_map_page scan_address s)
      (alloc_from address (suc i) (add32 scan_address page_size) left) (free_pages address i)

-- `co_alloc_pages`
unfoldable pub alloc_pages : ℕ → ℕ → Prog Space
alloc_pages address num_pages = alloc_from address 0 address num_pages

-- `co_monitor_state_t`
pub data State : Type 0 where
  empty initialized running started terminated : State

abbrev pub is_initialized : State → Bool
is_initialized initialized = true
is_initialized _ = false

-- The fields of `co_monitor_t` for its state, its memory and what is loaded there.
pub record Monitor : Type 0 where
  pub state : State
  pub space : Space
  pub core_end : ℕ
  pub memory_size : ℕ
  pub initrd_address : ℕ
  pub initrd_size : ℕ

abbrev pub with_space : Monitor → Option (Rc × (Space × Option (List ℕ))) → Option (Rc × Monitor)
with_space m none = none
with_space m (some (rc, (s, left))) = some (rc, record m { space = s })

-- `load_section`: the section's bytes, or zeros.
unfoldable pub load_section : Bool → ℕ → ℕ → List ℕ → Prog Monitor
load_section user_ptr address size buf m =
    if is_initialized m.state
    then with_space m (copy_region m.space address size (if user_ptr then some buf else none))
    else some (error, m)

-- `(params->size + CO_ARCH_PAGE_SIZE) >> CO_ARCH_PAGE_SHIFT`
abbrev pub initrd_pages : ℕ → ℕ
initrd_pages size = add32 size page_size / page_size

-- `CO_ARCH_KERNEL_OFFSET + cmon->memory_size - (pages << CO_ARCH_PAGE_SHIFT)`
abbrev pub initrd_start : Monitor → ℕ → ℕ
initrd_start m size =
    sub32 (add32 kernel_offset m.memory_size) (initrd_pages size * page_size % word)

abbrev pub set_initrd : ℕ → ℕ → Prog Monitor
set_initrd address size m = some (ok, record m { initrd_address = address; initrd_size = size })

-- The copy, once the place is found.
unfoldable pub copy_initrd : ℕ → ℕ → List ℕ → Prog Monitor
copy_initrd address size buf m =
    bind (with_space m (copy_region m.space address size (some buf))) (set_initrd address size)

-- `load_initrd`
unfoldable pub load_initrd : ℕ → List ℕ → Prog Monitor
load_initrd size buf m =
    if is_initialized m.state
    then (if leb (initrd_start m size) (add32 m.core_end 0x10_0000)
        then some (error, m)
        else copy_initrd (initrd_start m size) size buf m)
    else some (error, m)
