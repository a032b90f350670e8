-- ===== src/Machine/Load.antt =====
-- `load_initrd`: where the initial RAM disk goes, and what a refusal leaves.
use colinux_64bit.Base.{
  ℕ, ◌+◌, ◌%◌, ◌≡◌, ◌<◌, ◌≤◌, refl, inl, inr, Option, none, some, List, leb, arith, Bool-cases,
  false,
}
use colinux_64bit.Rc.{Rc, ok}
use colinux_64bit.Prog.{bind}
use colinux_64bit.Prog.Holds.{Holds}
use colinux_64bit.Arch.{word, add32, page_size, kernel_offset}
use colinux_64bit.Space.{Space}
use colinux_64bit.Space.Valid.{IsValid}
use colinux_64bit.Pages.{copy_region}
use colinux_64bit.Pages.Keep.{Grown, GrownWith, Grown-refl, copy_region-Grown}
use colinux_64bit.Machine.{
  Monitor, is_initialized, with_space, initrd_start, set_initrd, copy_initrd, load_initrd,
}

-- The state and the layout are as before, and no page has lost its frame.
pub record LeftAs (m m' : Monitor) : Type 0 where
  pub grown : Grown m.space m'.space
  pub state : m'.state ≡ m.state
  pub core_end : m'.core_end ≡ m.core_end
  pub memory_size : m'.memory_size ≡ m.memory_size

-- A megabyte and more above the kernel, at the start of a page, and below the end of the memory.
pub record Placed (size : ℕ) (m m' : Monitor) : Type 0 where
  pub size_is : m'.initrd_size ≡ size
  pub above : m.core_end + 0x10_0000 < m'.initrd_address
  pub aligned : m'.initrd_address % page_size ≡ 0
  pub below : m'.initrd_address + size < kernel_offset + m.memory_size

abbrev pub IsLoaded : ℕ → Monitor → Option (Rc × Monitor) → Type 0
IsLoaded size m none = ⊥
IsLoaded size m (some (ok, m')) = LeftAs m m' × Placed size m m'
IsLoaded size m (some (rc, m')) =
    LeftAs m m' × (m'.initrd_address ≡ m.initrd_address) × (m'.initrd_size ≡ m.initrd_size)

module _ (size : ℕ) (m : Monitor) (v : IsValid m.space) (core : m.core_end + 0x10_0000 < word)
    (memory : kernel_offset + m.memory_size < word) (whole : m.memory_size % page_size ≡ 0)
    (fits : size + page_size ≤ kernel_offset + m.memory_size) where
  refl-LeftAs : LeftAs m m
  refl-LeftAs = record {
    grown = Grown-refl m.space v;
    state = refl;
    core_end = refl;
    memory_size = refl;
  }

  copied-IsLoaded :
      (o : Option (Rc × (Space × Option (List ℕ))))
      → leb (initrd_start m size) (add32 m.core_end 0x10_0000) ≡ false
      → Holds (GrownWith m.space) o
      → IsLoaded size m (bind (with_space m o) (set_initrd (initrd_start m size) size))
  copied-IsLoaded none e h = absurd h
  copied-IsLoaded (some (ok, (s, left))) e g = (
    record { grown = g; state = refl; core_end = refl; memory_size = refl },
    record { size_is = refl; above = ground arith; aligned = omega arith; below = omega arith },
  )
  copied-IsLoaded (some (_, (s, left))) e g =
      (record { grown = g; state = refl; core_end = refl; memory_size = refl }, refl, refl)

  -- In a valid space, with a layout that fits a word and whole pages of memory, and a disk that is
  -- not larger than the addresses below the end of the memory: loading the disk ends. On success it
  -- starts with a page, more than a megabyte above the kernel, and ends below the end of the memory;
  -- otherwise the disk that was known before is known still. No page loses its frame.
  pub load_initrd-IsLoaded : (buf : List ℕ) → IsLoaded size m (load_initrd size buf m)
  unfolding load_initrd copy_initrd
  load_initrd-IsLoaded buf = elim (Bool-cases (is_initialized m.state)) [
    | inl e ↦ elim (Bool-cases (leb (initrd_start m size) (add32 m.core_end 0x10_0000))) [
      | inl f ↦ rw (e, f) (refl-LeftAs, refl, refl)
      | inr f ↦
          rw (e, f)
            (copied-IsLoaded (copy_region m.space (initrd_start m size) size (some buf)) f
              (copy_region-Grown m.space (initrd_start m size) size (some buf) (omega arith) v))
    ]
    | inr e ↦ rw e (refl-LeftAs, refl, refl)
  ]
