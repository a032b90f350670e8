-- ===== src/Transfer/Bounds.antt =====
-- Which ranges the bound tests of transfer.c let through.
use colinux_64bit.Base.{ℕ, ◌+◌, ◌%◌, ◌≤◌, ◌<◌, ◌≡◌, ◌↔◌, ◌⊎◌, inl, inr, arith, some, none}
use colinux_64bit.Rc.{transfer_off_bounds, ok}
use colinux_64bit.Arch.{word, kernel_offset, page_size}
use colinux_64bit.Space.{Space, get_pfn}
use colinux_64bit.Transfer.{Dir, HostFunc, transfer, off_bounds, transfer_map}
use colinux_64bit.Transfer.Copy.{InMemory}

off_bounds_cases :
    (s : Space) (a n : ℕ)
    → (off_bounds s a n ≡ none) ⊎ (off_bounds s a n ≡ some transfer_off_bounds)
unfolding off_bounds
off_bounds_cases s a n = ground arith

off_bounds_iff :
    (s : Space) (a n : ℕ)
    → s.end_physical < word
    → n ≤ kernel_offset
    → (off_bounds s a n ≡ none) ↔ InMemory s a n
unfolding off_bounds
off_bounds_iff s a n e h = (λ p. ground arith, λ p. ground arith)

-- Where the guest's memory ends inside the address space: a transfer of at most 3 GB to or from a
-- range that is not inside the guest's memory is refused with TRANSFER_OFF_BOUNDS before anything
-- is touched, whatever the callback.
pub transfer_refused :
    {D : Type 0} (func : HostFunc D) (s : Space) (d : D) (a n : ℕ) (dir : Dir)
    → s.end_physical < word
    → n ≤ kernel_offset
    → ¬ InMemory s a n
    → transfer func a n dir (s, d) ≡ some (transfer_off_bounds, (s, d))
unfolding transfer
transfer_refused func s d a n dir e h out = elim (off_bounds_cases s a n) [
  | inl p ↦ absurd (out ((off_bounds_iff s a n e h).0 p))
  | inr p ↦ rw (p, transfer)
]

-- A word as size that carries the end of the range once round the address space, back to a kernel
-- address, passes both tests, at an address inside the guest's memory, although the range is not
-- inside that memory.
pub off_bounds_wraps :
    (s : Space) (a n : ℕ)
    → kernel_offset ≤ a
    → a < s.end_physical
    → s.end_physical < word
    → word + kernel_offset ≤ a + n
    → n < word
    → (off_bounds s a n ≡ none) × ¬ InMemory s a n
unfolding off_bounds
off_bounds_wraps s a n h k e w l = (ground arith, λ m. omega arith)

-- Where the guest's memory ends inside the address space and the size is a word: transfer_map
-- returns a frame only where the range is inside the guest's memory, in one page and not empty;
-- then it is the frame of that page, with the offset of the address in it.
pub transfer_map_ok :
    (s : Space) (a n : ℕ) {frame at : ℕ}
    → s.end_physical < word
    → n < word
    → transfer_map s a n ≡ (ok, some (frame, at))
    → InMemory s a n
      × (0 < n)
      × (a % page_size + n ≤ page_size)
      × (get_pfn s a ≡ some frame)
      × (at ≡ a % page_size)
unfolding transfer_map off_bounds
transfer_map_ok s a n e h p = ground arith
