-- ===== src/Space/Example.antt =====
-- A small guest for the tests: two pages of kernel memory in host frames 5 and 9, and three more
-- frames in the host.
use colinux_64bit.Base.{ℕ, ◌+◌, ◌/◌, ◌≡◌, refl, ◌≢◌, none, [], ◌∷◌, ◌==◌, if◌then◌else◌, arith, ◌<◌}
use colinux_64bit.Space.{Space, frame_of, set_entry}
use colinux_64bit.Space.Frames.{frame_of-set_entry}
use colinux_64bit.Space.Valid.{IsValid}

abbrev pub empty : Space
empty = record {
  pp_pfns = λ _. none;
  end_physical = 0xc000_4000;
  blocks_allocated = 0;
  hostmem_pages = 100;
  reversed_map_pfns = λ i. 80 + i;
  reversed_page_count = 1;
  host_pages = 20 ∷ 21 ∷ 22 ∷ [];
  heap_blocks = 3;
  ram = λ f o. 0;
}

-- Pages 0xc0000 and 0xc0001.
abbrev pub guest : Space
guest = set_entry (set_entry empty 0xc0000 5) 0xc0001 9

frame_of-empty : (k : ℕ) → frame_of empty k ≡ 0
unfolding frame_of
frame_of-empty k = refl

pub frame_of-guest :
    (m : ℕ) → frame_of guest m ≡ (if m == 0xc0001 then 9 else if m == 0xc0000 then 5 else 0)
frame_of-guest m = ground (
  arith,
  frame_of-set_entry (set_entry empty 0xc0000 5) 0xc0001 9 m,
  frame_of-set_entry empty 0xc0000 5 m,
  frame_of-empty m,
)

small : (m : ℕ) → frame_of guest m < 10
small m = ground (arith, frame_of-guest m)

pub guest-IsValid : IsValid guest
unfolding set_entry
guest-IsValid = record {
  injective = λ m n z e. ground (arith, frame_of-guest m, frame_of-guest n);
  unused = λ m z. omega (arith, small m);
  handable = omega arith;
  in_host = λ m z. omega (arith, small m);
}

-- The first 0x2000 bytes of kernel memory are mapped.
pub guest_mapped : (i : ℕ) → i < 0x2000 → frame_of guest ((0xc000_0000 + i) / 4096) ≢ 0
guest_mapped i h = ground (arith, frame_of-guest ((0xc000_0000 + i) / 4096))
