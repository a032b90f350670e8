-- ===== src/Transfer/Tests.antt =====
-- Copies to and from a small guest, across the border of its two pages.
use colinux_64bit.Base.{
  ℕ, ◌+◌, ◌-◌, ◌≡◌, ◌≤◌, ◌<◌, refl, some, List, [], ◌∷◌, get_or, arith, leb, ltb, ◌&&◌,
  if◌then◌else◌, ◌%◌,
}
use colinux_64bit.Rc.{ok, transfer_off_bounds}
use colinux_64bit.Arch.{page_size}
use colinux_64bit.Space.{Space, frame_of, set_entry, get_pfn}
use colinux_64bit.Space.Example.{guest, guest-IsValid, guest_mapped}
use colinux_64bit.Transfer.{
  from_host, host_to_linuxvm, linuxvm_to_host, transfer, transfer_memcpy, transfer_map,
}
use colinux_64bit.Transfer.Bytes.{Mapped, pokes, peeks}
use colinux_64bit.Transfer.Copy.{InMemory, host_to_linuxvm-pokes, linuxvm_to_host-peeks}
use colinux_64bit.Transfer.RoundTrip.{
  byte_at, host_to_linuxvm_writes, linuxvm_to_host-host_to_linuxvm,
}
use colinux_64bit.Transfer.Bounds.{transfer_refused, transfer_map_ok}

abbrev at : ℕ
at = 0xc000_0ffe

abbrev bytes : List ℕ
bytes = 1 ∷ 2 ∷ 3 ∷ 4 ∷ []

in_memory : InMemory guest at 4
unfolding set_entry
in_memory = omega arith

mapped : Mapped (frame_of guest) at 4
mapped i h =
    let e : at + i ≡ 0xc000_0000 + (0xffe + i) = omega arith in
    rw e (guest_mapped (0xffe + i) (omega arith))

host_to_linuxvm-pokes_example :
    host_to_linuxvm guest bytes at 4
    ≡ some (ok, (record guest { ram = pokes (frame_of guest) guest.ram at bytes }, []))
host_to_linuxvm-pokes_example = host_to_linuxvm-pokes guest at bytes in_memory mapped

linuxvm_to_host-peeks_example :
    linuxvm_to_host guest at 4 ≡ some (ok, (guest, peeks (frame_of guest) guest.ram at 4))
linuxvm_to_host-peeks_example = linuxvm_to_host-peeks guest at 4 in_memory mapped

host_to_linuxvm_writes_example :
    (s' : Space) × (host_to_linuxvm guest bytes at 4 ≡ some (ok, (s', [])))
    × (s'.pp_pfns ≡ guest.pp_pfns)
    × ((x : ℕ)
        → byte_at s' x
          ≡ (if leb at x && ltb x (at + 4) then get_or bytes (x - at) 0 else byte_at guest x))
host_to_linuxvm_writes_example =
    host_to_linuxvm_writes guest at bytes guest-IsValid in_memory mapped

linuxvm_to_host-host_to_linuxvm_example :
    (s' : Space) × (host_to_linuxvm guest bytes at 4 ≡ some (ok, (s', [])))
    × (linuxvm_to_host s' at 4 ≡ some (ok, (s', bytes)))
linuxvm_to_host-host_to_linuxvm_example =
    linuxvm_to_host-host_to_linuxvm guest at bytes guest-IsValid in_memory mapped

-- A range that ends beyond the guest's memory.
transfer_refused_example :
    transfer transfer_memcpy at 0x4000 from_host (guest, bytes)
    ≡ some (transfer_off_bounds, (guest, bytes))
unfolding set_entry
transfer_refused_example =
    transfer_refused transfer_memcpy guest bytes at 0x4000 from_host (omega arith) (omega arith)
      (λ m. omega arith)

transfer_map_ok_example :
    InMemory guest at 2
    × (0 < 2)
    × (at % page_size + 2 ≤ page_size)
    × (get_pfn guest at ≡ some 5)
    × (0xffe ≡ at % page_size)
unfolding set_entry transfer_map get_pfn
transfer_map_ok_example = transfer_map_ok guest at 2 (omega arith) (omega arith) refl
