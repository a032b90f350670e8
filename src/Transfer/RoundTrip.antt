-- ===== src/Transfer/RoundTrip.antt =====
-- What the guest's memory holds after a copy, seen through its own addresses.
use colinux_64bit.Base.{
  ℕ, ◌+◌, ◌-◌, ◌≡◌, refl, ltb, leb, if◌then◌else◌, ◌&&◌, length, get_or, List, [], some,
}
use colinux_64bit.Rc.{ok}
use colinux_64bit.Space.{Space, frame_of}
use colinux_64bit.Space.Valid.{IsValid}
use colinux_64bit.Transfer.{host_to_linuxvm, linuxvm_to_host}
use colinux_64bit.Transfer.Bytes.{Mapped, peek, pokes, peek-pokes, peeks-pokes}
use colinux_64bit.Transfer.Copy.{InMemory, host_to_linuxvm-pokes, linuxvm_to_host-peeks}

-- Guest address `x` read through the guest's table.
abbrev pub byte_at : Space → ℕ → ℕ
byte_at s = peek (frame_of s) s.ram

-- In a valid space, writing to a range of guest memory whose pages have frames succeeds; every
-- address of the range then holds its byte, every other address the byte that it held, and the
-- table of frames is as before.
pub host_to_linuxvm_writes :
    (s : Space) (a : ℕ) (bs : List ℕ)
    → IsValid s
    → InMemory s a (length bs)
    → Mapped (frame_of s) a (length bs)
    → (s' : Space) × (host_to_linuxvm s bs a (length bs) ≡ some (ok, (s', [])))
      × (s'.pp_pfns ≡ s.pp_pfns)
      × ((x : ℕ)
          → byte_at s' x
            ≡ (if leb a x && ltb x (a + length bs) then get_or bs (x - a) 0 else byte_at s x))
unfolding frame_of
host_to_linuxvm_writes s a bs v h m = (
  record s { ram = pokes (frame_of s) s.ram a bs },
  host_to_linuxvm-pokes s a bs h m,
  refl,
  λ x. peek-pokes (frame_of s) s.ram a bs x v.injective m,
)

-- In a valid space, a write to a range of guest memory whose pages have frames succeeds, and a read
-- of the same range then succeeds, gives the bytes that were written, and changes nothing.
pub linuxvm_to_host-host_to_linuxvm :
    (s : Space) (a : ℕ) (bs : List ℕ)
    → IsValid s
    → InMemory s a (length bs)
    → Mapped (frame_of s) a (length bs)
    → (s' : Space) × (host_to_linuxvm s bs a (length bs) ≡ some (ok, (s', [])))
      × (linuxvm_to_host s' a (length bs) ≡ some (ok, (s', bs)))
unfolding frame_of
linuxvm_to_host-host_to_linuxvm s a bs v h m =
    let s' : Space = record s { ram = pokes (frame_of s) s.ram a bs } in
    let read = linuxvm_to_host-peeks s' a (length bs) h m in
    (
      s',
      host_to_linuxvm-pokes s a bs h m,
      rw (peeks-pokes (frame_of s) s.ram a bs v.injective m) at read,
    )
