-- ===== src/Transfer/Copy.antt =====
-- The page loops of `co_monitor_host_linuxvm_transfer` do what the byte-wise reference does.
use colinux_64bit.Base.{
  ℕ, zero, suc, ◌+◌, ◌-◌, ◌/◌, ◌%◌, ◌≤◌, ◌<◌, ◌≡◌, ◌≢◌, refl, sym, ◌∙◌, List, [], ◌∷◌, ◌++◌, ◌==◌,
  arith, length, dec_lt, Bool-cases, inl, inr, some, none, take, drop, length-take, length-drop,
  take-append-drop, ==_iff,
}
use mathlib.Core.List.{append-nil, append_assoc}
use colinux_64bit.Rc.{ok}
use colinux_64bit.Arch.{page_size, word, add32, kernel_offset}
use colinux_64bit.Split.{part_size, split, split_by_pages}
use colinux_64bit.Split.Pieces.{round}
use colinux_64bit.Space.{Ram, Space, frame_of, get_pfn}
use colinux_64bit.Transfer.{
  from_host, from_linux, transfer, transfer_page, transfer_memcpy, host_to_linuxvm, linuxvm_to_host,
  off_bounds,
}
use colinux_64bit.Transfer.Bytes.{
  Mapped, peeks, pokes, pokes-append, peeks-append, write_bytes-pokes, read_bytes-peeks,
}

abbrev with_ram : Space → Ram → Space
with_ram s r = record s { ram = r }

-- A page with a frame is found, whatever the bytes.
pub get_pfn-frame_of :
    (s : Space) (r : Ram) (a : ℕ)
    → frame_of s (a / page_size) ≢ 0
    → get_pfn (with_ram s r) a ≡ some (frame_of s (a / page_size))
unfolding get_pfn frame_of
get_pfn-frame_of s r a h = ground arith

-- One piece, written.
piece_in :
    (s : Space) (r : Ram) (a p : ℕ) (bs : List ℕ)
    → frame_of s (a / page_size) ≢ 0
    → a % page_size + length (take p bs) ≤ page_size
    → transfer_page transfer_memcpy from_host a p (with_ram s r, bs)
      ≡ some (ok, (with_ram s (pokes (frame_of s) r a (take p bs)), drop p bs))
unfolding transfer_page transfer_memcpy
piece_in s r a p bs h k =
    rw (get_pfn-frame_of s r a h, transfer_page, write_bytes-pokes (frame_of s) r a (take p bs) k)

piece_out :
    (s : Space) (a p : ℕ) (out : List ℕ)
    → frame_of s (a / page_size) ≢ 0
    → a % page_size + p ≤ page_size
    → transfer_page transfer_memcpy from_linux a p (s, out)
      ≡ some (ok, (s, out ++ peeks (frame_of s) s.ram a p))
unfolding transfer_page transfer_memcpy
piece_out s a p out h k =
    rw (get_pfn-frame_of s s.ram a h, transfer_page, read_bytes-peeks (frame_of s) s.ram a p k)

empty : (xs : List ℕ) → length xs ≡ 0 → xs ≡ []
empty [] h = refl
empty (x ∷ xs) h = absurd (omega arith)

module _ (f : ℕ → ℕ) where
  pokes_parts :
      (r : Ram) (a p : ℕ) (bs : List ℕ)
      → p ≤ length bs
      → a + length bs ≤ word
      → pokes f (pokes f r a (take p bs)) (add32 a p) (drop p bs) ≡ pokes f r a bs
  unfolding pokes
  pokes_parts r a p bs h k = elim (dec_lt (a + p) word) [
    | yes q ↦
        let e : add32 a p ≡ a + length (take p bs) = omega (arith, length-take p bs) in
        rw (e, ← pokes-append f r a (take p bs) (drop p bs), take-append-drop p bs)
    | no q ↦
        let e : drop p bs ≡ [] = empty (drop p bs) (omega (arith, length-drop p bs)) in
        let g : take p bs ≡ bs = sym (append-nil (take p bs)) ∙ (rw e at (take-append-drop p bs)) in
        rw (e, g)
  ]

  peeks_parts :
      (r : Ram) (a p n : ℕ)
      → p ≤ n
      → a + n ≤ word
      → peeks f r a p ++ peeks f r (add32 a p) (n - p) ≡ peeks f r a n
  unfolding peeks
  peeks_parts r a p n h k = elim (dec_lt (a + p) word) [
    | yes q ↦
        let e : add32 a p ≡ a + p = omega arith in
        let g : p + (n - p) ≡ n = omega arith in rw (e, ← peeks-append f r a p (n - p), g)
    | no q ↦
        let e : n - p ≡ 0 = omega arith in
        let g : p ≡ n = omega arith in rw (e, append-nil (peeks f r a p), g)
  ]

  Mapped-next : (a p n : ℕ) → p ≤ n → a + n ≤ word → Mapped f a n → Mapped f (add32 a p) (n - p)
  Mapped-next a p n h k m i lt =
      let e : add32 a p + i ≡ a + (p + i) = omega arith in rw e (m (p + i) (omega arith))

Mapped-first : (f : ℕ → ℕ) (a n : ℕ) → 0 < n → Mapped f a n → f (a / page_size) ≢ 0
Mapped-first f a n h m = let e : a + 0 ≡ a = omega arith in rw e at (m 0 h)

-- The loop that writes.
copy_in :
    (s : Space) (fuel a n : ℕ) (r : Ram) (bs : List ℕ)
    → n < fuel
    → a + n ≤ word
    → length bs ≡ n
    → Mapped (frame_of s) a n
    → split fuel (transfer_page transfer_memcpy from_host) a n (with_ram s r, bs)
      ≡ some (ok, (with_ram s (pokes (frame_of s) r a bs), []))
unfolding split pokes
copy_in s zero a n r bs lt k l m = elim lt [ ]
copy_in s (suc fuel) a n r bs lt k l m = elim (Bool-cases (n == 0)) [
  | inl e ↦ rw (e, empty bs (l ∙ (==_iff n 0).0 e))
  | inr e ↦
      let p = part_size a n in
      let rd = round fuel a n lt k e in
      let f = frame_of s in
      let size : a % page_size + length (take p bs) ≤ page_size =
        omega (arith, length-take p bs, rd.in_page, rd.no_more) in
      let left : length (drop p bs) ≡ n - p = omega (arith, length-drop p bs) in
      let first = Mapped-first f a n (omega (arith, rd.some_left, rd.no_more)) m in
      rw (
        e,
        piece_in s r a p bs first size,
        copy_in s fuel (add32 a p) (n - p) (pokes f r a (take p bs)) (drop p bs) rd.fuel_left
            rd.in_space left (Mapped-next f a p n rd.no_more k m),
        pokes_parts f r a p bs (omega (arith, rd.no_more)) (omega arith),
      )
]

-- The loop that reads.
copy_out :
    (s : Space) (fuel a n : ℕ) (out : List ℕ)
    → n < fuel
    → a + n ≤ word
    → Mapped (frame_of s) a n
    → split fuel (transfer_page transfer_memcpy from_linux) a n (s, out)
      ≡ some (ok, (s, out ++ peeks (frame_of s) s.ram a n))
unfolding split peeks
copy_out s zero a n out lt k m = elim lt [ ]
copy_out s (suc fuel) a n out lt k m = elim (Bool-cases (n == 0)) [
  | inl e ↦ rw (e, (==_iff n 0).0 e, append-nil out)
  | inr e ↦
      let p = part_size a n in
      let rd = round fuel a n lt k e in
      let f = frame_of s in
      let first = Mapped-first f a n (omega (arith, rd.some_left, rd.no_more)) m in
      rw (
        e,
        piece_out s a p out first rd.in_page,
        copy_out s fuel (add32 a p) (n - p) (out ++ peeks f s.ram a p) rd.fuel_left rd.in_space
            (Mapped-next f a p n rd.no_more k m),
        append_assoc out (peeks f s.ram a p) (peeks f s.ram (add32 a p) (n - p)),
        peeks_parts f s.ram a p n rd.no_more k,
      )
]

-- A range of the guest's kernel addresses that lies in its memory.
abbrev pub InMemory : Space → ℕ → ℕ → Type 0
InMemory s a n =
    (kernel_offset ≤ a) × (a < s.end_physical) × (a + n ≤ s.end_physical) × (s.end_physical < word)

off_bounds_inside : (s : Space) (a n : ℕ) → InMemory s a n → off_bounds s a n ≡ none
unfolding off_bounds
off_bounds_inside s a n h = ground arith

-- Writing `bs` to a range of guest memory whose pages all have frames succeeds, takes all of `bs`,
-- and leaves in the host's frames what the byte-by-byte reference leaves.
pub host_to_linuxvm-pokes :
    (s : Space) (a : ℕ) (bs : List ℕ)
    → InMemory s a (length bs)
    → Mapped (frame_of s) a (length bs)
    → host_to_linuxvm s bs a (length bs)
      ≡ some (ok, (record s { ram = pokes (frame_of s) s.ram a bs }, []))
unfolding host_to_linuxvm transfer split_by_pages
host_to_linuxvm-pokes s a bs h m =
    rw (off_bounds_inside s a (length bs) h, transfer)
      (copy_in s (suc (length bs)) a (length bs) s.ram bs (omega arith) (omega arith) refl m)

-- Reading such a range succeeds, changes nothing, and gives the bytes of the reference.
pub linuxvm_to_host-peeks :
    (s : Space) (a n : ℕ)
    → InMemory s a n
    → Mapped (frame_of s) a n
    → linuxvm_to_host s a n ≡ some (ok, (s, peeks (frame_of s) s.ram a n))
unfolding linuxvm_to_host transfer split_by_pages
linuxvm_to_host-peeks s a n h m =
    rw (off_bounds_inside s a n h, transfer)
      (copy_out s (suc n) a n [] (omega arith) (omega arith) m)
