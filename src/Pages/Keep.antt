-- ===== src/Pages/Keep.antt =====
-- Allocating and filling guest pages keeps the frames apart, and takes no page's frame away.
use colinux_64bit.Base.{
  ℕ, ◌<◌, ◌/◌, ◌≡◌, ◌≢◌, refl, sym, ap, ◌∙◌, inl, inr, Bool, true, false, Option, none, some, List,
  [], ◌∷◌, Option-cases, ◌==◌, arith, Bool-cases, ==_iff, leb,
}
use colinux_64bit.Rc.{Rc, error, out_of_memory}
use colinux_64bit.Prog.Holds.{Holds, bind-Holds}
use colinux_64bit.Arch.{word, page_size, page_base, ptrs_per_pte}
use colinux_64bit.Split.Keep.{split_by_pages-Holds}
use colinux_64bit.Space.{Space, Ram, frame_of, group_of, ensure_group, get_page_for, get_pfn}
use colinux_64bit.Space.Frames.{frame_of-ensure_group}
use colinux_64bit.Space.Valid.{IsValid, IsValid-same, get_page_for-IsValid, frame_of-get_page_for}
use colinux_64bit.Pages.{
  Callback, lift, create_ptes_callback, pte_address, virtual_pfn, attach, state_of, ensure_page,
  call_back, scan_pfns_split_callback, scan_page, create_pte, map_page, new_page, write_region,
  scan_pfns_and_callback, create_ptes, set_reversed_pfn, alloc_and_map_page,
  copy_region_split_callback, copy_region,
}

-- `s` is valid, and every page that had a frame in `s0` still has that frame.
pub record Grown (s0 s : Space) : Type 0 where
  pub valid : IsValid s
  pub stays : (m : ℕ) → frame_of s0 m ≢ 0 → frame_of s m ≡ frame_of s0 m

pub Grown-refl : (s : Space) → IsValid s → Grown s s
Grown-refl s v = record { valid = v; stays = λ m h. refl }

-- Bytes do not matter.
pub with_ram-Grown : (s0 s : Space) (r : Ram) → Grown s0 s → Grown s0 (record s { ram = r })
unfolding frame_of
with_ram-Grown s0 s r g = record {
  valid = IsValid-same s (record s { ram = r }) (λ m. refl) refl refl g.valid;
  stays = g.stays;
}

host_pages-ensure_group :
    (fail : Rc) (k : ℕ) (s : Space)
    → ((ensure_group fail k s).1.host_pages ≡ s.host_pages)
      × ((ensure_group fail k s).1.hostmem_pages ≡ s.hostmem_pages)
unfolding ensure_group
host_pages-ensure_group fail k s = ground arith

pub ensure_group-Grown :
    (s0 : Space) (fail : Rc) (k : ℕ) (s : Space) → Grown s0 s → Grown s0 (ensure_group fail k s).1
ensure_group-Grown s0 fail k s g = record {
  valid =
      let e = host_pages-ensure_group fail k s in
      IsValid-same s (ensure_group fail k s).1 (frame_of-ensure_group fail k s) e.0 e.1 g.valid;
  stays = λ m h. frame_of-ensure_group fail k s m ∙ g.stays m h;
}

pub get_page_for-Grown :
    (s0 : Space) (n : ℕ) (s : Space) → frame_of s n ≡ 0 → Grown s0 s → Grown s0 (get_page_for n s).1
get_page_for-Grown s0 n s z g = record {
  valid = get_page_for-IsValid n s z g.valid;
  stays = λ m h.
      frame_of-get_page_for n s m (λ e. h (sym (g.stays m h) ∙ ap (frame_of s) e ∙ z))
      ∙ g.stays m h;
}

pub ensure_page-Grown : (s0 : Space) (n : ℕ) (s : Space) → Grown s0 s → Grown s0 (ensure_page n s).1
unfolding ensure_page
ensure_page-Grown s0 n s g = elim (Bool-cases (frame_of s n == 0)) [
  | inl e ↦ rw e (get_page_for-Grown s0 n s ((==_iff (frame_of s n) 0).0 e) g)
  | inr e ↦ rw e g
]

module _ {D : Type 0} (s0 : Space) where
  abbrev pub GrownWith : Space × D → Type 0
  GrownWith (s, d) = Grown s0 s

  call_back-Grown :
      (func : Option (Callback D)) (offset size : ℕ) (t : Space × D)
      → GrownWith t
      → Holds GrownWith (call_back func offset size t)
  unfolding call_back
  call_back-Grown none offset size (s, d) g = g
  call_back-Grown (some func) offset size (s, d) g = with_ram-Grown s0 s _ g

  scan_page-Grown :
      (func : Option (Callback D)) (alloc : Bool) (offset size : ℕ) (t : Space × D)
      → GrownWith t
      → Holds GrownWith (scan_page func alloc offset size t)
  unfolding scan_page
  scan_page-Grown func true offset size (s, d) g =
      bind-Holds GrownWith (lift d (ensure_page (offset / page_size) s))
        (call_back func offset size) (ensure_page-Grown s0 (offset / page_size) s g)
        (call_back-Grown func offset size)
  scan_page-Grown func false offset size (s, d) g = g

  scan_split-Grown :
      (func : Option (Callback D)) (alloc : Bool) (offset size : ℕ) (t : Space × D)
      → GrownWith t
      → Holds GrownWith (scan_pfns_split_callback func alloc offset size t)
  unfolding scan_pfns_split_callback
  scan_split-Grown func alloc offset size (s, d) g =
      bind-Holds GrownWith (lift d (ensure_group error (group_of (offset / page_size)) s))
        (scan_page func alloc offset size)
        (ensure_group-Grown s0 error (group_of (offset / page_size)) s g)
        (scan_page-Grown func alloc offset size)

  -- From any word as address, whatever is called on the pages of a range: the walk ends and, on
  -- success and on failure, frames stay apart and no page loses its frame.
  pub scan-Grown :
      (func : Option (Callback D)) (alloc : Bool) (address size : ℕ) (s : Space) (d : D)
      → address < word
      → Grown s0 s
      → Holds GrownWith (scan_pfns_and_callback address size func alloc (s, d))
  unfolding scan_pfns_and_callback
  scan-Grown func alloc address size s d w g =
      split_by_pages-Holds GrownWith (scan_pfns_split_callback func alloc)
        (λ offset part t h. scan_split-Grown func alloc offset part t h) address size (s, d) w g

module _ (s0 : Space) where
  pub state_of-Grown :
      {D : Type 0} (o : Option (Rc × (Space × D)))
      → Holds (GrownWith s0) o
      → Holds (Grown s0) (state_of o)
  state_of-Grown none g = absurd g
  state_of-Grown (some (rc, (s, d))) g = g

  attach-Grown :
      {D : Type 0} (d : D) (o : Option (Rc × Space))
      → Holds (Grown s0) o
      → Holds (GrownWith s0) (attach d o)
  attach-Grown d none g = absurd g
  attach-Grown d (some (rc, s)) g = g

  pub set_reversed_pfn-Grown :
      (real pseudo : ℕ) (s : Space) → Grown s0 s → Grown s0 (set_reversed_pfn real pseudo s).1
  unfolding set_reversed_pfn
  set_reversed_pfn-Grown real pseudo s g =
      elim (Bool-cases (leb s.reversed_page_count (real / ptrs_per_pte))) [
        | inl e ↦ rw e g
        | inr e ↦ rw e (with_ram-Grown s0 s _ g)
      ]

  create_pte-Grown :
      (address : ℕ) (s : Space) → Grown s0 s → Holds (Grown s0) (create_pte address s)
  unfolding create_pte create_ptes
  create_pte-Grown address s g =
      state_of-Grown (create_ptes s (pte_address address) 4 (frame_of s (address / page_size) ∷ []))
        (scan-Grown s0 (some create_ptes_callback) true (pte_address address) 4 s _ (omega arith) g)

  pub map_page-Grown :
      (address : ℕ) (s : Space) → Grown s0 s → Holds (Grown s0) (map_page address s)
  unfolding map_page
  map_page-Grown address s g =
      bind-Holds (Grown s0)
        (some (set_reversed_pfn (frame_of s (address / page_size)) (virtual_pfn address) s))
        (create_pte address) (set_reversed_pfn-Grown _ _ s g) (create_pte-Grown address)

  new_page-Grown : (address : ℕ) (s : Space) → Grown s0 s → Holds (Grown s0) (new_page address s)
  unfolding new_page
  new_page-Grown address s g = elim (Bool-cases (frame_of s (address / page_size) == 0)) [
    | inl e ↦
        let z = (==_iff (frame_of s (address / page_size)) 0).0 e in
        rw e (
          bind-Holds (Grown s0) (some (get_page_for (address / page_size) s)) (map_page address)
            (get_page_for-Grown s0 (address / page_size) s z g) (map_page-Grown address))
    | inr e ↦ rw e g
  ]

  alloc-Grown :
      (address : ℕ) (s : Space) → Grown s0 s → Holds (Grown s0) (alloc_and_map_page address s)
  unfolding alloc_and_map_page
  alloc-Grown address s g =
      bind-Holds (Grown s0) (some (ensure_group out_of_memory (group_of (address / page_size)) s))
        (new_page address)
        (ensure_group-Grown s0 out_of_memory (group_of (address / page_size)) s g)
        (new_page-Grown address)

  write_region-Grown :
      (offset size : ℕ) (t : Space × Option (List ℕ))
      → GrownWith s0 t
      → Holds (GrownWith s0) (write_region offset size t)
  unfolding write_region
  write_region-Grown offset size (s, bs) g = elim (Option-cases (get_pfn s (page_base offset))) [
    | inl e ↦ rw (e, write_region) g
    | inr (p, e) ↦ rw (e, write_region) (with_ram-Grown s0 s _ g)
  ]

  copy_split-Grown :
      (offset size : ℕ) (t : Space × Option (List ℕ))
      → GrownWith s0 t
      → Holds (GrownWith s0) (copy_region_split_callback offset size t)
  unfolding copy_region_split_callback
  copy_split-Grown offset size (s, bs) g =
      bind-Holds (GrownWith s0) (attach bs (alloc_and_map_page (page_base offset) s))
        (write_region offset size)
        (attach-Grown bs (alloc_and_map_page (page_base offset) s)
          (alloc-Grown (page_base offset) s g))
        (write_region-Grown offset size)

-- In a valid space, allocating and mapping a page ends, keeps the frames apart and takes no page's
-- frame away, also where it fails half-way.
pub alloc_and_map_page-Grown :
    (address : ℕ) (s : Space) → IsValid s → Holds (Grown s) (alloc_and_map_page address s)
alloc_and_map_page-Grown address s v = alloc-Grown s address s (Grown-refl s v)

-- In a valid space, copying a region in, page by page, from any word as address and whatever the
-- data, ends, keeps the frames apart and takes no page's frame away, also where it fails half-way.
pub copy_region-Grown :
    (s : Space) (address size : ℕ) (bs : Option (List ℕ))
    → address < word
    → IsValid s
    → Holds (GrownWith s) (copy_region s address size bs)
unfolding copy_region
copy_region-Grown s address size bs w v =
    split_by_pages-Holds (GrownWith s) copy_region_split_callback (copy_split-Grown s) address size
      (s, bs) w (Grown-refl s v)
