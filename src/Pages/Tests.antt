-- ===== src/Pages/Tests.antt =====
-- Allocating, filling and freeing pages of a small guest.
use colinux_64bit.Base.{ℕ, ◌/◌, some, List, [], ◌∷◌, arith, true}
use colinux_64bit.Prog.Holds.{Holds, OnOk}
use colinux_64bit.Arch.{page_size}
use colinux_64bit.Space.Example.{guest, guest-IsValid}
use colinux_64bit.Pages.{
  copy_callback, scan_pfns_and_callback, copy_and_create_pfns, free_and_unmap_page,
}
use colinux_64bit.Pages.Keep.{GrownWith, Grown-refl, scan-Grown}
use colinux_64bit.Pages.Free.{Freed, free_and_unmap_page-Freed}
use colinux_64bit.Pages.Fill.{Filled, copy_and_create_pfns-Wrote}

abbrev bytes : List ℕ
bytes = 1 ∷ 2 ∷ 3 ∷ 4 ∷ []

scan-Grown_example :
    Holds
      (GrownWith guest)
      (scan_pfns_and_callback 0xc000_1ffe 4 (some copy_callback) true (guest, bytes))
scan-Grown_example =
    scan-Grown guest (some copy_callback) true 0xc000_1ffe 4 guest bytes (omega arith)
      (Grown-refl guest guest-IsValid)

free_and_unmap_page-Freed_example :
    Holds (Freed guest (0xc000_1000 / page_size)) (free_and_unmap_page 0xc000_1000 guest)
free_and_unmap_page-Freed_example = free_and_unmap_page-Freed 0xc000_1000 guest guest-IsValid

copy_and_create_pfns-Wrote_example :
    OnOk (Filled guest 0xc000_1ffe bytes) (copy_and_create_pfns guest 0xc000_1ffe 4 bytes)
copy_and_create_pfns-Wrote_example =
    copy_and_create_pfns-Wrote guest 0xc000_1ffe bytes (omega arith) guest-IsValid
