-- ===== src/Driver/Tests.antt =====
-- A host of 16 MB with a few unused frames.
use colinux_64bit.Base.{ℕ, ◌≡◌, refl, List, [], ◌∷◌, arith}
use colinux_64bit.Rc.{ok}
use colinux_64bit.Driver.{Host, manager_load, fill_pfns, get_page}
use colinux_64bit.Driver.Load.{Returns}
use colinux_64bit.Driver.Life.{manager_load-Returns}
use colinux_64bit.Driver.Leak.{all_ok, IsLost, manager_load_leaks}

abbrev host_with : List ℕ → Host
host_with frames = record {
  frames = frames;
  blocks = 5;
  tables = [];
  mutexes = 2;
  debugs = 0;
  archdeps = 0;
  osdeps = 0;
  frames_at_init = [];
}

taken : fill_pfns 4096 2 [] (7 ∷ 8 ∷ 9 ∷ []) ≡ (ok, 7 ∷ 8 ∷ [], 9 ∷ [])
unfolding fill_pfns get_page
taken = refl

manager_load-Returns_example :
    Returns
      (all_ok 4096)
      (host_with (1 ∷ 2 ∷ 3 ∷ 4 ∷ 5 ∷ 6 ∷ []))
      (manager_load (all_ok 4096) (host_with (1 ∷ 2 ∷ 3 ∷ 4 ∷ 5 ∷ 6 ∷ [])))
manager_load-Returns_example =
    manager_load-Returns (all_ok 4096) (host_with (1 ∷ 2 ∷ 3 ∷ 4 ∷ 5 ∷ 6 ∷ [])) (omega arith)

manager_load_leaks_example :
    IsLost (1 ∷ 2 ∷ 3 ∷ []) 4 (manager_load (all_ok 4096) (host_with (1 ∷ 2 ∷ 3 ∷ [])))
manager_load_leaks_example =
    manager_load_leaks 4096 4 (host_with (1 ∷ 2 ∷ 3 ∷ [])) (omega arith) refl
      (omega arith, (omega arith, (omega arith, tt))) (omega arith)
