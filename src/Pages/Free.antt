-- ===== src/Pages/Free.antt =====
-- `co_monitor_free_and_unmap_page`: the frame goes back to the host, and only that one.
use colinux_64bit.Base.{
  ℕ, ◌/◌, ◌≡◌, ◌≢◌, sym, inl, inr, Option, none, some, [], ◌∷◌, ◌==◌, if◌then◌else◌, arith,
  Bool-cases, Option-cases, ==_iff, true,
}
use mathlib.Core.Path.{subst}
use colinux_64bit.Rc.{Rc}
use colinux_64bit.Prog.{Prog}
use colinux_64bit.Prog.Holds.{Holds}
use colinux_64bit.Arch.{page_size}
use colinux_64bit.Space.{Space, frame_of, group_of, set_entry, os_put_page}
use colinux_64bit.Space.Frames.{frame_of-set_entry}
use colinux_64bit.Space.Valid.{IsValid, Absent}
use colinux_64bit.Pages.{
  state_of, whatever, create_ptes, create_ptes_callback, set_reversed_pfn, release_page,
  free_and_unmap_page, pte_address,
}
use colinux_64bit.Pages.Keep.{Grown, Grown-refl, scan-Grown, state_of-Grown, set_reversed_pfn-Grown}

-- Page `n` has no frame any more, and no other page has lost its own.
pub record Freed (s0 : Space) (n : ℕ) (s : Space) : Type 0 where
  pub valid : IsValid s
  pub gone : frame_of s n ≡ 0
  pub others : (m : ℕ) → m ≢ n → frame_of s0 m ≢ 0 → frame_of s m ≡ frame_of s0 m

look_put :
    (n p : ℕ) (s : Space) (m : ℕ)
    → frame_of (set_entry (os_put_page s p) n 0) m ≡ (if m == n then 0 else frame_of s m)
unfolding frame_of os_put_page
look_put n p s m = frame_of-set_entry (os_put_page s p) n 0 m

-- Giving a page's frame back: the host may hand it out again, since no page has it.
drop_page-Freed :
    (s0 : Space) (n : ℕ) (s : Space)
    → frame_of s n ≢ 0
    → Grown s0 s
    → Freed s0 n (set_entry (os_put_page s (frame_of s n)) n 0)
unfolding set_entry os_put_page
drop_page-Freed s0 n s z g = record {
  valid = record {
    injective = λ m k u q. ground (arith, look m, look k, g.valid.injective m k);
    unused = λ m u. (
      λ e. ground (arith, look m, g.valid.injective m n),
      subst (λ x. Absent x s.host_pages) (sym (kept m u))
          (g.valid.unused m (subst (λ x. x ≢ 0) (kept m u) u)),
    );
    handable = (z, g.valid.unused n z, g.valid.handable);
    in_host = λ m u. ground (arith, look m, g.valid.in_host m);
  };
  gone = ground (arith, look n);
  others = λ m h k. ground (arith, look m, g.stays m);
}
  where
    look :
        (m : ℕ)
        → frame_of (set_entry (os_put_page s (frame_of s n)) n 0) m
          ≡ (if m == n then 0 else frame_of s m)
    look = look_put n (frame_of s n) s

    kept :
        (m : ℕ)
        → frame_of (set_entry (os_put_page s (frame_of s n)) n 0) m ≢ 0
        → frame_of (set_entry (os_put_page s (frame_of s n)) n 0) m ≡ frame_of s m
    kept m u = ground (arith, look m)

pub whatever-Holds :
    (P Q : Space → Type 0) (o : Option (Rc × Space)) (k : Prog Space)
    → Holds P o
    → ((s : Space) → P s → Holds Q (k s))
    → Holds Q (whatever o k)
whatever-Holds P Q none k p h = absurd p
whatever-Holds P Q (some (rc, s)) k p h = h s p

Grown-Freed : (s0 : Space) (n : ℕ) (s : Space) → frame_of s n ≡ 0 → Grown s0 s → Freed s0 n s
Grown-Freed s0 n s z g = record { valid = g.valid; gone = z; others = λ m h k. g.stays m k }

frame_of-set_reversed_pfn :
    (real pseudo : ℕ) (s : Space) (m : ℕ)
    → frame_of (set_reversed_pfn real pseudo s).1 m ≡ frame_of s m
unfolding frame_of set_reversed_pfn
frame_of-set_reversed_pfn real pseudo s m = ground arith

release_page-Freed :
    (s0 : Space) (n : ℕ) (s : Space) → Grown s0 s → Holds (Freed s0 n) (release_page n s)
unfolding release_page
release_page-Freed s0 n s g = elim (Bool-cases (frame_of s n == 0)) [
  | inl e ↦ rw e (Grown-Freed s0 n s ((==_iff (frame_of s n) 0).0 e) g)
  | inr e ↦
      let s1 = (set_reversed_pfn (frame_of s n) 0 s).1 in
      let z : frame_of s1 n ≢ 0 = ground (arith, frame_of-set_reversed_pfn (frame_of s n) 0 s n) in
      rw e (drop_page-Freed s0 n s1 z (set_reversed_pfn-Grown s0 (frame_of s n) 0 s g))
]

no_group : (n : ℕ) (s : Space) → s.pp_pfns (group_of n) ≡ none → frame_of s n ≡ 0
unfolding frame_of
no_group n s e = rw e

-- In a valid space, freeing a page ends, keeps the frames apart, and the host's frames apart from
-- the guest's; afterwards the page has no frame, and every other page that had a frame has it
-- still.
pub free_and_unmap_page-Freed :
    (address : ℕ) (s : Space)
    → IsValid s
    → Holds (Freed s (address / page_size)) (free_and_unmap_page address s)
unfolding free_and_unmap_page create_ptes
free_and_unmap_page-Freed address s v =
    elim (Option-cases (s.pp_pfns (group_of (address / page_size)))) [
      | inl e ↦
          rw (e, free_and_unmap_page)
            (Grown-Freed s (address / page_size) s (no_group (address / page_size) s e)
              (Grown-refl s v))
      | inr (p, e) ↦
          rw (e, free_and_unmap_page)
            (whatever-Holds (Grown s) (Freed s (address / page_size))
              (state_of (create_ptes s (pte_address address) 4 (0 ∷ [])))
              (release_page (address / page_size))
              (state_of-Grown s (create_ptes s (pte_address address) 4 (0 ∷ [])) (
                scan-Grown s (some create_ptes_callback) true (pte_address address) 4 s (0 ∷ [])
                  (omega arith) (Grown-refl s v)))
              (release_page-Freed s (address / page_size)))
    ]
