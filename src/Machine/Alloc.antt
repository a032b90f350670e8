-- ===== src/Machine/Alloc.antt =====
-- `co_alloc_pages` and `co_free_pages`: what they do to the frames, on success and on failure.
use colinux_64bit.Base.{
  ℕ, zero, suc, ◌+◌, ◌/◌, ◌≤◌, ◌≡◌, ◌≢◌, refl, false, sym, ◌∙◌, inl, inr, Option, none, some, ◌==◌,
  arith, Bool-cases, ==_iff,
}
use mathlib.Core.Path.{subst}
use colinux_64bit.Rc.{Rc, ok, co_ok, out_of_memory}
use colinux_64bit.Prog.{Prog}
use colinux_64bit.Prog.Holds.{Holds, OnOk, Holds-OnOk, bind-OnOk, map-OnOk, always-OnOk, both-OnOk}
use colinux_64bit.Arch.{add32, page_size}
use colinux_64bit.Space.{Space, frame_of, group_of, ensure_group, get_page_for}
use colinux_64bit.Space.Valid.{IsValid}
use colinux_64bit.Pages.{alloc_and_map_page, free_and_unmap_page, new_page, map_page}
use colinux_64bit.Pages.Keep.{
  Grown, Grown-refl, alloc_and_map_page-Grown, map_page-Grown, ensure_group-Grown,
  get_page_for-Grown,
}
use colinux_64bit.Pages.Free.{Freed, free_and_unmap_page-Freed, whatever-Holds}
use colinux_64bit.Pages.Fill.{Fetched, get_page_for_there}
use colinux_64bit.Machine.{free_pages, alloc_from, alloc_pages, answer, next_or_back}

-- Page `m` is not one of the pages from an address on.
abbrev pub Outside : ℕ → ℕ → ℕ → Type 0
Outside address zero m = Unit
Outside address (suc n) m = (m ≢ address / page_size) × Outside (add32 address page_size) n m

-- Every page from an address on has a frame.
abbrev pub Covered : ℕ → ℕ → Space → Type 0
Covered address zero s = Unit
Covered address (suc n) s =
    (frame_of s (address / page_size) ≢ 0) × Covered (add32 address page_size) n s

-- `s` is valid, and the pages of `Q` with a frame in `s0` have it still.
pub record Kept (Q : ℕ → Type 0) (s0 s : Space) : Type 0 where
  pub valid : IsValid s
  pub others : (m : ℕ) → Q m → frame_of s0 m ≢ 0 → frame_of s m ≡ frame_of s0 m

stays_there :
    (s0 s : Space) (m : ℕ) → frame_of s0 m ≢ 0 → frame_of s m ≡ frame_of s0 m → frame_of s m ≢ 0
stays_there s0 s m h e = subst (λ x. x ≢ 0) (sym e) h

Grown-trans : (s0 s t : Space) → Grown s0 s → Grown s t → Grown s0 t
Grown-trans s0 s t g h = record {
  valid = h.valid;
  stays = λ m u. h.stays m (stays_there s0 s m u (g.stays m u)) ∙ g.stays m u;
}

module _ (Q : ℕ → Type 0) (s0 : Space) where
  Grown-Kept : (s t : Space) → Grown s0 s → Kept Q s t → Kept Q s0 t
  Grown-Kept s t g k = record {
    valid = k.valid;
    others = λ m q u. k.others m q (stays_there s0 s m u (g.stays m u)) ∙ g.stays m u;
  }

  Freed-Kept :
      (n : ℕ) (s t : Space) → ((m : ℕ) → Q m → m ≢ n) → Kept Q s0 s → Freed s n t → Kept Q s0 t
  Freed-Kept n s t apart k f = record {
    valid = f.valid;
    others =
        λ m q u. f.others m (apart m q) (stays_there s0 s m u (k.others m q u)) ∙ k.others m q u;
  }

  free_pages-Kept :
      (address n : ℕ) (s : Space)
      → ((m : ℕ) → Q m → Outside address n m)
      → Kept Q s0 s
      → Holds (Kept Q s0) (free_pages address n s)
  unfolding free_pages
  free_pages-Kept address zero s out k = k
  free_pages-Kept address (suc n) s out k =
      whatever-Holds (Freed s (address / page_size)) (Kept Q s0) (free_and_unmap_page address s)
        (free_pages (add32 address page_size) n) (free_and_unmap_page-Freed address s k.valid)
        (λ t f.
          free_pages-Kept (add32 address page_size) n t (λ m q. (out m q).1)
            (Freed-Kept (address / page_size) s t (λ m q. (out m q).0) k f))

  answer-Holds :
      (rc : Rc) (o : Option (Rc × Space)) → Holds (Kept Q s0) o → Holds (Kept Q s0) (answer rc o)
  answer-Holds rc none h = absurd h
  answer-Holds rc (some (freed, s)) h = h

-- A page that is allocated and mapped has a frame.
map_page_there :
    (address : ℕ) (s : Space)
    → IsValid s
    → frame_of s (address / page_size) ≢ 0
    → OnOk (λ t. frame_of t (address / page_size) ≢ 0) (map_page address s)
map_page_there address s v h =
    Holds-OnOk (Grown s) (λ t. frame_of t (address / page_size) ≢ 0) (map_page address s)
      (λ t g. stays_there s t (address / page_size) h (g.stays (address / page_size) h))
      (map_page-Grown s address s (Grown-refl s v))

new_page_there :
    (address : ℕ) (s : Space)
    → IsValid s
    → OnOk (λ t. frame_of t (address / page_size) ≢ 0) (new_page address s)
unfolding new_page
new_page_there address s v =
    let n = address / page_size in
    elim (Bool-cases (frame_of s n == 0)) [
      | inl e ↦
          let r = get_page_for n s in
          rw e (
            bind-OnOk (λ t. IsValid t × (frame_of t n ≢ 0)) (λ t. frame_of t n ≢ 0) (some r)
              (map_page address)
              (map-OnOk (λ t. Grown s t × Fetched s n t) (λ t. IsValid t × (frame_of t n ≢ 0))
                (some r) (λ t q. (q.0.valid, q.1.0))
                (both-OnOk (Grown s) (Fetched s n) (some r)
                  (always-OnOk (Grown s) r.0 r.1
                    (get_page_for-Grown s n s ((==_iff (frame_of s n) 0).0 e) (Grown-refl s v)))
                  (get_page_for_there n s v.handable)))
              (λ t q. map_page_there address t q.0 q.1))
      | inr e ↦ rw e (ground arith)
    ]

alloc_and_map_page_there :
    (address : ℕ) (s : Space)
    → IsValid s
    → OnOk (λ t. frame_of t (address / page_size) ≢ 0) (alloc_and_map_page address s)
unfolding alloc_and_map_page
alloc_and_map_page_there address s v =
    let r = ensure_group out_of_memory (group_of (address / page_size)) s in
    bind-OnOk IsValid (λ t. frame_of t (address / page_size) ≢ 0) (some r) (new_page address)
      (always-OnOk IsValid r.0 r.1
        (ensure_group-Grown s out_of_memory (group_of (address / page_size)) s
          (Grown-refl s v)).valid)
      (new_page_there address)

Outside-le : (address i n m : ℕ) → i ≤ n → Outside address n m → Outside address i m
Outside-le address zero n m h o = tt
Outside-le address (suc i) zero m h o = absurd (omega arith)
Outside-le address (suc i) (suc n) m h o =
    (o.0, Outside-le (add32 address page_size) i n m (omega arith) o.1)

failed-OnOk :
    (P : Space → Type 0) (rc : Rc) (o : Option (Rc × Space))
    → co_ok rc ≡ false
    → (Q : Space → Type 0) → Holds Q o
    → OnOk P (answer rc o)
failed-OnOk P rc none e Q h = absurd h
failed-OnOk P ok (some (freed, s)) e Q h = absurd (ground arith)
failed-OnOk P _ (some (freed, s)) e Q h = tt

-- Every page is there and none has lost its frame; or the call has failed, and the pages outside
-- the range have what they had.
abbrev pub Allocated : ℕ → ℕ → ℕ → ℕ → Space → Option (Rc × Space) → Type 0
Allocated address total scan_address left s o =
    Holds (Kept (Outside address total) s) o × OnOk (λ t. Grown s t × Covered scan_address left t) o

module _ (address total scan_address left : ℕ) (s : Space) where
  next_or_back-Allocated :
      (o : Option (Rc × Space)) (next back : Prog Space) (There : Space → Type 0)
      → Holds (Grown s) o
      → OnOk There o
      → ((t : Space) → Grown s t → There t → Allocated address total scan_address left s (next t))
      → ((t : Space) → Grown s t → Holds (Kept (Outside address total) s) (back t))
      → Allocated address total scan_address left s (next_or_back o next back)
  next_or_back-Allocated none next back There g h f b = absurd g
  next_or_back-Allocated (some (ok, t)) next back There g h f b = f t g h
  next_or_back-Allocated (some (rc, t)) next back There g h f b = (
    answer-Holds (Outside address total) s rc (back t) (b t g),
    failed-OnOk _ rc (back t) refl (Kept (Outside address total) s) (b t g),
  )

  next-Allocated :
      (t : Space) (o : Option (Rc × Space))
      → Grown s t
      → frame_of t (scan_address / page_size) ≢ 0
      → Allocated address total (add32 scan_address page_size) left t o
      → Allocated address total scan_address (suc left) s o
  next-Allocated t none g h a = absurd a.0
  next-Allocated t (some (rc, u)) g h a = (
    Grown-Kept (Outside address total) s t u g a.0,
    map-OnOk (λ u. Grown t u × Covered (add32 scan_address page_size) left u)
        (λ u. Grown s u × Covered scan_address (suc left) u) (some (rc, u))
        (λ u q. (
          Grown-trans s t u g q.0,
          (
            stays_there t u (scan_address / page_size) h (q.0.stays (scan_address / page_size) h),
            q.1,
          ),
        ))
        a.1,
  )

alloc_from-Allocated :
    (address total i scan_address left : ℕ) (s : Space)
    → i + left ≡ total
    → IsValid s
    → Allocated address total scan_address left s (alloc_from address i scan_address left s)
unfolding alloc_from
alloc_from-Allocated address total i scan_address zero s e v =
    (record { valid = v; others = λ m q u. refl }, (Grown-refl s v, tt))
alloc_from-Allocated address total i scan_address (suc left) s e v =
    next_or_back-Allocated address total scan_address (suc left) s
      (alloc_and_map_page scan_address s)
      (alloc_from address (suc i) (add32 scan_address page_size) left) (free_pages address i)
      (λ t. frame_of t (scan_address / page_size) ≢ 0) (alloc_and_map_page-Grown scan_address s v)
      (alloc_and_map_page_there scan_address s v)
      (λ t g h. next-Allocated address total scan_address left s t _ g h (
        alloc_from-Allocated address total (suc i) (add32 scan_address page_size) left t
          (omega arith) g.valid))
      (λ t g.
        free_pages-Kept (Outside address total) s address i t
          (λ m. Outside-le address i total m (omega arith))
          (record { valid = g.valid; others = λ m q u. g.stays m u }))

-- In a valid space, allocating pages from an address on ends and leaves the space valid. On
-- success every page of the range has a frame, and no page has lost its own; on failure the pages
-- outside the range have kept theirs.
pub alloc_pages-Allocated :
    (address num_pages : ℕ) (s : Space)
    → IsValid s
    → Allocated address num_pages address num_pages s (alloc_pages address num_pages s)
unfolding alloc_pages
alloc_pages-Allocated address num_pages s v =
    alloc_from-Allocated address num_pages 0 address num_pages s (omega arith) v

pub free_pages-Kept-Outside :
    (address num_pages : ℕ) (s : Space)
    → IsValid s
    → Holds (Kept (Outside address num_pages) s) (free_pages address num_pages s)
free_pages-Kept-Outside address num_pages s v =
    free_pages-Kept (Outside address num_pages) s address num_pages s (λ m q. q)
      (record { valid = v; others = λ m q u. refl })
