-- ===== src/Pages/Fill.antt =====
-- `co_monitor_copy_and_create_pfns`: what the guest's memory holds afterwards.
use colinux_64bit.Base.{
  ℕ, zero, suc, ◌+◌, ◌-◌, ◌/◌, ◌%◌, ◌≤◌, ◌<◌, ◌≡◌, ◌≢◌, refl, sym, ap, ◌∙◌, ◌⊎◌, inl, inr, true,
  some, List, [], ◌∷◌, ◌==◌, arith, Bool-cases, ==_iff, leb, length, get_or, take, drop,
  length-take, length-drop, get_or-take, get_or-drop, dec_lt,
}
use colinux_64bit.Rc.{Rc, ok, error}
use colinux_64bit.Prog.Holds.{OnOk, bind-OnOk, map-OnOk, always-OnOk, both-OnOk}
use colinux_64bit.Arch.{page_size, word, add32}
use colinux_64bit.Split.{part_size, split, split_by_pages}
use colinux_64bit.Split.Pieces.{round}
use colinux_64bit.Space.{
  Space, Ram, write_bytes, frame_of, group_of, ensure_group, get_page_for, os_get_page, set_entry,
}
use colinux_64bit.Space.Valid.{IsValid, Handable, List-cases, look_up}
use colinux_64bit.Transfer.Bytes.{peek-pokes, write_bytes-pokes}
use colinux_64bit.Transfer.RoundTrip.{byte_at}
use colinux_64bit.Pages.{
  lift, ensure_page, call_back, scan_page, scan_pfns_split_callback, scan_pfns_and_callback,
  copy_callback, copy_and_create_pfns,
}
use colinux_64bit.Pages.Keep.{
  Grown, Grown-refl, ensure_group-Grown, ensure_page-Grown, with_ram-Grown,
}

-- `s` has frames where `s0` has them, for page `n` too, and the bytes of `s0`.
record Ready (s0 : Space) (n : ℕ) (s : Space) : Type 0 where
  grown : Grown s0 s
  same : s.ram ≡ s0.ram
  there : frame_of s n ≢ 0

ram-ensure_group : (fail : Rc) (k : ℕ) (s : Space) → (ensure_group fail k s).1.ram ≡ s.ram
unfolding ensure_group
ram-ensure_group fail k s = ground arith

abbrev pub Fetched : Space → ℕ → Space → Type 0
Fetched s n t = (frame_of t n ≢ 0) × (t.ram ≡ s.ram)

-- A frame that comes from the host is not 0.
pub get_page_for_there :
    (n : ℕ) (s : Space) → Handable s.host_pages → OnOk (Fetched s n) (some (get_page_for n s))
unfolding get_page_for os_get_page set_entry
get_page_for_there n s h = elim (List-cases s.host_pages) [
  | inl e ↦ rw (e, get_page_for, os_get_page) tt
  | inr (p, rest, e) ↦
      rw (e, get_page_for, os_get_page)
        (elim (Bool-cases (leb s.hostmem_pages p)) [
          | inl g ↦ rw g tt
          | inr g ↦
              let hs : Handable (p ∷ rest) = rw e at h in
              rw g (ground (arith, look_up n p rest s n, hs.0), refl)
        ])
]

ensure_page_there : (n : ℕ) (s : Space) → IsValid s → OnOk (Fetched s n) (some (ensure_page n s))
unfolding ensure_page
ensure_page_there n s v = elim (Bool-cases (frame_of s n == 0)) [
  | inl e ↦ rw e (get_page_for_there n s v.handable)
  | inr e ↦ rw e (ground arith, refl)
]

-- What writing `bs` at `a` does: frames only come in, the range is mapped and holds `bs`, and the
-- other bytes of pages that had a frame are as before.
pub record Wrote (s : Space) (a : ℕ) (bs : List ℕ) (t : Space) : Type 0 where
  pub grown : Grown s t
  pub mapped : (i : ℕ) → i < length bs → frame_of t ((a + i) / page_size) ≢ 0
  pub inside : (i : ℕ) → i < length bs → byte_at t (a + i) ≡ get_or bs i 0
  pub outside :
      (x : ℕ)
      → frame_of s (x / page_size) ≢ 0
      → (x < a) ⊎ (a + length bs ≤ x)
      → byte_at t x ≡ byte_at s x

-- Two writes in a row. Where the second is empty its address does not matter.
Wrote-trans :
    (s t u : Space) (a b p : ℕ) (bs : List ℕ)
    → p ≤ length bs
    → (b ≡ a + p) ⊎ (length (drop p bs) ≡ 0)
    → Wrote s a (take p bs) t
    → Wrote t b (drop p bs) u
    → Wrote s a bs u
Wrote-trans s t u a b p bs h k w z = record {
  grown = record {
    valid = z.grown.valid;
    stays = λ m q. z.grown.stays m (λ e. q (sym (w.grown.stays m q) ∙ e)) ∙ w.grown.stays m q;
  };
  mapped = λ i lt. elim (dec_lt i p) [
    | yes y ↦ first i (omega (arith, length-take p bs))
    | no y ↦
        let e : b + (i - p) ≡ a + i = second i y lt in
        rw e at (z.mapped (i - p) (omega (arith, length-drop p bs)))
  ];
  inside = λ i lt. elim (dec_lt i p) [
    | yes y ↦
        z.outside (a + i) (w.mapped i (omega (arith, length-take p bs))) (before i y)
        ∙ w.inside i (omega (arith, length-take p bs))
        ∙ get_or-take p bs i 0 y
    | no y ↦
        let e : b + (i - p) ≡ a + i = second i y lt in
        let g : p + (i - p) ≡ i = omega arith in
        (rw e at (z.inside (i - p) (omega (arith, length-drop p bs))))
        ∙ get_or-drop p bs (i - p) 0
        ∙ ap (λ j. get_or bs j 0) g
  ];
  outside = λ x q o.
      z.outside x (λ e. q (sym (w.grown.stays (x / page_size) q) ∙ e)) (beyond x o)
      ∙ w.outside x q (ground (arith, length-take p bs));
}
  where
    before : (i : ℕ) → i < p → (a + i < b) ⊎ (b + length (drop p bs) ≤ a + i)
    before i y = ground (arith, length-drop p bs)

    beyond : (x : ℕ) → (x < a) ⊎ (a + length bs ≤ x) → (x < b) ⊎ (b + length (drop p bs) ≤ x)
    beyond x o = ground (arith, length-drop p bs)

    second : (i : ℕ) → ¬ (i < p) → i < length bs → b + (i - p) ≡ a + i
    second i y lt = ground (arith, length-drop p bs)

    first : (i : ℕ) → i < length (take p bs) → frame_of u ((a + i) / page_size) ≢ 0
    first i lt e = w.mapped i lt (sym (z.grown.stays ((a + i) / page_size) (w.mapped i lt)) ∙ e)

-- The write itself, into a page that has a frame.
write_page :
    (s s2 : Space) (a : ℕ) (xs : List ℕ)
    → a % page_size + length xs ≤ page_size
    → Ready s (a / page_size) s2
    → Wrote s a xs
        (record s2 { ram = write_bytes s2.ram (frame_of s2 (a / page_size)) (a % page_size) xs })
unfolding frame_of
write_page s s2 a xs h r = rw (write_bytes-pokes (frame_of s2) s2.ram a xs h) (record {
  grown = with_ram-Grown s s2 _ r.grown;
  mapped = in_page;
  inside = λ i lt.
      let e : a + i - a ≡ i = omega arith in
      peek-pokes (frame_of s2) s2.ram a xs (a + i) r.grown.valid.injective in_page
      ∙ ground (arith, ap (λ j. get_or xs j 0) e);
  outside = λ x q o.
      peek-pokes (frame_of s2) s2.ram a xs x r.grown.valid.injective in_page
      ∙ ground (
        arith,
        ap (λ (m : Ram). m (frame_of s2 (x / page_size)) (x % page_size)) r.same,
        ap (λ j. s.ram j (x % page_size)) (r.grown.stays (x / page_size) q),
      );
})
  where
    in_page : (i : ℕ) → i < length xs → frame_of s2 ((a + i) / page_size) ≢ 0
    in_page i lt = let e : (a + i) / page_size ≡ a / page_size = omega arith in rw e r.there

abbrev Piece : Space → ℕ → ℕ → List ℕ → Space × List ℕ → Type 0
Piece s a p bs (t, rest) = Wrote s a (take p bs) t × (rest ≡ drop p bs)

abbrev Entered : Space → List ℕ → Space × List ℕ → Type 0
Entered s bs (t, d) = Grown s t × (t.ram ≡ s.ram) × (d ≡ bs)

abbrev ReadyWith : Space → ℕ → List ℕ → Space × List ℕ → Type 0
ReadyWith s n bs (t, d) = Ready s n t × (d ≡ bs)

lift-OnOk :
    {D : Type 0} (P : Space → Type 0) (Q : Space × D → Type 0) (d : D) (r : Rc × Space)
    → ((t : Space) → P t → Q (t, d))
    → OnOk P (some r)
    → OnOk Q (lift d r)
lift-OnOk P Q d (ok, s) f p = f s p
lift-OnOk P Q d (_, s) f p = tt

copy_ready :
    (s : Space) (a p : ℕ) (bs : List ℕ)
    → a % page_size + length (take p bs) ≤ page_size
    → (t : Space × List ℕ) → ReadyWith s (a / page_size) bs t
    → OnOk (Piece s a p bs) (call_back (some copy_callback) a p t)
unfolding call_back copy_callback
copy_ready s a p bs h (s2, d) (r, e) = rw e (write_page s s2 a (take p bs) h r, refl)

-- Once the group is there: the page, and the write.
scan_copy :
    (s : Space) (a p : ℕ) (bs : List ℕ)
    → a % page_size + length (take p bs) ≤ page_size
    → (s1 : Space) (d : List ℕ) → Grown s s1
    → s1.ram ≡ s.ram
    → d ≡ bs
    → OnOk (Piece s a p bs) (scan_page (some copy_callback) true a p (s1, d))
unfolding scan_page
scan_copy s a p bs h s1 d g e q =
    let n = a / page_size in
    let r = ensure_page n s1 in
    let there =
      both-OnOk (Grown s) (Fetched s1 n) (some r)
        (always-OnOk (Grown s) r.0 r.1 (ensure_page-Grown s n s1 g))
        (ensure_page_there n s1 g.valid) in
    bind-OnOk (ReadyWith s n bs) (Piece s a p bs) (lift d r) (call_back (some copy_callback) a p)
      (lift-OnOk (λ t. Grown s t × Fetched s1 n t) (ReadyWith s n bs) d r
        (λ t w. (record { grown = w.0; same = w.1.1 ∙ e; there = w.1.0 }, q)) there)
      (copy_ready s a p bs h)

-- One call of the callback.
copy-Piece :
    (s : Space) (a p : ℕ) (bs : List ℕ)
    → IsValid s
    → a % page_size + length (take p bs) ≤ page_size
    → OnOk (Piece s a p bs) (scan_pfns_split_callback (some copy_callback) true a p (s, bs))
unfolding scan_pfns_split_callback
copy-Piece s a p bs v h =
    let n = a / page_size in
    let r = ensure_group error (group_of n) s in
    bind-OnOk (Entered s bs) (Piece s a p bs) (lift bs r) (scan_page (some copy_callback) true a p)
      (lift-OnOk (λ t. Grown s t × (t.ram ≡ s.ram)) (Entered s bs) bs r (λ t q. (q.0, q.1, refl))
        (always-OnOk (λ t. Grown s t × (t.ram ≡ s.ram)) r.0 r.1
          (
            ensure_group-Grown s error (group_of n) s (Grown-refl s v),
            ram-ensure_group error (group_of n) s,
          )))
      (λ (s1, d) q. scan_copy s a p bs h s1 d q.0 q.1 q.2)

abbrev pub Filled : Space → ℕ → List ℕ → Space × List ℕ → Type 0
Filled s a bs (t, rest) = Wrote s a bs t × (rest ≡ [])

nothing : (bs : List ℕ) → length bs ≡ 0 → bs ≡ []
nothing [] h = refl
nothing (b ∷ bs) h = absurd (omega arith)

Wrote-nothing : (s : Space) (a : ℕ) (bs : List ℕ) → IsValid s → length bs ≡ 0 → Wrote s a bs s
Wrote-nothing s a bs v h = record {
  grown = Grown-refl s v;
  mapped = λ i lt. absurd (omega arith);
  inside = λ i lt. absurd (omega arith);
  outside = λ x q o. refl;
}

-- After a piece, the rest of the loop.
copy_next :
    (s t : Space) (fuel a b p m : ℕ) (bs rest : List ℕ)
    → p ≤ length bs
    → (b ≡ a + p) ⊎ (length (drop p bs) ≡ 0)
    → rest ≡ drop p bs
    → Wrote s a (take p bs) t
    → OnOk
        (Filled t b (drop p bs))
        (split fuel (scan_pfns_split_callback (some copy_callback) true) b m (t, drop p bs))
    → OnOk
        (Filled s a bs)
        (split fuel (scan_pfns_split_callback (some copy_callback) true) b m (t, rest))
copy_next s t fuel a b p m bs rest h k q w z = rw q (
    map-OnOk (Filled t b (drop p bs)) (Filled s a bs)
      (split fuel (scan_pfns_split_callback (some copy_callback) true) b m (t, drop p bs))
      (λ (u, r) (x, y). (Wrote-trans s t u a b p bs h k w x, y)) z)

-- The loop.
copy_loop :
    (fuel a n : ℕ) (s : Space) (bs : List ℕ)
    → n < fuel
    → a + n ≤ word
    → length bs ≡ n
    → IsValid s
    → OnOk
        (Filled s a bs)
        (split fuel (scan_pfns_split_callback (some copy_callback) true) a n (s, bs))
unfolding split
copy_loop zero a n s bs lt k l v = absurd (omega arith)
copy_loop (suc fuel) a n s bs lt k l v = elim (Bool-cases (n == 0)) [
  | inl e ↦ rw e (Wrote-nothing s a bs v (l ∙ (==_iff n 0).0 e), nothing bs (l ∙ (==_iff n 0).0 e))
  | inr e ↦
      let p = part_size a n in
      let rd = round fuel a n lt k e in
      rw e (
        bind-OnOk (Piece s a p bs) (Filled s a bs)
          (scan_pfns_split_callback (some copy_callback) true a p (s, bs))
          (split fuel (scan_pfns_split_callback (some copy_callback) true) (add32 a p) (n - p))
          (copy-Piece s a p bs v (omega (arith, length-take p bs, rd.in_page, rd.no_more)))
          (λ (t, rest) (w, q).
            copy_next s t fuel a (add32 a p) p (n - p) bs rest (omega (arith, rd.no_more))
              (ground (arith, length-drop p bs, rd.no_more)) q w
              (copy_loop fuel (add32 a p) (n - p) t (drop p bs) rd.fuel_left rd.in_space
                (omega (arith, length-drop p bs)) w.grown.valid)))
]

-- For a buffer and a range of guest addresses of its length inside the address space, and a valid
-- space: copying the buffer there ends. Where it returns CO_RC(OK), all of the buffer is used;
-- every page of the range has a frame, and frames that pages had stay theirs; each address of the
-- range holds its byte, and each other address on a page that had a frame the byte of before.
pub copy_and_create_pfns-Wrote :
    (s : Space) (a : ℕ) (bs : List ℕ)
    → a + length bs ≤ word
    → IsValid s
    → OnOk (Filled s a bs) (copy_and_create_pfns s a (length bs) bs)
unfolding copy_and_create_pfns scan_pfns_and_callback split_by_pages
copy_and_create_pfns-Wrote s a bs h v =
    copy_loop (suc (length bs)) a (length bs) s bs (omega arith) h refl v
