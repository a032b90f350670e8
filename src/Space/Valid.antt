-- ===== src/Space/Valid.antt =====
-- No two guest pages share a host frame, and what the host will hand out is not in use.
use colinux_64bit.Base.{
  ℕ, ◌≡◌, ◌≢◌, refl, sym, ◌∙◌, ◌⊎◌, inl, inr, List, [], ◌∷◌, ◌==◌, leb, if◌then◌else◌, arith,
  Bool-cases, ◌<◌,
}
use colinux_64bit.Space.{Space, frame_of, set_entry, os_get_page, get_page_for}
use colinux_64bit.Space.Frames.{frame_of-set_entry}

-- `p` is not among `ps`.
abbrev pub Absent : ℕ → List ℕ → Type 0
Absent p [] = Unit
Absent p (x ∷ xs) = (p ≢ x) × Absent p xs

-- The frames to come are nonzero, and each comes once.
abbrev pub Handable : List ℕ → Type 0
Handable [] = Unit
Handable (x ∷ xs) = (x ≢ 0) × Absent x xs × Handable xs

pub record IsValid (s : Space) : Type 0 where
  pub injective : (m n : ℕ) → frame_of s m ≢ 0 → frame_of s m ≡ frame_of s n → m ≡ n
  pub unused : (m : ℕ) → frame_of s m ≢ 0 → Absent (frame_of s m) s.host_pages
  pub handable : Handable s.host_pages
  pub in_host : (m : ℕ) → frame_of s m ≢ 0 → frame_of s m < s.hostmem_pages

-- Only the map from pages to frames, the host's frames and their number matter.
pub IsValid-same :
    (s t : Space)
    → ((m : ℕ) → frame_of t m ≡ frame_of s m)
    → t.host_pages ≡ s.host_pages
    → t.hostmem_pages ≡ s.hostmem_pages
    → IsValid s
    → IsValid t
IsValid-same s t e h k v = record {
  injective = λ m n z q. v.injective m n (rw (e m) at z) (sym (e m) ∙ q ∙ e n);
  unused = λ m z. rw (e m, h) (v.unused m (rw (e m) at z));
  handable = rw h v.handable;
  in_host = λ m z. rw (e m, k) (v.in_host m (rw (e m) at z));
}

-- A page is removed.
pub set_entry-zero-IsValid : (s : Space) (n : ℕ) → IsValid s → IsValid (set_entry s n 0)
unfolding set_entry
set_entry-zero-IsValid s n v = record {
  injective =
      λ m k z q. v.injective m k (rw (kept m z) at z) (sym (kept m z) ∙ q ∙ kept k (rw q at z));
  unused = λ m z. rw (kept m z) (v.unused m (rw (kept m z) at z));
  handable = v.handable;
  in_host = λ m z. rw (kept m z) (v.in_host m (rw (kept m z) at z));
}
  where
    kept : (m : ℕ) → frame_of (set_entry s n 0) m ≢ 0 → frame_of (set_entry s n 0) m ≡ frame_of s m
    kept m z = ground (arith, frame_of-set_entry s n 0 m)

pub look_up :
    (n p : ℕ) (rest : List ℕ) (s : Space) (m : ℕ)
    → frame_of (set_entry (record s { host_pages = rest }) n p) m
      ≡ (if m == n then p else frame_of s m)
unfolding frame_of
look_up n p rest s m = frame_of-set_entry (record s { host_pages = rest }) n p m

-- The first of the host's frames is entered for a page that has none.
hand_out-IsValid :
    (n p : ℕ) (rest : List ℕ) (s : Space)
    → s.host_pages ≡ p ∷ rest
    → frame_of s n ≡ 0
    → p < s.hostmem_pages
    → IsValid s
    → IsValid (set_entry (record s { host_pages = rest }) n p)
unfolding set_entry frame_of
hand_out-IsValid n p rest s e z lt v = record {
  injective = λ m k u q. ground (arith, look m, look k, hs.0, taken m, taken k, v.injective m k);
  unused = λ m u. elim (Bool-cases (m == n)) [
    | inl h ↦ rw (look m, h) (hs.1).0
    | inr h ↦ rw (look m, h) (rw e at (v.unused m (rw (look m, h) at u))).1
  ];
  handable = (hs.1).1;
  in_host = λ m u. ground (arith, look m, v.in_host m);
}
  where
    look :
        (m : ℕ)
        → frame_of (set_entry (record s { host_pages = rest }) n p) m
          ≡ (if m == n then p else frame_of s m)
    look = look_up n p rest s

    taken : (m : ℕ) → frame_of s m ≢ 0 → frame_of s m ≢ p
    taken m u = (rw e at (v.unused m u)).0

    hs : (p ≢ 0) × (Absent p rest × Handable rest)
    hs = let h : Handable (p ∷ rest) = rw e at v.handable in (h.0, (h.1, h.2))

-- A frame that is too high is refused, and is lost.
forget-IsValid :
    (p : ℕ) (rest : List ℕ) (s : Space)
    → s.host_pages ≡ p ∷ rest
    → IsValid s
    → IsValid (record s { host_pages = rest })
unfolding frame_of
forget-IsValid p rest s e v = record {
  injective = v.injective;
  unused = λ m u. (rw e at (v.unused m u)).1;
  handable = let h : Handable (p ∷ rest) = rw e at v.handable in h.2;
  in_host = v.in_host;
}

frame_of_rest :
    (rest : List ℕ) (s : Space) (m : ℕ) → frame_of (record s { host_pages = rest }) m ≡ frame_of s m
unfolding frame_of
frame_of_rest rest s m = refl

pub List-cases {ℓ} :
    {A : Type ℓ} (l : List A) → (l ≡ []) ⊎ ((p : A) × (rest : List A) × (l ≡ p ∷ rest))
List-cases [] = inl refl
List-cases (x ∷ xs) = inr (x, xs, refl)

-- Entering a frame for page `n` changes that page at most.
pub frame_of-get_page_for :
    (n : ℕ) (s : Space) (m : ℕ) → m ≢ n → frame_of (get_page_for n s).1 m ≡ frame_of s m
unfolding get_page_for os_get_page frame_of
frame_of-get_page_for n s m h = elim (List-cases s.host_pages) [
  | inl e ↦ rw (e, get_page_for, os_get_page)
  | inr (p, rest, e) ↦
      rw (e, get_page_for, os_get_page)
        (elim (Bool-cases (leb s.hostmem_pages p)) [
          | inl g ↦ rw g (frame_of_rest rest s m)
          | inr g ↦ rw g (ground (arith, look_up n p rest s m))
        ])
]

-- A page that the host hands out is entered for a page that has none.
pub get_page_for-IsValid :
    (n : ℕ) (s : Space) → frame_of s n ≡ 0 → IsValid s → IsValid (get_page_for n s).1
unfolding get_page_for os_get_page
get_page_for-IsValid n s z v = elim (List-cases s.host_pages) [
  | inl e ↦ rw (e, get_page_for, os_get_page) v
  | inr (p, rest, e) ↦ elim (Bool-cases (leb s.hostmem_pages p)) [
    | inl h ↦ rw (e, get_page_for, os_get_page) (rw h (forget-IsValid p rest s e v))
    | inr h ↦
        rw (e, get_page_for, os_get_page) (rw h (hand_out-IsValid n p rest s e z (ground arith) v))
  ]
]
