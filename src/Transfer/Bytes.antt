-- ===== src/Transfer/Bytes.antt =====
-- The reference for a copy: byte by byte, each through the page of its own address.
use colinux_64bit.Base.{
  ℕ, zero, suc, ◌+◌, ◌-◌, ◌/◌, ◌%◌, ◌≤◌, ◌<◌, ◌≡◌, ◌≢◌, refl, ap, ◌∙◌, List, [], ◌∷◌, ◌++◌, ◌==◌,
  ltb, leb, if◌then◌else◌, ◌&&◌, arith, length, get_or,
}
use mathlib.Core.Path.{ap₂}
use native.Mathlib.Nat.{add-zero, zero-add, suc-add}
use colinux_64bit.Arch.{page_size}
use colinux_64bit.Space.Memory.{get_or-cons}
use colinux_64bit.Space.{Ram, store, write_bytes, read_bytes}

-- `f` takes a page of the guest to its frame.
module _ (f : ℕ → ℕ) where
  abbrev pub peek : Ram → ℕ → ℕ
  peek ram a = ram (f (a / page_size)) (a % page_size)

  abbrev pub poke : Ram → ℕ → ℕ → Ram
  poke ram a b = store ram (f (a / page_size)) (a % page_size) b

  unfoldable pub peeks : Ram → ℕ → ℕ → List ℕ
  peeks ram a zero = []
  peeks ram a (suc n) = peek ram a ∷ peeks ram (a + 1) n

  unfoldable pub pokes : Ram → ℕ → List ℕ → Ram
  pokes ram a [] = ram
  pokes ram a (b ∷ bs) = pokes (poke ram a b) (a + 1) bs

  pub pokes-append :
      (ram : Ram) (a : ℕ) (xs ys : List ℕ)
      → pokes ram a (xs ++ ys) ≡ pokes (pokes ram a xs) (a + length xs) ys
  unfolding pokes
  pokes-append ram a [] ys = rw (add-zero a)
  pokes-append ram a (x ∷ xs) ys =
      let e : a + suc (length xs) ≡ a + 1 + length xs = omega arith in
      rw (e, pokes-append (poke ram a x) (a + 1) xs ys)

  pub peeks-append :
      (ram : Ram) (a m n : ℕ) → peeks ram a (m + n) ≡ peeks ram a m ++ peeks ram (a + m) n
  unfolding peeks
  peeks-append ram a zero n = rw (add-zero a, zero-add n)
  peeks-append ram a (suc m) n =
      let e : a + suc m ≡ a + 1 + m = omega arith in
      rw (e, suc-add m n) (ap (◌∷◌ (peek ram a)) (peeks-append ram (a + 1) m n))

  -- In one page a block is written and read at once.
  pub write_bytes-pokes :
      (ram : Ram) (a : ℕ) (bs : List ℕ)
      → a % page_size + length bs ≤ page_size
      → write_bytes ram (f (a / page_size)) (a % page_size) bs ≡ pokes ram a bs
  unfolding write_bytes pokes
  write_bytes-pokes ram a [] h = refl
  write_bytes-pokes ram a (b ∷ []) h = refl
  write_bytes-pokes ram a (b ∷ c ∷ bs) h =
      let e : (a + 1) / page_size ≡ a / page_size = omega arith in
      let g : (a + 1) % page_size ≡ a % page_size + 1 = omega arith in
      rw (← write_bytes-pokes (poke ram a b) (a + 1) (c ∷ bs) (omega arith), e, g)

  read_frame-peeks :
      (ram : Ram) (a n frame at : ℕ)
      → frame ≡ f (a / page_size)
      → at ≡ a % page_size
      → a % page_size + n ≤ page_size
      → read_bytes ram frame at n ≡ peeks ram a n
  unfolding read_bytes peeks
  read_frame-peeks ram a zero frame at p q h = refl
  read_frame-peeks ram a (suc zero) frame at p q h = rw (p, q)
  read_frame-peeks ram a (suc (suc n)) frame at p q h =
      let e : f (a / page_size) ≡ f ((a + 1) / page_size) = ap f (omega arith) in
      ap₂ ◌∷◌ (rw (p, q))
        (read_frame-peeks ram (a + 1) (suc n) frame (at + 1) (p ∙ e) (omega arith) (omega arith))

  pub read_bytes-peeks :
      (ram : Ram) (a n : ℕ)
      → a % page_size + n ≤ page_size
      → read_bytes ram (f (a / page_size)) (a % page_size) n ≡ peeks ram a n
  read_bytes-peeks ram a n h = read_frame-peeks ram a n _ _ refl refl h

  -- A frame serves one page, and the pages of the range have a frame.
  abbrev pub Distinct : Type 0
  Distinct = (m n : ℕ) → f m ≢ 0 → f m ≡ f n → m ≡ n

  abbrev pub Mapped : ℕ → ℕ → Type 0
  Mapped a n = (i : ℕ) → i < n → f ((a + i) / page_size) ≢ 0

  Mapped-head : (a n : ℕ) → Mapped a (suc n) → f (a / page_size) ≢ 0
  Mapped-head a n h = rw (add-zero a) at (h 0 (omega arith))

  Mapped-tail : (a n : ℕ) → Mapped a (suc n) → Mapped (a + 1) n
  Mapped-tail a n h i lt =
      let e : a + 1 + i ≡ a + suc i = omega arith in rw e (h (suc i) (omega arith))

  peek-poke :
      (ram : Ram) (a b x : ℕ)
      → Distinct
      → f (a / page_size) ≢ 0
      → peek (poke ram a b) x ≡ (if x == a then b else peek ram x)
  peek-poke ram a b x d h = ground (arith, d (a / page_size) (x / page_size))

  -- A byte after a copy: the copy's where it lies in the range, else the old one.
  pub peek-pokes :
      (ram : Ram) (a : ℕ) (bs : List ℕ) (x : ℕ)
      → Distinct
      → Mapped a (length bs)
      → peek (pokes ram a bs) x
        ≡ (if leb a x && ltb x (a + length bs) then get_or bs (x - a) 0 else peek ram x)
  unfolding pokes
  peek-pokes ram a [] x d h = ground arith
  peek-pokes ram a (b ∷ bs) x d h =
      let e : x - (a + 1) ≡ x - a - 1 = omega arith in
      rw
        (
          peek-pokes (poke ram a b) (a + 1) bs x d (Mapped-tail a (length bs) h),
          get_or-cons b bs (x - a) 0,
          e,
          peek-poke ram a b x d (Mapped-head a (length bs) h),
        )
        (ground arith)

  -- What was written is read back.
  pub peeks-pokes :
      (ram : Ram) (a : ℕ) (bs : List ℕ)
      → Distinct
      → Mapped a (length bs)
      → peeks (pokes ram a bs) a (length bs) ≡ bs
  unfolding pokes peeks
  peeks-pokes ram a [] d h = refl
  peeks-pokes ram a (b ∷ bs) d h =
      let tail = Mapped-tail a (length bs) h in
      let first : peek (pokes (poke ram a b) (a + 1) bs) a ≡ b = ground (
        arith,
        peek-pokes (poke ram a b) (a + 1) bs a d tail,
        peek-poke ram a b a d (Mapped-head a (length bs) h),
      ) in
      rw (first, peeks-pokes (poke ram a b) (a + 1) bs d tail)
