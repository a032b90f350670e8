-- ===== src/Driver/Maps.antt =====
-- The frames that the reverse page tables take from the host, and give back.
use colinux_64bit.Base.{
  ℕ, zero, suc, ◌+◌, ◌*◌, ◌/◌, ◌^◌, ◌≤◌, ◌<◌, ◌≡◌, refl, sym, ◌∙◌, inl, inr, ◌⊎◌, true, false, List,
  [], ◌∷◌, ◌++◌, ◌==◌, leb, if◌then◌else◌, length, arith, length-append, drop, Bool-cases,
}
use mathlib.Core.Bool.{false≢true}
use mathlib.Core.List.{append-nil}
use colinux_64bit.Rc.{Rc, error, out_of_memory, co_ok}
use colinux_64bit.Arch.{page_size, ptrs_per_pte, ptrs_per_pgd}
use colinux_64bit.Driver.{
  get_page, fill_pfns, entry_of, ptes, Pgds, fill_pgds, put_pages, pgd_frames, page, no_page,
}

-- How often a frame is in a list.
abbrev pub occurs : ℕ → List ℕ → ℕ
occurs x [] = 0
occurs x (p ∷ ps) = (if p == x then 1 else 0) + occurs x ps

pub occurs-append : (x : ℕ) (ps qs : List ℕ) → occurs x (ps ++ qs) ≡ occurs x ps + occurs x qs
occurs-append x [] qs = omega arith
occurs-append x (p ∷ ps) qs = omega (arith, occurs-append x ps qs)

pub occurs-put_pages :
    (x : ℕ) (ps frames : List ℕ) → occurs x (put_pages ps frames) ≡ occurs x ps + occurs x frames
unfolding put_pages
occurs-put_pages x [] frames = omega arith
occurs-put_pages x (p ∷ ps) frames = omega (arith, occurs-put_pages x ps (p ∷ frames))

pub pgd_frames-append : (es fs : List ℕ) → pgd_frames (es ++ fs) ≡ pgd_frames es ++ pgd_frames fs
pgd_frames-append [] fs = refl
pgd_frames-append (e ∷ es) fs = elim (Bool-cases (e == 0)) [
  | inl z ↦ rw (z, pgd_frames-append es fs) refl
  | inr z ↦ rw (z, pgd_frames-append es fs) refl
]

-- The entry of a frame below 4 GB names it.
pub pgd_frames-entry_of : (p : ℕ) → p < 2 ^ 20 → pgd_frames (entry_of p ∷ []) ≡ p ∷ []
pgd_frames-entry_of p h =
    let e : (entry_of p == 0) ≡ false = ground arith in
    let f : entry_of p / page_size ≡ p = omega arith in rw (e, f) refl

-- A success takes each entry from the unused frames, and fills the table.
pub fill_pfns-occurs :
    (pages left : ℕ) (pfns frames : List ℕ)
    → let (rc, pfns', frames') = fill_pfns pages left pfns frames in
      co_ok rc ≡ true
      → (length pfns' ≡ length pfns + left)
        × ((x : ℕ) → occurs x pfns' + occurs x frames' ≡ occurs x pfns + occurs x frames)
unfolding fill_pfns get_page
fill_pfns-occurs pages zero pfns frames = λ e. (omega arith, λ x. refl)
fill_pfns-occurs pages (suc left) pfns [] = λ e. absurd (false≢true e)
fill_pfns-occurs pages (suc left) pfns (p ∷ frames) = elim (Bool-cases (leb pages p)) [
  | inl z ↦ rw (z, fill_pfns) (λ e. absurd (false≢true e))
  | inr z ↦
      rw (z, fill_pfns)
        (λ e.
          let r = fill_pfns-occurs pages left (pfns ++ p ∷ []) frames e in
          (
            omega (arith, r.0, length-append pfns (p ∷ [])),
            λ x. omega (arith, r.1 x, occurs-append x pfns (p ∷ [])),
          ))
]

abbrev total : ℕ → Pgds → ℕ
total x r = occurs x (pgd_frames r.pgds) + occurs x r.frames

total_entry :
    (x p : ℕ) (pgds frames : List ℕ) (t t' : List (ℕ × List ℕ))
    → p < 2 ^ 20
    → total x (record { pgds = pgds ++ entry_of p ∷ []; frames = frames; tables = t })
      ≡ total x (record { pgds = pgds; frames = p ∷ frames; tables = t' })
total_entry x p pgds frames t t' h =
    rw (pgd_frames-append pgds (entry_of p ∷ []), pgd_frames-entry_of p h)
      (omega (arith, occurs-append x (pgd_frames pgds) (p ∷ [])))

total_zero : (x : ℕ) (pgds : List ℕ) → pgd_frames (pgds ++ 0 ∷ []) ≡ pgd_frames pgds
total_zero x pgds = rw (pgd_frames-append pgds (0 ∷ []), append-nil (pgd_frames pgds)) refl

-- A page is refused, or it is the first unused frame and below the host's end.
page-cases :
    (pages : ℕ) (frames : List ℕ)
    → ((rc : Rc) × (rest : List ℕ) × (get_page pages frames ≡ no_page rc rest) × (co_ok rc ≡ false))
      ⊎ ((p : ℕ) × (rest : List ℕ) × (get_page pages frames ≡ page p rest)
          × (frames ≡ p ∷ rest)
          × (p < pages))
unfolding get_page
page-cases pages [] = inl (out_of_memory, [], refl, refl)
page-cases pages (p ∷ rest) = elim (Bool-cases (leb pages p)) [
  | inl e ↦ rw e (inl (error, rest, refl, refl))
  | inr e ↦ rw e (inr (p, rest, refl, refl, ground (arith, e)))
]

-- A success takes each table from the unused frames.
pub fill_pgds-occurs :
    (pages left covered : ℕ) (pfns : List ℕ) (r : Pgds)
    → pages ≤ 2 ^ 20
    → co_ok (fill_pgds pages left covered pfns r).0 ≡ true
    → (x : ℕ)
    → occurs x (pgd_frames (fill_pgds pages left covered pfns r).1.pgds)
        + occurs x (fill_pgds pages left covered pfns r).1.frames
      ≡ occurs x (pgd_frames r.pgds) + occurs x r.frames
unfolding fill_pgds
fill_pgds-occurs pages zero covered pfns r h e x = refl
fill_pgds-occurs pages (suc left) covered pfns r h e x = elim (Bool-cases (leb pages covered)) [
  | inl c ↦ rw c (
      fill_pgds-occurs pages left covered pfns (record r { pgds = r.pgds ++ 0 ∷ [] }) h (rw c at e)
        x
      ∙ rw (total_zero x r.pgds) refl)
  | inr c ↦ elim (page-cases pages r.frames) [
    | inl (rc, rest, g, b) ↦ absurd (false≢true (sym b ∙ rw (c, g) at e))
    | inr (p, rest, g, f, b) ↦
        rw (c, g)
          (fill_pgds-occurs pages left (covered + ptrs_per_pte * ptrs_per_pgd)
              (drop ptrs_per_pte pfns)
              (record {
                pgds = r.pgds ++ entry_of p ∷ [];
                frames = rest;
                tables = (p, ptes ptrs_per_pte pfns) ∷ r.tables;
              })
              h (rw (c, g) at e) x
            ∙ total_entry x p r.pgds rest r.tables r.tables (omega (arith, b, h))
            ∙ rw f refl)
  ]
]
