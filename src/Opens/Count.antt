-- ===== src/Opens/Count.antt =====
-- The reference counts of the open descriptors: each counts the file, the modules and the messages
-- that use the descriptor.
pub mod Run
pub mod Calls
use colinux_64bit.Base.{
  ℕ, zero, suc, ◌+◌, ◌-◌, ◌<◌, ◌≡◌, refl, sym, ap, ◌∙◌, inl, inr, Bool, true, false, Option, none,
  some, List, [], ◌∷◌, ◌==◌, if◌then◌else◌, length, arith, Bool-cases, Option-cases, ==_iff,
}
use mathlib.Core.Path.{subst}
use colinux_64bit.Opens.{
  OpenDesc, Opens, set_desc, set_file, set_reading, set_sending, module_at, set_module, connect,
  update, close, add_ref,
}

abbrev pub refs : Option OpenDesc → ℕ
refs none = 0
refs (some x) = x.ref_count

abbrev pub Alive : Option OpenDesc → Type 0
Alive none = Unit
Alive (some x) = 0 < x.ref_count

abbrev pub file_ref : Bool → ℕ
file_ref b = if b then 1 else 0

abbrev pub one : ℕ → ℕ → ℕ → ℕ
one d o n = if d == o then n else 0

-- Whether an entry of `connected_modules` is the descriptor `d`.
abbrev pub points : ℕ → Option ℕ → ℕ
points d none = 0
points d (some o) = one d o 1

abbrev entry_points : ℕ → Option (Option ℕ) → ℕ
entry_points d none = 0
entry_points d (some c) = points d c

unfoldable pub count : ℕ → List (Option ℕ) → ℕ
count d [] = 0
count d (c ∷ cs) = points d c + count d cs

-- The modules are `ms` and the open files `fs`. Every count is the number of uses, by the files, by
-- modules as in `cs`, by waiting reads and by sending, and of `extra` ones; no descriptor has the count 0.
pub record Balanced (ms cs : List (Option ℕ)) (fs : ℕ → Bool) (extra : ℕ → ℕ) (s : Opens)
    : Type 0 where
  pub modules : s.connected_modules ≡ ms
  pub open_files : s.files ≡ fs
  pub alive : (d : ℕ) → Alive (s.descs d)
  pub counted :
      (d : ℕ)
      → refs (s.descs d)
        ≡ file_ref (fs d) + count d cs + file_ref (s.reading d) + s.sending d + extra d

-- The call touches no freed memory, and what it leaves has `P`.
abbrev pub Ends : (Opens → Type 0) → Option Opens → Type 0
Ends P none = ⊥
Ends P (some s) = P s

length-set_module :
    (i : ℕ) (x : Option ℕ) (cs : List (Option ℕ)) → length (set_module i x cs) ≡ length cs
unfolding set_module
length-set_module i x [] = refl
length-set_module zero x (c ∷ cs) = refl
length-set_module (suc i) x (c ∷ cs) = ap suc (length-set_module i x cs)

count-set_module :
    (d i : ℕ) (old new : Option ℕ) (cs : List (Option ℕ))
    → module_at i cs ≡ some old
    → count d (set_module i new cs) + points d old ≡ count d cs + points d new
unfolding set_module module_at count
count-set_module d i old new [] e = absurd (ground arith)
count-set_module d zero old new (c ∷ cs) e =
    let q : points d c ≡ points d old = ap (λ x. entry_points d x) e in omega arith
count-set_module d (suc i) old new (c ∷ cs) e =
    let q = count-set_module d i old new cs e in omega arith

module _ (ms cs : List (Option ℕ)) (fs : ℕ → Bool) (e e' : ℕ → ℕ) (s : Opens)
    (bal : Balanced ms cs fs e s) where
  update-Balanced :
      (o a b : ℕ) (f : OpenDesc → Option OpenDesc)
      → 0 < refs (s.descs o)
      → ((x : OpenDesc) → 0 < x.ref_count → Alive (f x) × (refs (f x) + a ≡ x.ref_count + b))
      → ((d : ℕ) → e' d + one d o a ≡ e d + one d o b)
      → Ends (Balanced ms cs fs e') (update o f s)
  update-Balanced o a b f here keep shift = elim (Option-cases (s.descs o)) [
    | inl q ↦ absurd (let z = ap refs q in omega arith)
    | inr (x, q) ↦
        let pos : 0 < x.ref_count = (let z = ap refs q in omega arith) in
        rw (q, update)
          (record {
            modules = bal.modules;
            open_files = bal.open_files;
            alive = λ d. elim (Bool-cases (d == o)) [
              | inl t ↦ rw t (keep x pos).0
              | inr t ↦ rw t (bal.alive d)
            ];
            counted = λ d. elim (Bool-cases (d == o)) [
              | inl t ↦
                  let z : refs (s.descs d) ≡ x.ref_count =
                    ap (λ k. refs (s.descs k)) ((==_iff d o).0 t) ∙ ap refs q in
                  rw t (ground (arith, bal.counted d, (keep x pos).1, shift d))
              | inr t ↦ rw t (ground (arith, bal.counted d, shift d))
            ];
          })
  ]

  pub set_file-Balanced :
      (o : ℕ) (b : Bool)
      → ((d : ℕ) → e' d + one d o (file_ref b) ≡ e d + one d o (file_ref (fs o)))
      → Balanced ms cs (λ d. if d == o then b else fs d) e' (set_file o b s)
  set_file-Balanced o b shift = record {
    modules = bal.modules;
    open_files = ap (λ f d. if d == o then b else f d) bal.open_files;
    alive = bal.alive;
    counted = λ d. elim (Bool-cases (d == o)) [
      | inl t ↦
          let z : file_ref (fs d) ≡ file_ref (fs o) =
            ap (λ k. file_ref (fs k)) ((==_iff d o).0 t) in
          rw t (ground (arith, bal.counted d, shift d))
      | inr t ↦ rw t (ground (arith, bal.counted d, shift d))
    ];
  }

  pub set_reading-Balanced :
      (o : ℕ) (b : Bool)
      → ((d : ℕ) → e' d + one d o (file_ref b) ≡ e d + one d o (file_ref (s.reading o)))
      → Balanced ms cs fs e' (set_reading o b s)
  set_reading-Balanced o b shift = record {
    modules = bal.modules;
    open_files = bal.open_files;
    alive = bal.alive;
    counted = λ d. elim (Bool-cases (d == o)) [
      | inl t ↦
          let z : file_ref (s.reading d) ≡ file_ref (s.reading o) =
            ap (λ k. file_ref (s.reading k)) ((==_iff d o).0 t) in
          rw t (ground (arith, bal.counted d, shift d))
      | inr t ↦ rw t (ground (arith, bal.counted d, shift d))
    ];
  }

  pub set_sending-Balanced :
      (o k : ℕ)
      → ((d : ℕ) → e' d + one d o k ≡ e d + one d o (s.sending o))
      → Balanced ms cs fs e' (set_sending o k s)
  set_sending-Balanced o k shift = record {
    modules = bal.modules;
    open_files = bal.open_files;
    alive = bal.alive;
    counted = λ d. elim (Bool-cases (d == o)) [
      | inl t ↦
          let z : s.sending d ≡ s.sending o = ap s.sending ((==_iff d o).0 t) in
          rw t (ground (arith, bal.counted d, shift d))
      | inr t ↦ rw t (ground (arith, bal.counted d, shift d))
    ];
  }

  connect-Balanced :
      (i : ℕ) (new : Option ℕ) → Balanced (set_module i new ms) cs fs e (connect i new s)
  connect-Balanced i new = record {
    modules = ap (set_module i new) bal.modules;
    open_files = bal.open_files;
    alive = bal.alive;
    counted = bal.counted;
  }

  recount-Balanced :
      (cs' : List (Option ℕ))
      → ((d : ℕ) → count d cs' + e' d ≡ count d cs + e d)
      → Balanced ms cs' fs e' s
  recount-Balanced cs' shift = record {
    modules = bal.modules;
    open_files = bal.open_files;
    alive = bal.alive;
    counted = λ d. let k = shift d in let b = bal.counted d in omega arith;
  }

self : (o n : ℕ) → one o o n ≡ n
self o n = rw ((==_iff o o).1 refl) refl

module _ (ms cs : List (Option ℕ)) (fs : ℕ → Bool) (e : ℕ → ℕ) (o : ℕ) (s : Opens) where
  pub close-Balanced :
      Balanced ms cs fs (λ d. e d + one d o 1) s → Ends (Balanced ms cs fs e) (close o s)
  unfolding close
  close-Balanced bal =
      update-Balanced ms cs fs (λ d. e d + one d o 1) e s bal o 1 0
        (λ x. if x.ref_count == 1 then none else some (record x { ref_count = x.ref_count - 1 }))
        (let c = bal.counted o in let i = self o 1 in omega arith)
        (λ x pos. elim (Bool-cases (x.ref_count == 1)) [
          | inl t ↦ rw t (tt, (let z = (==_iff x.ref_count 1).0 t in omega arith))
          | inr t ↦ rw t (ground arith, ground arith)
        ])
        (λ d. ground arith)

  module _ (bal : Balanced ms cs fs e s) (here : 0 < refs (s.descs o)) where
    pub add_ref-Balanced : Ends (Balanced ms cs fs (λ d. e d + one d o 1)) (add_ref o s)
    unfolding add_ref
    add_ref-Balanced =
        update-Balanced ms cs fs e (λ d. e d + one d o 1) s bal o 0 1
          (λ x. some (record x { ref_count = x.ref_count + 1 })) here
          (λ x pos. (omega arith, omega arith)) (λ d. ground arith)

    pub mark-Balanced :
        (f : OpenDesc → OpenDesc)
        → ((x : OpenDesc) → (f x).ref_count ≡ x.ref_count)
        → Ends (Balanced ms cs fs e) (update o (λ x. some (f x)) s)
    mark-Balanced f same =
        update-Balanced ms cs fs e e s bal o 0 0 (λ x. some (f x)) here
          (λ x pos. let q = same x in (omega arith, omega arith)) (λ d. refl)
