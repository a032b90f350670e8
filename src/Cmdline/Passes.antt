-- ===== src/Cmdline/Passes.antt =====
-- The two passes over the arguments agree: the array that the first one measures fits the second.
use mathlib.Core.Bool.{false≢true}
use colinux_64bit.Base.{
  ℕ, zero, suc, ◌+◌, ◌-◌, ◌≤◌, ◌≡◌, refl, sym, ap, ◌∙◌, inl, inr, ◌⊎◌, true, false, Option, none,
  some, List, [], ◌∷◌, if◌then◌else◌, length, arith, length-append, Bool-cases,
}
use colinux_64bit.Rc.{Rc, ok, co_ok}
use colinux_64bit.Cmdline.Parser.{init}
use colinux_64bit.Cmdline.Scan.{Adds, Adds-trans, count_params-add, list_params-AddsOut}
use colinux_64bit.Cmdline.{
  dup_param, count_file, list_file, file_name, count_arg, count_args, list_arg, list_args,
  eval_params_file,
}

-- A file, in both passes.
list_file-Adds :
    (file : Rc × List ℕ) (written : List (List ℕ)) (mem : ℕ)
    → co_ok (count_file file 0).0 ≡ true
    → Adds
        (count_file file 0).1
        written
        mem
        (list_file file (written, mem)).0
        (list_file file (written, mem)).1
        (list_file file (written, mem)).2
unfolding list_file count_file
list_file-Adds (ok, []) written mem e = record {
  returns = refl;
  count = omega arith;
  left = omega arith;
}
list_file-Adds (ok, c ∷ cs) written mem e =
    let a =
      list_params-AddsOut init (c ∷ cs)
        (record { written = written; mem = mem; param_start = none })
        (λ e. absurd (false≢true e)) in
    record { returns = a.returns; count = a.count; left = a.left }
list_file-Adds (_, buf) written mem e = absurd (false≢true e)

count_file-add :
    (file : Rc × List ℕ) (k : ℕ)
    → count_file file k ≡ ((count_file file 0).0, k + (count_file file 0).1)
unfolding count_file
count_file-add (ok, []) k = let e : k + 0 ≡ k = omega arith in rw e refl
count_file-add (ok, c ∷ cs) k = rw (count_params-add init (c ∷ cs) k) refl
count_file-add (_, buf) k = let e : k + 0 ≡ k = omega arith in rw e refl

count_file-ok : (buf : List ℕ) → (count_file (ok, buf) 0).0 ≡ ok
unfolding count_file
count_file-ok [] = refl
count_file-ok (c ∷ cs) = refl

nothing : (xs : List (List ℕ)) → length xs ≡ 0 → xs ≡ []
nothing [] e = refl
nothing (x ∷ xs) e = absurd (omega (arith, e))

-- `n` strings at most are written, exactly `n` where there is memory, and no memory is lost.
pub record IsWritten (n : ℕ) (written : List (List ℕ)) (mem : ℕ) (rc : Rc)
    (written' : List (List ℕ)) (mem' : ℕ) : Type 0 where
  pub fits : length written' ≤ length written + n
  pub kept : length written' + mem' ≡ length written + mem
  pub enough : n ≤ mem → Adds n written mem rc written' mem'

Adds-IsWritten :
    {n : ℕ} {written : List (List ℕ)} {mem : ℕ} {rc : Rc} {written' : List (List ℕ)} {mem' : ℕ}
    → Adds n written mem rc written' mem'
    → IsWritten n written mem rc written' mem'
Adds-IsWritten a = record {
  fits = omega (arith, a.count);
  kept = omega (arith, a.count, a.left);
  enough = λ h. a;
}

IsWritten-trans :
    (a b : ℕ) (written : List (List ℕ)) (mem : ℕ) (r r' : Rc × List (List ℕ) × ℕ)
    → IsWritten a written mem r.0 r.1 r.2
    → IsWritten b r.1 r.2 r'.0 r'.1 r'.2
    → IsWritten
        (a + b)
        written
        mem
        (if co_ok r.0 then r' else r).0
        (if co_ok r.0 then r' else r).1
        (if co_ok r.0 then r' else r).2
IsWritten-trans a b written mem r r' h k = elim (Bool-cases (co_ok r.0)) [
  | inl e ↦ rw e (record {
    fits = omega (arith, h.fits, k.fits);
    kept = omega (arith, h.kept, k.kept);
    enough = λ m.
        Adds-trans a b written mem r.0 r.1 r.2 r'.0 r'.1 r'.2 (h.enough (omega arith))
          (k.enough (omega (arith, (h.enough (omega arith)).left)));
  })
  | inr e ↦ rw e (record {
    fits = omega (arith, h.fits);
    kept = h.kept;
    enough = λ m. absurd (false≢true (sym e ∙ ap co_ok (h.enough (omega arith)).returns));
  })
]

module _ (load : List ℕ → Rc × List ℕ) where
  count_arg-add :
      (name : Option (List ℕ)) (k : ℕ)
      → count_arg load name k ≡ ((count_arg load name 0).0, k + (count_arg load name 0).1)
  unfolding count_arg
  count_arg-add none k = refl
  count_arg-add (some name) k = count_file-add (load name) k

  count_args-add :
      (args : List (List ℕ)) (k : ℕ)
      → count_args load args k ≡ ((count_args load args 0).0, k + (count_args load args 0).1)
  unfolding count_args
  count_args-add [] k = let e : k + 0 ≡ k = omega arith in rw e refl
  count_args-add (arg ∷ args) k =
      let r = count_arg load (file_name arg) 0 in
      elim (Bool-cases (co_ok r.0)) [
        | inl e ↦
            let f : k + r.1 + (count_args load args 0).1 ≡ k + (r.1 + (count_args load args 0).1) =
              omega arith in
            rw
              (
                count_arg-add (file_name arg) k,
                e,
                count_args-add args (k + r.1),
                count_args-add args r.1,
                f,
              )
              refl
        | inr e ↦ rw (count_arg-add (file_name arg) k, e) refl
      ]

  list_arg-IsWritten :
      (name : Option (List ℕ)) (arg : List ℕ) (written : List (List ℕ)) (mem : ℕ)
      → co_ok (count_arg load name 0).0 ≡ true
      → IsWritten
          (count_arg load name 0).1
          written
          mem
          (list_arg load name arg written mem).0
          (list_arg load name arg written mem).1
          (list_arg load name arg written mem).2
  unfolding list_arg count_arg dup_param
  list_arg-IsWritten none arg written zero h = record {
    fits = omega arith;
    kept = refl;
    enough = λ m. absurd (omega (arith, m));
  }
  list_arg-IsWritten none arg written (suc mem) h =
      let l = length-append written (arg ∷ []) in
      Adds-IsWritten (record { returns = refl; count = omega (arith, l); left = omega arith })
  list_arg-IsWritten (some name) arg written mem h =
      Adds-IsWritten (list_file-Adds (load name) written mem h)

  pub list_args-IsWritten :
      (args written : List (List ℕ)) (mem : ℕ)
      → co_ok (count_args load args 0).0 ≡ true
      → IsWritten
          (count_args load args 0).1
          written
          mem
          (list_args load args written mem).0
          (list_args load args written mem).1
          (list_args load args written mem).2
  unfolding list_args count_args
  list_args-IsWritten [] written mem h =
      Adds-IsWritten (record { returns = refl; count = omega arith; left = omega arith })
  list_args-IsWritten (arg ∷ args) written mem h =
      let c = count_arg load (file_name arg) 0 in
      let r = list_arg load (file_name arg) arg written mem in
      let r' = list_args load args r.1 r.2 in
      elim (Bool-cases (co_ok c.0)) [
        | inl e ↦
            let g : co_ok (count_args load args 0).0 ≡ true =
              ap (λ x. co_ok x.0) (sym (count_args-add args c.1)) ∙ rw e at h in
            rw (e, count_args-add args c.1)
              (IsWritten-trans c.1 (count_args load args 0).1 written mem r r'
                (list_arg-IsWritten (file_name arg) arg written mem e)
                (list_args-IsWritten args r.1 r.2 g))
        | inr e ↦ absurd (false≢true (sym e ∙ (rw e at h)))
      ]

  -- Where the first pass counts n arguments, the second never writes more than n into the array of
  -- that size, whatever the memory; with memory for n strings and the array, all of them are
  -- written, and exactly that memory is taken.
  pub eval_params_file_fits :
      (args : List (List ℕ)) (n mem any_mem : ℕ)
      → count_args load args 0 ≡ (ok, n)
      → n ≤ mem
      → (length (list_args load args [] any_mem).1 ≤ n)
        × ((args' : List (List ℕ)) × (eval_params_file load args (suc mem)
              ≡ (ok, args', suc (mem - n)))
            × (length args' ≡ n))
  unfolding eval_params_file
  eval_params_file_fits args n mem any_mem e h =
      let any = list_args-IsWritten args [] any_mem (ap (λ x. co_ok x.0) e) in
      let w = list_args-IsWritten args [] mem (ap (λ x. co_ok x.0) e) in
      let f : (count_args load args 0).1 ≡ n = ap (λ x. x.1) e in
      (
        omega (arith, any.fits, f),
        let a = w.enough (omega (arith, f, h)) in
            (
              (list_args load args [] mem).1,
              rw (e, a.returns, a.left, f) refl,
              omega (arith, a.count, f, h),
            ),
      )

  -- An evaluation that fails leaves the arguments as they were and takes no memory; one that
  -- succeeds takes memory for its strings.
  pub eval_params_file_keeps :
      (args : List (List ℕ)) (mem : ℕ)
      → let (rc, args', mem') = eval_params_file load args mem in
        ((co_ok rc ≡ false) × (args' ≡ args) × (mem' ≡ mem))
        ⊎ ((rc ≡ ok) × (length args' + mem' ≡ mem))
  unfolding eval_params_file
  eval_params_file_keeps args zero = elim (Bool-cases (co_ok (count_args load args 0).0)) [
    | inl e ↦ rw e (inl (refl, refl, refl))
    | inr e ↦ rw e (inl (e, refl, refl))
  ]
  eval_params_file_keeps args (suc mem) = elim (Bool-cases (co_ok (count_args load args 0).0)) [
    | inr e ↦ rw e (inl (e, refl, refl))
    | inl e ↦
        let w = list_args-IsWritten args [] mem e in
        elim (Bool-cases (co_ok (list_args load args [] mem).0)) [
          | inl f ↦ rw (e, f) (inr (refl, omega (arith, w.kept)))
          | inr f ↦ rw (e, f) (inl (f, refl, omega (arith, w.kept)))
        ]
  ]

  -- With memory for the array but for no string, an argument that names a file is evaluated to no
  -- argument at all, and this succeeds, whatever the file holds.
  pub params_lost :
      (name buf : List ℕ)
      → load name ≡ (ok, buf)
      → eval_params_file load ((0x40 ∷ name) ∷ []) 1 ≡ (ok, [], 1)
  unfolding eval_params_file count_args list_args count_arg list_arg
  params_lost name buf e =
      let c = count_file-ok buf in
      let a = list_file-Adds (ok, buf) [] 0 (ap co_ok c) in
      let n : (list_file (ok, buf) ([], 0)).1 ≡ [] = nothing _ (omega (arith, a.count)) in
      let m : (list_file (ok, buf) ([], 0)).2 ≡ 0 = omega (arith, a.left) in
      rw (e, c, a.returns, n, m) refl
