-- ===== src/Opens/Count/Run.antt =====
-- Every call keeps the reference counts right and touches no freed memory.
use colinux_64bit.Base.{
  ℕ, zero, suc, ◌+◌, ◌<◌, ◌≤◌, ◌≡◌, refl, sym, ap, ◌∙◌, inl, inr, Bool, true, false, Option, none,
  some, List, [], ◌∷◌, ◌==◌, if◌then◌else◌, length, arith, Bool-cases, Option-cases, ==_iff,
}
use mathlib.Core.Path.{subst}
use colinux_64bit.Opens.{
  OpenDesc, Opens, module_at, set_module, connect, update, close, add_ref, set_reading, end_read,
  send_eof, then_do, close_old, attach_module, end_module, leave_module, each_module,
}
use colinux_64bit.Opens.Count.{
  Balanced, Ends, refs, one, self, connect-Balanced, recount-Balanced, close-Balanced,
  add_ref-Balanced, set_reading-Balanced, mark-Balanced, count-set_module, length-set_module,
}

abbrev pub nil : ℕ → ℕ
nil d = 0

-- The counts are right, for `n` modules.
abbrev pub Sized : ℕ → (ℕ → Bool) → Opens → Type 0
Sized n fs s =
    (length s.connected_modules ≡ n) × Balanced s.connected_modules s.connected_modules fs nil s

pub then_do-Ends :
    (P Q : Opens → Type 0) (o : Option Opens) (k : Opens → Option Opens)
    → Ends P o
    → ((t : Opens) → P t → Ends Q (k t))
    → Ends Q (then_do o k)
then_do-Ends P Q none k p h = absurd p
then_do-Ends P Q (some s) k p h = h s p

pub Ends-map :
    (P Q : Opens → Type 0) (o : Option Opens) → ((t : Opens) → P t → Q t) → Ends P o → Ends Q o
Ends-map P Q none f p = absurd p
Ends-map P Q (some s) f p = f s p

pub module_at-none : (i : ℕ) (cs : List (Option ℕ)) → module_at i cs ≡ none → length cs ≤ i
unfolding module_at
module_at-none i [] e = omega arith
module_at-none zero (c ∷ cs) e = absurd (ground arith)
module_at-none (suc i) (c ∷ cs) e = let h = module_at-none i cs e in omega arith

module _ (ms : List (Option ℕ)) (fs : ℕ → Bool) where
  pub live_file :
      (cs : List (Option ℕ)) (e : ℕ → ℕ) (o : ℕ) (s : Opens)
      → Balanced ms cs fs e s
      → fs o ≡ true
      → 0 < refs (s.descs o)
  live_file cs e o s bal f = ground (arith, bal.counted o)

  pub live_module :
      (i o : ℕ) (s : Opens)
      → Balanced ms ms fs nil s
      → module_at i ms ≡ some (some o)
      → 0 < refs (s.descs o)
  live_module i o s bal at =
      let c = count-set_module o i (some o) none ms at in
      let k = self o 1 in let b = bal.counted o in omega arith

  pub Balanced-Sized :
      (ks : List (Option ℕ)) (s : Opens)
      → length ks ≡ length ms
      → Balanced ks ks fs nil s
      → Sized (length ms) fs s
  Balanced-Sized ks s h bal =
      subst (λ x. (length x ≡ length ms) × Balanced x x fs nil s) (sym bal.modules) (h, bal)

  -- The slot is empty, and its reference is one too many.
  leave-Balanced :
      (i o : ℕ) (s : Opens)
      → module_at i ms ≡ some (some o)
      → Balanced ms ms fs nil s
      → Ends (Sized (length ms) fs) (close o (connect i none s))
  leave-Balanced i o s at bal =
      let ks = set_module i none ms in
      Ends-map (Balanced ks ks fs nil) (Sized (length ms) fs) (close o (connect i none s))
        (λ t. Balanced-Sized ks t (length-set_module i none ms))
        (close-Balanced ks ks fs nil o (connect i none s) (
          recount-Balanced ks ms fs nil (points_at o) (connect i none s)
            (connect-Balanced ms ms fs nil nil s bal i none) ks
            (λ d. let c = count-set_module d i (some o) none ms at in omega arith)))
    where
      points_at : ℕ → ℕ → ℕ
      points_at o d = 0 + one d o 1

  -- The code closes the old descriptor of a module before it enters the new one.
  close_old-Balanced :
      (i : ℕ) (old : Option ℕ) (s : Opens)
      → module_at i ms ≡ some old
      → Balanced ms ms fs nil s
      → Ends (Balanced ms (set_module i none ms) fs nil) (close_old old s)
  close_old-Balanced i none s at bal =
      recount-Balanced ms ms fs nil nil s bal (set_module i none ms)
        (λ d. let c = count-set_module d i none none ms at in omega arith)
  close_old-Balanced i (some o) s at bal = close-Balanced ms (set_module i none ms) fs nil o s (
      recount-Balanced ms ms fs nil _ s bal (set_module i none ms)
        (λ d. let c = count-set_module d i (some o) none ms at in omega arith))

  enter-Balanced :
      (i o : ℕ) (old : Option ℕ) (s : Opens)
      → module_at i ms ≡ some old
      → fs o ≡ true
      → Balanced ms (set_module i none ms) fs nil s
      → Ends (Sized (length ms) fs) (add_ref o (connect i (some o) s))
  enter-Balanced i o old s at f bal =
      let ks = set_module i (some o) ms in
      let ns = set_module i none ms in
      let b = connect-Balanced ms ns fs nil nil s bal i (some o) in
      Ends-map (Balanced ks ns fs (λ d. 0 + one d o 1)) (Sized (length ms) fs)
        (add_ref o (connect i (some o) s))
        (λ t q. Balanced-Sized ks t (length-set_module i (some o) ms) (
          recount-Balanced ks ns fs (λ d. 0 + one d o 1) nil t q ks
            (λ d.
              let c = count-set_module d i old (some o) ms at in
              let k = count-set_module d i old none ms at in omega arith)))
        (add_ref-Balanced ks ns fs nil o (connect i (some o) s) b (ground (arith, b.counted o)))

  pub mark-Sized :
      (o : ℕ) (f : OpenDesc → OpenDesc) (s : Opens)
      → Balanced ms ms fs nil s
      → 0 < refs (s.descs o)
      → ((x : OpenDesc) → (f x).ref_count ≡ x.ref_count)
      → Ends (Balanced ms ms fs nil) (update o (λ x. some (f x)) s)
  mark-Sized o f s bal here same = mark-Balanced ms ms fs nil o s bal here f same

  pub end_read-Balanced :
      (o : ℕ) (s : Opens) → Balanced ms ms fs nil s → Ends (Balanced ms ms fs nil) (end_read o s)
  unfolding end_read
  end_read-Balanced o s bal = elim (Bool-cases (s.reading o)) [
    | inl e ↦
        subst
          (λ c.
            Ends (Balanced ms ms fs nil) (if c then close o (set_reading o false s) else some s))
          (sym e)
          (close-Balanced ms ms fs nil o (set_reading o false s) (
            set_reading-Balanced ms ms fs nil (λ d. 0 + one d o 1) s bal o false
              (λ d. ground (arith, e))))
    | inr e ↦
        subst
          (λ c.
            Ends (Balanced ms ms fs nil) (if c then close o (set_reading o false s) else some s))
          (sym e) bal
  ]

  send_eof-Balanced :
      (o : ℕ) (s : Opens)
      → Balanced ms ms fs nil s
      → 0 < refs (s.descs o)
      → Ends (Balanced ms ms fs nil) (send_eof o s)
  send_eof-Balanced o s bal here =
      then_do-Ends (Balanced ms ms fs nil) (Balanced ms ms fs nil)
        (update o (λ x. some (record x { active = false })) s) (end_read o)
        (mark-Sized o (λ x. record x { active = false }) s bal here (λ x. refl))
        (end_read-Balanced o)

  pub end_round :
      (i : ℕ) (c : Option ℕ) (s : Opens)
      → module_at i ms ≡ some c
      → Balanced ms ms fs nil s
      → Ends (Sized (length ms) fs) (end_module i c s)
  end_round i none s at bal = Balanced-Sized ms s refl bal
  end_round i (some o) s at bal =
      then_do-Ends (Balanced ms ms fs nil) (Sized (length ms) fs) (send_eof o s)
        (λ t. close o (connect i none t)) (send_eof-Balanced o s bal (live_module i o s bal at))
        (λ t b. leave-Balanced i o t at b)

  pub leave_round :
      (o i : ℕ) (c : Option ℕ) (s : Opens)
      → module_at i ms ≡ some c
      → Balanced ms ms fs nil s
      → Ends (Sized (length ms) fs) (leave_module o i c s)
  leave_round o i none s at bal = Balanced-Sized ms s refl bal
  leave_round o i (some p) s at bal = elim (Bool-cases (p == o)) [
    | inl e ↦
        let q = (==_iff p o).0 e in rw e (leave-Balanced i o s (at ∙ ap (λ x. some (some x)) q) bal)
    | inr e ↦ rw e (Balanced-Sized ms s refl bal)
  ]

module _ (n : ℕ) (fs : ℕ → Bool) where
  at_module :
      (i : ℕ) (s : Opens) → i < n → Sized n fs s → module_at i s.connected_modules ≡ none → ⊥
  at_module i s lt b e =
      let h = module_at-none i s.connected_modules e in let k = b.0 in omega arith

  pub resized :
      (s : Opens) (o : Option Opens)
      → Sized n fs s
      → Ends (Sized (length s.connected_modules) fs) o
      → Ends (Sized n fs) o
  resized s o b h = subst (λ k. Ends (Sized k fs) o) b.0 h

  pub attach_module-Sized :
      (i o : ℕ) (s : Opens)
      → i < n
      → fs o ≡ true
      → Sized n fs s
      → Ends (Sized n fs) (attach_module i o s)
  unfolding attach_module
  attach_module-Sized i o s lt f b = elim (Option-cases (module_at i s.connected_modules)) [
    | inl e ↦ absurd (at_module i s lt b e)
    | inr (old, e) ↦
        let ms = s.connected_modules in
        rw (e, attach_module)
          (resized s (then_do (close_old old s) (λ t. add_ref o (connect i (some o) t))) b (
            then_do-Ends (Balanced ms (set_module i none ms) fs nil) (Sized (length ms) fs)
              (close_old old s) (λ t. add_ref o (connect i (some o) t))
              (close_old-Balanced ms fs i old s e b.1)
              (λ t q. enter-Balanced ms fs i o old t e f q)))
  ]

  module _ (f : ℕ → Option ℕ → Opens → Option Opens)
      (round : (i : ℕ) (c : Option ℕ) (s : Opens)
        → module_at i s.connected_modules ≡ some c
        → Balanced s.connected_modules s.connected_modules fs nil s
        → Ends (Sized (length s.connected_modules) fs) (f i c s)) where
    pub each_module-Sized :
        (i left : ℕ) (s : Opens)
        → i + left ≤ n
        → Sized n fs s
        → Ends (Sized n fs) (each_module f i left s)
    unfolding each_module
    each_module-Sized i zero s h b = b
    each_module-Sized i (suc left) s h b = elim (Option-cases (module_at i s.connected_modules)) [
      | inl e ↦ absurd (at_module i s (omega arith) b e)
      | inr (c, e) ↦
          rw (e, each_module)
            (then_do-Ends (Sized n fs) (Sized n fs) (f i c s) (each_module f (suc i) left)
              (resized s (f i c s) b (round i c s e b.1))
              (λ t q. each_module-Sized (suc i) left t (omega arith) q))
    ]
