-- ===== src/Opens/Count/Calls.antt =====
-- Any sequence of the calls of the host and the guest.
use colinux_64bit.Base.{
  ℕ, ◌+◌, ◌-◌, ◌<◌, ◌≡◌, ◌≢◌, refl, sym, ap, ◌∙◌, inl, inr, Bool, true, false, Option, none, some,
  List, [], ◌∷◌, ◌==◌, if◌then◌else◌, length, arith, Bool-cases, Option-cases, ==_iff,
}
use mathlib.Core.Path.{subst}
use colinux_64bit.Opens.{
  OpenDesc, Opens, set_desc, set_file, set_sending, module_at, update, close, add_ref, then_do,
  attach_module, attach_modules, end_module, leave_module, each_module, open_desc, set_attached,
  attach, send_end_messages, is_attached, deactivate, deactive_and_close, send_start, on_file, Call,
  opening, attaching, attach_failing, monitor_closing, closing, ending, send_starting, send_ending,
  read_waiting, read_ending, wait_read, end_read, set_reading, call, run,
}
use colinux_64bit.Opens.Count.{
  Balanced, Ends, refs, one, close-Balanced, add_ref-Balanced, set_file-Balanced,
  set_sending-Balanced, set_reading-Balanced,
}
use colinux_64bit.Opens.Count.Run.{
  nil, Sized, module_at-none, then_do-Ends, Ends-map, live_file, live_module, end_round,
  end_read-Balanced, leave_round, attach_module-Sized, each_module-Sized, mark-Sized,
  Balanced-Sized, resized,
}

-- With the files that the state says are open.
abbrev pub Counted : ℕ → Opens → Type 0
Counted n s = Sized n s.files s

-- The modules of a call are in the array.
abbrev pub InArray : ℕ → List ℕ → Type 0
InArray n [] = Unit
InArray n (i ∷ is) = (i < n) × InArray n is

abbrev pub Fits : ℕ → Call → Type 0
Fits n (attaching o is) = InArray n is
Fits n (send_starting i) = i < n
Fits n _ = Unit

abbrev pub AllFit : ℕ → List Call → Type 0
AllFit n [] = Unit
AllFit n (c ∷ cs) = Fits n c × AllFit n cs

both-Ends :
    (P Q : Opens → Type 0) (o : Option Opens) → Ends P o → Ends Q o → Ends (λ t. P t × Q t) o
both-Ends P Q none p q = p
both-Ends P Q (some s) p q = (p, q)

Sized-Counted : (n : ℕ) (fs : ℕ → Bool) (s : Opens) → Sized n fs s → Counted n s
Sized-Counted n fs s b = subst (λ f. Sized n f s) (sym b.1.open_files) b

module _ (n : ℕ) (fs : ℕ → Bool) where
  mark_file :
      (o : ℕ) (f : OpenDesc → OpenDesc) (s : Opens)
      → fs o ≡ true
      → ((x : OpenDesc) → (f x).ref_count ≡ x.ref_count)
      → Sized n fs s
      → Ends (Sized n fs) (update o (λ x. some (f x)) s)
  mark_file o f s h same b =
      let ms = s.connected_modules in
      resized n fs s (update o (λ x. some (f x)) s) b (
        Ends-map (Balanced ms ms fs nil) (Sized (length ms) fs) (update o (λ x. some (f x)) s)
          (λ t q. Balanced-Sized ms fs ms t refl q)
          (mark-Sized ms fs o f s b.1 (live_file ms fs ms nil o s b.1 h) same))

  attach_modules-Sized :
      (is : List ℕ) (o : ℕ) (s : Opens)
      → InArray n is
      → fs o ≡ true
      → Sized n fs s
      → Ends (Sized n fs) (attach_modules is o s)
  unfolding attach_modules
  attach_modules-Sized [] o s i f b = b
  attach_modules-Sized (k ∷ is) o s i f b =
      then_do-Ends (Sized n fs) (Sized n fs) (attach_module k o s) (attach_modules is o)
        (attach_module-Sized n fs k o s i.0 f b) (λ t q. attach_modules-Sized is o t i.1 f q)

  send_end_messages-Sized : (s : Opens) → Sized n fs s → Ends (Sized n fs) (send_end_messages s)
  unfolding send_end_messages
  send_end_messages-Sized s b =
      each_module-Sized n fs end_module
        (λ i c t at bal. end_round t.connected_modules fs i c t at bal) 0
        (length s.connected_modules) s (let h = b.0 in omega arith) b

  leave_modules :
      (o : ℕ) (s : Opens)
      → Sized n fs s
      → Ends (Sized n fs) (
          if is_attached (s.descs o)
          then each_module (leave_module o) 0 (length s.connected_modules) s
          else some s)
  leave_modules o s b = elim (Bool-cases (is_attached (s.descs o))) [
    | inl e ↦ rw e (
        each_module-Sized n fs (leave_module o)
          (λ i c t at bal. leave_round t.connected_modules fs o i c t at bal) 0
          (length s.connected_modules) s (let h = b.0 in omega arith) b)
    | inr e ↦ rw e b
  ]

  close_file :
      (o : ℕ) (s : Opens)
      → fs o ≡ true
      → Sized n fs s
      → Ends (Counted n) (close o (set_file o false s))
  close_file o s h b =
      let ms = s.connected_modules in
      let gs : ℕ → Bool = λ d. if d == o then false else fs d in
      Ends-map (Balanced ms ms gs nil) (Counted n) (close o (set_file o false s))
        (λ t q.
          Sized-Counted n gs t (subst (λ k. Sized k gs t) b.0 (Balanced-Sized ms gs ms t refl q)))
        (close-Balanced ms ms gs nil o (set_file o false s) (
          set_file-Balanced ms ms fs nil (λ d. 0 + one d o 1) s b.1 o false
            (λ d. ground (arith, h))))

  deactive_and_close-Counted :
      (o : ℕ) (s : Opens) → fs o ≡ true → Sized n fs s → Ends (Counted n) (deactive_and_close o s)
  unfolding deactive_and_close
  deactive_and_close-Counted o s h b =
      then_do-Ends (Sized n fs) (Counted n) (deactivate o s) _
        (mark_file o (λ x. record x { active = false }) s h (λ x. refl) b)
        (λ t q.
          then_do-Ends (Sized n fs) (Counted n) _ _ (leave_modules o t q)
            (λ u r. close_file o u h r))

module _ (n : ℕ) (s : Opens) (b : Counted n s) where
  abbrev ms : List (Option ℕ)
  ms = s.connected_modules

  Counted-new :
      (fs : ℕ → Bool) (o : Option Opens) → Ends (Balanced ms ms fs nil) o → Ends (Counted n) o
  Counted-new fs o h =
      Ends-map (Balanced ms ms fs nil) (Counted n) o
        (λ t q.
          Sized-Counted n fs t (subst (λ k. Sized k fs t) b.0 (Balanced-Sized ms fs ms t refl q)))
        h

  -- Memory that is not in use is no open file, no module and no message's.
  fresh-Balanced :
      (o : ℕ) (x : OpenDesc)
      → s.descs o ≡ none
      → x.ref_count ≡ 1
      → Balanced ms ms s.files (λ d. one d o 1) (set_desc o (some x) s)
  fresh-Balanced o x e r = record {
    modules = refl;
    open_files = refl;
    alive =
        λ d. elim (Bool-cases (d == o)) [ inl t ↦ rw t (omega arith) | inr t ↦ rw t (b.1.alive d) ];
    counted = λ d. elim (Bool-cases (d == o)) [
      | inl t ↦
          let z : refs (s.descs d) ≡ 0 =
            ap (λ k. refs (s.descs k)) ((==_iff d o).0 t) ∙ ap refs e in
          rw t (ground (arith, b.1.counted d))
      | inr t ↦ rw t (ground (arith, b.1.counted d))
    ];
  }

  closed_file : (o : ℕ) → s.descs o ≡ none → s.files o ≡ false
  closed_file o e = let z = ap refs e in ground (arith, b.1.counted o)

  open_desc-Counted : (o : ℕ) → Ends (Counted n) (open_desc o s)
  unfolding open_desc
  open_desc-Counted o = elim (Option-cases (s.descs o)) [
    | inl e ↦
        let x : OpenDesc = record { active = true; ref_count = 1; attached = false } in
        rw (e, open_desc)
          (Counted-new (λ d. if d == o then true else s.files d)
            (some (set_file o true (set_desc o (some x) s)))
            (set_file-Balanced ms ms s.files (λ d. one d o 1) nil (set_desc o (some x) s)
              (fresh-Balanced o x e refl) o true (λ d. ground (arith, closed_file o e))))
    | inr (x, e) ↦ rw (e, open_desc) b
  ]

  send_start-Counted : (i : ℕ) → i < n → Ends (Counted n) (send_start i s)
  unfolding send_start
  send_start-Counted i lt = elim (Option-cases (module_at i ms)) [
    | inl e ↦ absurd (let h = module_at-none i ms e in let k = b.0 in omega arith)
    | inr (none, e) ↦ rw (e, send_start) b
    | inr (some o, e) ↦
        rw (e, send_start)
          (Counted-new s.files
            (then_do (add_ref o s) (λ t. some (set_sending o (t.sending o + 1) t)))
            (then_do-Ends (Balanced ms ms s.files (λ d. 0 + one d o 1)) (Balanced ms ms s.files nil)
              (add_ref o s) (λ t. some (set_sending o (t.sending o + 1) t))
              (add_ref-Balanced ms ms s.files nil o s b.1 (live_module ms s.files i o s b.1 e))
              (λ t q.
                set_sending-Balanced ms ms s.files (λ d. 0 + one d o 1) nil t q o (t.sending o + 1)
                  (λ d. ground arith))))
  ]

  send_end-Counted : (o : ℕ) → Ends (Counted n) (call (send_ending o) s)
  unfolding call
  send_end-Counted o = elim (Bool-cases (s.sending o == 0)) [
    | inl e ↦ rw e b
    | inr e ↦
        let pos : s.sending o ≢ 0 = ground (arith, e) in
        rw e (
          Counted-new s.files (close o (set_sending o (s.sending o - 1) s)) (
            close-Balanced ms ms s.files nil o (set_sending o (s.sending o - 1) s) (
              set_sending-Balanced ms ms s.files nil (λ d. 0 + one d o 1) s b.1 o (s.sending o - 1)
                (λ d. ground (arith, pos)))))
  ]

  end_read-Counted : (o : ℕ) → Ends (Counted n) (end_read o s)
  end_read-Counted o = Counted-new s.files (end_read o s) (end_read-Balanced ms s.files o s b.1)

  -- Counting a reference changes no read.
  reading-add_ref : (o : ℕ) → 0 < refs (s.descs o) → Ends (λ t. t.reading ≡ s.reading) (add_ref o s)
  unfolding add_ref
  reading-add_ref o h = elim (Option-cases (s.descs o)) [
    | inl e ↦ absurd (let z = ap refs e in omega arith)
    | inr (x, e) ↦ rw (e, add_ref, update, Ends) refl
  ]

  abbrev waits : ℕ → Option Opens
  waits o = then_do (add_ref o s) (λ t. some (set_reading o true t))

  waits-Counted : (o : ℕ) → s.files o ≡ true → s.reading o ≡ false → Ends (Counted n) (waits o)
  waits-Counted o h e =
      let here = live_file ms s.files ms nil o s b.1 h in
      Counted-new s.files (waits o) (
        then_do-Ends (λ t. Balanced ms ms s.files (λ d. 0 + one d o 1) t × (t.reading ≡ s.reading))
          (Balanced ms ms s.files nil) (add_ref o s) (λ t. some (set_reading o true t))
          (both-Ends (Balanced ms ms s.files (λ d. 0 + one d o 1)) (λ t. t.reading ≡ s.reading)
            (add_ref o s) (add_ref-Balanced ms ms s.files nil o s b.1 here)
            (reading-add_ref o here))
          (λ t q.
            let r : t.reading o ≡ false = ap (λ f. f o) q.1 ∙ e in
            set_reading-Balanced ms ms s.files (λ d. 0 + one d o 1) nil t q.0 o true
              (λ d. ground (arith, r))))

  wait_read-Counted : (o : ℕ) → s.files o ≡ true → Ends (Counted n) (wait_read o s)
  unfolding wait_read
  wait_read-Counted o h = elim (Bool-cases (s.reading o)) [
    | inl e ↦ subst (λ c. Ends (Counted n) (if c then some s else waits o)) (sym e) b
    | inr e ↦
        subst (λ c. Ends (Counted n) (if c then some s else waits o)) (sym e) (waits-Counted o h e)
  ]

  on_file-Counted :
      (o : ℕ) (f : Opens → Option Opens)
      → (s.files o ≡ true → Ends (Counted n) (f s))
      → Ends (Counted n) (on_file o f s)
  on_file-Counted o f h = elim (Bool-cases (s.files o)) [
    | inl e ↦ subst (λ c. Ends (Counted n) (if c then f s else some s)) (sym e) (h e)
    | inr e ↦ subst (λ c. Ends (Counted n) (if c then f s else some s)) (sym e) b
  ]

  keep_files : (o : Option Opens) → Ends (Sized n s.files) o → Ends (Counted n) o
  keep_files o = Ends-map (Sized n s.files) (Counted n) o (λ t. Sized-Counted n s.files t)

  attached_file :
      (v : Bool) (o : ℕ) → s.files o ≡ true → Ends (Sized n s.files) (set_attached v o s)
  attached_file v o h = mark_file n s.files o (λ x. record x { attached = v }) s h (λ x. refl) b

  call-Counted : (c : Call) → Fits n c → Ends (Counted n) (call c s)
  unfolding call attach
  call-Counted (opening o) i = open_desc-Counted o
  call-Counted (attaching o is) i = on_file-Counted o (attach o is) (λ h.
      keep_files (attach o is s) (
        then_do-Ends (Sized n s.files) (Sized n s.files) (set_attached true o s)
          (attach_modules is o) (attached_file true o h)
          (λ t q. attach_modules-Sized n s.files is o t i h q)))
  call-Counted (attach_failing o) i =
      on_file-Counted o (set_attached false o) (λ h. keep_files _ (attached_file false o h))
  call-Counted (monitor_closing o) i =
      on_file-Counted o (set_attached false o) (λ h. keep_files _ (attached_file false o h))
  call-Counted (closing o) i =
      on_file-Counted o (deactive_and_close o) (λ h. deactive_and_close-Counted n s.files o s h b)
  call-Counted ending i = keep_files (send_end_messages s) (send_end_messages-Sized n s.files s b)
  call-Counted (read_waiting o) i = on_file-Counted o (wait_read o) (λ h. wait_read-Counted o h)
  call-Counted (read_ending o) i = end_read-Counted o
  call-Counted (send_starting k) i = send_start-Counted k i
  call-Counted (send_ending o) i = send_end-Counted o

-- Whatever the host and the guest call, in any order, with modules of the array: from right counts
-- no call touches freed memory, and the counts stay right: each descriptor's is the number of its
-- uses, by an open file, by modules, by a waiting read and by messages that are being sent, and it is freed exactly
-- where there are none.
pub run-Counted :
    (n : ℕ) (cs : List Call) (s : Opens) → AllFit n cs → Counted n s → Ends (Counted n) (run cs s)
unfolding run
run-Counted n [] s i b = b
run-Counted n (c ∷ cs) s i b =
    then_do-Ends (Counted n) (Counted n) (call c s) (run cs) (call-Counted n s b c i.0)
      (λ t q. run-Counted n cs t i.1 q)
