-- ===== src/Cmdline/Args/Consume.antt =====
-- What the functions that consume arguments take from `argv`, and what they leave.
use colinux_64bit.Base.{
  ℕ, ◌-◌, ◌≡◌, ◌≢◌, refl, ap, inl, inr, ◌⊎◌, Bool, true, false, ◌&&◌, Option, none, some, List, [],
  ◌∷◌, ◌++◌, ◌==◌, if◌then◌else◌, length, take, arith, length-append, take-append, Bool-cases,
}
use colinux_64bit.Rc.{ok, error}
use colinux_64bit.Cmdline.Args.{
  Argv, is_named, argumentless_parameter, argument_of, Found, take_parameter,
  one_argument_parameter, last_char, remove_quotation_marks, first_char,
}

-- No entry of a list has the name.
abbrev pub Lacks : List ℕ → Argv → Type 0
Lacks name [] = Unit
Lacks name (arg ∷ argv) = (is_named name arg ≡ false) × Lacks name argv

-- The parameter that is found is the first of its name: it alone becomes NULL. Where none is found,
-- `argv` has none of the name and stays.
pub argumentless_parameter_lem :
    (argv : Argv) (name : List ℕ)
    → ((argumentless_parameter argv name ≡ (argv, false)) × Lacks name argv)
      ⊎ ((before : Argv) × (arg : List ℕ) × (behind : Argv) × (argv ≡ before ++ some arg ∷ behind)
          × Lacks name before
          × (is_named name (some arg) ≡ true)
          × (argumentless_parameter argv name ≡ (before ++ none ∷ behind, true)))
unfolding argumentless_parameter
argumentless_parameter_lem [] name = inl (refl, tt)
argumentless_parameter_lem (none ∷ argv) name = elim (argumentless_parameter_lem argv name) [
  | inl (e, l) ↦ inl (rw e refl, (refl, l))
  | inr (before, arg, behind, a, l, n, e) ↦
      inr (none ∷ before, arg, behind, ap (λ xs. none ∷ xs) a, (refl, l), n, rw e refl)
]
argumentless_parameter_lem (some text ∷ argv) name = elim (Bool-cases (is_named name (some text))) [
  | inl y ↦ inr ([], text, argv, refl, tt, y, rw y refl)
  | inr y ↦ elim (argumentless_parameter_lem argv name) [
    | inl (e, l) ↦ inl (rw (y, e) refl, (y, l))
    | inr (before, arg, behind, a, l, n, e) ↦
        inr
          (some text ∷ before, arg, behind, ap (λ xs. some text ∷ xs) a, (y, l), n, rw (y, e) refl)
  ]
]

-- What is found at a parameter: nothing needed and nothing there, an error, or its argument.
pub data Taken (needed : Bool) (size : ℕ) (before : Argv) (arg : List ℕ)
    : Argv → Found → Type 0 where
  missing :
      (behind : Argv)
      → needed ≡ true
      → argument_of behind ≡ none
      → Taken needed size before arg behind (record {
        rc = error;
        argv = before ++ some arg ∷ behind;
        exists = false;
        argument = none;
      })
  alone :
      (behind : Argv)
      → needed ≡ false
      → argument_of behind ≡ none
      → Taken needed size before arg behind
          (record { rc = ok; argv = before ++ none ∷ behind; exists = true; argument = none })
  with_argument :
      (behind : Argv) (text : List ℕ)
      → first_char text ≢ 0x2d
      → Taken needed size before arg (some text ∷ behind) (record {
        rc = ok;
        argv = before ++ none ∷ none ∷ behind;
        exists = true;
        argument = some (take (size - 1) text);
      })

take_parameter-Taken :
    (needed : Bool) (size : ℕ) (arg : List ℕ) (behind : Argv)
    → Taken needed size [] arg behind
        (take_parameter needed (some arg) behind size (argument_of behind))
unfolding take_parameter argument_of
take_parameter-Taken true size arg [] = missing [] refl refl
take_parameter-Taken false size arg [] = alone [] refl refl
take_parameter-Taken true size arg (none ∷ argv) = missing (none ∷ argv) refl refl
take_parameter-Taken false size arg (none ∷ argv) = alone (none ∷ argv) refl refl
take_parameter-Taken true size arg (some t ∷ argv) = elim (Bool-cases (first_char t == 0x2d)) [
  | inl y ↦ rw y (missing (some t ∷ argv) refl (rw y refl))
  | inr y ↦ rw y (with_argument argv t (ground (arith, y)))
]
take_parameter-Taken false size arg (some t ∷ argv) = elim (Bool-cases (first_char t == 0x2d)) [
  | inl y ↦ rw y (alone (some t ∷ argv) refl (rw y refl))
  | inr y ↦ rw y (with_argument argv t (ground (arith, y)))
]

cons-Taken :
    (needed : Bool) (size : ℕ) (x : Option (List ℕ)) (before : Argv) (arg : List ℕ) (behind : Argv)
    (f : Found)
    → Taken needed size before arg behind f
    → Taken needed size (x ∷ before) arg behind (record f { argv = x ∷ f.argv })
cons-Taken needed size x before arg _ _ (missing behind e a) = missing behind e a
cons-Taken needed size x before arg _ _ (alone behind e a) = alone behind e a
cons-Taken needed size x before arg _ _ (with_argument behind text n) = with_argument behind text n

abbrev pub FoundIn : Bool → ℕ → List ℕ → Argv → Found → Type 0
FoundIn needed size name argv f =
    (Lacks name argv × (f ≡ record { rc = ok; argv = argv; exists = false; argument = none }))
    ⊎ ((before : Argv) × (arg : List ℕ) × (behind : Argv) × (argv ≡ before ++ some arg ∷ behind)
        × Lacks name before
        × (is_named name (some arg) ≡ true)
        × Taken needed size before arg behind f)

cons-FoundIn :
    (needed : Bool) (size : ℕ) (name : List ℕ) (x : Option (List ℕ)) (argv : Argv) (f : Found)
    → is_named name x ≡ false
    → FoundIn needed size name argv f
    → FoundIn needed size name (x ∷ argv) (record f { argv = x ∷ f.argv })
cons-FoundIn needed size name x argv f n (inl (l, e)) = inl ((n, l), rw e refl)
cons-FoundIn needed size name x argv f n (inr (before, arg, behind, a, l, y, t)) = inr (
  x ∷ before,
  arg,
  behind,
  ap (λ xs. x ∷ xs) a,
  (n, l),
  y,
  cons-Taken needed size x before arg behind f t,
)

if_FoundIn :
    (needed : Bool) (size : ℕ) (name : List ℕ) (argv : Argv) (b : Bool) (f g : Found)
    → (b ≡ true → FoundIn needed size name argv f)
    → (b ≡ false → FoundIn needed size name argv g)
    → FoundIn needed size name argv (if b then f else g)
if_FoundIn needed size name argv true f g h k = h refl
if_FoundIn needed size name argv false f g h k = k refl

-- A parameter with an argument, needed or not: where no entry has the name, the code is CO_RC(OK),
-- and nothing changes. Otherwise the first entry of the name is taken. Where an argument is behind
-- it (an entry that is not NULL and does not start with '-'), both become NULL, and the argument is
-- given back as far as it fits. Where none is, that is an error that changes nothing if the
-- argument is needed, and if not only the parameter becomes NULL.
pub one_argument_parameter-FoundIn :
    (needed : Bool) (argv : Argv) (name : List ℕ) (size : ℕ)
    → FoundIn needed size name argv (one_argument_parameter needed argv name size)
unfolding one_argument_parameter
one_argument_parameter-FoundIn needed [] name size = inl (tt, refl)
one_argument_parameter-FoundIn needed (none ∷ argv) name size =
    cons-FoundIn needed size name none argv _ refl
      (one_argument_parameter-FoundIn needed argv name size)
one_argument_parameter-FoundIn needed (some text ∷ argv) name size =
    if_FoundIn needed size name (some text ∷ argv) (is_named name (some text)) _ _
      (λ y. inr ([], text, argv, refl, tt, y, take_parameter-Taken needed size text argv))
      (λ y.
        cons-FoundIn needed size name (some text) argv _ y
          (one_argument_parameter-FoundIn needed argv name size))

last_char-append : (xs : List ℕ) (c : ℕ) → last_char (xs ++ c ∷ []) ≡ c
last_char-append [] c = refl
last_char-append (x ∷ []) c = refl
last_char-append (x ∷ y ∷ ys) c = last_char-append (y ∷ ys) c

unless : {A : Type 0} (a b : Bool) (x y : A) → b ≡ false → (if a && b then x else y) ≡ y
unless true b x y e = rw e refl
unless false b x y e = refl

not-eq : (n : ℕ) → n ≢ 0x22 → (n == 0x22) ≡ false
not-eq n h = ground (arith, h)

unquoted :
    (text : List ℕ)
    → first_char text ≢ 0x22 ⊎ last_char text ≢ 0x22
    → remove_quotation_marks text ≡ some text
unfolding remove_quotation_marks
unquoted [] h = refl
unquoted (c ∷ cs) (inl n) = let e : (c == 0x22) ≡ false = ground (arith, n) in rw e refl
unquoted (c ∷ cs) (inr n) = unless _ _ _ _ (not-eq _ n)

unquoted_or :
    (text : List ℕ)
    → (remove_quotation_marks text ≡ some text)
      ⊎ ((first_char text ≡ 0x22) × (last_char text ≡ 0x22))
unquoted_or text = elim (Bool-cases (first_char text == 0x22)) [
  | inr e ↦ inl (unquoted text (inl (ground (arith, e))))
  | inl e ↦ elim (Bool-cases (last_char text == 0x22)) [
    | inr f ↦ inl (unquoted text (inr (ground (arith, f))))
    | inl f ↦ inr (ground (arith, e), ground (arith, f))
  ]
]

-- Quotation marks round a text are removed, whatever the text; a text that does not start with one,
-- or does not end with one, stays; a quotation mark alone makes the length of the copy negative.
pub remove_quotation_marks_lem :
    (text : List ℕ)
    → (remove_quotation_marks (0x22 ∷ (text ++ 0x22 ∷ [])) ≡ some text)
      × ((remove_quotation_marks text ≡ some text)
          ⊎ ((first_char text ≡ 0x22) × (last_char text ≡ 0x22)))
      × (remove_quotation_marks (0x22 ∷ []) ≡ none)
unfolding remove_quotation_marks
remove_quotation_marks_lem text =
    let l : last_char (0x22 ∷ (text ++ 0x22 ∷ [])) ≡ 0x22 = last_char-append (0x22 ∷ text) 0x22 in
    let n : (length (text ++ 0x22 ∷ []) == 0) ≡ false =
      ground (arith, length-append text (0x22 ∷ [])) in
    let m : length (text ++ 0x22 ∷ []) - 1 ≡ length text =
      omega (arith, length-append text (0x22 ∷ [])) in
    (rw (l, n, m, take-append text (0x22 ∷ [])) refl, unquoted_or text, refl)
