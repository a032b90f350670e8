-- ===== src/Opens/Tests.antt =====
-- A guest with three modules, a daemon and a console.
use colinux_64bit.Base.{ℕ, ◌≡◌, refl, true, false, Option, none, some, List, [], ◌∷◌, arith}
use colinux_64bit.Opens.{
  OpenDesc, Opens, Call, opening, attaching, attach_failing, closing, send_starting, send_ending,
  run, call, open_desc, attach, attach_modules, attach_module, module_at, set_module, add_ref,
  close, deactive_and_close, each_module, send_start, wait_read, end_read, read_waiting,
  read_ending,
}
use colinux_64bit.Opens.Count.{Ends, count}
use colinux_64bit.Opens.Count.Calls.{Counted, run-Counted}

abbrev idle : Opens
idle = record {
  descs = λ d. none;
  files = λ d. false;
  reading = λ d. false;
  sending = λ d. 0;
  connected_modules = none ∷ none ∷ none ∷ [];
}

idle-Counted : Counted 3 idle
unfolding count
idle-Counted =
    (refl, record { modules = refl; open_files = refl; alive = λ d. tt; counted = λ d. refl })

-- The console takes over module 2 from the daemon, which closes while a message is sent to it.
abbrev calls : List Call
calls =
    opening 7
    ∷ attaching 7 (0 ∷ 2 ∷ [])
    ∷ read_waiting 7
    ∷ send_starting 0
    ∷ opening 8
    ∷ attaching 8 (2 ∷ [])
    ∷ closing 7
    ∷ read_ending 7
    ∷ send_ending 7
    ∷ []

abbrev descs_of : Option Opens → ℕ → Option OpenDesc
descs_of none d = none
descs_of (some s) d = s.descs d

abbrev console_desc : OpenDesc
console_desc = record { active = true; ref_count = 2; attached = true }

console_test : descs_of (run calls idle) 8 ≡ some console_desc
unfolding run call open_desc attach attach_modules attach_module module_at set_module add_ref close
    deactive_and_close each_module send_start wait_read end_read
console_test = refl

daemon_test : descs_of (run calls idle) 7 ≡ none
unfolding run call open_desc attach attach_modules attach_module module_at set_module add_ref close
    deactive_and_close each_module send_start wait_read end_read
daemon_test = refl

-- A descriptor whose second attaching fails keeps its modules when its file is closed.
kept_test :
    descs_of (run (opening 7 ∷ attaching 7 (0 ∷ []) ∷ attach_failing 7 ∷ closing 7 ∷ []) idle) 7
    ≡ some (record { active = false; ref_count = 1; attached = false })
unfolding run call open_desc attach attach_modules attach_module module_at set_module add_ref close
    deactive_and_close each_module
kept_test = refl

-- A module outside the array is not refused.
outside_test : run (opening 7 ∷ attaching 7 (3 ∷ []) ∷ []) idle ≡ none
unfolding run call open_desc attach attach_modules attach_module module_at add_ref
outside_test = refl

run-Counted_example : Ends (Counted 3) (run calls idle)
run-Counted_example =
    run-Counted 3 calls idle
      (
        tt,
        (
          (omega arith, (omega arith, tt)),
          (tt, (omega arith, (tt, ((omega arith, tt), (tt, (tt, (tt, tt))))))),
        ),
      )
      idle-Counted
