-- ===== src/Opens.antt =====
-- src/colinux/kernel/manager.c: the open descriptors of the driver, which daemons and the modules of
-- one guest share by reference counts. A use of freed memory, or of a module outside the array, is
-- `none`. The calls come from the host, which knows the open files. What the
-- end of the last reference means for the guest (co_monitor_refdown) is left out; the end of a guest,
-- `ending`, may come at any point.
pub mod Count
mod Tests
use colinux_64bit.Base.{
  ℕ, zero, suc, ◌+◌, ◌-◌, Bool, true, false, Option, none, some, List, [], ◌∷◌, ◌==◌, if◌then◌else◌,
  length,
}

-- `co_manager_open_desc_t`; `attached` is whether `monitor` is set.
pub record OpenDesc : Type 0 where
  pub active : Bool
  pub ref_count : ℕ
  pub attached : Bool

-- The descriptors that are allocated, the files that the host has open, the reads that wait
-- (`opened->os->irp`), the messages that are being sent to each, and `connected_modules`.
pub record Opens : Type 0 where
  pub descs : ℕ → Option OpenDesc
  pub files : ℕ → Bool
  pub reading : ℕ → Bool
  pub sending : ℕ → ℕ
  pub connected_modules : List (Option ℕ)

abbrev pub set_desc : ℕ → Option OpenDesc → Opens → Opens
set_desc o x s = record s { descs = λ d. if d == o then x else s.descs d }

abbrev pub set_file : ℕ → Bool → Opens → Opens
set_file o b s = record s { files = λ d. if d == o then b else s.files d }

abbrev pub set_reading : ℕ → Bool → Opens → Opens
set_reading o b s = record s { reading = λ d. if d == o then b else s.reading d }

abbrev pub set_sending : ℕ → ℕ → Opens → Opens
set_sending o n s = record s { sending = λ d. if d == o then n else s.sending d }

-- `connected_modules[i]`, and writing it.
unfoldable pub module_at : ℕ → List (Option ℕ) → Option (Option ℕ)
module_at i [] = none
module_at zero (c ∷ cs) = some c
module_at (suc i) (c ∷ cs) = module_at i cs

unfoldable pub set_module : ℕ → Option ℕ → List (Option ℕ) → List (Option ℕ)
set_module i x [] = []
set_module zero x (c ∷ cs) = x ∷ cs
set_module (suc i) x (c ∷ cs) = c ∷ set_module i x cs

abbrev pub connect : ℕ → Option ℕ → Opens → Opens
connect i x s = record s { connected_modules = set_module i x s.connected_modules }

abbrev pub then_do : Option Opens → (Opens → Option Opens) → Option Opens
then_do none k = none
then_do (some s) k = k s

-- A change of a descriptor that must be there.
abbrev pub update : ℕ → (OpenDesc → Option OpenDesc) → Opens → Option Opens
update o f s = elim (s.descs o) [ none ↦ none | some x ↦ some (set_desc o (f x) s) ]

-- `co_manager_close`: the last reference frees the descriptor. The count is never 0 here.
unfoldable pub close : ℕ → Opens → Option Opens
close o s =
    update o
      (λ x. if x.ref_count == 1 then none else some (record x { ref_count = x.ref_count - 1 })) s

-- `opened->ref_count++`
unfoldable pub add_ref : ℕ → Opens → Option Opens
add_ref o s = update o (λ x. some (record x { ref_count = x.ref_count + 1 })) s

-- `co_manager_open`: for memory that is not in use.
unfoldable pub open_desc : ℕ → Opens → Option Opens
open_desc o s = elim (s.descs o) [
  | some x ↦ some s
  | none ↦ some (
      set_file o true
        (set_desc o (some (record { active = true; ref_count = 1; attached = false })) s))
]

-- The reference of a module, if it has one.
abbrev pub close_old : Option ℕ → Opens → Option Opens
close_old none s = some s
close_old (some o) s = close o s

-- A round of the loop in CO_MANAGER_IOCTL_ATTACH.
unfoldable pub attach_module : ℕ → ℕ → Opens → Option Opens
attach_module i o s = elim (module_at i s.connected_modules) [
  | none ↦ none
  | some old ↦ then_do (close_old old s) (λ t. add_ref o (connect i (some o) t))
]

unfoldable pub attach_modules : List ℕ → ℕ → Opens → Option Opens
attach_modules [] o s = some s
attach_modules (i ∷ is) o s = then_do (attach_module i o s) (attach_modules is o)

abbrev pub set_attached : Bool → ℕ → Opens → Option Opens
set_attached b o s = update o (λ x. some (record x { attached = b })) s

abbrev pub deactivate : ℕ → Opens → Option Opens
deactivate o s = update o (λ x. some (record x { active = false })) s

-- `irp = NULL` and `co_manager_close`, where a read waits: in `co_os_manager_userspace_eof`, in
-- `co_os_manager_userspace_try_send_direct` and where the host cancels the read.
unfoldable pub end_read : ℕ → Opens → Option Opens
end_read o s = if s.reading o then close o (set_reading o false s) else some s

-- `manager_read` with no message in the queue: the read waits, and has a reference.
unfoldable pub wait_read : ℕ → Opens → Option Opens
wait_read o s =
    if s.reading o then some s else then_do (add_ref o s) (λ t. some (set_reading o true t))

-- `co_manager_send_eof`
abbrev pub send_eof : ℕ → Opens → Option Opens
send_eof o s = then_do (deactivate o s) (end_read o)

-- A round of `send_monitor_end_messages`: the module's descriptor is inactive, its waiting read
-- ends, and it loses the module's reference.
abbrev pub end_module : ℕ → Option ℕ → Opens → Option Opens
end_module i none s = some s
end_module i (some o) s = then_do (send_eof o s) (λ t. close o (connect i none t))

-- A round of `co_manager_open_desc_deactive_and_close`.
abbrev pub leave_module : ℕ → ℕ → Option ℕ → Opens → Option Opens
leave_module o i none s = some s
leave_module o i (some p) s = if p == o then close o (connect i none s) else some s

-- `for (index = 0; index < CO_MONITOR_MODULES_COUNT; index++)`, for the number of rounds left.
unfoldable pub each_module : (ℕ → Option ℕ → Opens → Option Opens) → ℕ → ℕ → Opens → Option Opens
each_module f i zero s = some s
each_module f i (suc left) s = elim (module_at i s.connected_modules) [
  | none ↦ none
  | some c ↦ then_do (f i c s) (each_module f (suc i) left)
]

-- What the host and the guest do: opening a file, CO_MANAGER_IOCTL_ATTACH for a guest that is there
-- or not, CO_MONITOR_IOCTL_CLOSE, closing a file, the end of the guest, a read that waits and its
-- end, by a message or cancelled, and the two halves of `incoming_message` round the sending.
pub data Call : Type 0 where
  opening : ℕ → Call
  attaching : ℕ → List ℕ → Call
  attach_failing : ℕ → Call
  monitor_closing : ℕ → Call
  closing : ℕ → Call
  ending : Call
  read_waiting : ℕ → Call
  read_ending : ℕ → Call
  send_starting : ℕ → Call
  send_ending : ℕ → Call

abbrev pub modules_count : Opens → ℕ
modules_count s = length s.connected_modules

unfoldable pub attach : ℕ → List ℕ → Opens → Option Opens
attach o is s = then_do (set_attached true o s) (attach_modules is o)

-- `send_monitor_end_messages`
unfoldable pub send_end_messages : Opens → Option Opens
send_end_messages s = each_module end_module 0 (modules_count s) s

abbrev pub is_attached : Option OpenDesc → Bool
is_attached none = false
is_attached (some x) = x.attached

-- `co_manager_open_desc_deactive_and_close`: the file's own reference goes last.
unfoldable pub deactive_and_close : ℕ → Opens → Option Opens
deactive_and_close o s = then_do (deactivate o s) (λ t.
    then_do
      (if is_attached (t.descs o)
        then each_module (leave_module o) 0 (modules_count t) t
        else some t)
      (λ u. close o (set_file o false u)))

-- `incoming_message` up to the sending: `co_manager_open_ref`, where no descriptor has the count 0.
unfoldable pub send_start : ℕ → Opens → Option Opens
send_start i s = elim (module_at i s.connected_modules) [
  | none ↦ none
  | some none ↦ some s
  | some (some o) ↦ then_do (add_ref o s) (λ t. some (set_sending o (t.sending o + 1) t))
]

-- A file that is not open makes no call.
abbrev pub on_file : ℕ → (Opens → Option Opens) → Opens → Option Opens
on_file o f s = if s.files o then f s else some s

unfoldable pub call : Call → Opens → Option Opens
call (opening o) s = open_desc o s
call (attaching o is) s = on_file o (attach o is) s
call (attach_failing o) s = on_file o (set_attached false o) s
call (monitor_closing o) s = on_file o (set_attached false o) s
call (closing o) s = on_file o (deactive_and_close o) s
call ending s = send_end_messages s
call (read_waiting o) s = on_file o (wait_read o) s
call (read_ending o) s = end_read o s
call (send_starting i) s = send_start i s
call (send_ending o) s =
    if s.sending o == 0 then some s else close o (set_sending o (s.sending o - 1) s)

unfoldable pub run : List Call → Opens → Option Opens
run [] s = some s
run (c ∷ cs) s = then_do (call c s) (run cs)
