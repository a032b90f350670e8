-- ===== src/Messages/Guest.antt =====
-- The guest's side of the buffer, `co_callback` of the guest's patch (patched.diff): it walks the
-- buffer message by message, and sets `messages_waiting` to 0.
use colinux_64bit.Base.{
  ℕ, zero, suc, ◌+◌, ◌-◌, ◌^◌, ◌≤◌, ◌<◌, ◌≡◌, refl, false, List, [], ◌∷◌, ◌++◌, ◌==◌, if◌then◌else◌,
  length, take, drop, take-append, length-append, arith,
}
use mathlib.Core.Path.{subst}
use mathlib.Core.List.{append_assoc}
use colinux_64bit.Log.Write.{long_bytes}
use colinux_64bit.Log.Tlv.{long_at}
use colinux_64bit.Log.Fields.{drop-append}
use colinux_64bit.Messages.{Message, message_bytes}
use colinux_64bit.Messages.Batch.{all_bytes, length-message_bytes}

-- The message at the start of the memory `b`.
unfoldable pub message_at : List ℕ → Message
message_at b = record {
  from = long_at b 0;
  to = long_at (drop 4 b) 0;
  priority = long_at (drop 8 b) 0;
  kind = long_at (drop 12 b) 0;
  payload = take (long_at (drop 16 b) 0) (drop 20 b);
}

-- The walk over the `left` bytes; a message takes some, so `left` rounds are enough. The tests by
-- BUG_ON are left out: the host has made them on all that it delivers.
unfoldable pub read_rounds : ℕ → ℕ → List ℕ → List Message
read_rounds zero left b = []
read_rounds (suc fuel) left b =
    let size = long_at (drop 16 b) 0 + 20 in
    let rest = read_rounds fuel (left - size) (drop size b) in
    if left == 0 then [] else message_at b ∷ rest

unfoldable pub read_messages : List ℕ → ℕ → List Message
unfolding read_rounds
read_messages b io_size = read_rounds io_size io_size b

-- The numbers of a message are words.
pub record IsMessage (m : Message) : Type 0 where
  pub from_word : m.from < 2 ^ 32
  pub to_word : m.to < 2 ^ 32
  pub priority_word : m.priority < 2 ^ 32
  pub kind_word : m.kind < 2 ^ 32
  pub size_word : length m.payload < 2 ^ 32

abbrev pub AreMessages : List Message → Type 0
AreMessages [] = Unit {0}
AreMessages (m ∷ l) = IsMessage m × AreMessages l

take_payload : (n : ℕ) (p rest : List ℕ) → n ≡ length p → take n (p ++ rest) ≡ p
take_payload n p rest e = rw e (take-append p rest)

-- The size at its place, and the message.
size_at :
    (m : Message) (rest : List ℕ)
    → IsMessage m
    → long_at (drop 16 (message_bytes m ++ rest)) 0 ≡ length m.payload
unfolding message_bytes long_bytes long_at
size_at m rest i = omega (arith, i.size_word)

message_at-bytes :
    (m : Message) (rest : List ℕ) → IsMessage m → message_at (message_bytes m ++ rest) ≡ m
unfolding message_at message_bytes long_bytes long_at
message_at-bytes m rest i =
    let b = message_bytes m ++ rest in
    let f : long_at b 0 ≡ m.from = omega (arith, i.from_word) in
    let t : long_at (drop 4 b) 0 ≡ m.to = omega (arith, i.to_word) in
    let p : long_at (drop 8 b) 0 ≡ m.priority = omega (arith, i.priority_word) in
    let k : long_at (drop 12 b) 0 ≡ m.kind = omega (arith, i.kind_word) in
    let d : take (long_at (drop 16 b) 0) (drop 20 b) ≡ m.payload =
      take_payload (long_at (drop 16 b) 0) m.payload rest (size_at m rest i) in
    λ j. record { from = f j; to = t j; priority = p j; kind = k j; payload = d j }

drop_message :
    (m : Message) (rest : List ℕ) → drop (length m.payload + 20) (message_bytes m ++ rest) ≡ rest
drop_message m rest =
    subst (λ n. drop n (message_bytes m ++ rest) ≡ rest) (length-message_bytes m)
      (drop-append (message_bytes m) rest)

read_rounds-all_bytes :
    (fuel : ℕ) (l : List Message) (rest : List ℕ)
    → AreMessages l
    → length (all_bytes l) ≤ fuel
    → read_rounds fuel (length (all_bytes l)) (all_bytes l ++ rest) ≡ l
unfolding read_rounds
read_rounds-all_bytes zero [] rest a h = refl
read_rounds-all_bytes (suc fuel) [] rest a h = refl
read_rounds-all_bytes zero (m ∷ l) rest a h =
    absurd (omega (arith, length-append (message_bytes m) (all_bytes l), length-message_bytes m))
read_rounds-all_bytes (suc fuel) (m ∷ l) rest a h =
    let n = length-append (message_bytes m) (all_bytes l) in
    let k = length-message_bytes m in
    let left : length (message_bytes m ++ all_bytes l) - (length m.payload + 20)
        ≡ length (all_bytes l) =
      omega (arith, n, k) in
    let some_left : (length (message_bytes m ++ all_bytes l) == 0) ≡ false = ground (arith, n, k) in
    rw
      (
        append_assoc (message_bytes m) (all_bytes l) rest,
        some_left,
        size_at m (all_bytes l ++ rest) a.0,
        left,
        drop_message m (all_bytes l ++ rest),
        message_at-bytes m (all_bytes l ++ rest) a.0,
        read_rounds-all_bytes fuel l rest a.1 (omega (arith, n, k)),
      )
      refl

-- The guest reads, of messages that are copied behind each other, these messages.
pub read_messages-all_bytes :
    (l : List Message) (rest : List ℕ)
    → AreMessages l
    → read_messages (all_bytes l ++ rest) (length (all_bytes l)) ≡ l
unfolding read_messages
read_messages-all_bytes l rest a =
    read_rounds-all_bytes (length (all_bytes l)) l rest a (omega arith)
