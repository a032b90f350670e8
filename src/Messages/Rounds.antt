-- ===== src/Messages/Rounds.antt =====
-- The host's calls of `callback_return_messages` and the guest's reading of the buffer, by turns.
use colinux_64bit.Base.{
  ℕ, zero, suc, ◌+◌, ◌≤◌, ◌<◌, ◌≡◌, refl, sym, ap, ◌∙◌, ◌⊎◌, inl, inr, true, false, if◌then◌else◌,
  Option, none, some, List, [], ◌∷◌, ◌++◌, ltb, leb, ◌&&◌, Bool, length, take, drop,
  take-append-drop, length-append, arith,
}
use mathlib.Core.Path.{subst}
use mathlib.Core.Bool.{true≢false}
use colinux_64bit.Messages.{
  Message, message_size, io_room, IoBuffer, Passage, Delivery, deliver, delivered,
  callback_return_messages,
}
use colinux_64bit.Messages.Batch.{
  all_bytes, All, AreWhole, IsFull, IsDelivery, callback_return_messages-IsDelivery, callback_read,
}
use colinux_64bit.Messages.Guest.{AreMessages, read_messages, read_messages-all_bytes}

-- `co_messages_active  &&  io_size > 0  &&  io_size <= CO_VPTR_IO_AREA_SIZE`, and the walk; otherwise
-- the guest gets nothing.
unfoldable pub guest_reads : Bool → Option IoBuffer → ℕ → List Message
guest_reads active none io_size = []
guest_reads active (some io) io_size =
    if active && (ltb 0 io_size && leb io_size 0x10000) then read_messages io.buffer io_size else []

unfoldable pub guest_clears : Option IoBuffer → Option IoBuffer
guest_clears none = none
guest_clears (some io) = some (record io { messages_waiting = 0 })

-- `co_callback`: what the guest gets, and the buffer is marked as read in any case.
unfoldable pub guest_turn : Bool → Passage → List Message × Passage
unfolding guest_reads guest_clears
guest_turn active p =
    (guest_reads active p.io_buffer p.params_0, record p { io_buffer = guest_clears p.io_buffer })

-- A turn of the host and then of the guest, whose messages are active or not.
unfoldable pub turn : Bool → Passage → List Message × Passage
unfolding guest_turn
turn active p = guest_turn active (callback_return_messages p).1

unfoldable pub turns : Bool → ℕ → Passage → List Message × Passage
turns active zero p = ([], p)
turns active (suc n) p = let x = turn active p in let y = turns active n x.1 in (x.0 ++ y.0, y.1)

-- The buffer is there, the guest has read it, and it has its size.
pub record IsReady (p : Passage) (io : IoBuffer) : Type 0 where
  pub there : p.io_buffer ≡ some io
  pub clear : io.messages_waiting ≡ 0
  pub sized : io_room ≤ length io.buffer

-- The monitor after a turn.
abbrev after : Passage → Delivery → Passage
after p x = record p {
  linux_message_queue = x.queue;
  io_buffer = some (record { messages_waiting = 0; buffer = x.buffer });
  params_0 = x.filled;
}

AreMessages-sent : (k l : List Message) → AreMessages (k ++ l) → AreMessages k
AreMessages-sent [] l h = tt
AreMessages-sent (m ∷ k) l h = (h.0, AreMessages-sent k l h.1)

AreMessages-rest : (k l : List Message) → AreMessages (k ++ l) → AreMessages l
AreMessages-rest [] l h = h
AreMessages-rest (m ∷ k) l h = AreMessages-rest k l h.1

reads-sent :
    (buffer queue : List ℕ) (filled : ℕ) (sent : List Message)
    → take filled buffer ≡ all_bytes sent
    → filled ≡ length (all_bytes sent)
    → AreMessages sent
    → read_messages buffer filled ≡ sent
reads-sent buffer queue filled sent t n a =
    let whole : all_bytes sent ++ drop filled buffer ≡ buffer =
      ap (λ (p : List ℕ). p ++ drop filled buffer) (sym t) ∙ take-append-drop filled buffer in
    subst (λ (b : List ℕ). read_messages b filled ≡ sent) whole
      (subst (λ k. read_messages (all_bytes sent ++ drop filled buffer) k ≡ sent) (sym n)
        (read_messages-all_bytes sent (drop filled buffer) a))

guest_reads_all :
    (io : IoBuffer) (n : ℕ) → n ≤ io_room → guest_reads true (some io) n ≡ read_messages io.buffer n
unfolding guest_reads
guest_reads_all io zero h = unfold read_messages in refl
guest_reads_all io (suc n) h =
    let e : (ltb 0 (suc n) && leb (suc n) 0x10000) ≡ true = ground arith in rw e refl

turn-sent :
    (p : Passage) (io : IoBuffer)
    → IsReady p io
    → AreMessages p.linux_message_queue
    → AreWhole p.linux_message_queue
    → (x : Delivery) × (d : IsDelivery io.buffer 0 p.linux_message_queue x) × (turn true p
        ≡ (d.sent, after p x))
unfolding turn guest_turn guest_reads guest_clears
turn-sent p io r a w =
    let (x, d, e) = callback_return_messages-IsDelivery p io r.there r.clear r.sized w in
    let sent = AreMessages-sent d.sent (d.lost ++ x.queue) (subst AreMessages d.split a) in
    (
      x,
      d,
      rw e (
          ap (λ (l : List Message). (l, after p x))
            (guest_reads_all (record { messages_waiting = x.count; buffer = x.buffer }) x.filled
                d.room
              ∙ reads-sent x.buffer [] x.filled d.sent d.bytes (omega (arith, d.grown)) sent)),
    )

IsReady-after :
    (p : Passage) (io : IoBuffer) (x : Delivery)
    → IsReady p io
    → IsDelivery io.buffer 0 p.linux_message_queue x
    → IsReady (after p x) (record { messages_waiting = 0; buffer = x.buffer })
IsReady-after p io x r d = record {
  there = refl;
  clear = refl;
  sized = omega (arith, r.sized, d.whole);
}

-- A good queue loses nothing, and a message that fits alone is not left at the front of it.
abbrev pub Fits : List Message → Type 0
Fits [] = Unit {0}
Fits (m ∷ l) = (message_size m ≤ io_room) × Fits l

AreWhole-rest : (k l : List Message) → AreWhole (k ++ l) → AreWhole l
AreWhole-rest [] l h = h
AreWhole-rest (m ∷ k) l h = AreWhole-rest k l h.1

All-rest : (k l : List Message) → All false (k ++ l) → All false l
All-rest [] l h = h
All-rest (m ∷ k) l h = All-rest k l h.1

Fits-rest : (k l : List Message) → Fits (k ++ l) → Fits l
Fits-rest [] l h = h
Fits-rest (m ∷ k) l h = Fits-rest k l h.1

nothing_lost : (l r : List Message) → All false (l ++ r) → All true l → l ≡ []
nothing_lost [] r g b = refl
nothing_lost (m ∷ l) r g b = absurd (true≢false (sym b.0 ∙ g.0))

-- What a turn makes of a good queue: all of it is in what is sent and what is left, and the rest is
-- shorter.
progress :
    (queue sent lost rest : List Message) (filled : ℕ)
    → queue ≡ sent ++ (lost ++ rest)
    → lost ≡ []
    → (rest ≡ []) ⊎ IsFull filled rest
    → filled ≡ length (all_bytes sent)
    → Fits queue
    → (queue ≡ sent ++ rest) × ((rest ≡ []) ⊎ (length rest < length queue))
progress queue [] lost rest filled s e (inl z) n f = (rw (s, e) refl, inl z)
progress queue [] lost [] filled s e (inr z) n f = absurd z
progress queue [] lost (m ∷ rest) filled s e (inr z) n f =
    let q : queue ≡ m ∷ rest = rw (s, e) refl in absurd (omega (arith, (subst Fits q f).0, z, n))
progress queue (m ∷ sent) lost rest filled s e o n f =
    let q : queue ≡ (m ∷ sent) ++ rest = rw (s, e) refl in
    (q, inr (omega (arith, ap length q, length-append sent rest)))

empty : (l : List Message) → length l ≤ 0 → l ≡ []
empty [] h = refl
empty (m ∷ l) h = absurd (omega arith)

goes_on :
    (lost rest : List Message) (filled : ℕ)
    → lost ≡ []
    → (length lost ≡ 1) ⊎ ((lost ≡ []) × ((rest ≡ []) ⊎ IsFull filled rest))
    → (rest ≡ []) ⊎ IsFull filled rest
goes_on lost rest filled e (inl o) = absurd (omega (arith, ap length e, o))
goes_on lost rest filled e (inr o) = o.1

bound :
    (rest : List Message) (n k : ℕ) → k ≤ suc n → (rest ≡ []) ⊎ (length rest < k) → length rest ≤ n
bound rest n k h (inl e) = omega (arith, ap length e)
bound rest n k h (inr l) = omega arith

-- Where the guest's messages are active: messages of known modules and devices, with the word of
-- the device, a size and numbers that are words, that fit the empty buffer, all reach the guest, in
-- their order, after as many turns of the host and the guest as there are messages; then the queue
-- is empty.
pub turns_complete :
    (n : ℕ) (p : Passage) (io : IoBuffer)
    → length p.linux_message_queue ≤ n
    → IsReady p io
    → AreMessages p.linux_message_queue
    → All false p.linux_message_queue
    → AreWhole p.linux_message_queue
    → Fits p.linux_message_queue
    → ((turns true n p).0 ≡ p.linux_message_queue) × ((turns true n p).1.linux_message_queue ≡ [])
unfolding turns
turns_complete zero p io h r a g w f = let e = empty p.linux_message_queue h in (sym e, e)
turns_complete (suc n) p io h r a g w f =
    let (x, d, e) = turn-sent p io r a w in
    let lost =
      nothing_lost d.lost x.queue
        (All-rest d.sent (d.lost ++ x.queue) (subst (All false) d.split g)) d.bad in
    let (q, shorter) =
      progress p.linux_message_queue d.sent d.lost x.queue x.filled d.split lost
        (goes_on d.lost x.queue x.filled lost d.stop) (omega (arith, d.grown)) f in
    let ih =
      turns_complete n (after p x) (record { messages_waiting = 0; buffer = x.buffer })
        (bound x.queue n (length p.linux_message_queue) h shorter) (IsReady-after p io x r d)
        (AreMessages-rest d.sent x.queue (subst AreMessages q a))
        (All-rest d.sent x.queue (subst (All false) q g))
        (AreWhole-rest d.sent x.queue (subst AreWhole q w))
        (Fits-rest d.sent x.queue (subst Fits q f)) in
    rw e (ap (λ (l : List Message). d.sent ++ l) ih.0 ∙ sym q, ih.1)

abbrev held : Passage → IoBuffer → List Message → Passage
held p io queue = record p {
  linux_message_queue = queue;
  io_buffer = some (record io { messages_waiting = 0 });
  params_0 = 0;
}

reads_nothing : (active : Bool) (io : IoBuffer) → guest_reads active (some io) 0 ≡ []
unfolding guest_reads
reads_nothing true io = refl
reads_nothing false io = refl

turn-held :
    (active : Bool) (p : Passage) (io : IoBuffer) (m : Message) (queue : List Message)
    → p.linux_message_queue ≡ m ∷ queue
    → io_room < message_size m
    → IsReady p io
    → turn active p ≡ ([], held p io (m ∷ queue))
unfolding turn guest_turn guest_reads guest_clears
turn-held active p io m queue e big r =
    let full : ltb io_room (0 + message_size m) ≡ true = ground arith in
    let stays : deliver io.buffer 0 (m ∷ queue)
        ≡ record { buffer = io.buffer; filled = 0; count = 0; queue = m ∷ queue } =
      unfold deliver in rw full refl in
    let called = callback_read p io r.there r.clear in
    rw (called, e, stays)
      (unfold delivered in
        ap (λ (l : List Message). (l, held p io (m ∷ queue))) (reads_nothing active io))

-- A message at the front of the queue that does not fit the empty buffer stays there for ever:
-- however many turns there are, active or not, no message reaches the guest, and the queue stays as
-- it is.
pub turns-blocked :
    (active : Bool) (n : ℕ) (p : Passage) (io : IoBuffer) (m : Message) (queue : List Message)
    → p.linux_message_queue ≡ m ∷ queue
    → io_room < message_size m
    → IsReady p io
    → ((turns active n p).0 ≡ []) × ((turns active n p).1.linux_message_queue ≡ m ∷ queue)
unfolding turns
turns-blocked active zero p io m queue e big r = (refl, e)
turns-blocked active (suc n) p io m queue e big r =
    let ih =
      turns-blocked active n (held p io (m ∷ queue)) (record io { messages_waiting = 0 }) m queue
        refl big (record { there = refl; clear = refl; sized = r.sized }) in
    rw (turn-held active p io m queue e big r) ih
