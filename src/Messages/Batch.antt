-- ===== src/Messages/Batch.antt =====
-- One run of the loop of `callback_return_messages`.
use colinux_64bit.Base.{
  ℕ, zero, suc, ◌+◌, ◌^◌, ◌≤◌, ◌<◌, ◌≡◌, refl, sym, ap, ◌∙◌, ◌⊎◌, inl, inr, Bool, true, false,
  Option, some, ◌==◌, List, [], ◌∷◌, ◌++◌, ltb, ltb→lt, length, take, length-append, Bool-cases,
  arith,
}
use mathlib.Core.Path.{subst}
use mathlib.Core.List.{append_assoc, append-nil}
use colinux_64bit.Rc.{ok}
use colinux_64bit.Log.Memory.{memcpy, length-memcpy, take-memcpy}
use colinux_64bit.Log.Write.{long_bytes}
use colinux_64bit.Messages.{
  Message, message_bytes, copied_bytes, message_size, is_bad, io_room, IoBuffer, Passage, Delivery,
  deliver, delivered, return_to, callback_return_messages,
}

-- The payload has the word of the device, and the size of the message is a word.
pub record IsWhole (m : Message) : Type 0 where
  pub has_device : 4 ≤ length m.payload
  pub size_word : length m.payload + 20 < 2 ^ 32

abbrev pub AreWhole : List Message → Type 0
AreWhole [] = Unit {0}
AreWhole (m ∷ l) = IsWhole m × AreWhole l

pub length-message_bytes : (m : Message) → length (message_bytes m) ≡ length m.payload + 20
unfolding message_bytes long_bytes
length-message_bytes m = omega arith

take_whole : (n : ℕ) (xs : List ℕ) → length xs ≤ n → take n xs ≡ xs
take_whole zero [] h = refl
take_whole (suc n) [] h = refl
take_whole zero (x ∷ xs) h = absurd (omega arith)
take_whole (suc n) (x ∷ xs) h = ap (λ l. x ∷ l) (take_whole n xs (omega arith))

copied_whole : (m : Message) → IsWhole m → copied_bytes m ≡ message_bytes m
unfolding copied_bytes
copied_whole m w =
    take_whole (message_size m) (message_bytes m)
      (omega (arith, length-message_bytes m, w.size_word))

pub message_size_whole : (m : Message) → IsWhole m → message_size m ≡ length m.payload + 20
message_size_whole m w = omega (arith, w.size_word)

-- The bytes of messages, one behind the other.
abbrev pub all_bytes : List Message → List ℕ
all_bytes [] = []
all_bytes (m ∷ l) = message_bytes m ++ all_bytes l

abbrev pub All : Bool → List Message → Type 0
All b [] = Unit {0}
All b (m ∷ l) = (is_bad m ≡ b) × All b l

-- The oldest message does not fit behind what there is.
abbrev pub IsFull : ℕ → List Message → Type 0
IsFull filled [] = ⊥
IsFull filled (m ∷ l) = io_room < filled + message_size m

-- The messages `sent` are copied behind each other, `lost` is a bad one that is dropped, if any, and
-- the loop ends at that one, at the end of the queue, or at a message that does not fit.
pub record IsDelivery (buffer : List ℕ) (filled : ℕ) (queue : List Message) (x : Delivery)
    : Type 0 where
  pub sent : List Message
  pub lost : List Message
  pub split : queue ≡ sent ++ (lost ++ x.queue)
  pub good : All false sent
  pub bad : All true lost
  pub stop : (length lost ≡ 1) ⊎ ((lost ≡ []) × ((x.queue ≡ []) ⊎ IsFull x.filled x.queue))
  pub count : x.count ≡ length sent
  pub room : x.filled ≤ io_room
  pub grown : x.filled ≡ filled + length (all_bytes sent)
  pub bytes : take x.filled x.buffer ≡ take filled buffer ++ all_bytes sent
  pub whole : length x.buffer ≡ length buffer

ends :
    (buffer : List ℕ) (filled : ℕ) (lost queue : List Message)
    → filled ≤ io_room
    → All true lost
    → (length lost ≡ 1) ⊎ ((lost ≡ []) × ((queue ≡ []) ⊎ IsFull filled queue))
    → IsDelivery buffer filled
        (lost ++ queue)
        (record { buffer = buffer; filled = filled; count = 0; queue = queue })
ends buffer filled lost queue h b s = record {
  sent = [];
  lost = lost;
  split = refl;
  good = tt;
  bad = b;
  stop = s;
  count = refl;
  room = h;
  grown = omega arith;
  bytes = sym (append-nil _);
  whole = refl;
}

-- One message in front.
sends :
    (buffer : List ℕ) (filled : ℕ) (m : Message) (queue : List Message) (x : Delivery)
    → is_bad m ≡ false
    → IsWhole m
    → filled + message_size m ≤ length buffer
    → IsDelivery (memcpy buffer filled (message_bytes m)) (filled + message_size m) queue x
    → IsDelivery buffer filled (m ∷ queue) (record x { count = suc x.count })
sends buffer filled m queue x g w fit h =
    let n = length-message_bytes m ∙ sym (message_size_whole m w) in
    record {
      sent = m ∷ h.sent;
      lost = h.lost;
      split = ap (λ l. m ∷ l) h.split;
      good = (g, h.good);
      bad = h.bad;
      stop = h.stop;
      count = ap suc h.count;
      room = h.room;
      grown = omega (arith, h.grown, n, length-append (message_bytes m) (all_bytes h.sent));
      bytes =
          h.bytes
          ∙ ap (λ p. p ++ all_bytes h.sent)
              (subst
                (λ k.
                  take (filled + k) (memcpy buffer filled (message_bytes m))
                  ≡ take filled buffer ++ message_bytes m)
                n (take-memcpy buffer filled (message_bytes m) (omega (arith, n))))
          ∙ append_assoc (take filled buffer) (message_bytes m) (all_bytes h.sent);
      whole = h.whole ∙ length-memcpy buffer filled (message_bytes m);
    }

pub deliver-IsDelivery :
    (buffer : List ℕ) (filled : ℕ) (queue : List Message)
    → filled ≤ io_room
    → io_room ≤ length buffer
    → AreWhole queue
    → IsDelivery buffer filled queue (deliver buffer filled queue)
unfolding deliver
deliver-IsDelivery buffer filled [] h r a = ends buffer filled [] [] h tt (inr (refl, inl refl))
deliver-IsDelivery buffer filled (m ∷ queue) h r a =
    elim (Bool-cases (ltb io_room (filled + message_size m))) [
      | inl t ↦ rw t (ends buffer filled [] (m ∷ queue) h tt (inr (refl, inr (ltb→lt _ _ t))))
      | inr t ↦ elim (Bool-cases (is_bad m)) [
        | inl b ↦ rw (t, b) (ends buffer filled (m ∷ []) queue h (b, tt) (inl refl))
        | inr b ↦
            let fit : filled + message_size m ≤ io_room = ground arith in
            rw (t, b, copied_whole m a.0)
              (sends buffer filled m queue _ b a.0 (omega arith) (
                deliver-IsDelivery (memcpy buffer filled (message_bytes m))
                  (filled + message_size m) queue fit
                  (omega (arith, length-memcpy buffer filled (message_bytes m))) a.1))
      ]
    ]

return_to_read :
    (p : Passage) (io : IoBuffer)
    → io.messages_waiting ≡ 0
    → return_to (some io) p ≡ delivered p (deliver io.buffer 0 p.linux_message_queue)
unfolding return_to
return_to_read p io w = let e : (io.messages_waiting == 0) ≡ true = ground arith in rw e refl

pub callback_read :
    (p : Passage) (io : IoBuffer)
    → p.io_buffer ≡ some io
    → io.messages_waiting ≡ 0
    → callback_return_messages p ≡ delivered p (deliver io.buffer 0 p.linux_message_queue)
unfolding callback_return_messages
callback_read p io e w = ap (λ (b : Option IoBuffer). return_to b p) e ∙ return_to_read p io w

-- With a buffer that the guest has read, and a queue of messages that have the word of the device
-- and a size that is a word: the code copies messages from the front of the queue behind each
-- other, as many as `messages_waiting` says, over `params[0]` bytes inside the buffer; it drops at
-- most one, a bad one, and stops at that, at the queue's end or at a message that does not fit.
-- Nothing else of the queue is lost.
pub callback_return_messages-IsDelivery :
    (p : Passage) (io : IoBuffer)
    → p.io_buffer ≡ some io
    → io.messages_waiting ≡ 0
    → io_room ≤ length io.buffer
    → AreWhole p.linux_message_queue
    → (x : Delivery) × IsDelivery io.buffer 0 p.linux_message_queue x
      × (callback_return_messages p ≡ (
        ok,
        record p {
          linux_message_queue = x.queue;
          io_buffer = some (record { messages_waiting = x.count; buffer = x.buffer });
          params_0 = x.filled;
        },
      ))
unfolding delivered
callback_return_messages-IsDelivery p io e w r a = (
  deliver io.buffer 0 p.linux_message_queue,
  deliver-IsDelivery io.buffer 0 p.linux_message_queue (omega arith) r a,
  callback_read p io e w,
)
