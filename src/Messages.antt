-- ===== src/Messages.antt =====
-- src/colinux/common/messages.c and src/colinux/kernel/monitor.c: messages on their way to the
-- guest, through the queue of the monitor and the buffer that host and guest share. The queue is the
-- list of its messages, the oldest first, which `Queue` justifies: `co_queue_add_head` adds at the
-- end, `co_queue_pop_tail` takes the first.
pub mod Batch
pub mod Guest
pub mod Rounds
mod Tests
use colinux_64bit.Base.{
  ℕ, zero, suc, ◌+◌, ◌-◌, Bool, true, false, ◌||◌, Option, none, some, List, [], ◌∷◌, ◌++◌, ◌==◌,
  ltb, leb, if◌then◌else◌, length, take, ◌%◌, ◌^◌,
}
use colinux_64bit.Rc.{Rc, ok, error, out_of_memory, co_ok}
use colinux_64bit.Log.Memory.{memcpy}
use colinux_64bit.Log.Write.{long_bytes}
use colinux_64bit.Log.Tlv.{long_at}

-- `co_message_t`; its `size` is the length of the payload, `data` in the source.
pub record Message : Type 0 where
  pub from : ℕ
  pub to : ℕ
  pub priority : ℕ
  pub kind : ℕ
  pub payload : List ℕ

-- CO_MODULE_LINUX, CO_MODULES_MAX, CO_DEVICES_TOTAL, of the guest's patch
abbrev pub module_linux : ℕ
module_linux = 0

abbrev pub modules_max : ℕ
modules_max = 156

abbrev pub devices_total : ℕ
devices_total = 13

-- CO_VPTR_IO_AREA_SIZE - sizeof(co_io_buffer_t)
abbrev pub io_room : ℕ
io_room = 0x10000 - 4

-- A message in memory: `sizeof(*message) + message->size` bytes.
unfoldable pub message_bytes : Message → List ℕ
message_bytes m =
    long_bytes m.from
    ++ (long_bytes m.to
        ++ (long_bytes m.priority
            ++ (long_bytes m.kind ++ (long_bytes (length m.payload) ++ m.payload))))

-- `message->size + sizeof(*message)`, an unsigned long.
abbrev pub message_size : Message → ℕ
message_size m = (length m.payload + 20) % 2 ^ 32

-- What `co_memcpy` copies of a message.
unfoldable pub copied_bytes : Message → List ℕ
copied_bytes m = take (message_size m) (message_bytes m)

-- `linux_message->device`, the payload's first word. The code reads it also where the payload is
-- shorter, from behind the message; what it finds there is not in the model, and the theorems about
-- the loop are for payloads that have the word.
abbrev pub device_of : Message → ℕ
device_of m = long_at m.payload 0

-- `co_io_buffer_t` in its area.
pub record IoBuffer : Type 0 where
  pub messages_waiting : ℕ
  pub buffer : List ℕ

-- The parts of `co_monitor_t` and of the passage page (`params[0]`) that messages go through;
-- `wakeups` counts the wakeups of `idle_wait`.
pub record Passage : Type 0 where
  pub linux_message_queue : List Message
  pub io_buffer : Option IoBuffer
  pub params_0 : ℕ
  pub wakeups : ℕ

-- The host's allocator, for the copy of a message and for the queue's item.
pub record Memory : Type 0 where
  pub message : Bool
  pub item : Bool

-- `co_message_mov_to_queue`
unfoldable pub message_mov_to_queue : Memory → Message → List Message → Rc × List Message
message_mov_to_queue memory m queue =
    if memory.item then (ok, queue ++ (m ∷ [])) else (out_of_memory, queue)

-- `co_message_dup_to_queue`, with `co_message_dup`: the copy is freed where there is no item for it.
unfoldable pub message_dup_to_queue : Memory → Message → List Message → Rc × List Message
unfolding message_mov_to_queue
message_dup_to_queue memory m queue =
    if memory.message then message_mov_to_queue memory m queue else (out_of_memory, queue)

unfoldable pub enqueued : Passage → Rc × List Message → Rc × Passage
enqueued p (rc, queue) = (rc, record p { linux_message_queue = queue; wakeups = p.wakeups + 1 })

-- `co_monitor_message_from_user`
unfoldable pub message_from_user : Memory → Message → Passage → Rc × Passage
unfolding message_dup_to_queue enqueued
message_from_user memory m p =
    if m.to == module_linux
    then enqueued p (message_dup_to_queue memory m p.linux_message_queue)
    else (error, p)

-- `co_monitor_message_from_user_free`; the answer also tells whether the message was freed.
unfoldable pub message_from_user_free : Memory → Message → Passage → (Rc × Passage) × Bool
unfolding message_mov_to_queue enqueued
message_from_user_free memory m p =
    let done =
      if m.to == module_linux
      then enqueued p (message_mov_to_queue memory m p.linux_message_queue)
      else (error, p) in
    (done, (if co_ok done.0 then false else true))

-- A sender, a receiver or a device that there is not.
abbrev pub is_bad : Message → Bool
is_bad m = leb modules_max m.from || (leb modules_max m.to || leb devices_total (device_of m))

-- The state at the end of the loop: the buffer, how far it is filled, the messages copied, the queue.
pub record Delivery : Type 0 where
  pub buffer : List ℕ
  pub filled : ℕ
  pub count : ℕ
  pub queue : List Message

-- The loop of `callback_return_messages`. A message that does not fit stays; a bad one is dropped,
-- and ends the loop. The pointers are offsets in the buffer: their addresses do not wrap.
unfoldable pub deliver : List ℕ → ℕ → List Message → Delivery
deliver buffer filled [] = record { buffer = buffer; filled = filled; count = 0; queue = [] }
deliver buffer filled (m ∷ queue) =
    let rest = deliver (memcpy buffer filled (copied_bytes m)) (filled + message_size m) queue in
    if ltb io_room (filled + message_size m)
    then record { buffer = buffer; filled = filled; count = 0; queue = m ∷ queue }
    else if is_bad m
    then record { buffer = buffer; filled = filled; count = 0; queue = queue }
    else record rest { count = suc rest.count }

unfoldable pub delivered : Passage → Delivery → Rc × Passage
delivered p x = (
  ok,
  record p {
    linux_message_queue = x.queue;
    io_buffer = some (record { messages_waiting = x.count; buffer = x.buffer });
    params_0 = x.filled;
  },
)

unfoldable pub return_to : Option IoBuffer → Passage → Rc × Passage
return_to none p = (error, record p { params_0 = 0 })
return_to (some io) p =
    if io.messages_waiting == 0
    then delivered p (deliver io.buffer 0 p.linux_message_queue)
    else (ok, record p { params_0 = 0 })

-- `callback_return_messages`
unfoldable pub callback_return_messages : Passage → Rc × Passage
unfolding deliver delivered return_to
callback_return_messages p = return_to p.io_buffer p

-- `co_idle` after the wait: whether there is a message.
unfoldable pub idle : Passage → Bool
idle p = if length p.linux_message_queue == 0 then false else true
