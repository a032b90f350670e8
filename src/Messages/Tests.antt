-- ===== src/Messages/Tests.antt =====
-- Messages at concrete inputs.
use colinux_64bit.Base.{
  ℕ, ◌≡◌, refl, true, false, some, List, [], ◌∷◌, replicate, length-replicate, arith,
}
use colinux_64bit.Rc.{ok}
use colinux_64bit.Log.Write.{long_bytes}
use colinux_64bit.Log.Tlv.{long_at}
use colinux_64bit.Messages.{Message, io_room, IoBuffer, Passage, Delivery, callback_return_messages}
use colinux_64bit.Messages.Batch.{AreWhole, IsDelivery, callback_return_messages-IsDelivery}
use colinux_64bit.Messages.Guest.{AreMessages}
use colinux_64bit.Messages.Rounds.{turns, IsReady, turns_complete, turns-blocked}

-- From the daemon to the console device and to the keyboard.
abbrev to_console : Message
to_console = record { from = 2; to = 0; priority = 1; kind = 1; payload = long_bytes 1 }

abbrev to_keyboard : Message
to_keyboard = record { from = 6; to = 0; priority = 1; kind = 1; payload = long_bytes 2 }

abbrev fresh_io : IoBuffer
fresh_io = record { messages_waiting = 0; buffer = replicate io_room 0 }

abbrev passage : List Message → Passage
passage queue = record {
  linux_message_queue = queue;
  io_buffer = some fresh_io;
  params_0 = 0;
  wakeups = 0;
}

passage-IsReady : (queue : List Message) → IsReady (passage queue) fresh_io
passage-IsReady queue = record {
  there = refl;
  clear = refl;
  sized = omega (arith, length-replicate {0} {A = ℕ} io_room 0);
}

abbrev two_messages : List Message
two_messages = to_console ∷ to_keyboard ∷ []

two_messages-AreMessages : AreMessages two_messages
unfolding long_bytes
two_messages-AreMessages = (
  record {
    from_word = omega arith;
    to_word = omega arith;
    priority_word = omega arith;
    kind_word = omega arith;
    size_word = omega arith;
  },
  (
    record {
      from_word = omega arith;
      to_word = omega arith;
      priority_word = omega arith;
      kind_word = omega arith;
      size_word = omega arith;
    },
    tt,
  ),
)

two_messages-AreWhole : AreWhole two_messages
unfolding long_bytes
two_messages-AreWhole = (
  record { has_device = omega arith; size_word = omega arith },
  (record { has_device = omega arith; size_word = omega arith }, tt),
)

turns_complete_example :
    ((turns true 2 (passage two_messages)).0 ≡ two_messages)
    × ((turns true 2 (passage two_messages)).1.linux_message_queue ≡ [])
turns_complete_example =
    turns_complete 2 (passage two_messages) fresh_io (omega arith) (passage-IsReady two_messages)
      two_messages-AreMessages (unfold long_bytes long_at in (refl, (refl, tt)))
      two_messages-AreWhole (unfold long_bytes in (omega arith, (omega arith, tt)))

abbrev too_long : Message
too_long = record { from = 2; to = 0; priority = 1; kind = 1; payload = replicate 0x10000 0 }

turns-blocked_example :
    ((turns false 5 (passage (too_long ∷ two_messages))).0 ≡ [])
    × ((turns false 5 (passage (too_long ∷ two_messages))).1.linux_message_queue
        ≡ too_long ∷ two_messages)
turns-blocked_example =
    turns-blocked false 5 (passage (too_long ∷ two_messages)) fresh_io too_long two_messages refl
      (omega (arith, length-replicate {0} {A = ℕ} 0x10000 0))
      (passage-IsReady (too_long ∷ two_messages))

callback_return_messages-IsDelivery_example :
    (x : Delivery) × IsDelivery fresh_io.buffer 0 two_messages x
    × (callback_return_messages (passage two_messages) ≡ (
      ok,
      record (passage two_messages) {
        linux_message_queue = x.queue;
        io_buffer = some (record { messages_waiting = x.count; buffer = x.buffer });
        params_0 = x.filled;
      },
    ))
callback_return_messages-IsDelivery_example =
    callback_return_messages-IsDelivery (passage two_messages) fresh_io refl refl
      (passage-IsReady two_messages).sized two_messages-AreWhole
