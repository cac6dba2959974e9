-- ===== src/Examples/Messenger.antt =====
-- The messenger's theorems on two pieces of data.
use binderd.Common.{◌<◌, ◌≡◌, refl, false, [], ◌∷◌, ◌++◌, some, length, arith, ok}
use binderd.Examples.Heap.{heap, heap-NeverFails}
use binderd.Messenger.{
  Messenger, frame, read_message, new_messenger, write_next, write_data, on_message_sent,
}
use binderd.Messenger.Frames.{read_message-frame}
use binderd.Messenger.Order.{Run, begin, data_queued, write_ended, IsOrdered, Run-IsOrdered}

read_message-frame_example :
    read_message heap
      (record { bytes = 9 ∷ []; immutable = false })
      (frame (1 ∷ 2 ∷ 3 ∷ []) ++ 0 ∷ 1 ∷ [])
    ≡ ok (some (record { bytes = 1 ∷ 2 ∷ 3 ∷ []; immutable = false }, 0 ∷ 1 ∷ []))
read_message-frame_example =
    read_message-frame heap heap-NeverFails (record { bytes = 9 ∷ []; immutable = false })
      (1 ∷ 2 ∷ 3 ∷ []) (0 ∷ 1 ∷ []) refl (omega arith) (omega arith)

abbrev two_queued : Messenger
two_queued = write_data (7 ∷ []) (write_data (5 ∷ 6 ∷ []) new_messenger)

busy : 0 < length two_queued.write_queue
unfolding write_data write_next
busy = omega arith

one_written : Run ((5 ∷ 6 ∷ []) ∷ (7 ∷ []) ∷ []) (on_message_sent false two_queued)
one_written = write_ended (data_queued (7 ∷ []) (data_queued (5 ∷ 6 ∷ []) begin)) busy

still_open : (on_message_sent false two_queued).exit ≡ false
unfolding on_message_sent write_data write_next
still_open = refl

Run-IsOrdered_example : IsOrdered ((5 ∷ 6 ∷ []) ∷ (7 ∷ []) ∷ []) (on_message_sent false two_queued)
Run-IsOrdered_example =
    Run-IsOrdered ((5 ∷ 6 ∷ []) ∷ (7 ∷ []) ∷ []) (on_message_sent false two_queued) one_written
      still_open
