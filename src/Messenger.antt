-- ===== src/Messenger.antt =====
-- src/binderd/socket_messenger.h, socket_messenger.cpp: frames on the socket, and the queue of the
-- data that waits to be written. The socket is what was handed to `async_write`, and bytes to read.
pub mod Frames
pub mod Order
use binderd.Common.{
  ℕ, ◌+◌, ◌*◌, ◌/◌, ◌%◌, ◌≤◌, Bool, true, false, List, [], ◌∷◌, ◌++◌, Option, none, some, Bytes,
  length, take, drop, leb, ltb, if◌then◌else◌, Result, ok, ◌>>=◌,
}
use binderd.Buffer.{Allocator, Buffer, resize}

-- `whole_message` of `WriteNext`: two bytes of size in front, the high one first.
unfoldable pub frame : Bytes → Bytes
frame item = (length item / 256 % 256) ∷ (length item % 256) ∷ item

-- `ReadMessageAsync` into the messenger's buffer, on the bytes that come: the buffer for the handler
-- and what is left, or `none`, for an error, where the connection ends too early. The buffer is
-- resized before the body comes, which may throw.
abbrev pub fill : ℕ → Bytes → Buffer → Option (Buffer × Bytes)
fill body_size stream body =
    if leb body_size (length stream)
    then some (record body { bytes = take body_size stream }, drop body_size stream)
    else none

unfoldable pub read_message : Allocator → Buffer → Bytes → Result (Option (Buffer × Bytes))
read_message alloc body (high ∷ low ∷ stream) = do
  resized ← resize alloc body (high * 256 + low)
  ok (fill (high * 256 + low) stream resized)
read_message alloc body _ = ok none

-- `sent` is what was handed to `async_write`, oldest first.
pub record Messenger : Type 0 where
  pub write_queue : List Bytes
  pub exit : Bool
  pub sent : List Bytes
  pub shut_down : Bool

abbrev pub new_messenger : Messenger
new_messenger = record { write_queue = []; exit = false; sent = []; shut_down = false }

abbrev pub send_front : List Bytes → Messenger → Messenger
send_front [] m = m
send_front (item ∷ items) m = record m { sent = m.sent ++ frame item ∷ [] }

-- Only called where something is queued.
unfoldable pub write_next : Messenger → Messenger
write_next m = if m.exit then m else send_front m.write_queue m

unfoldable pub write_data : Bytes → Messenger → Messenger
write_data b m =
    let queued = record m { write_queue = m.write_queue ++ b ∷ [] } in
    if ltb 1 (length queued.write_queue) then queued else write_next queued

abbrev pub close : Messenger → Messenger
close m = record m { exit = true }

abbrev pub shut : Messenger → Messenger
shut m = if m.exit then record m { shut_down = true } else m

-- A write ended: with an error, which is logged, or well.
unfoldable pub on_message_sent : Bool → Messenger → Messenger
on_message_sent true m = m
on_message_sent false m =
    let popped = record m { write_queue = drop 1 m.write_queue } in
    shut (if ltb 0 (length popped.write_queue) then write_next popped else popped)
