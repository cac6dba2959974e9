-- ===== src/Server/Output/Written.antt =====
-- The world after a message was written.
use binderd.Common.{
  ℕ, zero, suc, ◌+◌, ◌≤◌, ◌≡◌, refl, true, false, [], ◌∷◌, ◌++◌, arith, Bytes, IsByte, All,
  le_bytes, length, Option, none, some, find, ok, length-append, length-le_bytes, le_bytes-IsByte,
  All-append, replicate,
}
use binderd.Buffer.{Allocator, NeverFails}
use binderd.Writer.{Writer, int32_max, open_writer}
use binderd.Writer.Appends.{appended, appended-AtEnd, write_value_lem}
use binderd.Writer.Data.{padded, padding, length-padded, write_sized_data_lem}
use binderd.Message.{Message, create_message, log_entry, status, dead_binder, type_code}
use binderd.Message.RoundTrip.{IsStorable, encode, header, pack_lem, fresh_writer-AtEnd}
use binderd.Status.{Status, status_code}
use binderd.Server.State.{World, continue_with, with_session}
use binderd.Server.Output.{
  send_message, log_to, forward_to_monitor, write_message, send_status, send_death_notification,
  notify,
}

pub length-encode : (m : Message) → length (encode m) ≡ 24 + length (padded true m.body.bytes)
length-encode m =
    let kind : Bytes = le_bytes 4 (type_code m.kind) in
    let dest : Bytes = le_bytes 8 m.destination in
    let cookie : Bytes = le_bytes 8 m.cookie in
    let size : Bytes = le_bytes 4 (length m.body.bytes) in
    omega (
      arith,
      length-append (header m) (padded true m.body.bytes),
      length-append (kind ++ dest ++ cookie) size,
      length-append (kind ++ dest) cookie,
      length-append kind dest,
      length-le_bytes 4 (type_code m.kind),
      length-le_bytes 8 m.destination,
      length-le_bytes 8 m.cookie,
      length-le_bytes 4 (length m.body.bytes),
    )

pub zeros-IsByte : (n : ℕ) → All IsByte (replicate n 0)
zeros-IsByte zero = tt
zeros-IsByte (suc n) = (omega arith, zeros-IsByte n)

encode-IsByte : (m : Message) → All IsByte m.body.bytes → All IsByte (encode m)
encode-IsByte m h =
    let kind : Bytes = le_bytes 4 (type_code m.kind) in
    let dest : Bytes = le_bytes 8 m.destination in
    let cookie : Bytes = le_bytes 8 m.cookie in
    let size : Bytes = le_bytes 4 (length m.body.bytes) in
    All-append IsByte (header m) (padded true m.body.bytes)
      (All-append IsByte (kind ++ dest ++ cookie) size
        (All-append IsByte (kind ++ dest) cookie
          (All-append IsByte kind dest (le_bytes-IsByte 4 (type_code m.kind))
            (le_bytes-IsByte 8 m.destination))
          (le_bytes-IsByte 8 m.cookie))
        (le_bytes-IsByte 4 (length m.body.bytes)))
      (All-append IsByte m.body.bytes (replicate (padding true (length m.body.bytes)) 0) h
        (zeros-IsByte (padding true (length m.body.bytes))))

-- A message that can be written and logged: a kilobyte below the limit of a data block.
pub record IsWritable (m : Message) : Type 0 where
  pub room : length m.body.bytes + 1024 ≤ int32_max
  pub in_bytes : All IsByte m.body.bytes

pub IsWritable-IsStorable : (m : Message) → IsWritable m → IsStorable m
IsWritable-IsStorable m h = record { small = omega (arith, h.room); in_bytes = h.in_bytes }

-- The entry that the monitor gets for a message.
abbrev pub log_message : Message → Message
log_message m = record (create_message log_entry) {
  body = record {
    bytes = le_bytes 4 (length (encode m)) ++ padded true (encode m);
    immutable = false;
  };
}

abbrev pub status_message : ℕ → Status → Message
status_message cookie result = record (create_message status) {
  cookie = cookie;
  body = record { bytes = le_bytes 4 (status_code result); immutable = false };
}

abbrev pub dead_binder_message : ℕ → ℕ → Message
dead_binder_message handle object_id = record (create_message dead_binder) {
  body = record { bytes = le_bytes 8 handle ++ le_bytes 8 object_id; immutable = false };
}

abbrev pub sent : ℕ → Message → World → World
sent s m = with_session s (λ session. record session { written = session.written ++ encode m ∷ [] })

abbrev pub logged_to : Option ℕ → Message → World → World
logged_to none m w = w
logged_to (some monitor) m w = sent monitor (log_message m) w

-- The world after the monitor was told, and after a message was written and the monitor told.
unfoldable pub logged : Message → World → World
logged m w = logged_to w.registry.monitor m w

unfoldable pub wrote : ℕ → Message → World → World
unfolding logged
wrote s m w = logged m (sent s m w)

log_message-IsStorable : (m : Message) → IsWritable m → IsStorable (log_message m)
log_message-IsStorable m h = record {
  small = omega (
    arith,
    h.room,
    length-append (le_bytes 4 (length (encode m))) (padded true (encode m)),
    length-le_bytes 4 (length (encode m)),
    length-padded true (encode m),
    length-encode m,
    length-padded true m.body.bytes,
  );
  in_bytes =
      All-append IsByte (le_bytes 4 (length (encode m))) (padded true (encode m))
        (le_bytes-IsByte 4 (length (encode m)))
        (All-append IsByte (encode m) (replicate (padding true (length (encode m))) 0)
          (encode-IsByte m h.in_bytes) (zeros-IsByte (padding true (length (encode m)))));
}

pub status_message-IsWritable :
    (cookie : ℕ) (result : Status) → IsWritable (status_message cookie result)
status_message-IsWritable cookie result = record {
  room = omega (arith, length-le_bytes 4 (status_code result));
  in_bytes = le_bytes-IsByte 4 (status_code result);
}

pub dead_binder_message-IsWritable :
    (handle object_id : ℕ) → IsWritable (dead_binder_message handle object_id)
dead_binder_message-IsWritable handle object_id = record {
  room = omega (
    arith,
    length-append (le_bytes 8 handle) (le_bytes 8 object_id),
    length-le_bytes 8 handle,
    length-le_bytes 8 object_id,
  );
  in_bytes =
      All-append IsByte (le_bytes 8 handle) (le_bytes 8 object_id) (le_bytes-IsByte 8 handle)
        (le_bytes-IsByte 8 object_id);
}

abbrev pub empty_writer : Writer
empty_writer = record {
  buffer = record { bytes = []; immutable = false };
  current = 0;
  use_padding = true;
}

module _ (alloc : Allocator) (memory : NeverFails alloc) where
  pub send_message_lem :
      (s : ℕ) (m : Message) (w : World)
      → IsStorable m
      → send_message alloc s m w ≡ (ok tt, sent s m w)
  unfolding send_message
  send_message_lem s m w h = rw (pack_lem alloc memory m h)

  encode_fits : (m : Message) → IsWritable m → length (encode m) ≤ int32_max
  encode_fits m h = omega (arith, h.room, length-encode m, length-padded true m.body.bytes)

  log_to_lem :
      (monitor : Option ℕ) (m : Message) (w : World)
      → IsWritable m
      → log_to alloc monitor m w ≡ (ok tt, logged_to monitor m w)
  unfolding open_writer
  log_to_lem none m w h = refl
  log_to_lem (some monitor) m w h =
      rw
        (
          pack_lem alloc memory m (IsWritable-IsStorable m h),
          continue_with,
          write_sized_data_lem alloc memory (encode m) empty_writer (encode_fits m h)
              fresh_writer-AtEnd (encode-IsByte m h.in_bytes) tt,
          continue_with,
        )
        (send_message_lem monitor (log_message m) w (log_message-IsStorable m h))

  pub forward_to_monitor_lem :
      (m : Message) (w : World) → IsWritable m → forward_to_monitor alloc m w ≡ (ok tt, logged m w)
  unfolding forward_to_monitor logged
  forward_to_monitor_lem m w h = log_to_lem w.registry.monitor m w h

  pub write_message_lem :
      (s : ℕ) (m : Message) (w : World)
      → IsWritable m
      → write_message alloc s m w ≡ (ok tt, wrote s m w)
  unfolding write_message wrote
  write_message_lem s m w h =
      rw (pack_lem alloc memory m (IsWritable-IsStorable m h), continue_with)
        (forward_to_monitor_lem m (sent s m w) h)

  pub send_status_lem :
      (s : ℕ) (m : Message) (result : Status) (w : World)
      → send_status alloc s m result w ≡ (ok tt, wrote s (status_message m.cookie result) w)
  unfolding send_status open_writer
  send_status_lem s m result w =
      rw
        (
          write_value_lem alloc memory 4 (status_code result) empty_writer (omega arith)
              fresh_writer-AtEnd,
          continue_with,
        )
        (write_message_lem s (status_message m.cookie result) w
          (status_message-IsWritable m.cookie result))

  -- A session that asked for the handle's death is told, with the object id that it gave.
  pub send_death_notification-some :
      (s handle object_id : ℕ) (w : World)
      → find handle (w.sessions s).death_notifications ≡ some object_id
      → send_death_notification alloc s handle w
        ≡ (ok tt, wrote s (dead_binder_message handle object_id) w)
  unfolding send_death_notification open_writer
  send_death_notification-some s handle object_id w e =
      let first = appended empty_writer (le_bytes 8 handle) in
      rw
        (
          e,
          notify,
          write_value_lem alloc memory 8 handle empty_writer (omega arith) fresh_writer-AtEnd,
          continue_with,
          write_value_lem alloc memory 8 object_id first (omega arith)
              (appended-AtEnd empty_writer (le_bytes 8 handle) fresh_writer-AtEnd),
          continue_with,
        )
        (write_message_lem s (dead_binder_message handle object_id) w
          (dead_binder_message-IsWritable handle object_id))

  pub send_death_notification-none :
      (s handle : ℕ) (w : World)
      → find handle (w.sessions s).death_notifications ≡ none
      → send_death_notification alloc s handle w ≡ (ok tt, w)
  unfolding send_death_notification
  send_death_notification-none s handle w e = rw (e, notify)
