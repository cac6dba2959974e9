-- ===== src/Server/Handlers.antt =====
-- The message handlers of src/binderd/server_session.cpp.
pub mod Answers
pub mod Requests
pub mod Replies
pub mod Pending
use binderd.Common.{
  ℕ, ◌+◌, ◌*◌, Bool, true, false, ◌==◌, if◌then◌else◌, Option, none, some, is_some, find, insert,
  erase, Bytes, slice, Result, ok,
}
use binderd.Buffer.{Allocator, Buffer}
use binderd.Writer.{Writer, write_data}
use binderd.Reader.{Reader, read_uint64}
use binderd.Message.{
  Message, MessageType, create_message, unknown, transaction, transaction_reply, acquire, release,
  request_death_notification, clear_death_notification, dead_binder, set_context_mgr, set_monitor,
  version, log_entry, status, unnamed,
}
use binderd.Message.Wire.{get_reader, get_writer}
use binderd.Transaction.{
  TransactionData, FromMessage, pack, from_message, get_data, num_objects, offset_size, writable,
}
use binderd.Status.{
  Status, ok_status, already_exists, name_not_found, bad_value, unknown_error, invalid_operation,
  dead_object,
}
use binderd.Server.State.{
  World, Session, Registry, TransactionRecord, BinderObject, M, ◌>>=◌, ◌>>◌, continue_with, pure,
  lift, try_catch, handled, get_session, modify_session, get_registry, next_u64,
}
use binderd.Server.Output.{with_body, write_message, send_status, forward_to_monitor}
use binderd.Server.Registry as Registry
use binderd.Server.Translate.{translate_objects}

abbrev pub is_ok : Status → Bool
is_ok ok_status = true
is_ok _ = false

-- The binder and cookie of the destination; the context manager's are zero.
unfoldable pub destination_object : Option BinderObject → ℕ → Option BinderObject
destination_object (some object) destination = some object
destination_object none destination =
    if destination == 0 then some (record { binder = 0; cookie = 0 }) else none

abbrev pub reference_status : MessageType → ℕ → ℕ → M Status
reference_status acquire s handle = Registry.add_reference_for_handle s handle
reference_status release s handle = Registry.remove_reference_for_handle s handle
reference_status _ s handle = pure dead_object

unfoldable pub request_death : ℕ → ℕ → ℕ → M Status
request_death s handle object_id = do
  session ← get_session s
  if is_some (find handle session.death_notifications)
      then pure already_exists
      else (modify_session s (λ session. record session {
        death_notifications = insert handle object_id session.death_notifications;
      })
          >> pure ok_status)

unfoldable pub clear_death : ℕ → ℕ → M Status
clear_death s handle = do
  session ← get_session s
  if is_some (find handle session.death_notifications)
      then (modify_session s (λ session. record session {
        death_notifications = erase handle session.death_notifications;
      })
          >> pure ok_status)
      else pure bad_value

abbrev pub death_status : MessageType → ℕ → ℕ → ℕ → M Status
death_status request_death_notification s handle object_id = request_death s handle object_id
death_status clear_death_notification s handle object_id = clear_death s handle
death_status _ s handle object_id = pure invalid_operation

-- `pending_transactions_.insert`, the message with its body as the translation left it.
abbrev pub with_pending : ℕ → TransactionRecord → Bytes → Session → Session
with_pending tr_cookie tr memory session = record session {
  pending_transactions =
      insert tr_cookie
        (record tr {
          message = record (tr.message) { body = record (tr.message.body) { bytes = memory } };
        })
        session.pending_transactions;
}

-- `next_transaction_cookie_++`
abbrev pub take_cookie : Session → Session
take_cookie session = record session {
  next_transaction_cookie = next_u64 session.next_transaction_cookie;
}

-- `new_tr` and `new_msg` of `PostTransaction`.
abbrev pub forwarded : FromMessage → BinderObject → Bytes → TransactionData
forwarded old_tr object memory = record writable {
  binder = object.binder;
  cookie = object.cookie;
  code = old_tr.code;
  body = get_data old_tr memory;
  objects = slice memory old_tr.objects_at (num_objects old_tr * offset_size);
}

abbrev pub new_message : ℕ → Message → Message
new_message tr_cookie old_msg = record (create_message transaction) {
  cookie = tr_cookie;
  destination = old_msg.destination;
}

module _ (alloc : Allocator) where
  unfoldable pub on_set_context_manager : ℕ → Message → M (Unit {0})
  on_set_context_manager s m = do
    forward_to_monitor alloc m
    r ← get_registry
    if is_some r.context_mgr
        then send_status alloc s m already_exists
        else (Registry.set_context_manager (some s) >> send_status alloc s m ok_status)

  unfoldable pub on_set_monitor : ℕ → Message → M (Unit {0})
  on_set_monitor s m = do
    r ← get_registry
    if is_some r.monitor
        then send_status alloc s m already_exists
        else (Registry.set_monitor (some s) >> send_status alloc s m ok_status)

  -- The end of `PostTransaction`, with the new message written into `w`.
  abbrev pub write_to : ℕ → ℕ → TransactionRecord → Bytes → Writer → M Status
  write_to target tr_cookie tr memory w = do
    modify_session target (with_pending tr_cookie tr memory)
    write_message alloc target (with_body (new_message tr_cookie tr.message) w)
    pure ok_status

  -- The part of `PostTransaction` behind a destination that was found.
  unfoldable pub deliver : ℕ → ℕ → TransactionRecord → BinderObject → M Status
  deliver target tr_cookie tr object = do
    let old_msg = tr.message
    old_tr ← lift (from_message old_msg)
    (translated, memory) ← translate_objects target old_tr old_msg.body.bytes
    if is_ok translated
        then (do
          packed ← lift (pack alloc (forwarded old_tr object memory))
          w ← lift (write_data alloc packed.bytes (get_writer (new_message tr_cookie old_msg)))
          write_to target tr_cookie tr memory w)
        else pure translated

  abbrev pub deliver_to : Option BinderObject → ℕ → ℕ → TransactionRecord → M Status
  deliver_to none target tr_cookie tr = pure invalid_operation
  deliver_to (some object) target tr_cookie tr = deliver target tr_cookie tr object

  unfoldable pub post_transaction : ℕ → TransactionRecord → M Status
  post_transaction target tr = do
    session ← get_session target
    modify_session target take_cookie
    deliver_to
        (destination_object (find tr.message.destination session.objects) tr.message.destination)
        target session.next_transaction_cookie tr

  abbrev pub post_to : Option ℕ → ℕ → Message → M (Unit {0})
  post_to none s m = send_status alloc s m name_not_found
  post_to (some target) s m = do
    result ← post_transaction target (record { caller = s; reply_cookie = m.cookie; message = m })
    send_status alloc s m result

  -- `OnTransaction` behind its translation, with the message as that left it.
  abbrev pub transact_translated : ℕ → Message → Status × Bytes → M (Unit {0})
  transact_translated s m (translated, memory) = do
    r ← get_registry
    post_to (Registry.find_session_by_handle m.destination r) s
        (record m { body = record (m.body) { bytes = memory } })

  abbrev pub transact_from : ℕ → Message → FromMessage → M (Unit {0})
  transact_from s m tr = translate_objects s tr m.body.bytes >>= transact_translated s m

  unfoldable pub transact : ℕ → Message → M (Unit {0})
  transact s m = lift (from_message m) >>= transact_from s m

  unfoldable pub on_transaction : ℕ → Message → M (Unit {0})
  on_transaction s m =
      try_catch (transact s m) (send_status alloc s m bad_value)
        (send_status alloc s m unknown_error)

  abbrev pub reply_to : Option TransactionRecord → ℕ → Message → M (Unit {0})
  reply_to none s m = pure tt
  reply_to (some tr) s m = do
    modify_session s (λ session. record session {
      pending_transactions = erase m.cookie session.pending_transactions;
    })
    write_message alloc tr.caller (record m { cookie = tr.reply_cookie })

  unfoldable pub on_reply : ℕ → Message → M (Unit {0})
  on_reply s m = do
    session ← get_session s
    reply_to (find m.cookie session.pending_transactions) s m

  unfoldable pub on_reference : ℕ → Message → M (Unit {0})
  on_reference s m = do
    (handle, r) ← lift (read_uint64 (get_reader m))
    result ← reference_status m.kind s handle
    send_status alloc s m result

  unfoldable pub on_death_notification : ℕ → Message → M (Unit {0})
  on_death_notification s m = do
    (handle, r) ← lift (read_uint64 (get_reader m))
    (object_id, r') ← lift (read_uint64 r)
    result ← death_status m.kind s handle object_id
    send_status alloc s m result

  abbrev pub dispatch : MessageType → ℕ → Message → M (Unit {0})
  dispatch set_context_mgr s m = on_set_context_manager s m
  dispatch set_monitor s m = on_set_monitor s m
  dispatch transaction s m = on_transaction s m
  dispatch status s m = on_reply s m
  dispatch transaction_reply s m = on_reply s m
  dispatch acquire s m = on_reference s m
  dispatch release s m = on_reference s m
  dispatch request_death_notification s m = on_death_notification s m
  dispatch clear_death_notification s m = on_death_notification s m
  dispatch _ s m = send_status alloc s m invalid_operation

  unfoldable pub process_message : ℕ → Message → M (Unit {0})
  process_message s m = dispatch m.kind s m
