-- ===== src/Server/Output.antt =====
-- What a session writes: `WriteMessage`, `ForwardToMonitor`, `SendMessage`, `SendStatus` and
-- `SendDeathNotification` of src/binderd/server_session.cpp.
pub mod Written
pub mod Keeps
use binderd.Common.{ℕ, List, [], ◌∷◌, ◌++◌, Bytes, Option, none, some, find, Result, ok}
use binderd.Buffer.{Allocator, Buffer}
use binderd.Writer.{Writer, write_value, write_int32, write_uint64, write_sized_data}
use binderd.Message.{Message, create_message, log_entry, status, dead_binder}
use binderd.Message.Wire.{pack, get_writer}
use binderd.Status.{Status, status_code}
use binderd.Server.State.{
  World, Session, Registry, M, ◌>>=◌, ◌>>◌, continue_with, pure, lift, get_session, modify_session,
  get_registry,
}

-- A message and its writer share the body.
abbrev pub with_body : Message → Writer → Message
with_body m w = record m { body = w.buffer }

-- `messenger_->WriteData(buffer)`
abbrev pub messenger_write : ℕ → Buffer → M (Unit {0})
messenger_write s b =
    modify_session s (λ session. record session { written = session.written ++ b.bytes ∷ [] })

module _ (alloc : Allocator) where
  unfoldable pub send_message : ℕ → Message → M (Unit {0})
  send_message s m = do b ← lift (pack alloc m); messenger_write s b

  abbrev log_to : Option ℕ → Message → M (Unit {0})
  log_to none m = pure tt
  log_to (some monitor) m = do
    b ← lift (pack alloc m)
    w ← lift (write_sized_data alloc b.bytes (get_writer (create_message log_entry)))
    send_message monitor (with_body (create_message log_entry) w)

  unfoldable pub forward_to_monitor : Message → M (Unit {0})
  forward_to_monitor m = do registry ← get_registry; log_to registry.monitor m

  unfoldable pub write_message : ℕ → Message → M (Unit {0})
  write_message s m = do b ← lift (pack alloc m); messenger_write s b; forward_to_monitor m

  unfoldable pub send_status : ℕ → Message → Status → M (Unit {0})
  send_status s m result = do
    let reply = record (create_message status) { cookie = m.cookie }
    w ← lift (write_int32 alloc (status_code result) (get_writer reply))
    write_message s (with_body reply w)

  abbrev notify : ℕ → ℕ → Option ℕ → M (Unit {0})
  notify s handle none = pure tt
  notify s handle (some object_id) = do
    w ← lift (write_uint64 alloc handle (get_writer (create_message dead_binder)))
    w' ← lift (write_uint64 alloc object_id w)
    write_message s (with_body (create_message dead_binder) w')

  unfoldable pub send_death_notification : ℕ → ℕ → M (Unit {0})
  send_death_notification s handle = do
    session ← get_session s
    notify s handle (find handle session.death_notifications)
