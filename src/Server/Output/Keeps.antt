-- ===== src/Server/Output/Keeps.antt =====
-- Writing a message changes nothing but what was written.
use binderd.Common.{ℕ, Option, none, some, find}
use binderd.Buffer.{Allocator}
use binderd.Writer.{write_int32, write_uint64, write_sized_data}
use binderd.Message.{Message, create_message, log_entry, status, dead_binder}
use binderd.Message.Wire.{pack, get_writer}
use binderd.Status.{Status, status_code}
use binderd.Server.State.{World, lift}
use binderd.Server.State.Keeps.{Keeps, IgnoresWritten, continue_with-Keeps}
use binderd.Server.Output.{
  messenger_write, send_message, log_to, forward_to_monitor, write_message, send_status, notify,
  send_death_notification, with_body,
}

module _ (alloc : Allocator) (P : World → Type 0) (ignores : IgnoresWritten P) where
  pub send_message-Keeps : (s : ℕ) (m : Message) → Keeps P (send_message alloc s m)
  unfolding send_message
  send_message-Keeps s m w h =
      continue_with-Keeps P (lift (pack alloc m) w) (messenger_write s) h (λ b v. ignores s _ v)

  log_to-Keeps : (monitor : Option ℕ) (m : Message) → Keeps P (log_to alloc monitor m)
  log_to-Keeps none m w h = h
  log_to-Keeps (some monitor) m w h = continue_with-Keeps P (lift (pack alloc m) w) _ h λ b v k.
      continue_with-Keeps P
        (lift (write_sized_data alloc b.bytes (get_writer (create_message log_entry))) v) _ k
        λ x. send_message-Keeps monitor (with_body (create_message log_entry) x)

  pub forward_to_monitor-Keeps : (m : Message) → Keeps P (forward_to_monitor alloc m)
  unfolding forward_to_monitor
  forward_to_monitor-Keeps m w h = log_to-Keeps w.registry.monitor m w h

  pub write_message-Keeps : (s : ℕ) (m : Message) → Keeps P (write_message alloc s m)
  unfolding write_message
  write_message-Keeps s m w h =
      continue_with-Keeps P (lift (pack alloc m) w) _ h
        λ b v k. forward_to_monitor-Keeps m _ (ignores s _ v k)

  pub send_status-Keeps :
      (s : ℕ) (m : Message) (result : Status) → Keeps P (send_status alloc s m result)
  unfolding send_status
  send_status-Keeps s m result w h =
      let reply = record (create_message status) { cookie = m.cookie } in
      continue_with-Keeps P (lift (write_int32 alloc (status_code result) (get_writer reply)) w) _ h
        λ x. write_message-Keeps s (with_body reply x)

  notify-Keeps : (s handle : ℕ) (object_id : Option ℕ) → Keeps P (notify alloc s handle object_id)
  notify-Keeps s handle none w h = h
  notify-Keeps s handle (some object_id) w h =
      continue_with-Keeps P
        (lift (write_uint64 alloc handle (get_writer (create_message dead_binder))) w) _ h
        λ x v k.
          continue_with-Keeps P (lift (write_uint64 alloc object_id x) v) _ k
            λ y. write_message-Keeps s (with_body (create_message dead_binder) y)

  pub send_death_notification-Keeps :
      (s handle : ℕ) → Keeps P (send_death_notification alloc s handle)
  unfolding send_death_notification
  send_death_notification-Keeps s handle w h =
      notify-Keeps s handle (find handle (w.sessions s).death_notifications) w h
