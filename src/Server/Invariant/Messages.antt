-- ===== src/Server/Invariant/Messages.antt =====
-- Every message that a session sends keeps registry and sessions consistent.
use binderd.Common.{
  ℕ, ◌≡◌, refl, Option, none, some, is_some, find, insert, erase, arith, List, replace,
}
use binderd.Buffer.{Allocator}
use binderd.Reader.{read_uint64}
use binderd.Message.{
  Message, MessageType, transaction, transaction_reply, acquire, release,
  request_death_notification, clear_death_notification, set_context_mgr, set_monitor, status,
}
use binderd.Message.Wire.{get_reader}
use binderd.Status.{ok_status, already_exists, bad_value, invalid_operation, dead_object}
use binderd.Server.State.{Registry, TransactionRecord, ◌>>◌, pure, lift, modify_registry}
use binderd.Server.State.Keeps.{Keeps, continue_with-Keeps, if-Keeps}
use binderd.Server.Output.{send_status, forward_to_monitor}
use binderd.Server.Registry as Registry
use binderd.Server.Handlers.{
  on_set_context_manager, on_set_monitor, reply_to, on_reply, reference_status, on_reference,
  request_death, clear_death, death_status, on_death_notification, dispatch, process_message,
}
use binderd.Server.Invariant.{Inv, modify_session-Inv}
use binderd.Server.Invariant.Steps.{
  modify_registry-Inv, answers, writes, logs, on_transaction-Keeps,
}

module _ (s : ℕ) where
  set_references-Inv :
      (references : Registry → Registry)
      → ((r : Registry)
          → ((references r).handles ≡ r.handles) × ((references r).context_mgr ≡ r.context_mgr))
      → Keeps (Inv s s) (modify_registry references)
  set_references-Inv references same w h =
      modify_registry-Inv s s references w (same w.registry).0
        (λ x e. h.consistent.manager_known x (ground (arith, e, (same w.registry).1))) h

  referenced-same :
      (o : Option (List ℕ)) (handle : ℕ) (r : Registry)
      → ((Registry.referenced o s handle r).handles ≡ r.handles)
        × ((Registry.referenced o s handle r).context_mgr ≡ r.context_mgr)
  referenced-same none handle r = (refl, refl)
  referenced-same (some sessions) handle r = (refl, refl)

  add_reference-Keeps : (handle : ℕ) → Keeps (Inv s s) (Registry.add_reference_for_handle s handle)
  unfolding Registry.add_reference_for_handle
  add_reference-Keeps handle w =
      if-Keeps (Inv s s) (Registry.is_handle_known handle w.registry)
        (modify_registry (Registry.referenced (find handle w.registry.references) s handle)
          >> pure ok_status)
        (pure dead_object)
        (set_references-Inv (Registry.referenced (find handle w.registry.references) s handle)
          (referenced-same (find handle w.registry.references) handle))
        (λ v h. h) w

  dereference-Keeps :
      (o : Option (List ℕ)) (handle : ℕ) → Keeps (Inv s s) (Registry.dereference o handle)
  dereference-Keeps none handle = λ w h. h
  dereference-Keeps (some sessions) handle =
      set_references-Inv (λ r. record r { references = replace handle sessions r.references })
        (λ r. (refl, refl))

  remove_reference-Keeps :
      (o : Option (List ℕ)) (handle : ℕ) → Keeps (Inv s s) (Registry.remove_reference o s handle)
  remove_reference-Keeps none handle = λ w h. h
  remove_reference-Keeps (some sessions) handle =
      dereference-Keeps (Registry.remove_first s sessions) handle

  release_reference-Keeps :
      (handle : ℕ) → Keeps (Inv s s) (Registry.remove_reference_for_handle s handle)
  unfolding Registry.remove_reference_for_handle
  release_reference-Keeps handle w =
      if-Keeps (Inv s s) (Registry.is_handle_known handle w.registry)
        (Registry.remove_reference (find handle w.registry.references) s handle) (pure dead_object)
        (remove_reference-Keeps (find handle w.registry.references) handle) (λ v h. h) w

  reference_status-Keeps :
      (kind : MessageType) (handle : ℕ) → Keeps (Inv s s) (reference_status kind s handle)
  reference_status-Keeps acquire handle = add_reference-Keeps handle
  reference_status-Keeps release handle = release_reference-Keeps handle
  reference_status-Keeps _ handle = λ w h. h

  request_death-Keeps : (handle object_id : ℕ) → Keeps (Inv s s) (request_death s handle object_id)
  unfolding request_death
  request_death-Keeps handle object_id w =
      if-Keeps (Inv s s) (is_some (find handle (w.sessions s).death_notifications))
        (pure already_exists) _ (λ v h. h)
        (modify_session-Inv s s s
          (λ session. record session {
            death_notifications = insert handle object_id session.death_notifications;
          })
          (λ x. refl))
        w

  clear_death-Keeps : (handle : ℕ) → Keeps (Inv s s) (clear_death s handle)
  unfolding clear_death
  clear_death-Keeps handle w =
      if-Keeps (Inv s s) (is_some (find handle (w.sessions s).death_notifications)) _
        (pure bad_value)
        (modify_session-Inv s s s
          (λ session. record session {
            death_notifications = erase handle session.death_notifications;
          })
          (λ x. refl))
        (λ v h. h) w

  death_status-Keeps :
      (kind : MessageType) (handle object_id : ℕ)
      → Keeps (Inv s s) (death_status kind s handle object_id)
  death_status-Keeps request_death_notification handle object_id =
      request_death-Keeps handle object_id
  death_status-Keeps clear_death_notification handle object_id = clear_death-Keeps handle
  death_status-Keeps _ handle object_id = λ w h. h

module _ (alloc : Allocator) (s : ℕ) where
  on_set_context_manager-Keeps : (m : Message) → Keeps (Inv s s) (on_set_context_manager alloc s m)
  unfolding on_set_context_manager
  on_set_context_manager-Keeps m w h =
      continue_with-Keeps (Inv s s) (forward_to_monitor alloc m w) _ (logs alloc s s m w h) λ _ v.
        if-Keeps (Inv s s) (is_some v.registry.context_mgr) (send_status alloc s m already_exists)
          (Registry.set_context_manager (some s) >> send_status alloc s m ok_status)
          (answers alloc s s s m already_exists)
          (λ u k. answers alloc s s s m ok_status _ (
            modify_registry-Inv s s (λ r. record r { context_mgr = some s }) u refl
              (λ x e. ground (arith, e, k.actor)) k))
          v

  on_set_monitor-Keeps : (m : Message) → Keeps (Inv s s) (on_set_monitor alloc s m)
  unfolding on_set_monitor
  on_set_monitor-Keeps m w =
      if-Keeps (Inv s s) (is_some w.registry.monitor) (send_status alloc s m already_exists)
        (Registry.set_monitor (some s) >> send_status alloc s m ok_status)
        (answers alloc s s s m already_exists)
        (λ u k. answers alloc s s s m ok_status _ (
          modify_registry-Inv s s (λ r. record r { monitor = some s }) u refl
            k.consistent.manager_known k))
        w

  reply_to-Keeps :
      (o : Option TransactionRecord) (m : Message) → Keeps (Inv s s) (reply_to alloc o s m)
  reply_to-Keeps none m w h = h
  reply_to-Keeps (some tr) m w h =
      writes alloc s s tr.caller (record m { cookie = tr.reply_cookie }) _
        (modify_session-Inv s s s
          (λ session. record session {
            pending_transactions = erase m.cookie session.pending_transactions;
          })
          (λ x. refl) w h)

  on_reply-Keeps : (m : Message) → Keeps (Inv s s) (on_reply alloc s m)
  unfolding on_reply
  on_reply-Keeps m w h = reply_to-Keeps (find m.cookie (w.sessions s).pending_transactions) m w h

  on_reference-Keeps : (m : Message) → Keeps (Inv s s) (on_reference alloc s m)
  unfolding on_reference
  on_reference-Keeps m w h =
      continue_with-Keeps (Inv s s) (lift (read_uint64 (get_reader m)) w) _ h λ out v k.
        continue_with-Keeps (Inv s s) (reference_status m.kind s out.0 v)
          (λ result. send_status alloc s m result) (reference_status-Keeps s m.kind out.0 v k)
          (answers alloc s s s m)

  on_death_notification-Keeps : (m : Message) → Keeps (Inv s s) (on_death_notification alloc s m)
  unfolding on_death_notification
  on_death_notification-Keeps m w h =
      continue_with-Keeps (Inv s s) (lift (read_uint64 (get_reader m)) w) _ h λ out v k.
        continue_with-Keeps (Inv s s) (lift (read_uint64 out.1) v) _ k λ out' u j.
          continue_with-Keeps (Inv s s) (death_status m.kind s out.0 out'.0 u)
            (λ result. send_status alloc s m result) (death_status-Keeps s m.kind out.0 out'.0 u j)
            (answers alloc s s s m)

  dispatch-Keeps : (kind : MessageType) (m : Message) → Keeps (Inv s s) (dispatch alloc kind s m)
  dispatch-Keeps set_context_mgr m = on_set_context_manager-Keeps m
  dispatch-Keeps set_monitor m = on_set_monitor-Keeps m
  dispatch-Keeps transaction m = on_transaction-Keeps alloc s m
  dispatch-Keeps status m = on_reply-Keeps m
  dispatch-Keeps transaction_reply m = on_reply-Keeps m
  dispatch-Keeps acquire m = on_reference-Keeps m
  dispatch-Keeps release m = on_reference-Keeps m
  dispatch-Keeps request_death_notification m = on_death_notification-Keeps m
  dispatch-Keeps clear_death_notification m = on_death_notification-Keeps m
  dispatch-Keeps _ m = answers alloc s s s m invalid_operation

  pub process_message-Keeps : (m : Message) → Keeps (Inv s s) (process_message alloc s m)
  unfolding process_message
  process_message-Keeps m = dispatch-Keeps m.kind m
