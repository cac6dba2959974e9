-- ===== src/Server/Invariant/Steps.antt =====
-- Every message handler keeps registry and sessions consistent.
use binderd.Common.{ℕ, ◌*◌, ◌<◌, ◌≡◌, refl, Option, none, some, find, Bytes, slice, arith}
use binderd.Buffer.{Allocator}
use binderd.Writer.{write_data}
use binderd.Message.{Message, create_message, transaction}
use binderd.Message.Wire.{get_writer}
use binderd.Transaction.{
  FromMessage, pack, from_message, get_data, num_objects, offset_size, writable,
}
use binderd.Status.{Status, ok_status, bad_value, unknown_error, name_not_found}
use binderd.Server.State.{
  World, Registry, TransactionRecord, BinderObject, pure, lift, modify_registry,
}
use binderd.Server.State.Keeps.{Keeps, continue_with-Keeps, if-Keeps, handled-Keeps}
use binderd.Server.Output.{with_body, write_message, send_status, forward_to_monitor}
use binderd.Server.Output.Keeps.{write_message-Keeps, send_status-Keeps, forward_to_monitor-Keeps}
use binderd.Server.Registry as Registry
use binderd.Server.Translate.{translate_objects}
use binderd.Server.Translate.Keeps.{translate_objects-Keeps}
use binderd.Server.Handlers.{
  is_ok, with_pending, take_cookie, destination_object, deliver, deliver_to, post_transaction,
  post_to, transact_translated, transact_from, transact, on_transaction,
}
use binderd.Server.Invariant.{
  Inv, Inv-swap, modify_session-Inv, Inv-IgnoresWritten, register_binder-Inv,
}

-- The registry may change as long as handles and context manager stay.
pub modify_registry-Inv :
    (s t : ℕ) (f : Registry → Registry) (w : World)
    → (f w.registry).handles ≡ w.registry.handles
    → ((x : ℕ) → (f w.registry).context_mgr ≡ some x → x < w.next_session_id)
    → Inv s t w
    → Inv s t (modify_registry f w).1
modify_registry-Inv s t f w same manager h = record {
  consistent = record {
    owned = λ handle x e. ground (arith, same, e, h.consistent.owned handle x);
    known = λ handle x e. ground (arith, same, e, h.consistent.known handle x);
    manager_known = manager;
  };
  actor = h.actor;
  other = h.other;
}

module _ (alloc : Allocator) (s t : ℕ) where
  pub answers :
      (u : ℕ) (m : Message) (result : Status) → Keeps (Inv s t) (send_status alloc u m result)
  answers u m result = send_status-Keeps alloc (Inv s t) (Inv-IgnoresWritten s t) u m result

  pub writes : (u : ℕ) (m : Message) → Keeps (Inv s t) (write_message alloc u m)
  writes u m = write_message-Keeps alloc (Inv s t) (Inv-IgnoresWritten s t) u m

  pub logs : (m : Message) → Keeps (Inv s t) (forward_to_monitor alloc m)
  logs m = forward_to_monitor-Keeps alloc (Inv s t) (Inv-IgnoresWritten s t) m

  translates : (tr : FromMessage) (memory : Bytes) → Keeps (Inv s t) (translate_objects s tr memory)
  translates tr memory = translate_objects-Keeps (Inv s t) s (register_binder-Inv s t) tr memory

  translates_other :
      (tr : FromMessage) (memory : Bytes) → Keeps (Inv s t) (translate_objects t tr memory)
  translates_other tr memory =
      translate_objects-Keeps (Inv s t) t
        (λ at bytes w h. Inv-swap t s _ (register_binder-Inv t s at bytes w (Inv-swap s t w h))) tr
        memory

  -- The rest of a delivery, once its data is packed: the record is kept and the message written.
  deliver-Keeps :
      (tr_cookie : ℕ) (tr : TransactionRecord) (object : BinderObject)
      → Keeps (Inv s t) (deliver alloc t tr_cookie tr object)
  unfolding deliver
  deliver-Keeps tr_cookie tr object w h =
      let P = Inv s t in
      continue_with-Keeps P (lift (from_message tr.message) w) _ h λ old_tr v k.
        continue_with-Keeps P (translate_objects t old_tr tr.message.body.bytes v) _
          (translates_other old_tr tr.message.body.bytes v k)
          λ out.
            if-Keeps P (is_ok out.0) _ (pure out.0)
              (λ u j.
                continue_with-Keeps P
                  (lift
                    (pack alloc (record writable {
                      binder = object.binder;
                      cookie = object.cookie;
                      code = old_tr.code;
                      body = get_data old_tr out.1;
                      objects = slice out.1 old_tr.objects_at (num_objects old_tr * offset_size);
                    }))
                    u)
                  _ j
                  λ packed u' j'.
                    continue_with-Keeps P
                      (lift
                        (write_data alloc packed.bytes (get_writer (create_message transaction)))
                        u')
                      _ j'
                      λ x u'' j''.
                        continue_with-Keeps P
                          (write_message alloc t
                            (with_body
                              (record (create_message transaction) {
                                cookie = tr_cookie;
                                destination = tr.message.destination;
                              })
                              x)
                            _)
                          (λ _. pure ok_status)
                          (writes t _ _ (
                            modify_session-Inv s t t (with_pending tr_cookie tr out.1) (λ y. refl)
                              u'' j''))
                          (λ _ z i. i))
              (λ u j. j)

  post_transaction-Keeps : (tr : TransactionRecord) → Keeps (Inv s t) (post_transaction alloc t tr)
  unfolding post_transaction
  post_transaction-Keeps tr w h =
      to
        (destination_object (find tr.message.destination (w.sessions t).objects)
          tr.message.destination)
        (w.sessions t).next_transaction_cookie _
        (modify_session-Inv s t t take_cookie (λ x. refl) w h)
    where
      to : (object : Option BinderObject) (c : ℕ) → Keeps (Inv s t) (deliver_to alloc object t c tr)
      to none c v k = k
      to (some object) c v k = deliver-Keeps c tr object v k

module _ (alloc : Allocator) (s : ℕ) where
  -- The session that a handle leads to was accepted.
  pub find_session-known :
      (handle t : ℕ) (w : World)
      → Inv s s w
      → Registry.find_session_by_handle handle w.registry ≡ some t
      → Inv s t w
  find_session-known handle t w h e = record {
    consistent = h.consistent;
    actor = h.actor;
    other = known;
  }
    where
      known : t < w.next_session_id
      known =
          unfold Registry.find_session_by_handle in
          ground (arith, e, h.consistent.known handle t, h.consistent.manager_known t)

  forget : (t : ℕ) (w : World) → Inv s t w → Inv s s w
  forget t w h = record { consistent = h.consistent; actor = h.actor; other = h.actor }

  post_to-Keeps :
      (target : Option ℕ) (m : Message) (w : World)
      → Registry.find_session_by_handle m.destination w.registry ≡ target
      → Inv s s w
      → Inv s s (post_to alloc target s m w).1
  post_to-Keeps none m w e h = answers alloc s s s m name_not_found w h
  post_to-Keeps (some t) m w e h = forget t _ (
      continue_with-Keeps (Inv s t)
        (post_transaction alloc t (record { caller = s; reply_cookie = m.cookie; message = m }) w)
        (λ result. send_status alloc s m result)
        (post_transaction-Keeps alloc s t
          (record { caller = s; reply_cookie = m.cookie; message = m }) w
          (find_session-known m.destination t w h e))
        (λ result. answers alloc s t s m result))

  transact-Keeps : (m : Message) → Keeps (Inv s s) (transact alloc s m)
  unfolding transact
  transact-Keeps m w h =
      continue_with-Keeps (Inv s s) (lift (from_message m) w) (transact_from alloc s m) h λ tr v k.
        continue_with-Keeps (Inv s s) (translate_objects s tr m.body.bytes v)
          (transact_translated alloc s m) (translates alloc s s tr m.body.bytes v k)
          λ out u j.
            post_to-Keeps (Registry.find_session_by_handle m.destination u.registry)
              (record m { body = record (m.body) { bytes = out.1 } }) u refl j

  pub on_transaction-Keeps : (m : Message) → Keeps (Inv s s) (on_transaction alloc s m)
  unfolding on_transaction
  on_transaction-Keeps m w h =
      handled-Keeps (Inv s s) (transact alloc s m w) (send_status alloc s m bad_value)
        (send_status alloc s m unknown_error) (transact-Keeps m w h)
        (answers alloc s s s m bad_value) (answers alloc s s s m unknown_error)
