-- ===== src/Examples/Server.antt =====
-- The server's theorems on two clients.
use binderd.Common.{
  Bytes, ◌<◌, ◌^◌, none, ℕ, ◌≡◌, ◌⊎◌, refl, true, false, [], ◌∷◌, arith, some, find, le_bytes,
  splice, le_value, ok, undefined,
}
use binderd.Buffer.{create, resize}
use binderd.Writer.{
  open_writer, new_writer, ensure_size, write_value, zero_padding, write_data, write_sized_data,
  pad_size, padded_size, pad_mask, and_bytes,
}
use binderd.Message.{
  Message, create_message, type_code, transaction, transaction_reply, acquire, set_context_mgr,
}
use binderd.Message.Wire.{pack}
use binderd.Reader.{read_value, advance, read_data, read_sized_data}
use binderd.Server.Output.{send_message, forward_to_monitor, write_message}
use binderd.Message.RoundTrip.{encode}
use binderd.Parser.Runs.{buffer_of}
use binderd.Status.{ok_status}
use binderd.Transaction.{writable, from_message, get_data, pack_flags}
use binderd.Transaction as Transaction
use binderd.Server.Translate.{translate_objects, translate_loop}
use binderd.Transaction.RoundTrip as TransactionRoundTrip
use binderd.Server.State.{◌>>◌, World, TransactionRecord, start}
use binderd.Server.Output.Written.{IsWritable, wrote}
use binderd.Server.Registry.{
  add_reference_for_handle, remove_reference_for_handle, is_handle_known, find_session_by_handle,
}
use binderd.Server.Registry.References.{num_references, remove_reference-add_reference}
use binderd.Server.Registry.Notices.{Succeeds}
use binderd.Server.Handlers.{
  on_set_context_manager, on_transaction, process_message, on_reply, post_transaction,
  destination_object, deliver,
}
use binderd.Server.Handlers.Answers.{Answered, on_transaction-answers}
use binderd.Server.Handlers.Requests.{process_message-answers}
use binderd.Server.Handlers.Replies.{
  settled, first_accepted, second_refused, on_set_context_manager-first, on_reply-once,
}
use binderd.Server.Handlers.Pending.{IsUnused, on_reply-post_transaction}
use binderd.Server.Lifecycle.{accept, on_read, terminate}
use binderd.Server.Lifecycle.Ends.{IsGone, terminate-IsGone}
use binderd.Server.Invariant.{IsConsistent}
use binderd.Server.Invariant.Reachable.{
  Reach, begin, next_step, connect, receive, Reach-IsConsistent,
}
use binderd.Server.Translate.{
  get_cookie, get_type, get_handle, get_binder, register_binder, resolve_handle, type_handle,
  type_weak_binder,
}
use binderd.Server.Translate.Objects.{resolve_handle-register_binder}
use binderd.Examples.Heap.{heap, heap-NeverFails}

-- Two clients connected.
abbrev two_clients : World
two_clients = (accept (accept start).1).1

-- The first one asks to be the context manager.
abbrev manager_request : Message
manager_request = record (create_message set_context_mgr) { cookie = 7 }

abbrev manager_world : World
manager_world = (on_read heap 0 (some (buffer_of (encode manager_request))) two_clients).1

manager_world-Reach : Reach heap manager_world
unfolding accept
manager_world-Reach =
    next_step
      (next_step (next_step begin (connect start (omega arith)))
        (connect (accept start).1 (omega arith)))
      (receive 0 (some (buffer_of (encode manager_request))) two_clients (omega arith))

Reach-IsConsistent_example : IsConsistent manager_world
Reach-IsConsistent_example = Reach-IsConsistent heap manager_world manager_world-Reach

-- A call of the second client, to the context manager.
abbrev a_call : Message
a_call = record {
  kind = transaction;
  cookie = 9;
  destination = 0;
  body = record {
    bytes = TransactionRoundTrip.encode (record writable { code = 5; body = 1 ∷ 2 ∷ [] });
    immutable = false;
  };
}

abbrev a_reply : Message
a_reply = record (create_message transaction_reply) {
  body = record { bytes = 4 ∷ 2 ∷ []; immutable = false };
}

a_reply-IsWritable : IsWritable a_reply
a_reply-IsWritable = record { room = omega arith; in_bytes = (omega arith, (omega arith, tt)) }

manager_request-IsWritable : IsWritable manager_request
manager_request-IsWritable = record { room = omega arith; in_bytes = tt }

-- The second session asks first.
abbrev second_manager : World
second_manager = second_refused 0 manager_request (first_accepted 1 manager_request two_clients)

on_set_context_manager-first_example :
    ((on_set_context_manager heap 1 manager_request
          >> on_set_context_manager heap 0 manager_request)
        two_clients
      ≡ (ok tt, second_manager))
    × (find_session_by_handle 0 second_manager.registry ≡ some 1)
unfolding accept
on_set_context_manager-first_example =
    on_set_context_manager-first heap heap-NeverFails 1 0 manager_request manager_request
      two_clients refl manager_request-IsWritable manager_request-IsWritable

on_transaction-answers_example :
    Answered 1 9 (on_transaction heap 1 a_call two_clients)
    ⊎ ((v : World) × (on_transaction heap 1 a_call two_clients ≡ (undefined, v)))
on_transaction-answers_example = on_transaction-answers heap heap-NeverFails 1 a_call two_clients

abbrev an_acquire : Message
an_acquire = record (create_message acquire) {
  cookie = 5;
  body = record { bytes = 1 ∷ 0 ∷ 0 ∷ 0 ∷ 0 ∷ 0 ∷ 0 ∷ 0 ∷ []; immutable = false };
}

process_message-answers_example : Answered 1 5 (process_message heap 1 an_acquire two_clients)
process_message-answers_example =
    process_message-answers heap heap-NeverFails 1 an_acquire two_clients tt (omega arith) (record {
      room = omega arith;
      in_bytes = (
        omega arith,
        (
          omega arith,
          (
            omega arith,
            (omega arith, (omega arith, (omega arith, (omega arith, (omega arith, tt))))),
          ),
        ),
      );
    })

terminate-IsGone_example :
    Succeeds (terminate heap 0 manager_world) × IsGone 0 (terminate heap 0 manager_world).1
terminate-IsGone_example =
    terminate-IsGone heap heap-NeverFails 0 manager_world
      (Reach-IsConsistent heap manager_world manager_world-Reach)

-- A world in which the second session owns handle 5.
abbrev owned_world : World
owned_world = record start { registry = record (start.registry) { handles = (5, 1) ∷ [] } }

handle_known : is_handle_known 5 owned_world.registry ≡ true
unfolding is_handle_known find
handle_known = refl

remove_reference-add_reference_example :
    ((add_reference_for_handle 0 5 owned_world).0 ≡ ok ok_status)
    × ((remove_reference_for_handle 0 5 (add_reference_for_handle 0 5 owned_world).1).0
        ≡ ok ok_status)
    × ((t : ℕ)
        → num_references t 5
            (remove_reference_for_handle 0 5
              (add_reference_for_handle 0 5 owned_world).1).1.registry
          ≡ num_references t 5 owned_world.registry)
remove_reference-add_reference_example = remove_reference-add_reference 0 5 owned_world handle_known

-- The first client has a call of the second pending under cookie 0.
abbrev pending_call : TransactionRecord
pending_call = record { caller = 1; reply_cookie = 9; message = a_call }

abbrev pending_world : World
pending_world = record start {
  sessions = λ s. record (start.sessions s) { pending_transactions = (0, pending_call) ∷ [] };
}

pending_found : find 0 (pending_world.sessions 0).pending_transactions ≡ some pending_call
unfolding find
pending_found = refl

on_reply-once_example :
    (on_reply heap 0 a_reply pending_world
      ≡ (ok tt, wrote 1 (record a_reply { cookie = 9 }) (settled 0 0 pending_world)))
    × (on_reply heap 0 a_reply (wrote 1 (record a_reply { cookie = 9 }) (settled 0 0 pending_world))
        ≡ (ok tt, wrote 1 (record a_reply { cookie = 9 }) (settled 0 0 pending_world)))
on_reply-once_example =
    on_reply-once heap heap-NeverFails 0 a_reply pending_call pending_world pending_found
      a_reply-IsWritable

-- The second client's call is posted to the first.
posted : (post_transaction heap 0 pending_call two_clients).0 ≡ ok ok_status
unfolding accept post_transaction destination_object deliver from_message translate_objects
    translate_loop get_data Transaction.pack pack_flags read_value advance read_data read_sized_data
    write_message pack send_message forward_to_monitor find le_bytes le_value type_code open_writer
    new_writer ensure_size write_value zero_padding write_data write_sized_data create resize splice
    pad_size padded_size pad_mask and_bytes
posted = refl

unused : IsUnused 0 (two_clients.sessions 0).next_transaction_cookie two_clients
unfolding accept find
unused = refl

on_reply-post_transaction_example :
    on_reply heap 0 a_reply (post_transaction heap 0 pending_call two_clients).1 ≡ (
      ok tt,
      wrote 1
          (record a_reply { cookie = 9 })
          (settled 0 0 (post_transaction heap 0 pending_call two_clients).1),
    )
unfolding accept
on_reply-post_transaction_example =
    on_reply-post_transaction heap heap-NeverFails 0 pending_call a_reply two_clients unused posted
      refl a_reply-IsWritable

-- A binder object with binder 16 and cookie 32.
abbrev an_object : Bytes
an_object =
    0x85 ∷ 0x2a ∷ 0x62 ∷ 0x73 ∷ 0 ∷ 0 ∷ 0 ∷ 0 ∷ 16 ∷ 0 ∷ 0 ∷ 0 ∷ 0 ∷ 0 ∷ 0 ∷ 0 ∷ 32 ∷ 0 ∷ 0 ∷ 0 ∷ 0
    ∷ 0 ∷ 0 ∷ 0 ∷ []

cookie_fits : get_cookie an_object 0 < 2 ^ 64
unfolding le_value
cookie_fits = omega arith

no_owner : find 1 start.registry.handles ≡ none
unfolding find
no_owner = refl

no_object : find 1 (start.sessions 0).objects ≡ none
unfolding find
no_object = refl

resolve_handle-register_binder_example :
    (m : Bytes) × ((register_binder 0 0 an_object start).0 ≡ ok m)
    × (get_type m 0 ≡ type_handle)
    × (get_handle m 0 ≡ 1)
    × (find_session_by_handle (get_handle m 0) (register_binder 0 0 an_object start).1.registry
        ≡ some 0)
    × (find (get_handle m 0) ((register_binder 0 0 an_object start).1.sessions 0).objects
        ≡ some (record { binder = get_binder an_object 0; cookie = get_cookie an_object 0 }))
    × (back : Bytes) × (resolve_handle
          (find (get_handle m 0) ((register_binder 0 0 an_object start).1.sessions 0).objects)
          0
          m
        ≡ back)
    × (get_type back 0 ≡ type_weak_binder)
    × (get_cookie back 0 ≡ get_cookie an_object 0)
    × (get_handle back 0 ≡ 0)
resolve_handle-register_binder_example =
    resolve_handle-register_binder 0 0 an_object start (omega arith) cookie_fits (omega arith)
      (omega arith) no_owner no_object
