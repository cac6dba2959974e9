-- ===== src/Client/Cookies/Commands.antt =====
-- The client's work for others keeps its calls apart, if that of its objects does.
use binderd.Common.{
  ℕ, suc, leb, length, take, drop, ◌++◌, undefined, Bool, true, false, if◌then◌else◌, Option, none,
  some, List, [], ◌∷◌, Bytes,
}
use binderd.Common.Effects.{
  ◌>>=◌, ◌>>◌, pure, lift, get, modify, Keeps, proceed-Keeps, if-Keeps, lift-Keeps,
}
use binderd.Buffer.{Allocator}
use binderd.Writer.{write_data, write_int32}
use binderd.Reader.{read_uint64}
use binderd.Message.{
  Message, MessageType, create_message, transaction, status, dead_binder, transaction_reply,
}
use binderd.Message.Wire.{get_reader, get_writer, pack}
use binderd.Status.{Status, ok_status, dead_object, status_code, unknown_transaction}
use binderd.Transaction.{TransactionData, FromMessage, from_message}
use binderd.Transaction as Transaction
use binderd.Translator.{outward, inward, process_request, process_transaction}
use binderd.Client.State.{Task, finish, handle_context}
use binderd.Client.Calls.{queue_message, dequeue_message, first_message, write_bytes}
use binderd.Client.Incoming.{is_transaction}
use binderd.Client.Requests.{with_writer}
use binderd.Client.Commands.{
  Objects, find_object, send_status, reply_message, translated_payload, payload_of, answer_payload,
  call_object, execute_translated, execute_transaction, tell, dead_recipient, erase_recipient,
  execute_dead_binder, execute, process_first, process_and_execute_command, context_payload,
  on_context, handle_context_object_message, run_task, run_first, run_next_task,
}
use binderd.Client.Cookies.{IsFresh, finish_call-IsFresh}
use binderd.Client.Cookies.Steps.{queue_message-IsFresh}

-- What the objects do with the client keeps its calls apart.
pub record ObjectsKeep (objects : Objects) : Type 0 where
  pub transacts :
      (o : ℕ) (request : FromMessage) (memory : Bytes)
      → Keeps IsFresh (objects.transact o request memory)
  pub obituaries : (o : ℕ) → Keeps IsFresh (objects.send_obituary o)

module _ (alloc : Allocator) where
  send_status-IsFresh : (m : Message) (result : Status) → Keeps IsFresh (send_status alloc m result)
  unfolding send_status
  send_status-IsFresh m result =
      let reply = record (create_message status) { cookie = m.cookie } in
      lift-Keeps IsFresh (write_int32 alloc (status_code result) (get_writer reply))
        (λ w. lift (pack alloc (with_writer reply w)) >>= λ b. modify (write_bytes b.bytes))
        (λ w.
          lift-Keeps IsFresh (pack alloc (with_writer reply w)) (λ b. modify (write_bytes b.bytes))
            (λ b c h. h))

  erase_recipient-IsFresh : (at : ℕ) → Keeps IsFresh (erase_recipient at)
  erase_recipient-IsFresh at c h =
      if-Keeps IsFresh (leb (length c.dead_recipients) at) (lift undefined)
        (modify (λ d. record d {
          dead_recipients = take at c.dead_recipients ++ drop (suc at) c.dead_recipients;
        }))
        (λ d k. k) (λ d k. k) c h

  reply_message-IsFresh :
      (m : Message) (payload : TransactionData) → Keeps IsFresh (reply_message alloc m payload)
  unfolding reply_message
  reply_message-IsFresh m payload =
      let reply = record (create_message transaction_reply) { cookie = m.cookie } in
      lift-Keeps IsFresh (Transaction.pack alloc payload)
        (λ packed. lift (write_data alloc packed.bytes (get_writer reply)) >>= λ w.
          pure (with_writer reply w))
        (λ packed.
          lift-Keeps IsFresh (write_data alloc packed.bytes (get_writer reply))
            (λ w. pure (with_writer reply w)) (λ w c h. h))

  payload_of-IsFresh : (reply : Option TransactionData) → Keeps IsFresh (payload_of alloc reply)
  payload_of-IsFresh none c h = h
  payload_of-IsFresh (some reply) c h =
      lift-Keeps IsFresh (process_request outward reply c.object_translator)
        (translated_payload alloc reply) (λ (result, memory, t) d k. k) c h

  answer_payload-IsFresh :
      (answer : Status × Option TransactionData) → Keeps IsFresh (answer_payload alloc answer)
  answer_payload-IsFresh (ok_status, reply) c h = payload_of-IsFresh reply c h
  answer_payload-IsFresh (_, reply) c h = h

  module _ (objects : Objects) (keep : ObjectsKeep objects) where
    call_object-IsFresh :
        (o : Option ℕ) (m : Message) (request : FromMessage) (memory : Bytes)
        → Keeps IsFresh (call_object alloc objects o m request memory)
    call_object-IsFresh none m request memory c h = send_status-IsFresh m unknown_transaction c h
    call_object-IsFresh (some object) m request memory c h =
        proceed-Keeps IsFresh (objects.transact object request memory c)
          (λ answer. answer_payload alloc answer >>= λ payload.
            reply_message alloc m payload >>= queue_message alloc)
          (keep.transacts object request memory c h)
          λ answer d k.
            proceed-Keeps IsFresh (answer_payload alloc answer d)
              (λ payload. reply_message alloc m payload >>= queue_message alloc)
              (answer_payload-IsFresh answer d k)
              λ payload e j.
                proceed-Keeps IsFresh (reply_message alloc m payload e) (queue_message alloc)
                  (reply_message-IsFresh m payload e j) (queue_message-IsFresh alloc)

    execute_transaction-IsFresh :
        (m : Message) → Keeps IsFresh (execute_transaction alloc objects m)
    unfolding execute_transaction
    execute_transaction-IsFresh m =
        lift-Keeps IsFresh (from_message m)
          (λ request. get >>= λ c.
            lift (process_transaction inward request m.body.bytes c.object_translator)
            >>= execute_translated alloc objects m request)
          λ request c h.
            lift-Keeps IsFresh (process_transaction inward request m.body.bytes c.object_translator)
              (execute_translated alloc objects m request)
              (λ (result, memory, t) d k.
                call_object-IsFresh
                  (find_object request.cookie (record d { object_translator = t })) m request memory
                  (record d { object_translator = t }) k)
              c h

    tell-IsFresh :
        (m : Message) (found : Option (ℕ × ℕ)) → Keeps IsFresh (tell alloc objects m found)
    tell-IsFresh m none c h = send_status-IsFresh m dead_object c h
    tell-IsFresh m (some (at, proxy)) c h =
        proceed-Keeps IsFresh (objects.send_obituary proxy c)
          (λ _. erase_recipient at >> send_status alloc m ok_status) (keep.obituaries proxy c h)
          λ _ d k.
            proceed-Keeps IsFresh (erase_recipient at d) (λ _. send_status alloc m ok_status)
              (erase_recipient-IsFresh at d k) (λ _. send_status-IsFresh m ok_status)

    execute_dead_binder-IsFresh :
        (m : Message) → Keeps IsFresh (execute_dead_binder alloc objects m)
    unfolding execute_dead_binder
    execute_dead_binder-IsFresh m =
        lift-Keeps IsFresh (read_uint64 (get_reader m))
          (λ (handle, r). lift (read_uint64 r) >>= λ (id, r').
            get >>= λ c. tell alloc objects m (dead_recipient objects id c.dead_recipients))
          λ (handle, r).
            lift-Keeps IsFresh (read_uint64 r)
              (λ (id, r').
                get >>= λ c. tell alloc objects m (dead_recipient objects id c.dead_recipients))
              (λ (id, r') c h. tell-IsFresh m (dead_recipient objects id c.dead_recipients) c h)

    execute-IsFresh :
        (kind : MessageType) (m : Message) → Keeps IsFresh (execute alloc objects kind m)
    execute-IsFresh transaction m = execute_transaction-IsFresh m
    execute-IsFresh dead_binder m = execute_dead_binder-IsFresh m
    execute-IsFresh _ m = λ c h. h

    pub process_and_execute_command-IsFresh :
        Keeps IsFresh (process_and_execute_command alloc objects)
    unfolding process_and_execute_command dequeue_message
    process_and_execute_command-IsFresh c h = choose c.should_exit
      where
        queued : (ms : List Message) → IsFresh (process_first alloc objects (first_message ms c)).1
        queued [] = h
        queued (m ∷ ms) =
            proceed-Keeps IsFresh (execute alloc objects m.kind m (record c { in_messages = ms }))
              (λ _. pure true) (execute-IsFresh m.kind m (record c { in_messages = ms }) h)
              (λ _ d k. k)

        choose :
            (exits : Bool)
            → IsFresh
                (process_first alloc objects
                  (if exits then (none, c) else first_message c.in_messages c)).1
        choose true = h
        choose false = queued c.in_messages

    context_payload-IsFresh :
        (answer : Status × Option TransactionData)
        → Keeps IsFresh (context_payload alloc objects answer)
    context_payload-IsFresh (ok_status, none) c h = h
    context_payload-IsFresh (ok_status, some reply) c h = h
    context_payload-IsFresh (_, reply) c h = h

    on_context-IsFresh : (o : Option ℕ) (m : Message) → Keeps IsFresh (on_context alloc objects o m)
    on_context-IsFresh none m c h = h
    on_context-IsFresh (some object) m c h =
        lift-Keeps IsFresh (from_message m)
          (λ request. objects.transact object request m.body.bytes >>= λ answer.
            context_payload alloc objects answer >>= λ payload.
            reply_message alloc m payload >>= λ reply.
            lift (pack alloc reply) >>= λ b. modify (write_bytes b.bytes))
          (λ request c h.
            proceed-Keeps IsFresh (objects.transact object request m.body.bytes c)
              (λ answer. context_payload alloc objects answer >>= λ payload.
                reply_message alloc m payload >>= λ reply.
                lift (pack alloc reply) >>= λ b. modify (write_bytes b.bytes))
              (keep.transacts object request m.body.bytes c h)
              λ answer d k.
                proceed-Keeps IsFresh (context_payload alloc objects answer d)
                  (λ payload. reply_message alloc m payload >>= λ reply.
                    lift (pack alloc reply) >>= λ b. modify (write_bytes b.bytes))
                  (context_payload-IsFresh answer d k)
                  λ payload e j.
                    proceed-Keeps IsFresh (reply_message alloc m payload e)
                      (λ reply. lift (pack alloc reply) >>= λ b. modify (write_bytes b.bytes))
                      (reply_message-IsFresh m payload e j)
                      (λ reply.
                        lift-Keeps IsFresh (pack alloc reply) (λ b. modify (write_bytes b.bytes))
                          (λ b f i. i)))
          c h

    run_task-IsFresh : (task : Task) → Keeps IsFresh (run_task alloc objects task)
    unfolding handle_context_object_message
    run_task-IsFresh (finish cookie) c h = finish_call-IsFresh cookie c h
    run_task-IsFresh (handle_context m) c h =
        if-Keeps IsFresh (is_transaction m.kind) (on_context alloc objects c.context_obj m)
          (pure tt) (on_context-IsFresh c.context_obj m) (λ d k. k) c h

    pub run_next_task-IsFresh : Keeps IsFresh (run_next_task alloc objects)
    unfolding run_next_task
    run_next_task-IsFresh c h = first c.tasks
      where
        first : (tasks : List Task) → IsFresh (run_first alloc objects tasks c).1
        first [] = h
        first (task ∷ tasks) = run_task-IsFresh task (record c { tasks = tasks }) h
