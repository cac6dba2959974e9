-- ===== src/Client/Commands.antt =====
-- What the client does for others: `ProcessAndExecuteCommand`, and the strand's tasks with
-- `HandleContextObjectMessage`. The objects that are called, and those that are told of a death, are
-- the caller's: they are a parameter, and may use the client themselves.
use binderd.Common.{
  ℕ, suc, Bool, true, false, ◌==◌, leb, if◌then◌else◌, List, [], ◌∷◌, ◌++◌, length, take, drop,
  Option, none, some, Bytes, Result, ok, undefined,
}
use binderd.Common.Effects.{Act, proceed, ◌>>=◌, ◌>>◌, pure, lift, get, modify}
use binderd.Buffer.{Allocator}
use binderd.Writer.{write_int32, write_data}
use binderd.Reader.{read_uint64}
use binderd.Message.{
  Message, MessageType, create_message, transaction, transaction_reply, dead_binder, status,
}
use binderd.Message.Wire.{get_reader, get_writer, pack}
use binderd.Status.{Status, ok_status, unknown_transaction, dead_object, status_code}
use binderd.Transaction.{TransactionData, FromMessage, from_message, transaction_status}
use binderd.Transaction as Transaction
use binderd.Pool.{get_object}
use binderd.Translator.{
  inward, outward, process_transaction, process_request, translate_cookie, Outcome,
}
use binderd.Client.State.{Client, DeadRecipient, Task, finish, handle_context}
use binderd.Client.Calls.{queue_message, dequeue_message, finish_call, write_bytes}
use binderd.Client.Incoming.{is_transaction}
use binderd.Client.Deaths.{same_id}
use binderd.Client.Requests.{with_writer}

-- `Object::Transact`, `GetType() == Remote` and `SendObituary` of the object at an address.
pub record Objects : Type 0 where
  pub transact : ℕ → FromMessage → Bytes → Act Client (Status × Option TransactionData)
  pub is_remote : ℕ → Bool
  pub send_obituary : ℕ → Act Client (Unit {0})

-- Where `DeadBinder` finds its recipient (`iter`), and its proxy.
abbrev pub one_later : Option (ℕ × ℕ) → Option (ℕ × ℕ)
one_later none = none
one_later (some (at, proxy)) = some (suc at, proxy)

-- The object that a transaction is for: by its cookie, or the context object.
unfoldable pub find_object : ℕ → Client → Option ℕ
find_object cookie c =
    if translate_cookie cookie c.object_translator == 0
    then c.context_obj
    else get_object (translate_cookie cookie c.object_translator) c.object_pool

module _ (objects : Objects) where
  -- The loop stops at the first recipient with the id, whatever its proxy is. The id of the message
  -- is compared as it came.
  unfoldable pub dead_recipient : ℕ → List DeadRecipient → Option (ℕ × ℕ)
  dead_recipient id [] = none
  dead_recipient id (r ∷ rs) =
      let later = dead_recipient id rs in
      if same_id r.id id
      then (if objects.is_remote r.proxy then some (0, r.proxy) else none)
      else one_later later

-- `dead_recipients_.erase(iter)`, of the recipients as they are then. A recipient that is not there
-- any more is undefined behaviour; that a vector may move when it grows is not modelled.
abbrev pub erase_recipient : ℕ → Act Client (Unit {0})
erase_recipient at = do
  c ← get
  if leb (length c.dead_recipients) at
      then lift undefined
      else modify (λ d. record d {
        dead_recipients = take at c.dead_recipients ++ drop (suc at) c.dead_recipients;
      })

module _ (alloc : Allocator) where
  -- `SendStatus` of the client.
  unfoldable pub send_status : Message → Status → Act Client (Unit {0})
  send_status m result = do
    let reply = record (create_message status) { cookie = m.cookie }
    w ← lift (write_int32 alloc (status_code result) (get_writer reply))
    b ← lift (pack alloc (with_writer reply w))
    modify (write_bytes b.bytes)

  -- The message that answers a transaction, with a packed payload.
  unfoldable pub reply_message : Message → TransactionData → Act Client Message
  reply_message m payload = do
    let reply = record (create_message transaction_reply) { cookie = m.cookie }
    packed ← lift (Transaction.pack alloc payload)
    w ← lift (write_data alloc packed.bytes (get_writer reply))
    pure (with_writer reply w)

  -- The payload of the answer, where the object returned `Ok`: its reply as the translation leaves
  -- it, or the bare status.
  abbrev pub translated_payload : TransactionData → Outcome → Act Client TransactionData
  translated_payload reply (result, memory, t) =
      modify (λ c. record c { object_translator = t }) >> pure (record reply { body = memory })

  abbrev pub payload_of : Option TransactionData → Act Client TransactionData
  payload_of none = pure (transaction_status ok_status)
  payload_of (some reply) = do
    c ← get
    outcome ← lift (process_request outward reply c.object_translator)
    translated_payload reply outcome

  abbrev pub answer_payload : Status × Option TransactionData → Act Client TransactionData
  answer_payload (ok_status, reply) = payload_of reply
  answer_payload (result, reply) = pure (transaction_status result)

  module _ (objects : Objects) where
    abbrev pub call_object : Option ℕ → Message → FromMessage → Bytes → Act Client (Unit {0})
    call_object none m request memory = send_status m unknown_transaction
    call_object (some object) m request memory = do
      answer ← objects.transact object request memory
      payload ← answer_payload answer
      reply ← reply_message m payload
      queue_message alloc reply

    -- Its status is ignored, and the request's memory is as the translation leaves it.
    abbrev pub execute_translated : Message → FromMessage → Outcome → Act Client (Unit {0})
    execute_translated m request (result, memory, t) = do
      modify (λ c. record c { object_translator = t })
      c ← get
      call_object (find_object request.cookie c) m request memory

    unfoldable pub execute_transaction : Message → Act Client (Unit {0})
    execute_transaction m = do
      request ← lift (from_message m)
      c ← get
      outcome ← lift (process_transaction inward request m.body.bytes c.object_translator)
      execute_translated m request outcome

    abbrev pub tell : Message → Option (ℕ × ℕ) → Act Client (Unit {0})
    tell m none = send_status m dead_object
    tell m (some (at, proxy)) = do
      objects.send_obituary proxy
      erase_recipient at
      send_status m ok_status

    unfoldable pub execute_dead_binder : Message → Act Client (Unit {0})
    execute_dead_binder m = do
      (handle, r) ← lift (read_uint64 (get_reader m))
      (id, r') ← lift (read_uint64 r)
      c ← get
      tell m (dead_recipient objects id c.dead_recipients)

    abbrev pub execute : MessageType → Message → Act Client (Unit {0})
    execute transaction m = execute_transaction m
    execute dead_binder m = execute_dead_binder m
    execute _ m = pure tt

    abbrev pub process_first : Option Message × Client → Result Bool × Client
    process_first (none, c) = (ok false, c)
    process_first (some m, c) = proceed (execute m.kind m c) (λ _. pure true)

    -- `ProcessAndExecuteCommand`, where the queue is not empty or the client is to exit.
    unfoldable pub process_and_execute_command : Act Client Bool
    process_and_execute_command c = process_first (dequeue_message c)

    -- The message to the context object, on the strand. The client needs a context object. A reply
    -- that is missing is a null pointer that is used.
    abbrev pub context_payload : Status × Option TransactionData → Act Client TransactionData
    context_payload (ok_status, none) = lift undefined
    context_payload (ok_status, some reply) = pure reply
    context_payload (result, reply) = pure (transaction_status result)

    abbrev pub on_context : Option ℕ → Message → Act Client (Unit {0})
    on_context none m = lift undefined
    on_context (some object) m = do
      request ← lift (from_message m)
      answer ← objects.transact object request m.body.bytes
      payload ← context_payload answer
      reply ← reply_message m payload
      b ← lift (pack alloc reply)
      modify (write_bytes b.bytes)

    unfoldable pub handle_context_object_message : Message → Act Client (Unit {0})
    handle_context_object_message m = do
      c ← get
      if is_transaction m.kind then on_context c.context_obj m else pure tt

    abbrev pub run_task : Task → Act Client (Unit {0})
    run_task (finish cookie) = modify (finish_call cookie)
    run_task (handle_context m) = handle_context_object_message m

    abbrev pub run_first : List Task → Act Client (Unit {0})
    run_first [] = pure tt
    run_first (task ∷ tasks) = modify (λ c. record c { tasks = tasks }) >> run_task task

    -- The strand runs the task that was posted first.
    unfoldable pub run_next_task : Act Client (Unit {0})
    run_next_task = get >>= λ c. run_first c.tasks
