-- ===== src/Client/Requests.antt =====
-- The client's requests to the server. Each has two halves, as the caller waits in between: up to
-- the wait for the promise, and from the message that the promise got.
use binderd.Common.{
  ◌+◌, ◌%◌, ◌/◌, ◌^◌, ◌-◌, ◌==◌, ℕ, Bool, true, false, ◌&&◌, not, if◌then◌else◌, Option, none, some,
  find, Bytes, undefined,
}
use binderd.Common.Effects.{Act, ◌>>=◌, ◌>>◌, pure, lift, get, modify}
use binderd.Buffer.{Allocator}
use binderd.Writer.{Writer, write_uint64, write_data}
use binderd.Message.{
  Message, MessageType, create_message, transaction, transaction_reply, acquire, release,
  set_context_mgr, set_monitor,
}
use binderd.Message.Wire.{get_writer}
use binderd.Status.{dead_object, Status, ok_status, bad_value, unknown_error, failed_transaction}
use binderd.Transaction.{TransactionData, FromMessage, pack, from_message, has_status, get_status}
use binderd.Translator.{inward, outward, process_request, process_transaction, Outcome}
use binderd.Client.State.{Client}
use binderd.Client.Calls.{transact_message, new_cookie}
use binderd.Client.Incoming.{is_status, read_status}

-- A call has its status at once, or waits for a promise.
pub data Waiting : Type 0 where
  answered : Status → Waiting
  awaits : ℕ → Waiting

-- `status` where `Transact` returned the null pointer.
abbrev pub or_status : Status → Option ℕ → Waiting
or_status result none = answered result
or_status result (some promise) = awaits promise

-- The message that the promise got.
abbrev pub value_of : ℕ → Client → Option Message
value_of promise c = find promise c.promises

abbrev pub with_writer : Message → Writer → Message
with_writer m w = record m { body = w.buffer }

abbrev pub is_reply : MessageType → Bool
is_reply transaction_reply = true
is_reply _ = false

-- What `Transact` gives its caller: the status, and the reply with the memory that it is in.
abbrev pub Reply : Type 0
Reply = Status × Option (FromMessage × Bytes)

-- The translator, and the reply's memory, as the translation left them; its status is ignored.
abbrev pub translated_reply : FromMessage → Outcome → Act Client Reply
translated_reply reply (result, memory, t) =
    modify (λ c. record c { object_translator = t }) >> pure (ok_status, some (reply, memory))

-- The status is read from the front of the data, which is a null pointer if it is empty.
abbrev pub status_of : FromMessage → Bytes → Act Client Reply
status_of reply memory =
    if reply.data_size == 0 then lift undefined else pure (get_status reply memory, none)

abbrev pub reply_of : FromMessage → Bytes → Act Client Reply
reply_of reply memory = do
  c ← get
  if has_status reply
      then status_of reply memory
      else (lift (process_transaction inward reply memory c.object_translator)
          >>= translated_reply reply)

abbrev pub status_only : Status → Act Client Reply
status_only result = pure (result, none)

-- `Transact` from the message that it got.
unfoldable pub end_transact : Bool → Message → Act Client Reply
end_transact one_way m =
    if one_way && is_status m.kind
    then (lift (read_status m) >>= status_only)
    else if is_reply m.kind
    then (lift (from_message m) >>= λ reply. reply_of reply m.body.bytes)
    else status_only bad_value

-- `Transact` takes the handle as an int32_t, which becomes a 64-bit destination with its sign.
abbrev pub destination_of : ℕ → ℕ
destination_of handle =
    let word = handle % 2 ^ 32 in if word / 2 ^ 31 == 0 then word else word + (2 ^ 64 - 2 ^ 32)

module _ (alloc : Allocator) where
  unfoldable pub begin_request : Status → Message → Act Client Waiting
  begin_request if_null m = transact_message alloc m false >>= λ p. pure (or_status if_null p)

  unfoldable pub begin_add_reference : ℕ → Act Client Waiting
  begin_add_reference handle = do
    w ← lift (write_uint64 alloc handle (get_writer (create_message acquire)))
    begin_request failed_transaction (with_writer (create_message acquire) w)

  unfoldable pub begin_release_reference : ℕ → Act Client Waiting
  begin_release_reference handle = do
    w ← lift (write_uint64 alloc handle (get_writer (create_message release)))
    begin_request failed_transaction (with_writer (create_message release) w)

  -- `GetReleaseReferenceClosure`, called while the client lives or later.
  abbrev pub begin_release_closure : Bool → ℕ → Act Client Waiting
  begin_release_closure alive handle =
      if alive then begin_release_reference handle else pure (answered dead_object)

  abbrev pub begin_become_context_manager : Act Client Waiting
  begin_become_context_manager = begin_request unknown_error (create_message set_context_mgr)

  abbrev pub begin_become_monitor : Act Client Waiting
  begin_become_monitor = begin_request unknown_error (create_message set_monitor)

  -- The request as the translation left it; its status is ignored.
  abbrev pub send_translated : ℕ → ℕ → TransactionData → Outcome → Act Client Waiting
  send_translated handle cookie request (result, memory, t) = do
    modify (λ c. record c { object_translator = t })
    let m = record (create_message transaction) {
      destination = destination_of handle;
      cookie = cookie;
    }
    packed ← lift (pack alloc (record request { body = memory }))
    w ← lift (write_data alloc packed.bytes (get_writer m))
    p ← transact_message alloc (with_writer m w) request.is_one_way
    pure (or_status failed_transaction p)

  -- `Transact` of a request; `wants_reply` says whether the caller passed a place for the reply.
  unfoldable pub begin_transact : ℕ → Option TransactionData → Bool → Act Client Waiting
  unfolding new_cookie
  begin_transact handle none wants_reply = pure (answered bad_value)
  begin_transact handle (some request) wants_reply =
      if not request.is_one_way && not wants_reply then pure (answered bad_value) else (do
        cookie ← new_cookie
        c ← get
        outcome ← lift (process_request outward request c.object_translator)
        send_translated handle cookie request outcome)
