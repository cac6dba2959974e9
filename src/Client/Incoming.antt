-- ===== src/Client/Incoming.antt =====
-- `OnNewMessage`: what the client does with the messages of a buffer that was read.
use binderd.Common.{
  ℕ, zero, suc, Bool, true, false, ◌&&◌, not, if◌then◌else◌, [], ◌∷◌, ◌++◌, Option, none, some,
  is_some, find, insert, length, Result, ok, err, undefined, future_error,
}
use binderd.Common.Effects.{Act, ◌>>=◌, ◌>>◌, pure, lift, get, modify}
use binderd.Buffer.{Buffer}
use binderd.Reader.{Reader, read_int32, read_sized_data}
use binderd.Message.{Message, MessageType, transaction, log_entry, status}
use binderd.Message.Wire.{get_reader, create_from_data}
use binderd.Parser.{Parser, open_parser, next}
use binderd.Status.{Status, ok_status, status_of_code}
use binderd.Client.State.{Client, PendingCall, finish, handle_context, terminate_client}

abbrev pub is_log_entry : MessageType → Bool
is_log_entry log_entry = true
is_log_entry _ = false

abbrev pub is_status : MessageType → Bool
is_status status = true
is_status _ = false

abbrev pub is_transaction : MessageType → Bool
is_transaction transaction = true
is_transaction _ = false

abbrev pub is_ok : Status → Bool
is_ok ok_status = true
is_ok _ = false

abbrev pub status_in : Result (ℕ × Reader) → Result Status
status_in (ok (word, r)) = ok (status_of_code word)
status_in (err e) = err e
status_in undefined = undefined

-- `static_cast<Status>(reader.ReadInt32())` of a message's body.
unfoldable pub read_status : Message → Result Status
read_status m = status_in (read_int32 (get_reader m))

-- A message that the server logged.
unfoldable pub on_log_entry : Message → Act Client (Unit {0})
on_log_entry m = do
  c ← get
  if c.has_log_handler
      then (do
        (buffer, r) ← lift (read_sized_data (get_reader m))
        real_msg ← lift (create_from_data buffer 0)
        modify (λ d. record d { logged = d.logged ++ real_msg ∷ [] }))
      else pure tt

-- `promise->set_value(msg)`, and the end of the call posted to the strand.
abbrev pub set_value : ℕ → Message → Act Client (Unit {0})
set_value promise m = do
  c ← get
  if is_some (find promise c.promises)
      then lift (err future_error)
      else modify (λ d. record d {
        promises = insert promise m d.promises;
        tasks = d.tasks ++ finish m.cookie ∷ [];
      })

-- The server's word that a transaction was delivered does not end the call.
abbrev pub unless_delivered : Status → PendingCall → Message → Act Client (Unit {0})
unless_delivered result call m = if is_ok result then pure tt else set_value call.promise m

unfoldable pub answer_call : PendingCall → Message → Act Client (Unit {0})
answer_call call m =
    if is_status m.kind && (is_transaction call.msg_type && not call.one_way)
    then (lift (read_status m) >>= λ result. unless_delivered result call m)
    else set_value call.promise m

abbrev pub queue_incoming : Message → Client → Client
queue_incoming m c =
    if is_transaction m.kind && is_some c.context_obj
    then record c { tasks = c.tasks ++ handle_context m ∷ [] }
    else record c { in_messages = c.in_messages ++ m ∷ [] }

abbrev pub route : Option PendingCall → Message → Act Client (Unit {0})
route (some call) m = answer_call call m
route none m = modify (queue_incoming m)

-- One round of the loop.
unfoldable pub on_message : Message → Act Client (Unit {0})
on_message m = do
  c ← get
  if is_log_entry m.kind then on_log_entry m else route (find m.cookie c.pending_calls) m

abbrev pub read_round :
    Result (Option Message × Parser) → (Parser → Act Client (Unit {0})) → Act Client (Unit {0})
read_round (ok (none, p)) rest = pure tt
read_round (ok (some m, p)) rest = on_message m >> rest p
read_round (err e) rest = lift (err e)
read_round undefined rest = lift undefined

-- The loop, on fuel.
unfoldable pub read_loop : ℕ → Parser → Act Client (Unit {0})
read_loop zero p = lift undefined
read_loop (suc fuel) p = read_round (next p) (read_loop fuel)

-- The handler of `ReadMessageAsync`: an error, or a buffer.
unfoldable pub on_new_message : Option Buffer → Act Client (Unit {0})
on_new_message none = modify (λ c. terminate_client (record c { reading = false }))
on_new_message (some b) = do
  modify (λ c. record c { reading = false })
  read_loop (suc (length b.bytes)) (open_parser b (length b.bytes))
  modify (λ c. record c { reading = true })
