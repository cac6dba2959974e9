-- ===== src/Client/Calls.antt =====
-- Calls that wait for an answer: `StartCall`, `FinishCall`, `QueueMessage`, `DequeueMessage`, and
-- `Transact` up to its wait for the promise.
use binderd.Common.{
  ℕ, ◌+◌, Bool, List, [], ◌∷◌, ◌++◌, ◌||◌, not, if◌then◌else◌, Option, none, some, is_some, find,
  insert, erase, Bytes, ok, err, runtime_error,
}
use binderd.Common.Effects.{Act, ◌>>=◌, ◌>>◌, pure, lift, get, modify}
use binderd.Buffer.{Allocator}
use binderd.Message.{Message}
use binderd.Message.Wire.{pack}
use binderd.Server.State.{next_u64}
use binderd.Client.State.{Client}

-- `NewCookie`
unfoldable pub new_cookie : Act Client ℕ
new_cookie c = (ok c.next_cookie, record c { next_cookie = next_u64 c.next_cookie })

-- A new promise, and the call that waits for it.
abbrev pub with_call : Message → Bool → Client → Client
with_call m one_way c = record c {
  pending_calls =
      insert m.cookie (record { promise = c.next_promise; msg_type = m.kind; one_way = one_way })
        c.pending_calls;
  next_promise = c.next_promise + 1;
}

-- The message with its new cookie, and the promise of the answer.
unfoldable pub start_call : Message → Bool → Act Client (Message × ℕ)
unfolding new_cookie
start_call m one_way = do
  cookie ← new_cookie
  c ← get
  if is_some (find cookie c.pending_calls)
      then lift (err runtime_error)
      else (modify (with_call (record m { cookie = cookie }) one_way)
          >> pure (record m { cookie = cookie }, c.next_promise))

unfoldable pub finish_call : ℕ → Client → Client
finish_call cookie c = record c { pending_calls = erase cookie c.pending_calls }

-- `messenger_->WriteData`
abbrev pub write_bytes : Bytes → Client → Client
write_bytes b c = record c { written = c.written ++ b ∷ [] }

abbrev pub first_message : List Message → Client → Option Message × Client
first_message [] c = (none, c)
first_message (m ∷ ms) c = (some m, record c { in_messages = ms })

-- `in_messages_.front()`, `none` where the caller has to wait or is told to leave.
unfoldable pub dequeue_message : Client → Option Message × Client
dequeue_message c = if c.should_exit then (none, c) else first_message c.in_messages c

module _ (alloc : Allocator) where
  unfoldable pub queue_message : Message → Act Client (Unit {0})
  queue_message m = do
    c ← get
    if c.should_exit || not c.running
        then lift (err runtime_error)
        else (lift (pack alloc m) >>= λ b. modify (write_bytes b.bytes))

  -- `Transact` of a message: the promise that it waits for, `none` where it is not connected.
  unfoldable pub transact_message : Message → Bool → Act Client (Option ℕ)
  unfolding start_call queue_message
  transact_message m one_way = do
    c ← get
    if c.connected
        then (do (sent, promise) ← start_call m one_way; queue_message sent; pure (some promise))
        else pure none
