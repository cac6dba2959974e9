-- ===== src/Client/Cookies/Reachable.antt =====
-- What a client can come to: its callers' requests, the messages of the server, its tasks and the
-- commands that it takes, in any order.
use binderd.Common.{
  ℕ, ◌+◌, ◌^◌, ◌<◌, ◌≡◌, Bool, true, false, Option, none, some, is_some, find, ok, [], ◌≢◌, arith,
}
use binderd.Buffer.{Allocator, Buffer}
use binderd.Message.{Message}
use binderd.Transaction.{TransactionData}
use binderd.Client.State.{
  Client, PendingCall, create_client, terminate_client, set_context_object, set_log_message_handler,
}
use binderd.Client.Calls.{start_call, transact_message}
use binderd.Client.Incoming.{on_new_message}
use binderd.Client.Requests.{begin_transact, end_transact}
use binderd.Client.Deaths.{begin_request_death_notification, begin_clear_death_notification}
use binderd.Client.Commands.{Objects, process_and_execute_command, run_next_task}
use binderd.Client.Cookies.{Fresh, IsFresh, unused_cookie, unused_promise, started, start_call_lem}
use binderd.Client.Cookies.Steps.{on_new_message-IsFresh, transact_message-IsFresh}
use binderd.Client.Cookies.Requests.{begin_transact-IsFresh, end_transact-IsFresh}
use binderd.Client.Cookies.Deaths.{
  begin_request_death_notification-IsFresh, begin_clear_death_notification-IsFresh,
}
use binderd.Client.Cookies.Commands.{
  ObjectsKeep, process_and_execute_command-IsFresh, run_next_task-IsFresh,
}

module _ (alloc : Allocator) (objects : Objects) where
  -- A call takes one cookie and `Transact` two; a step is taken where they are left.
  pub data Step : Client → Client → Type 0 where
    sends :
        {c : Client}
        → (m : Message) (one_way : Bool) → c.next_cookie + 1 < 2 ^ 64
        → Step c (transact_message alloc m one_way c).1
    transacts :
        {c : Client}
        → (handle : ℕ) (request : Option TransactionData) (wants_reply : Bool)
        → c.next_cookie + 2 < 2 ^ 64
        → Step c (begin_transact alloc handle request wants_reply c).1
    takes_reply :
        {c : Client} → (one_way : Bool) (m : Message) → Step c (end_transact one_way m c).1
    requests_death :
        {c : Client}
        → (handle proxy : ℕ) → c.next_cookie + 1 < 2 ^ 64
        → Step c (begin_request_death_notification alloc handle proxy c).1
    clears_death :
        {c : Client}
        → (handle proxy : ℕ) → c.next_cookie + 1 < 2 ^ 64
        → Step c (begin_clear_death_notification alloc handle proxy c).1
    receives : {c : Client} → (event : Option Buffer) → Step c (on_new_message event c).1
    runs_task : {c : Client} → Step c (run_next_task alloc objects c).1
    executes : {c : Client} → Step c (process_and_execute_command alloc objects c).1
    sets_context : {c : Client} → (object : Option ℕ) → Step c (set_context_object object c)
    sets_handler : {c : Client} → (present : Bool) → Step c (set_log_message_handler present c)
    terminates : {c : Client} → Step c (terminate_client c)

  pub data Reach : Client → Type 0 where
    start : (wanted succeeds : Bool) → Reach (create_client wanted succeeds)
    step : {c d : Client} → Reach c → Step c d → Reach d

  empty-Fresh : Fresh 0 [] 0 []
  unfolding find
  empty-Fresh = record {
    below = λ k a e. cc;
    named = λ k a e. cc;
    distinct = λ j k a b e f same. cc;
    promised = λ p e. cc;
  }

  create_client-IsFresh : (wanted succeeds : Bool) → IsFresh (create_client wanted succeeds)
  unfolding create_client
  create_client-IsFresh true true = empty-Fresh
  create_client-IsFresh true false = empty-Fresh
  create_client-IsFresh false true = empty-Fresh
  create_client-IsFresh false false = empty-Fresh

  module _ (keep : ObjectsKeep objects) where
    step-IsFresh : {c d : Client} → Step c d → IsFresh c → IsFresh d
    step-IsFresh (sends m one_way room) h = transact_message-IsFresh alloc m one_way _ h room
    step-IsFresh (transacts handle request wants_reply room) h =
        begin_transact-IsFresh alloc handle request wants_reply _ (h, room)
    step-IsFresh (takes_reply one_way m) h = end_transact-IsFresh one_way m _ h
    step-IsFresh (requests_death handle proxy room) h =
        begin_request_death_notification-IsFresh alloc handle proxy _ (h, room)
    step-IsFresh (clears_death handle proxy room) h =
        begin_clear_death_notification-IsFresh alloc handle proxy _ (h, room)
    step-IsFresh (receives event) h = on_new_message-IsFresh event _ h
    step-IsFresh runs_task h = run_next_task-IsFresh alloc objects keep _ h
    step-IsFresh executes h = process_and_execute_command-IsFresh alloc objects keep _ h
    step-IsFresh (sets_context object) h = h
    step-IsFresh (sets_handler present) h = h
    step-IsFresh terminates h = h

    pub Reach-IsFresh : {c : Client} → Reach c → IsFresh c
    Reach-IsFresh (start wanted succeeds) = create_client-IsFresh wanted succeeds
    Reach-IsFresh (step r s) = step-IsFresh s (Reach-IsFresh r)

    -- In every client that its steps lead to from the constructor, where the objects that it calls keep
    -- its calls apart and cookies are left, `StartCall` does not throw: the message gets a cookie that
    -- no waiting call has, and a promise that no waiting call has and that is not set.
    pub Reach-start_call :
        (c : Client) (m : Message) (one_way : Bool)
        → Reach c
        → c.next_cookie + 1 < 2 ^ 64
        → (start_call m one_way c
            ≡ (ok (record m { cookie = c.next_cookie }, c.next_promise), started m one_way c))
          × (find c.next_cookie c.pending_calls ≡ none)
          × ((k : ℕ) (call : PendingCall)
              → find k c.pending_calls ≡ some call
              → call.promise ≢ c.next_promise)
          × (is_some (find c.next_promise c.promises) ≡ false)
    Reach-start_call c m one_way r room =
        let h = Reach-IsFresh r in
        (
          start_call_lem m one_way c h room,
          unused_cookie c h,
          λ k call there same. omega (arith, h.named k call there, same),
          unused_promise c h,
        )
