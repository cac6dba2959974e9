-- ===== src/Client/Cookies/Steps.antt =====
-- Every operation of the client keeps its calls apart.
use binderd.Common.{
  ℕ, zero, suc, ◌+◌, ◌^◌, ◌<◌, ◌≡◌, refl, Bool, true, false, ◌&&◌, ◌||◌, not, if◌then◌else◌, Option,
  none, some, is_some, find, insert, [], ◌∷◌, ◌++◌, Result, ok, err, undefined, future_error,
  runtime_error, length,
}
use binderd.Common.Effects.{
  Act, ◌>>=◌, ◌>>◌, pure, lift, modify, Keeps, proceed-Keeps, if-Keeps, lift-Keeps,
}
use binderd.Buffer.{Allocator, Buffer}
use binderd.Reader.{read_sized_data}
use binderd.Message.{Message}
use binderd.Message.Wire.{get_reader, create_from_data, pack}
use binderd.Parser.{Parser, open_parser, next}
use binderd.Status.{Status, ok_status}
use binderd.Client.State.{Client, PendingCall, finish, handle_context}
use binderd.Client.Calls.{start_call, queue_message, transact_message, write_bytes}
use binderd.Client.Incoming.{
  on_message, on_log_entry, route, answer_call, set_value, unless_delivered, read_round, read_loop,
  on_new_message, is_status, is_transaction, is_log_entry, read_status,
}
use binderd.Client.Cookies.{IsFresh, start_call_lem, started-IsFresh, set_promise-IsFresh}

module _ (alloc : Allocator) where
  pub queue_message-IsFresh : (m : Message) → Keeps IsFresh (queue_message alloc m)
  unfolding queue_message
  queue_message-IsFresh m c h =
      if-Keeps IsFresh (c.should_exit || not c.running) (lift (err runtime_error))
        (lift (pack alloc m) >>= λ b. modify (write_bytes b.bytes)) (λ d k. k)
        (lift-Keeps IsFresh (pack alloc m) (λ b. modify (write_bytes b.bytes)) (λ b d k. k)) c h

  pub transact_message-IsFresh :
      (m : Message) (one_way : Bool) (c : Client)
      → IsFresh c
      → c.next_cookie + 1 < 2 ^ 64
      → IsFresh (transact_message alloc m one_way c).1
  unfolding transact_message
  transact_message-IsFresh m one_way c h room = choose c.connected
    where
      sends : Act Client (Option ℕ)
      sends = start_call m one_way >>= λ (sent, promise).
          queue_message alloc sent >> pure (some promise)

      fresh : IsFresh (sends c).1
      fresh =
          proceed-Keeps IsFresh (start_call m one_way c)
            (λ (sent, promise). queue_message alloc sent >> pure (some promise))
            (rw (start_call_lem m one_way c h room) (started-IsFresh m one_way c h))
            (λ (sent, promise) d k.
              proceed-Keeps IsFresh (queue_message alloc sent d) (λ _. pure (some promise))
                (queue_message-IsFresh sent d k) (λ _ e j. j))

      choose : (connected : Bool) → IsFresh ((if connected then sends else pure none) c).1
      choose true = fresh
      choose false = h

-- What a message of the server changes, at the call that waits for it, or none.
set_value-IsFresh :
    (promise : ℕ) (m : Message) (c : Client)
    → promise < c.next_promise
    → IsFresh c
    → IsFresh (set_value promise m c).1
set_value-IsFresh promise m c lt h = choose (is_some (find promise c.promises))
  where
    sets : Act Client (Unit {0})
    sets = modify (λ d. record d {
      promises = insert promise m d.promises;
      tasks = d.tasks ++ finish m.cookie ∷ [];
    })

    choose : (there : Bool) → IsFresh ((if there then lift (err future_error) else sets) c).1
    choose true = h
    choose false =
        set_promise-IsFresh promise m c.next_cookie c.next_promise c.pending_calls c.promises lt h

answer_call-IsFresh :
    (call : PendingCall) (m : Message) (c : Client)
    → call.promise < c.next_promise
    → IsFresh c
    → IsFresh (answer_call call m c).1
unfolding answer_call
answer_call-IsFresh call m c lt h =
    choose (is_status m.kind && (is_transaction call.msg_type && not call.one_way)) (read_status m)
  where
    unless_ok : (result : Status) → IsFresh (unless_delivered result call m c).1
    unless_ok ok_status = h
    unless_ok _ = set_value-IsFresh call.promise m c lt h

    choose :
        (acknowledged : Bool) (result : Result Status)
        → IsFresh
            ((if acknowledged
                then (lift result >>= λ r. unless_delivered r call m)
                else set_value call.promise m)
              c).1
    choose false result = set_value-IsFresh call.promise m c lt h
    choose true (ok result) = unless_ok result
    choose true (err e) = h
    choose true undefined = h

on_log_entry-IsFresh : (m : Message) → Keeps IsFresh (on_log_entry m)
unfolding on_log_entry
on_log_entry-IsFresh m c h =
    if-Keeps IsFresh c.has_log_handler _ (pure tt)
      (lift-Keeps IsFresh (read_sized_data (get_reader m))
        (λ (buffer, r). lift (create_from_data buffer 0) >>= λ real.
          modify (λ d. record d { logged = d.logged ++ real ∷ [] }))
        (λ (buffer, r).
          lift-Keeps IsFresh (create_from_data buffer 0)
            (λ real. modify (λ d. record d { logged = d.logged ++ real ∷ [] })) (λ real d k. k)))
      (λ d k. k) c h

pub on_message-IsFresh : (m : Message) → Keeps IsFresh (on_message m)
unfolding on_message
on_message-IsFresh m c h = choose (is_log_entry m.kind)
  where
    routed : (o : Option PendingCall) → find m.cookie c.pending_calls ≡ o → IsFresh (route o m c).1
    routed (some call) e = answer_call-IsFresh call m c (h.named m.cookie call e) h
    routed none e = if-fresh (is_transaction m.kind && is_some c.context_obj)
      where
        if-fresh :
            (b : Bool)
            → IsFresh (
                if b
                then record c { tasks = c.tasks ++ handle_context m ∷ [] }
                else record c { in_messages = c.in_messages ++ m ∷ [] })
        if-fresh true = h
        if-fresh false = h

    choose :
        (b : Bool)
        → IsFresh ((if b then on_log_entry m else route (find m.cookie c.pending_calls) m) c).1
    choose true = on_log_entry-IsFresh m c h
    choose false = routed (find m.cookie c.pending_calls) refl

read_round-IsFresh :
    (found : Result (Option Message × Parser)) (rest : Parser → Act Client (Unit {0}))
    → ((p : Parser) → Keeps IsFresh (rest p))
    → Keeps IsFresh (read_round found rest)
read_round-IsFresh (ok (none, p)) rest keeps c h = h
read_round-IsFresh (ok (some m, p)) rest keeps c h =
    proceed-Keeps IsFresh (on_message m c) (λ _. rest p) (on_message-IsFresh m c h) (λ _. keeps p)
read_round-IsFresh (err e) rest keeps c h = h
read_round-IsFresh undefined rest keeps c h = h

read_loop-IsFresh : (fuel : ℕ) (p : Parser) → Keeps IsFresh (read_loop fuel p)
unfolding read_loop
read_loop-IsFresh zero p c h = h
read_loop-IsFresh (suc fuel) p c h =
    read_round-IsFresh (next p) (read_loop fuel) (read_loop-IsFresh fuel) c h

pub on_new_message-IsFresh : (event : Option Buffer) → Keeps IsFresh (on_new_message event)
unfolding on_new_message
on_new_message-IsFresh none c h = h
on_new_message-IsFresh (some b) c h =
    proceed-Keeps IsFresh
      (read_loop (suc (length b.bytes)) (open_parser b (length b.bytes))
        (record c { reading = false }))
      (λ _. modify (λ d. record d { reading = true }))
      (read_loop-IsFresh (suc (length b.bytes)) (open_parser b (length b.bytes))
        (record c { reading = false }) h)
      (λ _ d k. k)
