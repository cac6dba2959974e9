-- ===== src/Examples/Client.antt =====
-- The client's theorems on small clients.
use binderd.Common.{
  ℕ, ◌≡◌, ◌≢◌, refl, true, false, [], ◌∷◌, ◌++◌, arith, none, some, is_some, find, le_bytes, ok,
  err, future_error, runtime_error, List, ◌==◌, if◌then◌else◌,
}
use binderd.Common.Effects.{◌>>◌, pure, modify}
use binderd.Message.{
  Message, create_message, transaction, transaction_reply, status, acquire, set_context_mgr,
  type_code, type_of_code,
}
use binderd.Message.RoundTrip.{encode, unpacked}
use binderd.Reader.{read_value, advance}
use binderd.Parser.Runs.{buffer_of}
use binderd.Status.{Status, ok_status, dead_object, status_of_code, low_byte_status}
use binderd.Server.State.{World, start}
use binderd.Server.Lifecycle.{accept, on_read, read_next_message}
use binderd.Server.Output.Written.{wrote, status_message}
use binderd.Client.State.{Client, PendingCall, create_client}
use binderd.Client.Calls.{start_call, transact_message}
use binderd.Client.Incoming.{on_message, on_new_message, read_status}
use binderd.Client.Requests.{value_of}
use binderd.Client.Commands.{Objects, run_next_task}
use binderd.Client.Cookies.{started}
use binderd.Client.Cookies.Commands.{ObjectsKeep}
use binderd.Client.Cookies.Reachable.{Reach, start as begin, Reach-start_call, Reach-IsFresh}
use binderd.Client.Answers.{two_way_call, on_new_message-second_answer, settled}
use binderd.System.{request_is_answered}
use binderd.Objects.{
  RemoteObject, Environment, Held, sent, tell_all, same_recipients, send_obituary, link_to_death,
  unlink_to_death,
}
use binderd.Objects.Deaths.{send_obituary-once}
use binderd.Examples.Heap.{heap, heap-NeverFails}

-- Objects that answer nothing.
abbrev silent : Objects
silent = record {
  transact = λ object request memory. pure (ok_status, none);
  is_remote = λ object. true;
  send_obituary = λ object. pure tt;
}

silent-ObjectsKeep : ObjectsKeep silent
silent-ObjectsKeep = record { transacts = λ o request memory c h. h; obituaries = λ o c h. h }

abbrev connected_client : Client
connected_client = create_client true true

a_client-Reach : Reach heap silent connected_client
a_client-Reach = begin true true

abbrev a_request : Message
a_request = create_message set_context_mgr

Reach-start_call_example :
    (start_call a_request false connected_client ≡ (
      ok (
        record a_request { cookie = connected_client.next_cookie },
        connected_client.next_promise,
      ),
      started a_request false connected_client,
    ))
    × (find connected_client.next_cookie connected_client.pending_calls ≡ none)
    × ((k : ℕ) (call : PendingCall)
        → find k connected_client.pending_calls ≡ some call
        → call.promise ≢ connected_client.next_promise)
    × (is_some (find connected_client.next_promise connected_client.promises) ≡ false)
unfolding create_client
Reach-start_call_example =
    Reach-start_call heap silent silent-ObjectsKeep connected_client a_request false a_client-Reach
      (omega arith)

-- A client whose transaction waits for its reply.
abbrev a_waiting_call : PendingCall
a_waiting_call = record { promise = 0; msg_type = transaction; one_way = false }

abbrev waiting : Client
waiting = record connected_client {
  next_cookie = 2;
  pending_calls = (1, a_waiting_call) ∷ [];
  next_promise = 1;
}

abbrev a_notice : Message
a_notice = record (create_message status) {
  cookie = 1;
  body = record { bytes = le_bytes 4 0; immutable = false };
}

abbrev a_reply : Message
a_reply = record (create_message transaction_reply) {
  cookie = 1;
  body = record { bytes = 4 ∷ 2 ∷ []; immutable = false };
}

two_way_call_example :
    (d : Client) × ((on_message a_notice >> (on_message a_reply >> run_next_task heap silent))
        waiting
      ≡ (ok tt, d))
    × (value_of 0 d ≡ some a_reply)
    × (find 1 d.pending_calls ≡ none)
    × ((cookie : ℕ) → cookie ≢ 1 → find cookie d.pending_calls ≡ find cookie waiting.pending_calls)
unfolding find create_client read_status read_value advance le_bytes status_of_code
two_way_call_example =
    two_way_call heap silent a_waiting_call a_notice a_reply waiting refl refl refl refl refl refl
      refl refl refl

on_new_message-second_answer_example :
    (on_new_message (some (buffer_of (encode a_reply ++ encode a_reply))) waiting ≡ (
      err future_error,
      record (settled a_waiting_call (unpacked a_reply) waiting) { reading = false },
    ))
    × (value_of 0 (on_new_message (some (buffer_of (encode a_reply ++ encode a_reply))) waiting).1
        ≡ some (unpacked a_reply))
unfolding find create_client type_code type_of_code
on_new_message-second_answer_example =
    on_new_message-second_answer a_waiting_call a_reply a_reply waiting (omega arith) (omega arith)
      (record { waits = refl; not_log = refl }) (record { waits = refl; not_log = refl }) refl refl
      refl

-- A client that acquires a reference, at a server with one session.
abbrev an_acquire : Message
an_acquire = record (create_message acquire) {
  body = record { bytes = 1 ∷ 0 ∷ 0 ∷ 0 ∷ 0 ∷ 0 ∷ 0 ∷ 0 ∷ []; immutable = false };
}

abbrev one_session : World
one_session = (accept start).1

request_is_answered_example :
    (result : Status) × (v : World) × (d e : Client) × (transact_message heap an_acquire false
        connected_client
      ≡ (ok (some connected_client.next_promise), d))
    × (d.written
        ≡ connected_client.written
          ++ encode (record an_acquire { cookie = connected_client.next_cookie }) ∷ [])
    × (on_read heap 0
          (some (buffer_of (encode (record an_acquire { cookie = connected_client.next_cookie }))))
          one_session
        ≡ read_next_message 0 (wrote 0 (status_message connected_client.next_cookie result) v))
    × (on_new_message
          (some (buffer_of (encode (status_message connected_client.next_cookie result))))
          d
        ≡ (ok tt, e))
    × (answer : Message) × (value_of connected_client.next_promise e ≡ some answer)
    × (read_status answer ≡ ok (low_byte_status result))
unfolding create_client type_code
request_is_answered_example =
    request_is_answered heap heap-NeverFails 0 an_acquire connected_client one_session
      (Reach-IsFresh heap silent silent-ObjectsKeep a_client-Reach) (omega arith) refl refl refl
      (record {
        proper = tt;
        code = omega arith;
        destination = omega arith;
        cookie = omega arith;
        size = omega arith;
      })
      (
        omega arith,
        (
          omega arith,
          (
            omega arith,
            (omega arith, (omega arith, (omega arith, (omega arith, (omega arith, tt))))),
          ),
        ),
      )
      tt (omega arith)

-- Recipients that note who was told.
abbrev noting : Environment (Held (List ℕ))
noting = record {
  add_reference = λ handle. pure ok_status;
  release_reference = λ handle. pure ok_status;
  transact = λ handle request. pure (dead_object, none);
  request_death_notification = λ handle. pure ok_status;
  clear_death_notification = λ handle. pure ok_status;
  on_object_died = λ recipient. modify (λ h. record h { outside = h.outside ++ recipient ∷ [] });
}

-- The recipient 8 throws when it is told.
abbrev throwing : Environment (Held (List ℕ))
throwing = record noting {
  on_object_died = λ recipient h. (
    if recipient == 8 then err runtime_error else ok tt,
    record h { outside = h.outside ++ recipient ∷ [] },
  );
}

abbrev a_remote : RemoteObject
a_remote = record { handle = 3; releases = true; obituaries_sent = false; obituaries = 7 ∷ 8 ∷ [] }

abbrev held : List ℕ → Held (List ℕ)
held told = record { object = a_remote; outside = told }

all_told : send_obituary noting (held []) ≡ (ok tt, sent (held (7 ∷ 8 ∷ [])))
unfolding send_obituary tell_all same_recipients
all_told = refl

send_obituary-once_example :
    (send_obituary noting (sent (held (7 ∷ 8 ∷ []))) ≡ (ok tt, sent (held (7 ∷ 8 ∷ []))))
    × (link_to_death noting 9 (sent (held (7 ∷ 8 ∷ [])))
        ≡ (ok dead_object, sent (held (7 ∷ 8 ∷ []))))
    × (unlink_to_death noting 9 (sent (held (7 ∷ 8 ∷ [])))
        ≡ (ok dead_object, sent (held (7 ∷ 8 ∷ []))))
send_obituary-once_example =
    send_obituary-once noting 9 (held []) (sent (held (7 ∷ 8 ∷ []))) all_told
