-- ===== src/Examples/Loops.antt =====
-- A failed call and death notices at work.
use binderd.Common.{
  replicate, ◌++◌, undefined, le_value, List, ◌∷◌, ◌^◌, arith, ◌≡◌, refl, true, false, [], none,
  some, ok,
}
use binderd.Common.Effects.{pure}
use binderd.Message.{Message, create_message, transaction}
use binderd.Message.RoundTrip.{encode, received}
use binderd.Status.{ok_status, bad_value}
use binderd.Server.Handlers.{on_transaction, transact}
use binderd.Server.Lifecycle.{accept}
use binderd.Server.State.{start}
use binderd.Server.Translate.{translate_objects}
use binderd.Reader.{read_value, advance, read_data, read_sized_data}
use binderd.Writer.{padded_size}
use binderd.Transaction.{from_message, FromMessage}
use binderd.Client.State.{Client, create_client}
use binderd.Client.Calls.{write_bytes}
use binderd.Client.Requests.{end_transact}
use binderd.Client.Commands.{Objects, call_object}
use binderd.System.Statuses.{status_answer, call_object-status}
use binderd.Client.State.{DeadRecipient}
use binderd.Client.Deaths.{add_recipient, remove_recipient, find_recipient}
use binderd.Client.Deaths.Recipients.{remove_recipient-add_recipient, find_recipient_lost}
use binderd.Server.Output.Written.{dead_binder_message}
use binderd.Examples.Heap.{heap, heap-NeverFails}

abbrev a_client : Client
a_client = create_client true true

-- An object that refuses everything.
abbrev refusing : Objects
refusing = record {
  transact = λ object request memory. pure (bad_value, none);
  is_remote = λ object. false;
  send_obituary = λ object. pure tt;
}

abbrev a_call : Message
a_call = record (create_message transaction) { cookie = 5 }

abbrev a_request : FromMessage
a_request = record {
  binder = 0;
  cookie = 0;
  code = 5;
  flags = 0x10;
  data_at = 28;
  data_size = 2;
  objects_at = 34;
  objects_size = 0;
}

call_object-status_example :
    (call_object heap refusing (some 7) a_call a_request [] a_client
      ≡ (ok tt, write_bytes (encode (status_answer 5 bad_value)) a_client))
    × (end_transact false (received (status_answer 9 bad_value)) a_client
        ≡ (ok (bad_value, none), a_client))
unfolding create_client
call_object-status_example =
    call_object-status heap heap-NeverFails refusing 7 a_call a_request [] bad_value none a_client
      a_client a_client 9 refl (λ e. cc) tt refl refl

abbrev some_recipients : List DeadRecipient
some_recipients = record { id = 1; proxy = 0x1000; handles = 4 ∷ [] } ∷ []

remove_recipient-add_recipient_example :
    remove_recipient 1 5 (add_recipient 1 0x1000 5 some_recipients) ≡ some_recipients
remove_recipient-add_recipient_example =
    remove_recipient-add_recipient 1 0x1000 5 some_recipients (omega arith)
      ((λ e. cc, λ e. (omega arith, tt)), tt)

find_recipient_lost_example :
    find_recipient (2 ^ 31) (add_recipient (2 ^ 31) 0x2000 5 some_recipients) ≡ none
find_recipient_lost_example =
    find_recipient_lost (2 ^ 31) 0x2000 5 some_recipients (omega arith) (omega arith)
      (omega arith, tt)

-- An object that is remote and takes its obituary.
abbrev mortal : Objects
mortal = record {
  transact = λ object request memory. pure (ok_status, none);
  is_remote = λ object. true;
  send_obituary = λ object. pure tt;
}

abbrev told_client : Client
told_client = record a_client {
  in_messages = received (dead_binder_message 4 1) ∷ [];
  dead_recipients = some_recipients;
}

-- A transaction with empty data and an object offset: the object would be read from a null pointer.
abbrev a_null_object : Message
a_null_object = record (create_message transaction) {
  cookie = 4;
  body = record { bytes = replicate 28 0 ++ 8 ∷ 0 ∷ 0 ∷ 0 ∷ replicate 20 0; immutable = false };
}

null_object : (on_transaction heap 0 a_null_object (accept start).1).0 ≡ undefined
unfolding accept on_transaction transact from_message translate_objects read_value advance read_data
    read_sized_data padded_size le_value
null_object = refl
