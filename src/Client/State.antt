-- ===== src/Client/State.antt =====
-- The client's state: src/binderd/client_impl.h. A promise is named by a number, and `promises`
-- holds the values that were set; threads that wait for one hold it beyond the call. `tasks` is what
-- was posted to the strand and has not run yet. Objects are named by their addresses.
use binderd.Common.{ℕ, Bool, true, false, List, [], Option, none, Bytes, Map, if◌then◌else◌}
use binderd.Message.{Message, MessageType}
use binderd.Pool.{Pool, empty_pool}
use binderd.Translator.{Translator, new_translator}

pub data Task : Type 0 where
  finish : ℕ → Task
  handle_context : Message → Task

pub record PendingCall : Type 0 where
  pub promise : ℕ
  pub msg_type : MessageType
  pub one_way : Bool

pub record DeadRecipient : Type 0 where
  pub id : ℕ
  pub proxy : ℕ
  pub handles : List ℕ

-- `closed` says that the messenger was told to close, `stopped` that the io service was told to stop,
-- `reading` that a `ReadMessageAsync` is under way; `written` is what the messenger was given,
-- oldest first; `logged` what the log handler was given.
pub record Client : Type 0 where
  pub connected : Bool
  pub running : Bool
  pub should_exit : Bool
  pub closed : Bool
  pub stopped : Bool
  pub reading : Bool
  pub next_cookie : ℕ
  pub pending_calls : Map PendingCall
  pub next_promise : ℕ
  pub promises : Map Message
  pub in_messages : List Message
  pub tasks : List Task
  pub context_obj : Option ℕ
  pub has_log_handler : Bool
  pub logged : List Message
  pub object_pool : Pool
  pub object_translator : Translator
  pub dead_recipients : List DeadRecipient
  pub written : List Bytes

abbrev pub unconnected : Client
unconnected = record {
  connected = false;
  running = false;
  should_exit = false;
  closed = false;
  stopped = false;
  reading = false;
  next_cookie = 0;
  pending_calls = [];
  next_promise = 0;
  promises = [];
  in_messages = [];
  tasks = [];
  context_obj = none;
  has_log_handler = false;
  logged = [];
  object_pool = empty_pool;
  object_translator = new_translator;
  dead_recipients = [];
  written = [];
}

-- `Connect`, where the socket could be connected or not.
abbrev pub connect : Bool → Client → Client
connect succeeds c = if succeeds then record c { connected = true; reading = true } else c

-- The constructor: whether to connect, and whether the socket could be.
unfoldable pub create_client : Bool → Bool → Client
create_client wanted succeeds =
    if wanted then record (connect succeeds unconnected) { running = true } else unconnected

-- `Terminate`: those that wait for a message are woken up.
abbrev pub terminate_client : Client → Client
terminate_client c = record c { should_exit = true; closed = true; stopped = true }

abbrev pub set_context_object : Option ℕ → Client → Client
set_context_object object c = record c { context_obj = object }

abbrev pub set_log_message_handler : Bool → Client → Client
set_log_message_handler present c = record c { has_log_handler = present }
