-- ===== src/Server/State.antt =====
-- The server's state: src/binderd/registry.h, server_session.h and sessions.h. Shared pointers to
-- sessions are session ids; a session object lives on after it left the map of open sessions, as
-- the registry and pending transactions keep it. An operation takes the state, and gives its
-- result or exception and the state that it left: what was done before an exception stays done.
pub mod Keeps
use binderd.Common.{
  ℕ, suc, ◌+◌, ◌%◌, ◌^◌, Bool, true, false, List, [], ◌∷◌, ◌++◌, ◌==◌, if◌then◌else◌, Option, none,
  some, Bytes, Map, Result, ok, err, undefined, Exception,
}
use binderd.Message.{Message}

pub record TransactionRecord : Type 0 where
  pub caller : ℕ
  pub reply_cookie : ℕ
  pub message : Message

pub record BinderObject : Type 0 where
  pub binder : ℕ
  pub cookie : ℕ

-- `written` is what the session handed to its messenger, oldest first; `closed` that the messenger
-- was told to close; `reading` that a `ReadMessageAsync` is under way.
pub record Session : Type 0 where
  pub next_transaction_cookie : ℕ
  pub pending_transactions : Map TransactionRecord
  pub objects : Map BinderObject
  pub death_notifications : Map ℕ
  pub written : List Bytes
  pub closed : Bool
  pub reading : Bool

pub record Registry : Type 0 where
  pub context_mgr : Option ℕ
  pub monitor : Option ℕ
  pub next_object_handle : ℕ
  pub handles : Map ℕ
  pub references : Map (List ℕ)

pub record World : Type 0 where
  pub registry : Registry
  pub sessions : ℕ → Session
  pub open_sessions : List ℕ
  pub next_session_id : ℕ

abbrev pub M : Type 0 → Type 0
M A = World → Result A × World

abbrev pub continue_with : {A B : Type 0} → Result A × World → (A → M B) → Result B × World
continue_with (ok a, w) f = f a w
continue_with (err e, w) f = (err e, w)
continue_with (undefined, w) f = (undefined, w)

infixl 5 ◌>>=◌ ◌>>◌
abbrev pub ◌>>=◌ : {A B : Type 0} → M A → (A → M B) → M B
◌>>=◌ m f w = continue_with (m w) f

abbrev pub ◌>>◌ : {B : Type 0} → M (Unit {0}) → M B → M B
◌>>◌ m k w = continue_with (m w) (λ _. k)

abbrev pub pure : {A : Type 0} → A → M A
pure a w = (ok a, w)

abbrev pub lift : {A : Type 0} → Result A → M A
lift r w = (r, w)

-- `try { m } catch (std::out_of_range&) { k } catch (std::exception&) { l }`
abbrev pub handled :
    Result (Unit {0}) × World → M (Unit {0}) → M (Unit {0}) → Result (Unit {0}) × World
handled (ok a, w) k l = (ok a, w)
handled (err Exception.out_of_range, w) k l = k w
handled (err Exception.runtime_error, w) k l = l w
handled (err Exception.future_error, w) k l = l w
handled (undefined, w) k l = (undefined, w)

abbrev pub try_catch : M (Unit {0}) → M (Unit {0}) → M (Unit {0}) → M (Unit {0})
try_catch m k l w = handled (m w) k l

abbrev pub get_session : ℕ → M Session
get_session s w = (ok (w.sessions s), w)

abbrev pub update : (ℕ → Session) → ℕ → Session → ℕ → Session
update sessions s v t = if s == t then v else sessions t

-- The world with one session changed.
abbrev pub with_session : ℕ → (Session → Session) → World → World
with_session s f w = record w { sessions = update w.sessions s (f (w.sessions s)) }

abbrev pub modify_session : ℕ → (Session → Session) → M (Unit {0})
modify_session s f w = (ok tt, with_session s f w)

abbrev pub get_registry : M Registry
get_registry w = (ok w.registry, w)

abbrev pub modify_registry : (Registry → Registry) → M (Unit {0})
modify_registry f w = (ok tt, record w { registry = f w.registry })

-- The counters are uint64_t.
abbrev pub next_u64 : ℕ → ℕ
next_u64 n = (n + 1) % 2 ^ 64

abbrev pub no_session : Session
no_session = record {
  next_transaction_cookie = 0;
  pending_transactions = [];
  objects = [];
  death_notifications = [];
  written = [];
  closed = false;
  reading = false;
}

-- `Registry::Registry` and a server that has accepted nobody.
abbrev pub start : World
start = record {
  registry = record {
    context_mgr = none;
    monitor = none;
    next_object_handle = 1;
    handles = [];
    references = [];
  };
  sessions = λ s. no_session;
  open_sessions = [];
  next_session_id = 0;
}
