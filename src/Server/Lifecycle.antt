-- ===== src/Server/Lifecycle.antt =====
-- The life of a session: `ReadNextMessage` and `Terminate` of src/binderd/server_session.cpp,
-- src/binderd/sessions.h and `StartAccept` of server_impl.cpp.
pub mod Ends
pub mod Loop
use binderd.Common.{
  ℕ, zero, suc, ◌+◌, ◌%◌, ◌^◌, Bool, true, false, List, [], ◌∷◌, ◌==◌, if◌then◌else◌, Option, none,
  some, Map, length, Result, ok, err, undefined,
}
use binderd.Buffer.{Allocator, Buffer}
use binderd.Message.{Message}
use binderd.Parser.{Parser, open_parser, next}
use binderd.Server.State.{
  World, Session, Registry, BinderObject, M, ◌>>=◌, ◌>>◌, continue_with, pure, lift, get_session,
  modify_session, get_registry, modify_registry, no_session, update,
}
use binderd.Server.Registry as Registry
use binderd.Server.Handlers.{process_message}

-- `Sessions::Remove`
unfoldable pub remove_id : ℕ → List ℕ → List ℕ
remove_id s [] = []
remove_id s (t ∷ ts) = if t == s then remove_id s ts else t ∷ remove_id s ts

-- Whether the session is in the map of open sessions.
unfoldable pub is_open : ℕ → List ℕ → Bool
is_open s [] = false
is_open s (t ∷ ts) = if t == s then true else is_open s ts

-- `registry_->GetContextManager() == shared_from_this()`
abbrev pub is_session : Option ℕ → ℕ → Bool
is_session none s = false
is_session (some t) s = t == s

abbrev pub sessions_remove : ℕ → M (Unit {0})
sessions_remove s w = (ok tt, record w { open_sessions = remove_id s w.open_sessions })

-- `exit_ = true` of the messenger; `Flush` does nothing.
abbrev pub messenger_close : ℕ → M (Unit {0})
messenger_close s = modify_session s (λ session. record session { closed = true })

-- The roles that the session gives up.
abbrev pub drop_manager : ℕ → Registry → Registry
drop_manager s r = if is_session r.context_mgr s then record r { context_mgr = none } else r

abbrev pub drop_monitor : ℕ → Registry → Registry
drop_monitor s r = if is_session r.monitor s then record r { monitor = none } else r

unfoldable pub resign : ℕ → M (Unit {0})
resign s = modify_registry (drop_manager s) >> modify_registry (drop_monitor s)

-- `ReadNextMessage` asks for one message.
abbrev pub read_next_message : ℕ → M (Unit {0})
read_next_message s = modify_session s (λ session. record session { reading = true })

-- A connection was accepted: a new session, added to the map and started.
unfoldable pub accept : M (Unit {0})
accept w = read_next_message w.next_session_id (record w {
  sessions = update w.sessions w.next_session_id no_session;
  open_sessions = w.next_session_id ∷ w.open_sessions;
  next_session_id = (w.next_session_id + 1) % 2 ^ 32;
})

-- The handler of `async_accept`, where it succeeded or not: the server accepts on in both cases.
abbrev pub on_accept : Bool → M (Unit {0})
on_accept succeeded = if succeeded then accept else pure tt

-- `CloseAllSessions`: the map lets go of its sessions, and nobody tells them.
abbrev pub close_all_sessions : M (Unit {0})
close_all_sessions w = (ok tt, record w { open_sessions = [] })

module _ (alloc : Allocator) where
  unfoldable pub remove_handles : Map BinderObject → M (Unit {0})
  remove_handles [] = pure tt
  remove_handles ((handle, object) ∷ rest) =
      Registry.remove_handle alloc handle >> remove_handles rest

  unfoldable pub terminate : ℕ → M (Unit {0})
  terminate s = do
    session ← get_session s
    remove_handles session.objects
    resign s
    messenger_close s
    sessions_remove s

  -- One round of the loop, at what the parser found.
  abbrev pub read_round :
      Result (Option Message × Parser) → ℕ → (Parser → M (Unit {0})) → M (Unit {0})
  read_round (ok (none, p)) s rest = pure tt
  read_round (ok (some m, p)) s rest = process_message alloc s m >> rest p
  read_round (err e) s rest = lift (err e)
  read_round undefined s rest = lift undefined

  -- `while (auto msg = parser.Next()) ProcessMessage(msg)`, on fuel.
  unfoldable pub read_loop : ℕ → ℕ → Parser → M (Unit {0})
  read_loop zero s p = lift undefined
  read_loop (suc fuel) s p = read_round (next p) s (read_loop fuel s)

  -- The handler of `ReadMessageAsync`: an error, or a buffer.
  unfoldable pub on_read : ℕ → Option Buffer → M (Unit {0})
  on_read s none = modify_session s (λ session. record session { reading = false }) >> terminate s
  on_read s (some b) = do
    modify_session s (λ session. record session { reading = false })
    read_loop (suc (length b.bytes)) s (open_parser b (length b.bytes))
    read_next_message s
