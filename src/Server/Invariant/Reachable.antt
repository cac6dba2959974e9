-- ===== src/Server/Invariant/Reachable.antt =====
-- Whatever clients connect, send and hang up, in any order: registry and sessions stay consistent.
use binderd.Common.{
  ℕ, zero, suc, ◌+◌, ◌<◌, ◌^◌, refl, Bool, true, false, Option, none, some, find, erase, find-erase,
  List, [], ◌∷◌, arith, Result, ok, err, undefined, Map, length,
}
use native.Mathlib.Nat.{mod-eq_of_lt}
use binderd.Buffer.{Allocator, Buffer}
use binderd.Message.{Message}
use binderd.Parser.{Parser, next, open_parser}
use binderd.Server.State.{
  World, BinderObject, M, ◌>>◌, pure, modify_session, modify_registry, start,
}
use binderd.Server.State.Keeps.{Keeps, continue_with-Keeps, if-Keeps}
use binderd.Server.Output.{send_death_notification}
use binderd.Server.Output.Keeps.{send_death_notification-Keeps}
use binderd.Server.Registry as Registry
use binderd.Server.Handlers.{process_message}
use binderd.Server.Lifecycle.{
  remove_handles, resign, drop_manager, drop_monitor, read_round, messenger_close, sessions_remove,
  terminate, read_loop, read_next_message, on_read, accept,
}
use binderd.Server.Invariant.{IsConsistent, Inv, modify_session-Inv, Inv-IgnoresWritten}
use binderd.Server.Invariant.Steps.{modify_registry-Inv}
use binderd.Server.Invariant.Messages.{process_message-Keeps}

module _ (alloc : Allocator) (s : ℕ) where
  notify_all-Keeps :
      (handle : ℕ) (sessions : List ℕ) → Keeps (Inv s s) (Registry.notify_all alloc handle sessions)
  unfolding Registry.notify_all
  notify_all-Keeps handle [] w h = h
  notify_all-Keeps handle (t ∷ ts) w h =
      continue_with-Keeps (Inv s s) (send_death_notification alloc t handle w)
        (λ _. Registry.notify_all alloc handle ts)
        (send_death_notification-Keeps alloc (Inv s s) (Inv-IgnoresWritten s s) t handle w h)
        (λ _. notify_all-Keeps handle ts)

  drop_references-Keeps :
      (o : Option (List ℕ)) (handle : ℕ) → Keeps (Inv s s) (Registry.drop_references alloc o handle)
  drop_references-Keeps none handle w h = h
  drop_references-Keeps (some sessions) handle w h =
      continue_with-Keeps (Inv s s) (Registry.notify_all alloc handle sessions w)
        (λ _. modify_registry (λ r. record r { references = erase handle r.references }))
        (notify_all-Keeps handle sessions w h)
        (λ _ v k.
          modify_registry-Inv s s (λ r. record r { references = erase handle r.references }) v refl
            k.consistent.manager_known k)

  -- A handle that goes takes no other with it.
  erase_handle-Keeps :
      (handle : ℕ)
      → Keeps (Inv s s) (modify_registry (λ r. record r { handles = erase handle r.handles }))
  erase_handle-Keeps handle w h = record {
    consistent = record {
      owned = λ k x e.
          ground (arith, e, find-erase handle k w.registry.handles, h.consistent.owned k x);
      known = λ k x e.
          ground (arith, e, find-erase handle k w.registry.handles, h.consistent.known k x);
      manager_known = h.consistent.manager_known;
    };
    actor = h.actor;
    other = h.other;
  }

  remove_handle-Keeps : (handle : ℕ) → Keeps (Inv s s) (Registry.remove_handle alloc handle)
  unfolding Registry.remove_handle
  remove_handle-Keeps handle w =
      if-Keeps (Inv s s) (Registry.is_handle_known handle w.registry)
        (Registry.drop_references alloc (find handle w.registry.references) handle
          >> modify_registry (λ r. record r { handles = erase handle r.handles }))
        (pure tt)
        (λ v h.
          continue_with-Keeps (Inv s s)
            (Registry.drop_references alloc (find handle w.registry.references) handle v) _
            (drop_references-Keeps (find handle w.registry.references) handle v h)
            (λ _. erase_handle-Keeps handle))
        (λ v h. h) w

  remove_handles-Keeps :
      (objects : Map BinderObject) → Keeps (Inv s s) (remove_handles alloc objects)
  unfolding remove_handles
  remove_handles-Keeps [] w h = h
  remove_handles-Keeps ((handle, object) ∷ rest) w h =
      continue_with-Keeps (Inv s s) (Registry.remove_handle alloc handle w)
        (λ _. remove_handles alloc rest) (remove_handle-Keeps handle w h)
        (λ _. remove_handles-Keeps rest)

  resign-Keeps : Keeps (Inv s s) (resign s)
  unfolding resign
  resign-Keeps w h =
      modify_registry-Inv s s (drop_monitor s) v (ground arith)
        (λ x e. k.consistent.manager_known x (ground (arith, e))) k
    where
      v : World
      v = record w { registry = drop_manager s w.registry }

      k : Inv s s v
      k =
          modify_registry-Inv s s (drop_manager s) w (ground arith)
            (λ x e. h.consistent.manager_known x (ground (arith, e))) h

  -- Which sessions are open is no part of it.
  sessions_remove-Keeps : Keeps (Inv s s) (sessions_remove s)
  sessions_remove-Keeps w h = record {
    consistent = record {
      owned = h.consistent.owned;
      known = h.consistent.known;
      manager_known = h.consistent.manager_known;
    };
    actor = h.actor;
    other = h.other;
  }

  terminate-Keeps : Keeps (Inv s s) (terminate alloc s)
  unfolding terminate
  terminate-Keeps w h =
      continue_with-Keeps (Inv s s) (remove_handles alloc (w.sessions s).objects w) _
        (remove_handles-Keeps (w.sessions s).objects w h)
        λ _ v k.
          continue_with-Keeps (Inv s s) (resign s v) (λ _. messenger_close s >> sessions_remove s)
            (resign-Keeps v k)
            λ _ u j. sessions_remove-Keeps _ (
              modify_session-Inv s s s (λ session. record session { closed = true }) (λ x. refl) u
                j)

  read_round-Keeps :
      (found : Result (Option Message × Parser)) (rest : Parser → M (Unit {0}))
      → ((p : Parser) → Keeps (Inv s s) (rest p))
      → Keeps (Inv s s) (read_round alloc found s rest)
  read_round-Keeps (ok (none, p)) rest keeps w h = h
  read_round-Keeps (ok (some m, p)) rest keeps w h =
      continue_with-Keeps (Inv s s) (process_message alloc s m w) (λ _. rest p)
        (process_message-Keeps alloc s m w h) (λ _. keeps p)
  read_round-Keeps (err e) rest keeps w h = h
  read_round-Keeps undefined rest keeps w h = h

  read_loop-Keeps : (fuel : ℕ) (p : Parser) → Keeps (Inv s s) (read_loop alloc fuel s p)
  unfolding read_loop
  read_loop-Keeps zero p w h = h
  read_loop-Keeps (suc fuel) p w h =
      read_round-Keeps (next p) (read_loop alloc fuel s) (read_loop-Keeps fuel) w h

  reading-Keeps :
      (b : Bool) → Keeps (Inv s s) (modify_session s (λ session. record session { reading = b }))
  reading-Keeps b = modify_session-Inv s s s (λ session. record session { reading = b }) (λ x. refl)

  pub on_read-Keeps : (event : Option Buffer) → Keeps (Inv s s) (on_read alloc s event)
  unfolding on_read
  on_read-Keeps none w h = terminate-Keeps _ (reading-Keeps false w h)
  on_read-Keeps (some b) w h =
      continue_with-Keeps (Inv s s)
        (read_loop alloc (suc (length b.bytes)) s (open_parser b (length b.bytes)) _)
        (λ _. read_next_message s)
        (read_loop-Keeps (suc (length b.bytes)) (open_parser b (length b.bytes)) _
          (reading-Keeps false w h))
        (λ _. reading-Keeps true)

-- A client connects, as long as session ids are left; or an accepted session gets a buffer or an
-- error from its socket.
pub data Step (alloc : Allocator) : World → World → Type 0 where
  connect : (w : World) → w.next_session_id + 1 < 2 ^ 32 → Step alloc w (accept w).1
  receive :
      (s : ℕ) (event : Option Buffer) (w : World)
      → s < w.next_session_id
      → Step alloc w (on_read alloc s event w).1

pub data Reach (alloc : Allocator) : World → Type 0 where
  begin : Reach alloc start
  next_step : {w v : World} → Reach alloc w → Step alloc w v → Reach alloc v

accept-IsConsistent :
    (w : World) → w.next_session_id + 1 < 2 ^ 32 → IsConsistent w → IsConsistent (accept w).1
unfolding accept
accept-IsConsistent w room h = record {
  owned = λ handle x e. ground (arith, e, h.owned handle x, h.known handle x);
  known = λ handle x e. rw (mod-eq_of_lt room) (omega (arith, h.known handle x e));
  manager_known = λ x e. rw (mod-eq_of_lt room) (omega (arith, h.manager_known x e));
}

-- In every state that the server can reach, the session that the registry names for a handle has an
-- object under it, and it and the context manager are accepted sessions.
pub Reach-IsConsistent : (alloc : Allocator) (w : World) → Reach alloc w → IsConsistent w
Reach-IsConsistent alloc w begin = record {
  owned = λ h s e. unfold find in cc e;
  known = λ h s e. unfold find in cc e;
  manager_known = λ s e. cc;
}
Reach-IsConsistent alloc w (next_step {w = v} r (connect _ room)) =
    accept-IsConsistent v room (Reach-IsConsistent alloc v r)
Reach-IsConsistent alloc w (next_step {w = v} r (receive s event _ known)) =
    (on_read-Keeps alloc s event v (record {
      consistent = Reach-IsConsistent alloc v r;
      actor = known;
      other = known;
    })).consistent
