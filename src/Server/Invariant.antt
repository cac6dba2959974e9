-- ===== src/Server/Invariant.antt =====
-- Registry and sessions agree: whoever the registry names as the owner of a handle has an object
-- under that handle. `PostTransaction` rests on it ("there is really something with the
-- synchronization between the registry and the object map wrong").
pub mod Steps
pub mod Messages
pub mod Reachable
use binderd.Common.{
  ℕ, ◌+◌, ◌≤◌, ◌<◌, ◌≡◌, refl, Bool, true, false, ◌==◌, if◌then◌else◌, Option, none, some, is_some,
  find, insert, erase, find-insert, find-erase, Bytes, arith, Result, ok, List,
}
use binderd.Server.State.{
  World, Session, Registry, BinderObject, M, ◌>>=◌, ◌>>◌, continue_with, with_session,
  modify_session, modify_registry, update, next_u64, pure,
}
use binderd.Server.State.Keeps.{Keeps, IgnoresWritten}
use binderd.Server.Registry.{new_object_handle}
use binderd.Server.Translate.{register_binder, get_binder, get_cookie}

pub record IsConsistent (w : World) : Type 0 where
  pub owned :
      (handle s : ℕ)
      → find handle w.registry.handles ≡ some s
      → is_some (find handle (w.sessions s).objects) ≡ true
  pub known : (handle s : ℕ) → find handle w.registry.handles ≡ some s → s < w.next_session_id
  pub manager_known : (s : ℕ) → w.registry.context_mgr ≡ some s → s < w.next_session_id

-- The state is consistent, and both sessions were accepted.
pub record Inv (s t : ℕ) (w : World) : Type 0 where
  pub consistent : IsConsistent w
  pub actor : s < w.next_session_id
  pub other : t < w.next_session_id

pub Inv-swap : (s t : ℕ) (w : World) → Inv s t w → Inv t s w
Inv-swap s t w h = record { consistent = h.consistent; actor = h.other; other = h.actor }

-- A session's other fields may change.
pub modify_session-Inv :
    (s t u : ℕ) (f : Session → Session)
    → ((x : Session) → (f x).objects ≡ x.objects)
    → Keeps (Inv s t) (modify_session u f)
modify_session-Inv s t u f same w h = record {
  consistent = record {
    owned = λ handle x e. ground (arith, h.consistent.owned handle x, same (w.sessions u));
    known = h.consistent.known;
    manager_known = h.consistent.manager_known;
  };
  actor = h.actor;
  other = h.other;
}

pub Inv-IgnoresWritten : (s t : ℕ) → IgnoresWritten (Inv s t)
Inv-IgnoresWritten s t u written w h =
    modify_session-Inv s t u (λ session. record session { written = written }) (λ x. refl) w h

-- Registering a binder object adds the handle on both sides.
pub register_binder-Inv :
    (s t at : ℕ) (memory : Bytes) → Keeps (Inv s t) (register_binder s at memory)
unfolding register_binder new_object_handle
register_binder-Inv s t at memory w h =
    let n = w.registry.next_object_handle in
    let object : BinderObject = record {
      binder = get_binder memory at;
      cookie = get_cookie memory at;
    } in
    record {
      consistent = record {
        owned = λ handle x e. ground (
          arith,
          e,
          find-insert n handle s w.registry.handles,
          find-insert n handle object (w.sessions s).objects,
          h.consistent.owned handle x,
        );
        known = λ handle x e. ground (
          arith,
          e,
          find-insert n handle s w.registry.handles,
          h.consistent.known handle x,
          h.actor,
        );
        manager_known = h.consistent.manager_known;
      };
      actor = h.actor;
      other = h.other;
    }
