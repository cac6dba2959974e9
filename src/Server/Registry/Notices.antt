-- ===== src/Server/Registry/Notices.antt =====
-- The death notices of `RemoveHandle` change nothing but what was written, and do not fail.
use binderd.Common.{ℕ, ◌≡◌, refl, inl, inr, find, Option-cases, List, [], ◌∷◌, Result, ok}
use binderd.Buffer.{Allocator, NeverFails}
use binderd.Server.State.{World, M, continue_with}
use binderd.Server.State.Keeps.{Keeps, IgnoresWritten, continue_with-Keeps}
use binderd.Server.Output.{send_death_notification}
use binderd.Server.Output.Keeps.{send_death_notification-Keeps}
use binderd.Server.Output.Written.{send_death_notification-some, send_death_notification-none}
use binderd.Server.Registry.{notify_all}

pub notify_all-Keeps :
    (alloc : Allocator) (P : World → Type 0)
    → IgnoresWritten P
    → (handle : ℕ) (sessions : List ℕ) → Keeps P (notify_all alloc handle sessions)
unfolding notify_all
notify_all-Keeps alloc P ignores handle [] w h = h
notify_all-Keeps alloc P ignores handle (t ∷ ts) w h =
    continue_with-Keeps P (send_death_notification alloc t handle w)
      (λ _. notify_all alloc handle ts) (send_death_notification-Keeps alloc P ignores t handle w h)
      (λ _. notify_all-Keeps alloc P ignores handle ts)

-- The call returned.
abbrev pub Succeeds : Result (Unit {0}) × World → Type 0
Succeeds out = out.0 ≡ ok tt

pub continue_with-Succeeds :
    (x : Result (Unit {0}) × World) (k : Unit {0} → M (Unit {0}))
    → Succeeds x
    → ((v : World) → Succeeds (k tt v))
    → Succeeds (continue_with x k)
continue_with-Succeeds (ok a, w) k h rest = rest w
continue_with-Succeeds (Result.err e, w) k h rest = cc
continue_with-Succeeds (Result.undefined, w) k h rest = cc

pub continue_with-ok :
    {B : Type 0} (x : Result (Unit {0}) × World) (k : Unit {0} → M B)
    → Succeeds x
    → continue_with x k ≡ k tt x.1
continue_with-ok (ok a, w) k h = refl
continue_with-ok (Result.err e, w) k h = cc
continue_with-ok (Result.undefined, w) k h = cc

module _ (alloc : Allocator) (memory : NeverFails alloc) where
  send_death_notification-Succeeds :
      (t handle : ℕ) (w : World) → Succeeds (send_death_notification alloc t handle w)
  send_death_notification-Succeeds t handle w =
      elim (Option-cases (find handle (w.sessions t).death_notifications)) [
        | inl e ↦ rw (send_death_notification-none alloc memory t handle w e)
        | inr (object_id, e) ↦ rw (send_death_notification-some alloc memory t handle object_id w e)
      ]

  pub notify_all-Succeeds :
      (handle : ℕ) (sessions : List ℕ) (w : World) → Succeeds (notify_all alloc handle sessions w)
  unfolding notify_all
  notify_all-Succeeds handle [] w = refl
  notify_all-Succeeds handle (t ∷ ts) w =
      continue_with-Succeeds (send_death_notification alloc t handle w)
        (λ _. notify_all alloc handle ts) (send_death_notification-Succeeds t handle w)
        (λ v. notify_all-Succeeds handle ts v)
