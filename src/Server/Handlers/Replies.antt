-- ===== src/Server/Handlers/Replies.antt =====
-- Where a reply goes, and who becomes context manager.
use binderd.Common.{
  ℕ, ◌≡◌, refl, ap, ◌∙◌, Bool, true, false, if◌then◌else◌, Option, none, some, is_some, find, erase,
  find-erase, arith, Result, ok,
}
use binderd.Buffer.{Allocator, NeverFails}
use binderd.Message.{Message}
use binderd.Status.{ok_status, already_exists}
use binderd.Server.State.{World, Registry, TransactionRecord, M, ◌>>◌, continue_with, with_session}
use binderd.Server.State.Keeps.{IgnoresWritten}
use binderd.Server.Output.{send_status}
use binderd.Server.Output.Written.{
  IsWritable, wrote, logged, logged_to, sent, status_message, send_status_lem,
  forward_to_monitor_lem, write_message_lem,
}
use binderd.Server.Registry.{set_context_manager, find_session_by_handle}
use binderd.Server.Handlers.{on_set_context_manager, on_reply}

-- The world in which a session's pending transaction is gone.
abbrev pub settled : ℕ → ℕ → World → World
settled s cookie w =
    with_session s
      (λ session. record session {
        pending_transactions = erase cookie session.pending_transactions;
      })
      w

logged_to-Keeps :
    (P : World → Type 0)
    → IgnoresWritten P
    → (monitor : Option ℕ) (m : Message) (w : World) → P w
    → P (logged_to monitor m w)
logged_to-Keeps P ignores none m w h = h
logged_to-Keeps P ignores (some monitor) m w h = ignores monitor _ w h

logged-Keeps :
    (P : World → Type 0) → IgnoresWritten P → (m : Message) (w : World) → P w → P (logged m w)
unfolding logged
logged-Keeps P ignores m w h = logged_to-Keeps P ignores w.registry.monitor m w h

wrote-Keeps :
    (P : World → Type 0)
    → IgnoresWritten P
    → (s : ℕ) (m : Message) (w : World) → P w
    → P (wrote s m w)
unfolding wrote
wrote-Keeps P ignores s m w h = logged-Keeps P ignores m (sent s m w) (ignores s _ w h)

if-run :
    {A : Type 0} (b : Bool) (x y : M A) (w : World) {p q : Result A × World}
    → x w ≡ p
    → y w ≡ q
    → (if b then x else y) w ≡ (if b then p else q)
if-run true x y w e f = e
if-run false x y w e f = f

-- An entry of the pending transactions, whatever is written meanwhile.
pub pending-IgnoresWritten :
    (s cookie : ℕ) (o : Option TransactionRecord)
    → IgnoresWritten (λ w. find cookie (w.sessions s).pending_transactions ≡ o)
pending-IgnoresWritten s cookie o t written w e = ground (arith, e)

-- The worlds after a session became context manager, and after one was refused.
abbrev pub first_accepted : ℕ → Message → World → World
first_accepted s m w =
    wrote s (status_message m.cookie ok_status)
      (record (logged m w) { registry = record (w.registry) { context_mgr = some s } })

abbrev pub second_refused : ℕ → Message → World → World
second_refused t n w = wrote t (status_message n.cookie already_exists) (logged n w)

abbrev choices : ℕ → Message → World → World → Bool → Result (Unit {0}) × World
choices s m w accepted taken = if taken then (ok tt, second_refused s m w) else (ok tt, accepted)

module _ (alloc : Allocator) (memory : NeverFails alloc) where
  -- The handler, where the message can be logged.
  on_set_context_manager_lem :
      (s : ℕ) (m : Message) (w : World)
      → IsWritable m
      → on_set_context_manager alloc s m w ≡ (
          if is_some w.registry.context_mgr
          then (ok tt, wrote s (status_message m.cookie already_exists) (logged m w))
          else (
            ok tt,
            wrote s
                (status_message m.cookie ok_status)
                (record (logged m w) { registry = record (w.registry) { context_mgr = some s } }),
          ))
  unfolding on_set_context_manager
  on_set_context_manager_lem s m w h =
      rw (forward_to_monitor_lem alloc memory m w h, continue_with)
        (if-run (is_some (logged m w).registry.context_mgr) (send_status alloc s m already_exists)
          (set_context_manager (some s) >> send_status alloc s m ok_status) (logged m w)
          (send_status_lem alloc memory s m already_exists (logged m w))
          (send_status_lem alloc memory s m ok_status (record (logged m w) {
            registry = record ((logged m w).registry) { context_mgr = some s };
          })))
      ∙ ap outcome same
    where
      outcome : Registry → Result (Unit {0}) × World
      outcome r =
          if is_some r.context_mgr
          then (ok tt, wrote s (status_message m.cookie already_exists) (logged m w))
          else (
            ok tt,
            wrote s (status_message m.cookie ok_status)
                (record (logged m w) { registry = record r { context_mgr = some s } }),
          )

      same : (logged m w).registry ≡ w.registry
      same = logged-Keeps (λ v. v.registry ≡ w.registry) (λ t written v e. e) m w refl

  -- The first session that asks becomes context manager: where there is none, `s` asks with `m` and
  -- then `t` with `n`, the first is told `OK` and the second `AlreadyExists`, and handle zero leads to
  -- `s` afterwards. Both messages can be logged, and allocations succeed.
  pub on_set_context_manager-first :
      (s t : ℕ) (m n : Message) (w : World)
      → w.registry.context_mgr ≡ none
      → IsWritable m
      → IsWritable n
      → ((on_set_context_manager alloc s m >> on_set_context_manager alloc t n) w
          ≡ (ok tt, second_refused t n (first_accepted s m w)))
        × (find_session_by_handle 0 (second_refused t n (first_accepted s m w)).registry ≡ some s)
  unfolding find_session_by_handle
  on_set_context_manager-first s t m n w free hm hn = (
    ap (λ out. continue_with out (λ _. on_set_context_manager alloc t n)) accepted ∙ refused,
    wrote-Keeps (λ u. u.registry.context_mgr ≡ some s) (λ k written u e. e) t
        (status_message n.cookie already_exists) (logged n v)
        (logged-Keeps (λ u. u.registry.context_mgr ≡ some s) (λ k written u e. e) n v named),
  )
    where
      v : World
      v = first_accepted s m w

      named : v.registry.context_mgr ≡ some s
      named =
          wrote-Keeps (λ u. u.registry.context_mgr ≡ some s) (λ k written u e. e) s
            (status_message m.cookie ok_status) _ refl

      accepted : on_set_context_manager alloc s m w ≡ (ok tt, v)
      accepted = on_set_context_manager_lem s m w hm ∙ ap (choices s m w v) (ap is_some free)

      refused : on_set_context_manager alloc t n v ≡ (ok tt, second_refused t n v)
      refused =
          on_set_context_manager_lem t n v hn
          ∙ ap (choices t n v (first_accepted t n v)) (ap is_some named)

  -- A reply to a pending transaction goes to the session that made it, with the cookie that it used,
  -- and once: the same reply a second time changes nothing. The reply can be logged, and allocations
  -- succeed.
  pub on_reply-once :
      (s : ℕ) (m : Message) (tr : TransactionRecord) (w : World)
      → find m.cookie (w.sessions s).pending_transactions ≡ some tr
      → IsWritable m
      → (on_reply alloc s m w
          ≡ (ok tt, wrote tr.caller (record m { cookie = tr.reply_cookie }) (settled s m.cookie w)))
        × (on_reply alloc s m
              (wrote tr.caller (record m { cookie = tr.reply_cookie }) (settled s m.cookie w))
            ≡ (
              ok tt,
              wrote tr.caller (record m { cookie = tr.reply_cookie }) (settled s m.cookie w),
            ))
  unfolding on_reply
  on_reply-once s m tr w e h = (
    rw e (
        write_message_lem alloc memory tr.caller (record m { cookie = tr.reply_cookie })
          (settled s m.cookie w) (record { room = h.room; in_bytes = h.in_bytes })),
    rw gone refl,
  )
    where
      gone :
          find m.cookie
            ((wrote tr.caller
                (record m { cookie = tr.reply_cookie })
                (settled s m.cookie w)).sessions
              s).pending_transactions
          ≡ none
      gone =
          wrote-Keeps (λ v. find m.cookie (v.sessions s).pending_transactions ≡ none)
            (pending-IgnoresWritten s m.cookie none) tr.caller
            (record m { cookie = tr.reply_cookie }) (settled s m.cookie w)
            (ground (arith, find-erase m.cookie m.cookie (w.sessions s).pending_transactions))
