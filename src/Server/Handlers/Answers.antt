-- ===== src/Server/Handlers/Answers.antt =====
-- A transaction is answered by a status message that carries the transaction's cookie.
use binderd.Common.{
  ℕ, ◌≡◌, ◌⊎◌, inl, inr, refl, Option, none, some, Bytes, Result, ok, err, undefined, Exception,
}
use binderd.Buffer.{Allocator, NeverFails}
use binderd.Transaction.{from_message}
use binderd.Server.Translate.{translate_objects}
use binderd.Message.{Message}
use binderd.Status.{Status, bad_value, unknown_error}
use binderd.Server.State.{World, M, continue_with, lift, handled}
use binderd.Server.Output.{send_status}
use binderd.Server.Output.Written.{wrote, status_message, send_status_lem}
use binderd.Server.Handlers.{transact, transact_from, transact_translated, post_to, on_transaction}
use binderd.Server.Registry.{find_session_by_handle}

-- The last that happened is that session `s` wrote a status with this cookie (and the monitor was
-- told of it).
abbrev pub Answered : ℕ → ℕ → Result (Unit {0}) × World → Type 0
Answered s cookie out =
    (result : Status) × (v : World) × (out ≡ (ok tt, wrote s (status_message cookie result) v))

-- Or an exception or undefined behaviour cut it short.
abbrev Ends : ℕ → ℕ → Result (Unit {0}) × World → Type 0
Ends s cookie out =
    Answered s cookie out
    ⊎ (((e : Exception) × (v : World) × (out ≡ (err e, v)))
        ⊎ ((v : World) × (out ≡ (undefined, v))))

continue_with-Ends :
    {A : Type 0} (s cookie : ℕ) (x : Result A × World) (k : A → M (Unit {0}))
    → ((a : A) (v : World) → Ends s cookie (k a v))
    → Ends s cookie (continue_with x k)
continue_with-Ends s cookie (ok a, v) k h = h a v
continue_with-Ends s cookie (err e, v) k h = inr (inl (e, v, refl))
continue_with-Ends s cookie (undefined, v) k h = inr (inr (v, refl))

module _ (alloc : Allocator) (memory : NeverFails alloc) where
  pub answer :
      (s : ℕ) (m : Message) (result : Status) (w : World)
      → Answered s m.cookie (send_status alloc s m result w)
  answer s m result w = (result, w, send_status_lem alloc memory s m result w)

  post_to-Ends :
      (target : Option ℕ) (s : ℕ) (m : Message) (w : World)
      → Ends s m.cookie (post_to alloc target s m w)
  post_to-Ends none s m w = inl (answer s m _ w)
  post_to-Ends (some target) s m w =
      continue_with-Ends s m.cookie _ _ (λ result v. inl (answer s m result v))

  transact_translated-Ends :
      (s : ℕ) (m : Message) (out : Status × Bytes) (w : World)
      → Ends s m.cookie (transact_translated alloc s m out w)
  transact_translated-Ends s m (translated, bytes) w =
      post_to-Ends (find_session_by_handle m.destination w.registry) s
        (record m { body = record (m.body) { bytes = bytes } }) w

  transact-Ends : (s : ℕ) (m : Message) (w : World) → Ends s m.cookie (transact alloc s m w)
  unfolding transact
  transact-Ends s m w =
      continue_with-Ends s m.cookie (lift (from_message m) w) (transact_from alloc s m) λ tr v.
        continue_with-Ends s m.cookie (translate_objects s tr m.body.bytes v)
          (transact_translated alloc s m) (transact_translated-Ends s m)

  handled-answers :
      (s : ℕ) (m : Message) (out : Result (Unit {0}) × World)
      → Ends s m.cookie out
      → Answered s m.cookie
          (handled out (send_status alloc s m bad_value) (send_status alloc s m unknown_error))
        ⊎ ((v : World) × (handled out
                (send_status alloc s m bad_value)
                (send_status alloc s m unknown_error)
              ≡ (undefined, v)))
  handled-answers s m out (inl (result, v, e)) = inl (result, v, rw (e, handled))
  handled-answers s m out (inr (inl (Exception.out_of_range, v, e))) =
      inl (bad_value, v, rw (e, handled) (send_status_lem alloc memory s m bad_value v))
  handled-answers s m out (inr (inl (Exception.runtime_error, v, e))) =
      inl (unknown_error, v, rw (e, handled) (send_status_lem alloc memory s m unknown_error v))
  handled-answers s m out (inr (inl (Exception.future_error, v, e))) =
      inl (unknown_error, v, rw (e, handled) (send_status_lem alloc memory s m unknown_error v))
  handled-answers s m out (inr (inr (v, e))) = inr (v, rw (e, handled))

  -- Whatever a transaction message holds, its handler never throws: it ends by writing a status
  -- with the message's cookie to the sender, unless it leaves the message's memory. Allocations
  -- succeed.
  pub on_transaction-answers :
      (s : ℕ) (m : Message) (w : World)
      → Answered s m.cookie (on_transaction alloc s m w)
        ⊎ ((v : World) × (on_transaction alloc s m w ≡ (undefined, v)))
  unfolding on_transaction
  on_transaction-answers s m w = handled-answers s m (transact alloc s m w) (transact-Ends s m w)
