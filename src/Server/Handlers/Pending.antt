-- ===== src/Server/Handlers/Pending.antt =====
-- A delivered transaction is pending at its target, and its reply reaches the sender.
use binderd.Common.{
  ℕ, ◌≡◌, refl, ap, ◌∙◌, if◌then◌else◌, Option, none, some, find, find-insert, Bytes, arith, Result,
  ok, err, undefined,
}
use binderd.Buffer.{Allocator, NeverFails}
use binderd.Message.{Message}
use binderd.Status.{Status, ok_status}
use binderd.Server.State.{
  World, TransactionRecord, BinderObject, M, ◌>>=◌, continue_with, with_session, lift, pure,
}
use binderd.Server.State.Keeps.{Keeps, IgnoresWritten}
use binderd.Server.Output.{write_message, with_body}
use binderd.Server.Output.Keeps.{write_message-Keeps}
use binderd.Server.Output.Written.{IsWritable, wrote}
use binderd.Server.Registry.{new_object_handle}
use binderd.Transaction.{from_message, pack}
use binderd.Writer.{Writer, write_data}
use binderd.Message.Wire.{get_writer}
use binderd.Server.Translate.{register_binder, translate_objects}
use binderd.Server.Translate.Keeps.{translate_objects-Keeps}
use binderd.Server.Handlers.{
  on_reply, destination_object, post_transaction, deliver, deliver_to, with_pending, take_cookie,
  is_ok, forwarded, new_message, write_to,
}
use binderd.Server.Handlers.Replies.{settled, pending-IgnoresWritten, on_reply-once}

-- If the call returned `Ok`, then `Q` holds of the state.
abbrev AfterOk : (World → Type 0) → Result Status × World → Type 0
AfterOk Q out = out.0 ≡ ok ok_status → Q out.1

continue_with-AfterOk :
    {A : Type 0} (P Q : World → Type 0) (x : Result A × World) (k : A → M Status)
    → P x.1
    → ((a : A) (v : World) → P v → AfterOk Q (k a v))
    → AfterOk Q (continue_with x k)
continue_with-AfterOk P Q (ok a, v) k h after = after a v h
continue_with-AfterOk P Q (err e, v) k h after = λ f. cc
continue_with-AfterOk P Q (undefined, v) k h after = λ f. cc

if-AfterOk :
    (Q : World → Type 0) (result : Status) (x : M Status) (w : World)
    → AfterOk Q (x w)
    → AfterOk Q ((if is_ok result then x else pure result) w)
if-AfterOk Q ok_status x w h = h
if-AfterOk Q _ x w h = λ f. cc

-- No transaction is pending under the cookie.
abbrev pub IsUnused : ℕ → ℕ → World → Type 0
IsUnused s cookie w = find cookie (w.sessions s).pending_transactions ≡ none

-- The transaction that is pending under the cookie came from this caller, with this cookie.
abbrev pub IsPending : ℕ → ℕ → ℕ → ℕ → World → Type 0
IsPending s cookie caller reply_cookie w =
    (tr : TransactionRecord) × (find cookie (w.sessions s).pending_transactions ≡ some tr)
    × (tr.caller ≡ caller)
    × (tr.reply_cookie ≡ reply_cookie)

IsPending-IgnoresWritten :
    (s cookie caller reply_cookie : ℕ) → IgnoresWritten (IsPending s cookie caller reply_cookie)
IsPending-IgnoresWritten s cookie caller reply_cookie t written w (tr, e, from, with) =
    (tr, pending-IgnoresWritten s cookie (some tr) t written w e, from, with)

with_pending-IsPending :
    (s cookie : ℕ) (tr : TransactionRecord) (memory : Bytes) (w : World)
    → IsUnused s cookie w
    → IsPending s cookie tr.caller tr.reply_cookie
        (with_session s (with_pending cookie tr memory) w)
with_pending-IsPending s cookie tr memory w h =
    let entry = record tr {
      message = record (tr.message) { body = record (tr.message.body) { bytes = memory } };
    } in
    (
      entry,
      ground (arith, h, find-insert cookie cookie entry (w.sessions s).pending_transactions),
      refl,
      refl,
    )

register_binder-IsUnused :
    (s cookie t at : ℕ) (memory : Bytes) → Keeps (IsUnused s cookie) (register_binder t at memory)
unfolding register_binder new_object_handle
register_binder-IsUnused s cookie t at memory w h = ground (arith, h)

module _ (alloc : Allocator) where
  write_to-IsPending :
      (target cookie : ℕ) (tr : TransactionRecord) (memory : Bytes) (x : Writer) (w : World)
      → IsUnused target cookie w
      → AfterOk
          (IsPending target cookie tr.caller tr.reply_cookie)
          (write_to alloc target cookie tr memory x w)
  write_to-IsPending target cookie tr memory x w h =
      let Q = IsPending target cookie tr.caller tr.reply_cookie in
      let v = with_session target (with_pending cookie tr memory) w in
      let new = with_body (new_message cookie tr.message) x in
      continue_with-AfterOk Q Q (write_message alloc target new v) (λ _. pure ok_status)
        (write_message-Keeps alloc Q
          (IsPending-IgnoresWritten target cookie tr.caller tr.reply_cookie) target new v
          (with_pending-IsPending target cookie tr memory w h))
        (λ _ u j f. j)

  deliver-IsPending :
      (target cookie : ℕ) (tr : TransactionRecord) (object : BinderObject) (w : World)
      → IsUnused target cookie w
      → AfterOk
          (IsPending target cookie tr.caller tr.reply_cookie)
          (deliver alloc target cookie tr object w)
  unfolding deliver
  deliver-IsPending target cookie tr object w h =
      continue_with-AfterOk (IsUnused target cookie) Q (lift (from_message tr.message) w) _ h
        λ old v k.
          continue_with-AfterOk (IsUnused target cookie) Q
            (translate_objects target old tr.message.body.bytes v) _
            (translate_objects-Keeps (IsUnused target cookie) target
              (register_binder-IsUnused target cookie target) old tr.message.body.bytes v k)
            λ (translated, bytes) u j. if-AfterOk Q translated _ u (
              continue_with-AfterOk (IsUnused target cookie) Q
                (lift (pack alloc (forwarded old object bytes)) u)
                (λ packed.
                  lift (write_data alloc packed.bytes (get_writer (new_message cookie tr.message)))
                  >>= write_to alloc target cookie tr bytes)
                j
                λ packed u2 j2.
                  continue_with-AfterOk (IsUnused target cookie) Q
                    (lift
                      (write_data alloc packed.bytes (get_writer (new_message cookie tr.message)))
                      u2)
                    (write_to alloc target cookie tr bytes) j2
                    (write_to-IsPending target cookie tr bytes))
    where
      Q : World → Type 0
      Q = IsPending target cookie tr.caller tr.reply_cookie

  -- The transaction that `PostTransaction` delivered is pending at its target.
  post_transaction-IsPending :
      (target : ℕ) (tr : TransactionRecord) (w : World)
      → IsUnused target (w.sessions target).next_transaction_cookie w
      → AfterOk
          (IsPending target (w.sessions target).next_transaction_cookie tr.caller tr.reply_cookie)
          (post_transaction alloc target tr w)
  unfolding post_transaction
  post_transaction-IsPending target tr w h = deliver_to-IsPending (
      destination_object (find tr.message.destination (w.sessions target).objects)
        tr.message.destination)
    where
      deliver_to-IsPending :
          (o : Option BinderObject)
          → AfterOk
              (IsPending target
                (w.sessions target).next_transaction_cookie
                tr.caller
                tr.reply_cookie)
              (deliver_to alloc o target
                (w.sessions target).next_transaction_cookie
                tr
                (with_session target take_cookie w))
      deliver_to-IsPending none = λ f. cc
      deliver_to-IsPending (some object) =
          deliver-IsPending target (w.sessions target).next_transaction_cookie tr object
            (with_session target take_cookie w) (ground (arith, h))

module _ (alloc : Allocator) (memory : NeverFails alloc) where
  -- The reply to a delivered transaction reaches its sender: after a `PostTransaction` that returned
  -- `Ok`, under a transaction cookie that was not in use, the target's reply with that cookie is
  -- written to the caller with the cookie of the caller's own message, for a reply that can be logged
  -- and if allocations succeed.
  pub on_reply-post_transaction :
      (target : ℕ) (tr : TransactionRecord) (m : Message) (w : World)
      → IsUnused target (w.sessions target).next_transaction_cookie w
      → (post_transaction alloc target tr w).0 ≡ ok ok_status
      → m.cookie ≡ (w.sessions target).next_transaction_cookie
      → IsWritable m
      → on_reply alloc target m (post_transaction alloc target tr w).1 ≡ (
        ok tt,
        wrote tr.caller
            (record m { cookie = tr.reply_cookie })
            (settled target m.cookie (post_transaction alloc target tr w).1),
      )
  on_reply-post_transaction target tr m w unused posted same h =
      let v = (post_transaction alloc target tr w).1 in
      let (entry, found, from, with) = post_transaction-IsPending alloc target tr w unused posted in
      (on_reply-once alloc memory target m entry v
        (ap (λ c. find c (v.sessions target).pending_transactions) same ∙ found) h).0
      ∙ ap
          (λ caller. (
            ok tt,
            wrote caller (record m { cookie = entry.reply_cookie }) (settled target m.cookie v),
          ))
          from
      ∙ ap
          (λ cookie.
            (ok tt, wrote tr.caller (record m { cookie = cookie }) (settled target m.cookie v)))
          with
