-- ===== src/Server/Handlers/Requests.antt =====
-- The other requests are answered by a status message that carries the request's cookie, too.
use binderd.Common.{
  ℕ, ◌+◌, ◌≤◌, ◌≡◌, refl, Bool, true, false, List, arith, if◌then◌else◌, length, Option, none, some,
  is_some, find, Result, ok, get_or,
}
use binderd.Buffer.{Allocator, NeverFails}
use binderd.Reader.{Reader, read_value}
use binderd.Message.{
  Message, MessageType, transaction, transaction_reply, acquire, release,
  request_death_notification, clear_death_notification, set_context_mgr, set_monitor, status,
}
use binderd.Message.Wire.{get_reader}
use binderd.Status.{ok_status, already_exists, bad_value, invalid_operation, dead_object}
use binderd.Server.State.{World, M, ◌>>◌, continue_with, pure, modify_registry}
use binderd.Server.Output.{send_status}
use binderd.Server.Output.Written.{IsWritable, logged, forward_to_monitor_lem}
use binderd.Server.Handlers.{
  on_set_context_manager, on_set_monitor, on_reference, on_death_notification, reference_status,
  death_status, process_message, request_death, clear_death, dispatch,
}
use binderd.Server.Registry.{
  add_reference_for_handle, remove_reference_for_handle, set_context_manager,
  set_monitor as make_monitor, is_handle_known, referenced, dereference, remove_reference,
  remove_first,
}
use binderd.Server.Handlers.Answers.{Answered, answer}

-- What a message must hold in its body for its handler to read it.
abbrev pub IsComplete : MessageType → ℕ → Type 0
IsComplete acquire size = 8 ≤ size
IsComplete release size = 8 ≤ size
IsComplete request_death_notification size = 16 ≤ size
IsComplete clear_death_notification size = 16 ≤ size
IsComplete _ size = Unit {0}

-- The kinds that are answered by a status of their own: all but transactions and replies.
abbrev pub IsPlainRequest : MessageType → Type 0
IsPlainRequest transaction = ⊥
IsPlainRequest transaction_reply = ⊥
IsPlainRequest status = ⊥
IsPlainRequest _ = Unit {0}

read_value-ok :
    (width : ℕ) (r : Reader)
    → r.current + width ≤ length r.bytes
    → read_value width r ≡ ok (get_or r.bytes r.current 0, record r { current = r.current + width })
unfolding read_value
read_value-ok width r h = ground arith

-- The call returned a value.
abbrev Returns : {A : Type 0} → Result A × World → Type 0
Returns {A} out = (a : A) × (v : World) × (out ≡ (ok a, v))

if-Returns :
    {A : Type 0} (b : Bool) (x y : M A) (w : World)
    → Returns (x w)
    → Returns (y w)
    → Returns ((if b then x else y) w)
if-Returns true x y w h k = h
if-Returns false x y w h k = k

continue_with-Answered :
    {A : Type 0} (s cookie : ℕ) (x : Result A × World) (k : A → M (Unit {0}))
    → Returns x
    → ((a : A) (v : World) → Answered s cookie (k a v))
    → Answered s cookie (continue_with x k)
continue_with-Answered s cookie x k (a, v, e) h =
    let (result, u, f) = h a v in (result, u, rw (e, continue_with) f)

add_reference-Returns : (s handle : ℕ) (w : World) → Returns (add_reference_for_handle s handle w)
unfolding add_reference_for_handle
add_reference-Returns s handle w =
    if-Returns (is_handle_known handle w.registry)
      (modify_registry (referenced (find handle w.registry.references) s handle) >> pure ok_status)
      (pure dead_object) w (_, _, refl) (_, _, refl)

dereference-Returns :
    (sessions : Option (List ℕ)) (handle : ℕ) (w : World) → Returns (dereference sessions handle w)
dereference-Returns none handle w = (_, _, refl)
dereference-Returns (some sessions) handle w = (_, _, refl)

remove_reference-Returns :
    (references : Option (List ℕ)) (s handle : ℕ) (w : World)
    → Returns (remove_reference references s handle w)
remove_reference-Returns none s handle w = (_, _, refl)
remove_reference-Returns (some sessions) s handle w =
    dereference-Returns (remove_first s sessions) handle w

release_reference-Returns :
    (s handle : ℕ) (w : World) → Returns (remove_reference_for_handle s handle w)
unfolding remove_reference_for_handle
release_reference-Returns s handle w =
    if-Returns (is_handle_known handle w.registry)
      (remove_reference (find handle w.registry.references) s handle) (pure dead_object) w
      (remove_reference-Returns (find handle w.registry.references) s handle w) (_, _, refl)

reference_status-Returns :
    (kind : MessageType) (s handle : ℕ) (w : World) → Returns (reference_status kind s handle w)
reference_status-Returns acquire s handle w = add_reference-Returns s handle w
reference_status-Returns release s handle w = release_reference-Returns s handle w
reference_status-Returns _ s handle w = (_, _, refl)

request_death-Returns :
    (s handle object_id : ℕ) (w : World) → Returns (request_death s handle object_id w)
unfolding request_death
request_death-Returns s handle object_id w =
    if-Returns (is_some (find handle (w.sessions s).death_notifications)) (pure already_exists) _ w
      (_, _, refl) (_, _, refl)

clear_death-Returns : (s handle : ℕ) (w : World) → Returns (clear_death s handle w)
unfolding clear_death
clear_death-Returns s handle w =
    if-Returns (is_some (find handle (w.sessions s).death_notifications)) _ (pure bad_value) w
      (_, _, refl) (_, _, refl)

death_status-Returns :
    (kind : MessageType) (s handle object_id : ℕ) (w : World)
    → Returns (death_status kind s handle object_id w)
death_status-Returns request_death_notification s handle object_id w =
    request_death-Returns s handle object_id w
death_status-Returns clear_death_notification s handle object_id w = clear_death-Returns s handle w
death_status-Returns _ s handle object_id w = (_, _, refl)

module _ (alloc : Allocator) (memory : NeverFails alloc) where
  on_reference-answers :
      (s : ℕ) (m : Message) (w : World)
      → 8 ≤ length m.body.bytes
      → Answered s m.cookie (on_reference alloc s m w)
  unfolding on_reference
  on_reference-answers s m w h =
      rw (read_value-ok 8 (get_reader m) h, continue_with)
        (continue_with-Answered s m.cookie _ (λ result. send_status alloc s m result)
          (reference_status-Returns m.kind s (get_or m.body.bytes 0 0) w)
          (λ result v. answer alloc memory s m result v))

  on_death_notification-answers :
      (s : ℕ) (m : Message) (w : World)
      → 16 ≤ length m.body.bytes
      → Answered s m.cookie (on_death_notification alloc s m w)
  unfolding on_death_notification
  on_death_notification-answers s m w h =
      rw
        (
          read_value-ok 8 (get_reader m) (omega (arith, h)),
          continue_with,
          read_value-ok 8 (record (get_reader m) { current = 8 }) h,
          continue_with,
        )
        (continue_with-Answered s m.cookie _ (λ result. send_status alloc s m result)
          (death_status-Returns m.kind s (get_or m.body.bytes 0 0) (get_or m.body.bytes 8 0) w)
          (λ result v. answer alloc memory s m result v))

  if-Answered :
      (b : Bool) (s cookie : ℕ) (x y : M (Unit {0})) (w : World)
      → Answered s cookie (x w)
      → Answered s cookie (y w)
      → Answered s cookie ((if b then x else y) w)
  if-Answered true s cookie x y w h k = h
  if-Answered false s cookie x y w h k = k

  on_set_context_manager-answers :
      (s : ℕ) (m : Message) (w : World)
      → IsWritable m
      → Answered s m.cookie (on_set_context_manager alloc s m w)
  unfolding on_set_context_manager
  on_set_context_manager-answers s m w h =
      rw (forward_to_monitor_lem alloc memory m w h, continue_with)
        (if-Answered (is_some (logged m w).registry.context_mgr) s m.cookie
          (send_status alloc s m already_exists)
          (set_context_manager (some s) >> send_status alloc s m ok_status) (logged m w)
          (answer alloc memory s m _ _) (answer alloc memory s m _ _))

  on_set_monitor-answers :
      (s : ℕ) (m : Message) (w : World) → Answered s m.cookie (on_set_monitor alloc s m w)
  unfolding on_set_monitor
  on_set_monitor-answers s m w =
      if-Answered (is_some w.registry.monitor) s m.cookie (send_status alloc s m already_exists)
        (make_monitor (some s) >> send_status alloc s m ok_status) w (answer alloc memory s m _ _)
        (answer alloc memory s m _ _)

  dispatch-answers :
      (kind : MessageType) (s : ℕ) (m : Message) (w : World)
      → m.kind ≡ kind
      → IsPlainRequest kind
      → IsComplete kind (length m.body.bytes)
      → IsWritable m
      → Answered s m.cookie (dispatch alloc kind s m w)
  dispatch-answers set_context_mgr s m w e p c h = on_set_context_manager-answers s m w h
  dispatch-answers set_monitor s m w e p c h = on_set_monitor-answers s m w
  dispatch-answers transaction s m w e p c h = absurd p
  dispatch-answers transaction_reply s m w e p c h = absurd p
  dispatch-answers status s m w e p c h = absurd p
  dispatch-answers acquire s m w e p c h = on_reference-answers s m w c
  dispatch-answers release s m w e p c h = on_reference-answers s m w c
  dispatch-answers request_death_notification s m w e p c h = on_death_notification-answers s m w c
  dispatch-answers clear_death_notification s m w e p c h = on_death_notification-answers s m w c
  dispatch-answers _ s m w e p c h = answer alloc memory s m invalid_operation w

  -- Every message that is no transaction and no reply, with a body that its handler can read and
  -- that can be logged, is answered: the handler ends by writing a status with the message's cookie
  -- to the sender. A message of an unknown kind is too. Allocations succeed.
  pub process_message-answers :
      (s : ℕ) (m : Message) (w : World)
      → IsPlainRequest m.kind
      → IsComplete m.kind (length m.body.bytes)
      → IsWritable m
      → Answered s m.cookie (process_message alloc s m w)
  unfolding process_message
  process_message-answers s m w p c h = dispatch-answers m.kind s m w refl p c h
