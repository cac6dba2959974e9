-- ===== src/Objects.antt =====
-- src/binderd/object.h, local_object.cpp, remote_object.cpp: the objects that a client holds. A
-- recipient of death notices is named by its address.
pub mod Deaths
use binderd.Common.{
  ℕ, ◌+◌, ◌*◌, ◌^◌, Bool, true, false, ◌==◌, ◌||◌, ◌&&◌, if◌then◌else◌, List, [], ◌∷◌, ◌++◌, Option,
  none, some, is_some, Bytes, Result, undefined,
}
use binderd.Common.Effects.{Act, proceed, ◌>>=◌, ◌>>◌, pure, lift, get, modify}
use binderd.Status.{
  Status, ok_status, unknown_transaction, dead_object, name_not_found, invalid_operation,
}
use binderd.Transaction.{TransactionData, FromMessage}
use binderd.Client.Incoming.{is_ok}

-- `Object::Type`, with the handle of a remote object.
pub data ObjectType : Type 0 where
  local : ObjectType
  remote : ℕ → ObjectType

-- `BINDER_PACK_CHARS` of constants.h.
abbrev pub pack_chars : ℕ → ℕ → ℕ → ℕ → ℕ
pack_chars a b c d = a * 2 ^ 24 + b * 2 ^ 16 + c * 2 ^ 8 + d

abbrev pub dump_transaction_code : ℕ
dump_transaction_code = pack_chars b'_' b'D' b'M' b'P'

abbrev pub shell_command_transaction_code : ℕ
shell_command_transaction_code = pack_chars b'_' b'C' b'M' b'D'

abbrev pub interface_transaction_code : ℕ
interface_transaction_code = pack_chars b'_' b'N' b'T' b'F'

abbrev pub sys_props_transaction_code : ℕ
sys_props_transaction_code = pack_chars b'_' b'S' b'P' b'R'

abbrev pub is_base_code : ℕ → Bool
is_base_code code =
    (code == interface_transaction_code || code == dump_transaction_code)
    || (code == shell_command_transaction_code || code == sys_props_transaction_code)

-- `OnTransact` of the object's handler; an object may have been made without one.
abbrev pub Handler : Type 0 → Type 0
Handler S = FromMessage → Bytes → Act S (Status × Option TransactionData)

abbrev pub handle_with : {S : Type 0} → Option (Handler S) → Handler S
handle_with none request memory = lift undefined
handle_with (some on_transact) request memory = on_transact request memory

-- `LocalObject::Transact`
unfoldable pub local_transact : {S : Type 0} → Option (Handler S) → Handler S
local_transact handler request memory =
    if is_base_code request.code
    then pure (unknown_transaction, none)
    else handle_with handler request memory

-- `LocalObject::LinkToDeath` and `UnlinkToDeath`
abbrev pub local_link_to_death : {S : Type 0} → ℕ → Act S Status
local_link_to_death recipient = pure invalid_operation

-- `releases` says that the object holds a reference on its handle, to release in the end.
pub record RemoteObject : Type 0 where
  pub handle : ℕ
  pub releases : Bool
  pub obituaries_sent : Bool
  pub obituaries : List ℕ

-- Where `std::find` stands before the recipient, the list without it.
unfoldable pub without : ℕ → List ℕ → Option (List ℕ)
without recipient [] = none
without recipient (r ∷ rs) =
    let rest = without recipient rs in if r == recipient then some rs else with_first r rest
  where
    with_first : ℕ → Option (List ℕ) → Option (List ℕ)
    with_first r none = none
    with_first r (some rs) = some (r ∷ rs)

-- The client's calls that the object makes, and what a recipient does when it is told.
pub record Environment (S : Type 0) : Type 0 where
  pub add_reference : ℕ → Act S Status
  pub release_reference : ℕ → Act S Status
  pub transact : ℕ → Option TransactionData → Act S (Status × Option Bytes)
  pub request_death_notification : ℕ → Act S Status
  pub clear_death_notification : ℕ → Act S Status
  pub on_object_died : ℕ → Act S (Unit {0})

module _ {S : Type 0} (environment : Environment S) where
  -- `RemoteObject::Create`, with a client or without; the status of the acquire is ignored.
  unfoldable pub create_remote_object : Bool → ℕ → Act S RemoteObject
  create_remote_object has_client handle =
      let o : RemoteObject = record {
        handle = handle;
        releases = has_client;
        obituaries_sent = false;
        obituaries = [];
      } in
      if has_client then (environment.add_reference handle >>= λ result. pure o) else pure o

  -- The destructor.
  unfoldable pub destroy_remote_object : RemoteObject → Act S (Unit {0})
  destroy_remote_object o =
      if o.releases then (environment.release_reference o.handle >>= λ result. pure tt) else pure tt

  -- `RemoteObject::Transact`
  abbrev pub remote_transact : RemoteObject → Option TransactionData → Act S (Status × Option Bytes)
  remote_transact o request = environment.transact o.handle request

-- An object with everything else. The client's calls and the recipients may come back to the object.
pub record Held (S : Type 0) : Type 0 where
  pub object : RemoteObject
  pub outside : S

abbrev pub with_obituaries : {S : Type 0} → List ℕ → Held S → Held S
with_obituaries recipients h = record h { object = record (h.object) { obituaries = recipients } }

abbrev pub sent : {S : Type 0} → Held S → Held S
sent h = record h { object = record (h.object) { obituaries_sent = true } }

unfoldable pub same_recipients : List ℕ → List ℕ → Bool
same_recipients [] [] = true
same_recipients (r ∷ rs) (q ∷ qs) = let rest = same_recipients rs qs in (r == q) && rest
same_recipients _ _ = false

module _ {S : Type 0} (environment : Environment (Held S)) where
  abbrev pub linked : ℕ → Status → Act (Held S) Status
  linked recipient result =
      if is_ok result
      then (modify (λ h. with_obituaries (h.object.obituaries ++ recipient ∷ []) h)
          >> pure ok_status)
      else pure result

  -- `LinkToDeath`
  unfoldable pub link_to_death : ℕ → Act (Held S) Status
  link_to_death recipient = do
    h ← get
    if h.object.obituaries_sent
        then pure dead_object
        else (environment.request_death_notification h.object.handle >>= linked recipient)

  -- The lock is held, so the list is the one that was searched.
  abbrev pub unlinked : List ℕ → Status → Act (Held S) Status
  unlinked left result =
      if is_ok result then (modify (with_obituaries left) >> pure ok_status) else pure result

  abbrev pub unlink_from : Option (List ℕ) → ℕ → Act (Held S) Status
  unlink_from none handle = pure name_not_found
  unlink_from (some left) handle = environment.clear_death_notification handle >>= unlinked left

  -- `UnlinkToDeath`
  unfoldable pub unlink_to_death : ℕ → Act (Held S) Status
  unlink_to_death recipient = do
    h ← get
    if h.object.obituaries_sent
        then pure dead_object
        else unlink_from (without recipient h.object.obituaries) h.object.handle

  -- The loop over the recipients. A recipient that links or unlinks another one changes the vector
  -- that is walked over, whose iterators are invalid then.
  unfoldable pub tell_all : List ℕ → Act (Held S) (Unit {0})
  tell_all [] = pure tt
  tell_all (r ∷ rs) =
      let rest = tell_all rs in
      (do
        before ← get
        environment.on_object_died r
        after ← get
        if same_recipients before.object.obituaries after.object.obituaries
            then rest
            else lift undefined)

  -- `SendObituary`
  unfoldable pub send_obituary : Act (Held S) (Unit {0})
  send_obituary = do
    h ← get
    if h.object.obituaries_sent then pure tt else (tell_all h.object.obituaries >> modify sent)
