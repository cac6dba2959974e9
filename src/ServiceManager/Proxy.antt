-- ===== src/ServiceManager/Proxy.antt =====
-- src/binderd/service_manager_proxy.cpp: the service manager's client. The conversions between strings
-- and `Transact` of the client, with the context manager as its destination, are parameters; a reply is
-- its data. The client is not the null pointer.
pub mod Listing
pub mod Complete
use binderd.Common.{
  ℕ, zero, suc, ◌+◌, ◌-◌, ◌^◌, ◌==◌, Bool, true, false, if◌then◌else◌, List, [], ◌∷◌, ◌++◌, Option,
  none, some, Bytes, Result, ok, err, undefined,
}
use mathlib.Core.Option.{map}
use binderd.Common.Effects.{Act, proceed, ◌>>=◌, ◌>>◌, pure, lift, get, modify}
use binderd.Buffer.{Allocator}
use binderd.Reader.{Reader, read_string16}
use binderd.Status.{Status, ok_status, bad_value}
use binderd.Transaction.{TransactionData}
use binderd.Pool.{Pool}
use binderd.Parcel.{
  ParcelWriter, new_parcel_writer, set_code, write_interface_token, parcel_write_int32,
  parcel_write_string16, finalize, parcel_reader, Found, read_object,
}
use binderd.ServiceManager.Transact.{
  interface_name, add_service_transaction, get_service_transaction, list_services_transaction,
}

-- An index that is refused is how the list ends.
abbrev pub list_status : Status × List Bytes → Status × List Bytes
list_status (bad_value, names) = (ok_status, names)
list_status (result, names) = (result, names)

-- `n++` on an int32_t.
unfoldable pub next_int32 : ℕ → Result ℕ
next_int32 n = if n == 2 ^ 31 - 1 then undefined else ok (n + 1)

module _ (alloc : Allocator) {S : Type 0} (to_string8 : List ℕ → Result Bytes)
    (to_string16 : Bytes → Result (List ℕ))
    (transact : TransactionData → Act S (Status × Option Bytes)) where
  -- The front of every request.
  unfoldable pub begin_parcel : ℕ → Act S ParcelWriter
  begin_parcel code = do
    w ← lift (new_parcel_writer alloc)
    lift (write_interface_token alloc to_string16 interface_name 0 (set_code code w))

  -- `AddService`; `write` is `WriteObject` of the object, `options` says whether isolated processes
  -- may use the service.
  unfoldable pub proxy_add_service :
      Bytes → (ParcelWriter → Act S ParcelWriter) → Bool → Act S Status
  proxy_add_service name write allow_isolated = do
    w ← begin_parcel add_service_transaction
    units ← lift (to_string16 name)
    w1 ← lift (parcel_write_string16 alloc units w)
    w2 ← write w1
    w3 ← lift (parcel_write_int32 alloc (if allow_isolated then 1 else 0) w2)
    (result, reply) ← transact (finalize w3)
    pure result

  abbrev pub object_of_reply : (S → Pool) → Option Bytes → Act S (Status × Option Found)
  object_of_reply get_pool none = pure (bad_value, none)
  object_of_reply get_pool (some memory) = do
    s ← get
    (found, r) ← lift (read_object (some (get_pool s)) (parcel_reader memory))
    pure (ok_status, some found)

  abbrev pub get_reply : (S → Pool) → Status × Option Bytes → Act S (Status × Option Found)
  get_reply get_pool (ok_status, reply) = object_of_reply get_pool reply
  get_reply get_pool (result, reply) = pure (result, none)

  -- `GetService`: the status, and what `ReadObject` finds in the reply.
  unfoldable pub proxy_get_service : (S → Pool) → Bytes → Act S (Status × Option Found)
  proxy_get_service get_pool name = do
    w ← begin_parcel get_service_transaction
    units ← lift (to_string16 name)
    w1 ← lift (parcel_write_string16 alloc units w)
    answer ← transact (finalize w1)
    get_reply get_pool answer

  abbrev pub name_of_reply : Option Bytes → Act S (List Bytes)
  name_of_reply none = pure []
  name_of_reply (some memory) = do
    (units, r) ← lift (read_string16 alloc (parcel_reader memory))
    name ← lift (to_string8 units)
    pure (name ∷ [])

  abbrev pub list_again :
      Status
      → List Bytes
      → Act S (Option (Status × List Bytes))
      → Act S (Option (Status × List Bytes))
  list_again ok_status names rest = rest
  list_again result names rest = pure (some (result, names))

  -- The loop of `ListServices`, on fuel: the last status, and the names, or `none` where the rounds are
  -- used up.
  unfoldable pub list_loop : ℕ → ℕ → List Bytes → Act S (Option (Status × List Bytes))
  list_loop zero n names = pure none
  list_loop (suc fuel) n names = do
    w ← begin_parcel list_services_transaction
    w1 ← lift (parcel_write_int32 alloc n w)
    n' ← lift (next_int32 n)
    (result, reply) ← transact (finalize w1)
    more ← name_of_reply reply
    list_again result (names ++ more) (list_loop fuel n' (names ++ more))

  abbrev pub proxy_list_services : ℕ → Act S (Option (Status × List Bytes))
  proxy_list_services fuel = list_loop fuel 0 [] >>= λ out. pure (map list_status out)
