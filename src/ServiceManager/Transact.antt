-- ===== src/ServiceManager/Transact.antt =====
-- `OnTransact` of src/binderd/service_manager_service.cpp: requests as parcels, and the service on them.
use binderd.Common.{
  ℕ, zero, suc, ◌^◌, ◌==◌, ◌||◌, leb, if◌then◌else◌, List, [], ◌∷◌, Option, none, some, Bytes,
  Result, length,
}
use binderd.Common.Effects.{Act, ◌>>=◌, pure, lift, get}
use binderd.Buffer.{Allocator}
use binderd.Reader.{Reader, read_int32, read_string16}
use binderd.Status.{Status, ok_status, bad_value, dead_object, unknown_transaction, status_code}
use binderd.Transaction.{TransactionData, get_data}
use binderd.Pool.{Pool}
use binderd.Objects.{ObjectType, Handler}
use binderd.Parcel.{
  ParcelWriter, new_parcel_writer, parcel_write_int32, parcel_write_string16, finalize,
  parcel_reader, Found, null_object, new_remote, new_local, pooled, read_object, enforce_interface,
}
use binderd.Parcel.Objects.{write_object}
use binderd.ServiceManager.{Manager, on_outside, add_service, get_service, list_services, same_name}
use binderd.Client.Incoming.{is_ok}

-- `kInterfaceName`
abbrev pub interface_name : Bytes
interface_name =
    b'a' ∷ b'n' ∷ b'd' ∷ b'r' ∷ b'o' ∷ b'i' ∷ b'd' ∷ b'.' ∷ b'o' ∷ b's' ∷ b'.' ∷ b'I' ∷ b'S' ∷ b'e'
    ∷ b'r' ∷ b'v' ∷ b'i' ∷ b'c' ∷ b'e' ∷ b'M' ∷ b'a' ∷ b'n' ∷ b'a' ∷ b'g' ∷ b'e' ∷ b'r' ∷ []

-- `ServiceManagerBase`'s transactions, from `kFirstTransactionCode` on.
abbrev pub get_service_transaction : ℕ
get_service_transaction = 1

abbrev pub check_service_transaction : ℕ
check_service_transaction = 2

abbrev pub add_service_transaction : ℕ
add_service_transaction = 3

abbrev pub list_services_transaction : ℕ
list_services_transaction = 4

-- What the service uses: the standard library's conversions, and the client with its objects.
-- `create_remote` is `RemoteObject::Create` for a handle; it gives the address of the new object.
pub record Uses (S : Type 0) : Type 0 where
  pub to_string8 : List ℕ → Result Bytes
  pub to_string16 : Bytes → Result (List ℕ)
  pub link_to_death : ℕ → Act S Status
  pub create_remote : ℕ → Act S ℕ
  pub create_local : Act S ℕ
  pub object_type : ℕ → S → ObjectType
  pub get_pool : S → Pool
  pub set_pool : Pool → S → S

abbrev pub Answered : Type 0
Answered = Status × Option TransactionData

-- `services[n]`, inside the list.
unfoldable pub service_at : ℕ → List Bytes → Option Bytes
service_at n [] = none
service_at zero (name ∷ names) = some name
service_at (suc n) (name ∷ names) = service_at n names

module _ (alloc : Allocator) {S : Type 0} (uses : Uses S) where
  -- The reader behind the interface's name; whether that is the right one is ignored.
  abbrev pub behind_interface : Bytes → Act (Manager S) Reader
  behind_interface memory = do
    (agrees, r) ←
        lift
          (enforce_interface alloc uses.to_string8 same_name interface_name (parcel_reader memory))
    pure r

  abbrev pub read_name : Reader → Act (Manager S) (Bytes × Reader)
  read_name r = do
    (units, r') ← lift (read_string16 alloc r)
    name ← lift (uses.to_string8 units)
    pure (name, r')

  -- The object that `ReadObject` returns.
  abbrev pub object_found : Found → Act S (Option ℕ)
  object_found null_object = pure none
  object_found (new_remote handle) = uses.create_remote handle >>= λ object. pure (some object)
  object_found new_local = uses.create_local >>= λ object. pure (some object)
  object_found (pooled object) = pure object

  -- `WriteObject` with the client's pool.
  abbrev pub write_with_pool : ℕ → ParcelWriter → Act S ParcelWriter
  write_with_pool object w s =
      let out = write_object alloc (uses.object_type object s) object w (uses.get_pool s) in
      (out.0, uses.set_pool out.1 s)

  abbrev pub added : Status → Act (Manager S) Answered
  added result =
      if is_ok result
      then (do
        w ← lift (new_parcel_writer alloc)
        w' ← lift (parcel_write_int32 alloc (status_code ok_status) w)
        pure (ok_status, some (finalize w')))
      else pure (result, none)

  unfoldable pub on_add_service : Bytes → Act (Manager S) Answered
  on_add_service memory = do
    r ← behind_interface memory
    (name, r1) ← read_name r
    m ← get
    (found, r2) ← lift (read_object (some (uses.get_pool m.outside)) r1)
    object ← on_outside (object_found found)
    allow_isolated ← lift (read_int32 r2)
    result ← add_service uses.link_to_death name object
    added result

  abbrev pub service_found : Status × Option ℕ → Act (Manager S) Answered
  service_found (ok_status, none) = pure (dead_object, none)
  service_found (ok_status, some object) = do
    w ← lift (new_parcel_writer alloc)
    w' ← on_outside (write_with_pool object w)
    pure (ok_status, some (finalize w'))
  service_found (result, object) = pure (result, none)

  unfoldable pub on_get_service : Bytes → Act (Manager S) Answered
  on_get_service memory = do
    r ← behind_interface memory
    (name, r1) ← read_name r
    m ← get
    service_found (get_service name m.services)

  abbrev pub listed : Option Bytes → Act (Manager S) Answered
  listed none = pure (bad_value, none)
  listed (some name) = do
    w ← lift (new_parcel_writer alloc)
    units ← lift (uses.to_string16 name)
    w' ← lift (parcel_write_string16 alloc units w)
    pure (ok_status, some (finalize w'))

  -- The index is an int32_t: negative ones are refused, as are those behind the end.
  unfoldable pub on_list_services : Bytes → Act (Manager S) Answered
  on_list_services memory = do
    m ← get
    r ← behind_interface memory
    (n, r') ← lift (read_int32 r)
    if leb (2 ^ 31) n || leb (length (list_services m.services)) n
        then pure (bad_value, none)
        else listed (service_at n (list_services m.services))

  unfoldable pub on_transact : Handler (Manager S)
  unfolding get_data
  on_transact request memory =
      if request.code == add_service_transaction
      then on_add_service (get_data request memory)
      else if request.code == check_service_transaction || request.code == get_service_transaction
      then on_get_service (get_data request memory)
      else if request.code == list_services_transaction
      then on_list_services (get_data request memory)
      else pure (unknown_transaction, none)
