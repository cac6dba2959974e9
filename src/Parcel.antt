-- ===== src/Parcel.antt =====
-- src/binderd/parcel_transaction_data_writer.cpp, parcel_transaction_data_reader.cpp: the data of
-- transactions as Android's parcels lay them out. `utils::to_string8` and `to_string16` are the
-- standard library's conversion; they are parameters, as is the client's object pool.
pub mod Objects
pub mod RoundTrip
use binderd.Common.{
  ℕ, ◌+◌, Bool, true, false, ◌==◌, bit_or, if◌then◌else◌, List, [], ◌∷◌, ◌++◌, ◌&&◌, Option, none,
  some, Bytes, le_bytes, Result, ok, ◌>>=◌,
}
use binderd.Buffer.{Allocator, Buffer, create}
use binderd.Writer.{
  Writer, open_writer, write_int32, write_uint64, write_data, write_string16, get_bytes_written,
}
use binderd.Reader.{Reader, open_reader, read_int32, read_string16, read_data}
use binderd.Transaction.{TransactionData, writable}
use binderd.Pool.{Pool, contains, adopt_object, get_object}
use binderd.Server.Translate.{type_binder, type_handle, flat_size, get_type, get_handle, get_cookie}
use binderd.Objects.{ObjectType, local, remote}

-- `kStrictModePenaltyGather`, `0x7f | FLAT_BINDER_FLAG_ACCEPTS_FDS` and `ServiceManagerBase`'s codes.
abbrev pub strict_mode_penalty_gather : ℕ
strict_mode_penalty_gather = 0x400000

abbrev pub flat_flags : ℕ
flat_flags = 0x17f

pub record ParcelWriter : Type 0 where
  pub code : ℕ
  pub data_writer : Writer
  pub objects_writer : Writer
  pub local_objects : List ℕ

-- A `flat_binder_object` with zeros where nothing is assigned.
abbrev pub flat_bytes : ℕ → ℕ → ℕ → Bytes
flat_bytes kind handle cookie =
    le_bytes 4 kind
    ++ (le_bytes 4 flat_flags ++ (le_bytes 4 handle ++ (le_bytes 4 0 ++ le_bytes 8 cookie)))

abbrev pub flat_of : ObjectType → ℕ → Bytes
flat_of local address = flat_bytes type_binder 0 address
flat_of (remote handle) address = flat_bytes type_handle handle 0

abbrev pub set_code : ℕ → ParcelWriter → ParcelWriter
set_code code w = record w { code = code }

module _ (alloc : Allocator) where
  -- The constructor; its writers' buffers are the data and the offsets of the objects.
  unfoldable pub new_parcel_writer : Result ParcelWriter
  new_parcel_writer = do
    memory ← create alloc 0
    objects ← create alloc 0
    ok (record {
      code = 0;
      data_writer = open_writer memory;
      objects_writer = open_writer objects;
      local_objects = [];
    })

  abbrev pub parcel_write_int32 : ℕ → ParcelWriter → Result ParcelWriter
  parcel_write_int32 value p = do
    w ← write_int32 alloc value p.data_writer
    ok (record p { data_writer = w })

  -- `WriteString16` of UTF-16 units.
  abbrev pub parcel_write_string16 : List ℕ → ParcelWriter → Result ParcelWriter
  parcel_write_string16 units p = do
    w ← write_string16 alloc units p.data_writer
    ok (record p { data_writer = w })

  unfoldable pub write_interface_token :
      (Bytes → Result (List ℕ)) → Bytes → ℕ → ParcelWriter → Result ParcelWriter
  write_interface_token to_string16 name policy p = do
    q ← parcel_write_int32 (bit_or strict_mode_penalty_gather policy) p
    units ← to_string16 name
    parcel_write_string16 units q

-- `Finalize`
abbrev pub finalize : ParcelWriter → TransactionData
finalize p = record writable {
  code = p.code;
  body = p.data_writer.buffer.bytes;
  objects = p.objects_writer.buffer.bytes;
}

-- A ParcelTransactionDataReader is a reader of the transaction's data.
abbrev pub parcel_reader : Bytes → Reader
parcel_reader memory = record { bytes = memory; current = 0; use_padding = true }

-- What `ReadObject` returns: the null pointer, a new remote object for a handle, a new local object
-- without a handler, or what the client's pool has.
pub data Found : Type 0 where
  null_object : Found
  new_remote : ℕ → Found
  new_local : Found
  pooled : Option ℕ → Found

abbrev pub by_cookie : Option Pool → ℕ → Found
by_cookie none cookie = new_local
by_cookie (some pool) cookie = pooled (get_object cookie pool)

unfoldable pub object_in : Option Pool → Bytes → Found
object_in pool flat =
    if get_type flat 0 == type_handle
    then new_remote (get_handle flat 0)
    else if get_type flat 0 == type_binder
    then by_cookie pool (get_cookie flat 0)
    else null_object

-- `ReadObject`, with the client's pool where there is a client.
unfoldable pub read_object : Option Pool → Reader → Result (Found × Reader)
read_object pool r = do (buffer, r') ← read_data flat_size r; ok (object_in pool buffer.bytes, r')

module _ (alloc : Allocator) where
  -- `EnforceInterface`: whether the names agree, and the reader behind the name.
  unfoldable pub enforce_interface :
      (List ℕ → Result Bytes) → (Bytes → Bytes → Bool) → Bytes → Reader → Result (Bool × Reader)
  enforce_interface to_string8 same name r = do
    (policy, r1) ← read_int32 r
    (units, r2) ← read_string16 alloc r1
    provided ← to_string8 units
    ok (same provided name, r2)
