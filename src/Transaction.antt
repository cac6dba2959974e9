-- ===== src/Transaction.antt =====
-- src/binderd/transaction_data.h and its three implementations: the payload of a transaction or of
-- a reply, packed into the body of a message.
pub mod RoundTrip
pub mod Received
pub mod Whole
pub mod Bounds
pub mod Carried
use binderd.Common.{
  ℕ, zero, suc, ◌+◌, ◌-◌, ◌*◌, ◌/◌, Bool, true, false, not, List, [], ◌∷◌, ◌==◌, if◌then◌else◌,
  Bytes, slice, take, length, bit_or, bit_and, le_bytes, le_value, Result, ok, err, ◌>>=◌,
}
use binderd.Buffer.{Allocator, Buffer}
use binderd.Writer.{
  Writer, new_writer, set_padding, write_value, write_uint64, write_uint32, write_sized_data,
}
use binderd.Reader.{
  Reader, set_padding as reader_set_padding, read_uint32, read_uint64, read_sized_data,
}
use binderd.Message.{Message}
use binderd.Message.Wire.{get_reader}
use binderd.Status.{Status, status_code, status_of_code, ok_status}

-- What the getters of a `TransactionData` return. `objects` is the memory of the object offsets.
pub record TransactionData : Type 0 where
  pub binder : ℕ
  pub cookie : ℕ
  pub code : ℕ
  pub is_one_way : Bool
  pub has_status : Bool
  pub body : Bytes
  pub objects : Bytes

-- `sizeof(binder_size_t)`
abbrev pub offset_size : ℕ
offset_size = 8

abbrev pub get_num_object_offsets : TransactionData → ℕ
get_num_object_offsets t = length t.objects / offset_size

-- `TransactionData::Flags`
abbrev pub flag_one_way : ℕ
flag_one_way = 0x1

abbrev pub flag_has_status : ℕ
flag_has_status = 0x8

abbrev pub flag_accept_fds : ℕ
flag_accept_fds = 0x10

unfoldable pub pack_flags : Bool → Bool → ℕ
pack_flags one_way has_status =
    let flags = if one_way then bit_or flag_accept_fds flag_one_way else flag_accept_fds in
    if has_status then bit_or flags flag_has_status else flags

-- WritableTransactionData: a default-constructed one, and its setters as record updates.
abbrev pub writable : TransactionData
writable = record {
  binder = 0;
  cookie = 0;
  code = 0;
  is_one_way = false;
  has_status = false;
  body = [];
  objects = [];
}

-- TransactionStatus: the memory of the status word is the data.
abbrev pub transaction_status : Status → TransactionData
transaction_status s = record writable { has_status = true; body = le_bytes 4 (status_code s) }

module _ (alloc : Allocator) where
  -- `TransactionData::Pack`
  unfoldable pub pack : TransactionData → Result Buffer
  pack t = do
    w ← new_writer alloc
    w1 ← write_uint64 alloc t.binder (set_padding false w)
    w2 ← write_uint64 alloc t.cookie w1
    w3 ← write_uint32 alloc t.code w2
    w4 ← write_uint32 alloc (pack_flags t.is_one_way t.has_status) w3
    w5 ← write_sized_data alloc t.body w4
    w6 ← write_sized_data alloc (take (get_num_object_offsets t * offset_size) t.objects) w5
    ok w6.buffer

-- TransactionDataFromMessage: its buffers are views of the message's body, so they are kept as
-- positions there, and a change of the body shows through them.
pub record FromMessage : Type 0 where
  pub binder : ℕ
  pub cookie : ℕ
  pub code : ℕ
  pub flags : ℕ
  pub data_at : ℕ
  pub data_size : ℕ
  pub objects_at : ℕ
  pub objects_size : ℕ

abbrev pub num_objects : FromMessage → ℕ
num_objects t = t.objects_size / offset_size

unfoldable pub from_message : Message → Result FromMessage
from_message m = do
  (binder, r1) ← read_uint64 (reader_set_padding false (get_reader m))
  (cookie, r2) ← read_uint64 r1
  (code, r3) ← read_uint32 r2
  (flags, r4) ← read_uint32 r3
  (body, r5) ← read_sized_data r4
  (objects, r6) ← read_sized_data r5
  ok (record {
    binder = binder;
    cookie = cookie;
    code = code;
    flags = flags;
    data_at = r5.current - length body.bytes;
    data_size = length body.bytes;
    objects_at = r6.current - length objects.bytes;
    objects_size = length objects.bytes;
  })

-- The getters, given the message's body as it is now.
unfoldable pub get_data : FromMessage → Bytes → Bytes
get_data t memory = slice memory t.data_at t.data_size

unfoldable pub get_object_offsets : FromMessage → Bytes → Bytes
get_object_offsets t memory = slice memory t.objects_at t.objects_size

unfoldable pub is_one_way : FromMessage → Bool
is_one_way t = not (bit_and t.flags flag_one_way == 0)

unfoldable pub has_status : FromMessage → Bool
has_status t = not (bit_and t.flags flag_has_status == 0)

-- The int32_t at the front of the data. What lies behind short data is not the message's.
unfoldable pub get_status : FromMessage → Bytes → Status
unfolding get_data
get_status t memory = status_of_code (le_value (take 4 (get_data t memory)))
