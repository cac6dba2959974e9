-- ===== src/Transaction/Whole.antt =====
-- A transaction's payload on its whole way: packed by the sender, taken apart by the receiver.
use binderd.Common.{
  ◌<◌, ◌≡◌, sym, ap, ◌∙◌, true, false, [], append-nil, length, arith, ok, length-le_bytes,
  le_bytes-IsByte,
}
use binderd.Buffer.{Allocator, NeverFails, Buffer}
use binderd.Message.{Message}
use binderd.Status.{Status, IsNamed, status_code}
use binderd.Transaction.{
  TransactionData, FromMessage, pack, from_message, get_data, get_object_offsets, is_one_way,
  has_status, get_status, transaction_status,
}
use binderd.Transaction.RoundTrip.{packed_objects, encode, from_encoded, IsStorable, pack_lem}
use binderd.Transaction.Received.{
  from_message-encode, get_data-encode, get_object_offsets-encode, flags_lem, get_status-encode,
}

-- What a receiver gets of a packed transaction.
pub record IsReceived (t : TransactionData) (m : Message) : Type 0 where
  pub parsed : from_message m ≡ ok (from_encoded t)
  pub payload : get_data (from_encoded t) m.body.bytes ≡ t.body
  pub offsets : get_object_offsets (from_encoded t) m.body.bytes ≡ packed_objects t
  pub one_way : is_one_way (from_encoded t) ≡ t.is_one_way
  pub status : has_status (from_encoded t) ≡ t.has_status

abbrev packed_buffer : TransactionData → Buffer
packed_buffer t = record { bytes = encode t; immutable = false }

encode-IsReceived :
    (t : TransactionData) (m : Message)
    → length t.body < 256
    → length (packed_objects t) < 256
    → IsReceived t (record m { body = packed_buffer t })
encode-IsReceived t m hb ho = record {
  parsed =
      from_message-encode t [] (record m { body = packed_buffer t }) (sym (append-nil (encode t)))
        hb ho;
  payload = ap (get_data (from_encoded t)) (sym (append-nil (encode t))) ∙ get_data-encode t [];
  offsets =
      ap (get_object_offsets (from_encoded t)) (sym (append-nil (encode t)))
      ∙ get_object_offsets-encode t [];
  one_way = (flags_lem t).0;
  status = (flags_lem t).1;
}

pub status-IsStorable : (s : Status) → IsStorable (transaction_status s)
status-IsStorable s = record {
  body_small = omega (arith, length-le_bytes 4 (status_code s));
  objects_small = omega arith;
  body_bytes = le_bytes-IsByte 4 (status_code s);
  object_bytes = tt;
}

module _ (alloc : Allocator) (memory : NeverFails alloc) where
  -- A transaction whose data and object offsets are bytes and shorter than 256 packs, and out of a
  -- message with the result as its body come the same data, the whole object offsets and both
  -- flags; binder, cookie and code come reduced modulo 256. Allocations succeed.
  pub from_message-pack :
      (t : TransactionData) (m : Message)
      → IsStorable t
      → length t.body < 256
      → length (packed_objects t) < 256
      → (b : Buffer) × (pack alloc t ≡ ok b) × IsReceived t (record m { body = b })
  from_message-pack t m s hb ho =
      (packed_buffer t, pack_lem alloc memory t s, encode-IsReceived t m hb ho)

  -- A status that `TransactionStatus` carries reaches the other side whole: for every enumerator the
  -- payload packs, and the message with it as its body is recognised as a status and yields the same. Allocations
  -- succeed.
  pub get_status-pack :
      (s : Status) (m : Message)
      → IsNamed s
      → (b : Buffer) × (pack alloc (transaction_status s) ≡ ok b)
        × (t : FromMessage) × (from_message (record m { body = b }) ≡ ok t)
        × (has_status t ≡ true)
        × (get_status t b.bytes ≡ s)
  get_status-pack s m h =
      let t = transaction_status s in
      let whole =
        encode-IsReceived t m (omega (arith, length-le_bytes 4 (status_code s))) (omega arith) in
      (
        packed_buffer t,
        pack_lem alloc memory t (status-IsStorable s),
        from_encoded t,
        whole.parsed,
        whole.status,
        ap (get_status (from_encoded t)) (sym (append-nil (encode t))) ∙ get_status-encode s [] h,
      )
