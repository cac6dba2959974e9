-- ===== src/Transaction/Received.antt =====
-- TransactionDataFromMessage over the body that `TransactionData::Pack` wrote.
use binderd.Common.{
  ℕ, ◌+◌, ◌-◌, ◌<◌, ◌≡◌, refl, ap, ◌∙◌, false, [], ◌∷◌, ◌++◌, arith, Bytes, le_bytes, length, take,
  slice, ok, ◌>>=◌, append-nil, append_assoc, length-append, length-le_bytes, drop-append,
  take-append, le_value-le_bytes, take_all,
}
use native.Mathlib.Nat.{mod-eq_of_lt}
use binderd.Writer.Data.{padded, length-padded}
use binderd.Reader.Numbers.{at_bytes, read_value-le_bytes, read_data-padded, data_buffer}
use binderd.Reader.{read_sized_data}
use binderd.Message.{Message}
use binderd.Status.{Status, IsNamed, status_code, status_of_code-status_code, status_code-lt}
use binderd.Transaction.{
  TransactionData, pack_flags, from_message, get_data, get_object_offsets, is_one_way, has_status,
  get_status, transaction_status,
}
use binderd.Transaction.RoundTrip.{packed_objects, words, sized, encode, from_encoded}

length-data_buffer : (b : Bytes) → length (data_buffer b).bytes ≡ length b
length-data_buffer [] = refl
length-data_buffer (b ∷ bs) = refl

-- A sized block is read back, and the reader stands behind it.
read_sized :
    (front b back : Bytes)
    → length b < 256
    → read_sized_data (at_bytes front (sized b ++ back) false)
      ≡ ok (data_buffer b, at_bytes (front ++ sized b) back false)
unfolding read_sized_data
read_sized front b back h =
    let size : Bytes = le_bytes 4 (length b) in
    rw (
      append_assoc size (padded false b) back,
      read_value-le_bytes front (padded false b ++ back) false 4 (length b) (omega arith),
      ◌>>=◌,
      mod-eq_of_lt h,
      read_data-padded (front ++ size) b back false (omega arith),
      append_assoc front size (padded false b),
    )

length-words : (t : TransactionData) → length (words t) ≡ 24
length-words t =
    let b : Bytes = le_bytes 8 t.binder in
    let c : Bytes = le_bytes 8 t.cookie in
    let d : Bytes = le_bytes 4 t.code in
    let flags : ℕ = pack_flags t.is_one_way t.has_status in
    omega (
      arith,
      length-append (b ++ c ++ d) (le_bytes 4 flags),
      length-append (b ++ c) d,
      length-append b c,
      length-le_bytes 8 t.binder,
      length-le_bytes 8 t.cookie,
      length-le_bytes 4 t.code,
      length-le_bytes 4 flags,
    )

length-sized : (b : Bytes) → length (sized b) ≡ 4 + length b
length-sized b = omega (
  arith,
  length-append (le_bytes 4 (length b)) (padded false b),
  length-le_bytes 4 (length b),
  length-padded false b,
)

module _ (t : TransactionData) (back : Bytes) where
  body_place : length (words t ++ sized t.body) - length (data_buffer t.body).bytes ≡ 28
  body_place = omega (
    arith,
    length-append (words t) (sized t.body),
    length-words t,
    length-sized t.body,
    length-data_buffer t.body,
  )

  objects_place :
      length (words t ++ sized t.body ++ sized (packed_objects t))
        - length (data_buffer (packed_objects t)).bytes
      ≡ 32 + length t.body
  objects_place = omega (
    arith,
    length-append (words t ++ sized t.body) (sized (packed_objects t)),
    length-append (words t) (sized t.body),
    length-words t,
    length-sized t.body,
    length-sized (packed_objects t),
    length-data_buffer (packed_objects t),
  )

  pub from_message-encode :
      (m : Message)
      → m.body.bytes ≡ encode t ++ back
      → length t.body < 256
      → length (packed_objects t) < 256
      → from_message m ≡ ok (from_encoded t)
  unfolding from_message
  from_message-encode m e hb ho =
      let b : Bytes = le_bytes 8 t.binder in
      let c : Bytes = le_bytes 8 t.cookie in
      let d : Bytes = le_bytes 4 t.code in
      let flags : ℕ = pack_flags t.is_one_way t.has_status in
      let f : Bytes = le_bytes 4 flags in
      let sb : Bytes = sized t.body in
      let so : Bytes = sized (packed_objects t) in
      let regroup : encode t ++ back ≡ b ++ (c ++ (d ++ (f ++ (sb ++ (so ++ back))))) =
        simp append_assoc in
      rw (
        e,
        regroup,
        read_value-le_bytes [] (c ++ (d ++ (f ++ (sb ++ (so ++ back))))) false 8 t.binder
            (omega arith),
        ◌>>=◌,
        read_value-le_bytes b (d ++ (f ++ (sb ++ (so ++ back)))) false 8 t.cookie (omega arith),
        ◌>>=◌,
        read_value-le_bytes (b ++ c) (f ++ (sb ++ (so ++ back))) false 4 t.code (omega arith),
        ◌>>=◌,
        read_value-le_bytes (b ++ c ++ d) (sb ++ (so ++ back)) false 4 flags (omega arith),
        ◌>>=◌,
        read_sized (words t) t.body (so ++ back) hb,
        ◌>>=◌,
        read_sized (words t ++ sb) (packed_objects t) back ho,
        ◌>>=◌,
        body_place,
        objects_place,
        length-data_buffer t.body,
        length-data_buffer (packed_objects t),
      )

-- A block inside memory.
slice_block :
    (front block back : Bytes) (at size : ℕ)
    → at ≡ length front
    → size ≡ length block
    → slice (front ++ (block ++ back)) at size ≡ block
slice_block front block back at size h k =
    ap (take size) (drop-append at front (block ++ back) h) ∙ take-append size block back k

module _ (t : TransactionData) (back : Bytes) where
  -- The data and the object offsets are found where they were packed.
  pub get_data-encode : get_data (from_encoded t) (encode t ++ back) ≡ t.body
  unfolding get_data
  get_data-encode =
      let size : Bytes = le_bytes 4 (length t.body) in
      let rest : Bytes = sized (packed_objects t) ++ back in
      let regroup : encode t ++ back ≡ (words t ++ size) ++ (t.body ++ rest) =
        simp (append_assoc, append-nil) in
      rw regroup (
        slice_block (words t ++ size) t.body rest 28 (length t.body)
          (omega (
            arith,
            length-append (words t) size,
            length-words t,
            length-le_bytes 4 (length t.body),
          ))
          refl)

  pub get_object_offsets-encode :
      get_object_offsets (from_encoded t) (encode t ++ back) ≡ packed_objects t
  unfolding get_object_offsets
  get_object_offsets-encode =
      let objects : Bytes = packed_objects t in
      let size : Bytes = le_bytes 4 (length objects) in
      let front : Bytes = words t ++ sized t.body ++ size in
      let regroup : encode t ++ back ≡ front ++ (objects ++ back) =
        simp (append_assoc, append-nil) in
      rw regroup (
        slice_block front objects back (32 + length t.body) (length objects)
          (omega (
            arith,
            length-append (words t ++ sized t.body) size,
            length-append (words t) (sized t.body),
            length-words t,
            length-sized t.body,
            length-le_bytes 4 (length objects),
          ))
          refl)

-- The two flags come back as they were packed.
pub flags_lem :
    (t : TransactionData)
    → (is_one_way (from_encoded t) ≡ t.is_one_way) × (has_status (from_encoded t) ≡ t.has_status)
unfolding is_one_way has_status pack_flags
flags_lem t = ground arith

-- A status that `TransactionStatus` carries comes back whole, through the four bytes of its data.
pub get_status-encode :
    (s : Status) (back : Bytes)
    → IsNamed s
    → get_status (from_encoded (transaction_status s)) (encode (transaction_status s) ++ back) ≡ s
unfolding get_status
get_status-encode s back h = rw (
  get_data-encode (transaction_status s) back,
  take_all 4 (le_bytes 4 (status_code s)) (omega (arith, length-le_bytes 4 (status_code s))),
  le_value-le_bytes 4 (status_code s) (status_code-lt s h),
  status_of_code-status_code s h,
)
