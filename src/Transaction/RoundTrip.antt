-- ===== src/Transaction/RoundTrip.antt =====
-- What `TransactionData::Pack` writes, and what TransactionDataFromMessage reads of it.
use binderd.Common.{
  ◌+◌, ◌*◌, ◌%◌, ◌≤◌, ◌≡◌, refl, false, [], ◌++◌, arith, Bytes, IsByte, All, le_bytes, length, take,
  ok, ◌>>=◌, le_bytes-IsByte, All-append, All-take, length-take,
}
use binderd.Buffer.{Allocator, NeverFails, create}
use binderd.Writer.{Writer, open_writer, new_writer, int32_max}
use binderd.Writer.Appends.{AtEnd, appended, appended-AtEnd, write_value_lem}
use binderd.Writer.Data.{padded, write_sized_data_lem}
use binderd.Transaction.{
  TransactionData, FromMessage, pack, pack_flags, get_num_object_offsets, offset_size,
}

-- The object offsets that are packed: whole ones.
abbrev pub packed_objects : TransactionData → Bytes
packed_objects t = take (get_num_object_offsets t * offset_size) t.objects

abbrev pub words : TransactionData → Bytes
words t =
    le_bytes 8 t.binder
    ++ le_bytes 8 t.cookie
    ++ le_bytes 4 t.code
    ++ le_bytes 4 (pack_flags t.is_one_way t.has_status)

-- A block of data without padding, its size in front.
abbrev pub sized : Bytes → Bytes
sized b = le_bytes 4 (length b) ++ padded false b

abbrev pub encode : TransactionData → Bytes
encode t = words t ++ sized t.body ++ sized (packed_objects t)

pub record IsStorable (t : TransactionData) : Type 0 where
  pub body_small : length t.body ≤ int32_max
  pub objects_small : length t.objects ≤ int32_max
  pub body_bytes : All IsByte t.body
  pub object_bytes : All IsByte t.objects

abbrev fresh_writer : Writer
fresh_writer = record {
  buffer = record { bytes = []; immutable = false };
  current = 0;
  use_padding = false;
}

fresh_writer-AtEnd : AtEnd fresh_writer
fresh_writer-AtEnd = record { ends = refl; owned = refl }

pub sized-IsByte : (b : Bytes) → All IsByte b → All IsByte (sized b)
sized-IsByte b h =
    All-append IsByte (le_bytes 4 (length b)) (padded false b) (le_bytes-IsByte 4 (length b))
      (All-append IsByte b [] h tt)

pub words-IsByte : (t : TransactionData) → All IsByte (words t)
words-IsByte t =
    let b : Bytes = le_bytes 8 t.binder in
    let c : Bytes = le_bytes 8 t.cookie in
    let d : Bytes = le_bytes 4 t.code in
    let f : Bytes = le_bytes 4 (pack_flags t.is_one_way t.has_status) in
    All-append IsByte (b ++ c ++ d) f
      (All-append IsByte (b ++ c) d
        (All-append IsByte b c (le_bytes-IsByte 8 t.binder) (le_bytes-IsByte 8 t.cookie))
        (le_bytes-IsByte 4 t.code))
      (le_bytes-IsByte 4 (pack_flags t.is_one_way t.has_status))

packed_objects-le : (t : TransactionData) → length (packed_objects t) ≤ length t.objects
packed_objects-le t = omega (arith, length-take (get_num_object_offsets t * offset_size) t.objects)

module _ (alloc : Allocator) (memory : NeverFails alloc) where
  pub pack_lem :
      (t : TransactionData)
      → IsStorable t
      → pack alloc t ≡ ok (record { bytes = encode t; immutable = false })
  unfolding pack new_writer create open_writer
  pack_lem t s =
      let b : Bytes = le_bytes 8 t.binder in
      let c : Bytes = le_bytes 8 t.cookie in
      let d : Bytes = le_bytes 4 t.code in
      let f : Bytes = le_bytes 4 (pack_flags t.is_one_way t.has_status) in
      let w1 = appended fresh_writer b in
      let w2 = appended w1 c in
      let w3 = appended w2 d in
      let w4 = appended w3 f in
      let w5 = appended w4 (sized t.body) in
      let e1 = appended-AtEnd fresh_writer b fresh_writer-AtEnd in
      let e2 = appended-AtEnd w1 c e1 in
      let e3 = appended-AtEnd w2 d e2 in
      let e4 = appended-AtEnd w3 f e3 in
      let e5 = appended-AtEnd w4 (sized t.body) e4 in
      let objects_small : length (packed_objects t) ≤ int32_max =
        omega (arith, packed_objects-le t, s.objects_small) in
      rw (
        write_value_lem alloc memory 8 t.binder fresh_writer (omega arith) fresh_writer-AtEnd,
        ◌>>=◌,
        write_value_lem alloc memory 8 t.cookie w1 (omega arith) e1,
        ◌>>=◌,
        write_value_lem alloc memory 4 t.code w2 (omega arith) e2,
        ◌>>=◌,
        write_value_lem alloc memory 4 (pack_flags t.is_one_way t.has_status) w3 (omega arith) e3,
        ◌>>=◌,
        write_sized_data_lem alloc memory t.body w4 s.body_small e4 s.body_bytes (words-IsByte t),
        ◌>>=◌,
        write_sized_data_lem alloc memory (packed_objects t) w5 objects_small e5
            (All-take IsByte (get_num_object_offsets t * offset_size) t.objects s.object_bytes)
            (All-append IsByte (words t) (sized t.body) (words-IsByte t)
              (sized-IsByte t.body s.body_bytes)),
        ◌>>=◌,
      )

-- The positions and fields that are read back.
abbrev pub from_encoded : TransactionData → FromMessage
from_encoded t = record {
  binder = t.binder % 256;
  cookie = t.cookie % 256;
  code = t.code % 256;
  flags = pack_flags t.is_one_way t.has_status % 256;
  data_at = 28;
  data_size = length t.body;
  objects_at = 32 + length t.body;
  objects_size = length (packed_objects t);
}
