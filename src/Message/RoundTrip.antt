-- ===== src/Message/RoundTrip.antt =====
-- What `Pack` writes, and what `Unpack` makes of it.
use binderd.Common.{
  ◌%◌, ◌≤◌, ◌<◌, ◌≡◌, refl, sym, ap, ◌∙◌, Bool, true, false, [], ◌++◌, arith, Bytes, IsByte, All,
  le_bytes, length, ok, ◌>>=◌, append-nil, append_assoc, le_bytes-IsByte, All-append,
}
use native.Mathlib.Nat.{mod-eq_of_lt}
use binderd.Buffer.{Allocator, NeverFails, create}
use binderd.Writer.{Writer, open_writer, int32_max}
use binderd.Writer.Appends.{AtEnd, appended, appended-AtEnd, write_value_lem}
use binderd.Writer.Data.{padded, write_sized_data_lem}
use binderd.Reader.Numbers.{read_value-le_bytes, read_data-padded, data_buffer}
use binderd.Reader.{read_sized_data}
use binderd.Message.Types.{Message, type_code, type_of_code, type_of_code-type_code, IsProper}
use binderd.Message.Wire.{pack, unpack}

-- The four words in front of a message's body.
abbrev pub header : Message → Bytes
header m =
    le_bytes 4 (type_code m.kind)
    ++ le_bytes 8 m.destination
    ++ le_bytes 8 m.cookie
    ++ le_bytes 4 (length m.body.bytes)

-- The bytes of a message on the wire.
abbrev pub encode : Message → Bytes
encode m = header m ++ padded true m.body.bytes

abbrev fresh_writer : Writer
fresh_writer = record {
  buffer = record { bytes = []; immutable = false };
  current = 0;
  use_padding = true;
}

pub fresh_writer-AtEnd : AtEnd fresh_writer
fresh_writer-AtEnd = record { ends = refl; owned = refl }

-- A message whose body is memory, of a size that can be stored.
pub record IsStorable (m : Message) : Type 0 where
  pub small : length m.body.bytes ≤ int32_max
  pub in_bytes : All IsByte m.body.bytes

module _ (alloc : Allocator) (memory : NeverFails alloc) where
  pub pack_lem :
      (m : Message)
      → IsStorable m
      → pack alloc m ≡ ok (record { bytes = encode m; immutable = false })
  unfolding pack create open_writer
  pack_lem m s =
      let kind : Bytes = le_bytes 4 (type_code m.kind) in
      let dest : Bytes = le_bytes 8 m.destination in
      let cookie : Bytes = le_bytes 8 m.cookie in
      let w1 = appended fresh_writer kind in
      let w2 = appended w1 dest in
      let w3 = appended w2 cookie in
      let e1 = appended-AtEnd fresh_writer kind fresh_writer-AtEnd in
      let e2 = appended-AtEnd w1 dest e1 in
      let e3 = appended-AtEnd w2 cookie e2 in
      let front_bytes =
        All-append IsByte (kind ++ dest) cookie
          (All-append IsByte kind dest (le_bytes-IsByte 4 (type_code m.kind))
            (le_bytes-IsByte 8 m.destination))
          (le_bytes-IsByte 8 m.cookie) in
      rw
        (
          write_value_lem alloc memory 4 (type_code m.kind) fresh_writer (omega arith)
              fresh_writer-AtEnd,
          ◌>>=◌,
          write_value_lem alloc memory 8 m.destination w1 (omega arith) e1,
          ◌>>=◌,
          write_value_lem alloc memory 8 m.cookie w2 (omega arith) e2,
          ◌>>=◌,
          write_sized_data_lem alloc memory m.body.bytes w3 s.small e3 s.in_bytes front_bytes,
          ◌>>=◌,
        )
        (ap (λ (b : Bytes). ok (record { bytes = b; immutable = false }))
          (sym (
            append_assoc w3.buffer.bytes (le_bytes 4 (length m.body.bytes))
              (padded true m.body.bytes))))

-- A message of which the reader's one-byte numbers lose nothing.
pub record IsSmall (m : Message) : Type 0 where
  pub proper : IsProper m.kind
  pub code : type_code m.kind < 256
  pub destination : m.destination < 256
  pub cookie : m.cookie < 256
  pub size : length m.body.bytes < 256

-- The message that `Unpack` makes of a packed one.
abbrev pub unpacked : Message → Message
unpacked m = record {
  kind = type_of_code (type_code m.kind % 256);
  cookie = m.cookie % 256;
  destination = m.destination % 256;
  body = data_buffer m.body.bytes;
}

pub unpack-encode :
    (front back : Bytes) (immutable : Bool) (m any : Message)
    → length m.body.bytes < 256
    → unpack
        (record { bytes = front ++ (encode m ++ back); immutable = immutable })
        (length front)
        any
      ≡ ok (unpacked m, length (front ++ encode m))
unfolding unpack read_sized_data
unpack-encode front back immutable m any h =
    let kind : Bytes = le_bytes 4 (type_code m.kind) in
    let dest : Bytes = le_bytes 8 m.destination in
    let cookie : Bytes = le_bytes 8 m.cookie in
    let size : Bytes = le_bytes 4 (length m.body.bytes) in
    let body : Bytes = padded true m.body.bytes in
    let regroup : front ++ (encode m ++ back)
        ≡ front ++ (kind ++ (dest ++ (cookie ++ (size ++ (body ++ back))))) =
      simp append_assoc in
    let total : front ++ kind ++ dest ++ cookie ++ size ++ body ≡ front ++ encode m =
      simp append_assoc in
    rw
      (
        regroup,
        read_value-le_bytes front (dest ++ (cookie ++ (size ++ (body ++ back)))) true 4
            (type_code m.kind) (omega arith),
        ◌>>=◌,
        read_value-le_bytes (front ++ kind) (cookie ++ (size ++ (body ++ back))) true 8
            m.destination (omega arith),
        ◌>>=◌,
        read_value-le_bytes (front ++ kind ++ dest) (size ++ (body ++ back)) true 8 m.cookie
            (omega arith),
        ◌>>=◌,
        read_value-le_bytes (front ++ kind ++ dest ++ cookie) (body ++ back) true 4
            (length m.body.bytes) (omega arith),
        ◌>>=◌,
        mod-eq_of_lt h,
        read_data-padded (front ++ kind ++ dest ++ cookie ++ size) m.body.bytes back true
            (omega arith),
        ◌>>=◌,
      )
      (ap (λ (b : Bytes). ok (unpacked m, length b)) total)

-- The same message, its body a view of the memory it was read from.
abbrev pub received : Message → Message
received m = record m { body = data_buffer m.body.bytes }

pub unpacked_small : (m : Message) → IsSmall m → unpacked m ≡ received m
unpacked_small m s = rw (
  mod-eq_of_lt s.code,
  mod-eq_of_lt s.cookie,
  mod-eq_of_lt s.destination,
  type_of_code-type_code m.kind s.proper,
)

module _ (alloc : Allocator) (memory : NeverFails alloc) where
  -- Unpacking what `Pack` wrote for a message with a body below 256 bytes gives the message with
  -- its type code, destination and cookie reduced modulo 256, and reads exactly what was written.
  -- The body is bytes, and allocations succeed.
  pub unpack-pack_truncates :
      (m any : Message)
      → IsStorable m
      → length m.body.bytes < 256
      → (pack alloc m >>= λ b. unpack b 0 any) ≡ ok (unpacked m, length (encode m))
  unpack-pack_truncates m any s h =
      rw (pack_lem alloc memory m s, ◌>>=◌)
        (ap (λ (b : Bytes). unpack (record { bytes = b; immutable = false }) 0 any)
            (sym (append-nil (encode m)))
          ∙ unpack-encode [] [] false m any h)

  -- Unpacking what `Pack` wrote for a message whose type code, destination, cookie and body size
  -- lie below 256 gives the message back, and reads exactly what was written. The body is bytes, the
  -- type is an enumerator, and allocations succeed.
  pub unpack-pack :
      (m any : Message)
      → IsStorable m
      → IsSmall m
      → (pack alloc m >>= λ b. unpack b 0 any) ≡ ok (received m, length (encode m))
  unpack-pack m any s small =
      unpack-pack_truncates m any s small.size
      ∙ ap (λ (r : Message). ok (r, length (encode m))) (unpacked_small m small)
