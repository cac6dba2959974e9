-- ===== src/Transaction/Carried.antt =====
-- The data of a transaction on its way to the other side: packed into the body of a message, which is
-- packed and unpacked in turn, and taken out of the message's body.
use binderd.Common.{
  ℕ, ◌+◌, ◌<◌, ◌≡◌, le_bytes, ap, sym, subst, ◌∙◌, true, false, [], ◌++◌, arith, Bytes, IsByte, All,
  All-append, length, length-append, replicate, ok, Result, ◌>>=◌,
}
use binderd.Buffer.{Allocator, NeverFails}
use binderd.Writer.{open_writer, write_data}
use binderd.Writer.Data.{padded, padding, length-padded, write_data_lem}
use binderd.Reader.Numbers.{data_buffer-bytes}
use binderd.Message.{Message, create_message, transaction, unknown}
use binderd.Message.Wire as Wire
use binderd.Message.RoundTrip as MessageRoundTrip
use binderd.Transaction.{TransactionData, pack, from_message, get_data}
use binderd.Transaction.RoundTrip.{
  words, sized, encode, packed_objects, from_encoded, IsStorable, pack_lem, sized-IsByte,
  words-IsByte,
}
use binderd.Transaction.Received.{from_message-encode, get_data-encode}
use binderd.Server.Output.Written.{zeros-IsByte, empty_writer}

-- What fits a message: a payload without object offsets below 256 bytes, its padding included.
pub record IsCarriable (t : TransactionData) : Type 0 where
  pub plain : t.objects ≡ []
  pub in_bytes : All IsByte t.body
  pub room : length t.body < 221

abbrev body_of : TransactionData → Bytes
body_of t = padded true (encode t)

abbrev message_of : TransactionData → Message
message_of t = record (create_message transaction) {
  body = record { bytes = body_of t; immutable = false };
}

is_storable : (t : TransactionData) → IsCarriable t → IsStorable t
is_storable t h = record {
  body_small = omega (arith, h.room);
  objects_small = omega (arith, ap (λ (b : Bytes). length b) h.plain);
  body_bytes = h.in_bytes;
  object_bytes = subst (λ (b : Bytes). All IsByte b) (sym h.plain) tt;
}

no_objects : (t : TransactionData) → t.objects ≡ [] → packed_objects t ≡ []
no_objects t plain = rw plain

length-encode : (t : TransactionData) → t.objects ≡ [] → length (encode t) ≡ 32 + length t.body
unfolding le_bytes
length-encode t plain = omega (
  arith,
  length-append (words t ++ sized t.body) (sized (packed_objects t)),
  length-append (words t) (sized t.body),
  ap (λ (b : Bytes). length (sized b)) (no_objects t plain),
  length-append t.body [],
)

encode-IsByte : (t : TransactionData) → IsCarriable t → All IsByte (encode t)
encode-IsByte t h =
    All-append IsByte (words t ++ sized t.body) (sized (packed_objects t))
      (All-append IsByte (words t) (sized t.body) (words-IsByte t) (sized-IsByte t.body h.in_bytes))
      (sized-IsByte (packed_objects t)
        (subst (λ (b : Bytes). All IsByte b) (sym (no_objects t h.plain)) tt))

length-body_of : (t : TransactionData) → IsCarriable t → length (body_of t) < 256
length-body_of t h = omega (arith, length-padded true (encode t), length-encode t h.plain, h.room)

module _ (alloc : Allocator) where
  unfoldable pub carried : TransactionData → Result Bytes
  carried t = do
    packed ← pack alloc t
    let m = create_message transaction
    w ← write_data alloc packed.bytes (Wire.get_writer m)
    (got, used) ←
        (Wire.pack alloc (record m { body = w.buffer }) >>= λ b.
        Wire.unpack b 0 (create_message unknown))
    request ← from_message got
    ok (get_data request got.body.bytes)

  module _ (memory : NeverFails alloc) where
    message_of-IsStorable :
        (t : TransactionData) → IsCarriable t → MessageRoundTrip.IsStorable (message_of t)
    message_of-IsStorable t h = record {
      small = omega (arith, length-body_of t h);
      in_bytes =
          All-append IsByte (encode t) (replicate (padding true (length (encode t))) 0)
            (encode-IsByte t h) (zeros-IsByte (padding true (length (encode t))));
    }

    -- Data that fits arrives as it was sent.
    pub carried_lem : (t : TransactionData) → IsCarriable t → carried t ≡ ok t.body
    unfolding carried open_writer
    carried_lem t h =
        let back = replicate {A = ℕ} (padding true (length (encode t))) 0 in
        let got = MessageRoundTrip.unpacked (message_of t) in
        let body = data_buffer-bytes (body_of t) in
        rw (
          pack_lem alloc memory t (is_storable t h),
          ◌>>=◌,
          write_data_lem alloc memory (encode t) empty_writer
              (omega (arith, length-encode t h.plain, h.room)) MessageRoundTrip.fresh_writer-AtEnd
              (encode-IsByte t h) tt,
          ◌>>=◌,
          MessageRoundTrip.unpack-pack_truncates alloc memory (message_of t)
              (create_message unknown) (message_of-IsStorable t h) (length-body_of t h),
          from_message-encode t back got body (omega (arith, h.room))
              (omega (arith, ap (λ (b : Bytes). length b) (no_objects t h.plain))),
          ap (get_data (from_encoded t)) body ∙ get_data-encode t back,
        )
