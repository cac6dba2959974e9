-- ===== src/Message/Wire.antt =====
-- `Pack` and `Unpack` of message.cpp.
use binderd.Common.{ℕ, Result, ok, ◌>>=◌}
use binderd.Buffer.{Allocator, Buffer, create}
use binderd.Writer.{Writer, open_writer, write_uint32, write_uint64, write_sized_data}
use binderd.Reader.{Reader, open_reader, read_uint32, read_uint64, read_sized_data, get_bytes_read}
use binderd.Message.Types.{Message, create_message, unknown, type_code, type_of_code}

-- `GetReader` and `GetWriter` stand at the front of the body.
abbrev pub get_reader : Message → Reader
get_reader m = open_reader m.body 0

abbrev pub get_writer : Message → Writer
get_writer m = open_writer m.body

-- The message as `Unpack` leaves it, and the bytes read since the front of the buffer.
unfoldable pub unpack : Buffer → ℕ → Message → Result (Message × ℕ)
unpack input offset m = do
  (kind, r1) ← read_uint32 (open_reader input offset)
  (destination, r2) ← read_uint64 r1
  (cookie, r3) ← read_uint64 r2
  (body, r4) ← read_sized_data r3
  ok (
    record m { kind = type_of_code kind; destination = destination; cookie = cookie; body = body },
    get_bytes_read r4,
  )

unfoldable pub create_from_data : Buffer → ℕ → Result Message
create_from_data input offset = do (m, used) ← unpack input offset (create_message unknown); ok m

module _ (alloc : Allocator) where
  unfoldable pub pack : Message → Result Buffer
  pack m = do
    b ← create alloc 0
    w1 ← write_uint32 alloc (type_code m.kind) (open_writer b)
    w2 ← write_uint64 alloc m.destination w1
    w3 ← write_uint64 alloc m.cookie w2
    w4 ← write_sized_data alloc m.body.bytes w3
    ok w4.buffer
