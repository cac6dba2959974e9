-- ===== src/Messenger/Frames.antt =====
-- A frame is read back whole, if its size fits the header and is not zero.
use binderd.Common.{
  ◌+◌, ◌*◌, ◌/◌, ◌%◌, ◌<◌, ◌≡◌, refl, false, ◌++◌, some, Bytes, length, length-append, take-append,
  drop-append, le→leb, arith, ok,
}
use binderd.Buffer.{Allocator, NeverFails, Buffer, resize}
use binderd.Messenger.{frame, read_message}

-- What `WriteNext` puts on the wire for data of one byte to 64 KiB less one is read as that data,
-- whatever the messenger read before, and the bytes behind it are left. Allocations of more than
-- zero bytes succeed, and the buffer may be resized.
pub read_message-frame :
    (alloc : Allocator)
    → NeverFails alloc
    → (body : Buffer) (item rest : Bytes) → body.immutable ≡ false
    → 0 < length item
    → length item < 65536
    → read_message alloc body (frame item ++ rest)
      ≡ ok (some (record { bytes = item; immutable = false }, rest))
unfolding frame read_message resize
read_message-frame alloc memory body item rest owned some_bytes h = rw (
  size,
  owned,
  (memory.reallocs body.bytes (length item) some_bytes).1,
  le→leb (length item) (length (item ++ rest)) (omega (arith, length-append item rest)),
  take-append (length item) item rest refl,
  drop-append (length item) item rest refl,
)
  where
    size : length item / 256 % 256 * 256 + length item % 256 ≡ length item
    size = omega (arith, h)
