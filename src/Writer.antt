-- ===== src/Writer.antt =====
-- src/binderd/common/binary_writer.cpp: appends numbers, data and strings to a buffer. The code's
-- `current` pointer is its offset from the buffer's begin. A signed number is its bit pattern.
-- Numbers are stored as the target stores them: little-endian, as the code's `pad_mask` for
-- LITTLE_ENDIAN assumes.
pub mod Appends
pub mod Data
use binderd.Common.{
  ℕ, zero, suc, ◌+◌, ◌-◌, ◌*◌, ◌/◌, ◌^◌, ◌≤◌, ◌<◌, bit_and, Bool, true, false, List, [], ◌∷◌, ◌++◌,
  ltb, leb, ◌==◌, if◌then◌else◌, Bytes, le_bytes, splice, slice, length, Result, ok, err,
  out_of_range, runtime_error, ◌>>=◌,
}
use binderd.Buffer.{Allocator, Buffer, get_size, resize, create}

pub record Writer : Type 0 where
  pub buffer : Buffer
  pub current : ℕ
  pub use_padding : Bool

abbrev pub uint32_max : ℕ
uint32_max = 2 ^ 32 - 1

abbrev pub int32_max : ℕ
int32_max = 2 ^ 31 - 1

-- `(s + 3) & ~3`, behind the check for overflow.
unfoldable pub pad_size : ℕ → Result ℕ
pad_size s = if ltb (uint32_max - 3) s then err runtime_error else ok ((s + 3) / 4 * 4)

-- `padding ? pad_size(size) : size`
unfoldable pub padded_size : Bool → ℕ → Result ℕ
unfolding pad_size
padded_size use_padding size = if use_padding then pad_size size else ok size

-- The four bytes of `pad_mask[n]` in memory.
unfoldable pub pad_mask : ℕ → Bytes
pad_mask zero = 0x00 ∷ 0x00 ∷ 0x00 ∷ 0x00 ∷ []
pad_mask (suc zero) = 0xff ∷ 0xff ∷ 0xff ∷ 0x00 ∷ []
pad_mask (suc (suc zero)) = 0xff ∷ 0xff ∷ 0x00 ∷ 0x00 ∷ []
pad_mask (suc (suc (suc n))) = 0xff ∷ 0x00 ∷ 0x00 ∷ 0x00 ∷ []

-- `&=` on a word in memory, byte by byte.
unfoldable pub and_bytes : Bytes → Bytes → Bytes
and_bytes [] ms = []
and_bytes (b ∷ bs) [] = b ∷ bs
and_bytes (b ∷ bs) (m ∷ ms) = bit_and b m ∷ and_bytes bs ms

unfoldable pub open_writer : Buffer → Writer
open_writer b = record { buffer = b; current = 0; use_padding = true }

abbrev pub get_bytes_written : Writer → ℕ
get_bytes_written w = w.current

abbrev pub set_padding : Bool → Writer → Writer
set_padding enable w = record w { use_padding = enable }

-- Bytes stored at `current`, which moves behind them.
abbrev pub store : Bytes → Writer → Writer
store bytes w = record w {
  buffer = record (w.buffer) { bytes = splice w.buffer.bytes w.current bytes };
  current = w.current + length bytes;
}

-- The padding behind `size` bytes that were just stored: the last word keeps its data bytes.
unfoldable pub zero_padding : ℕ → ℕ → Writer → Writer
unfolding pad_mask and_bytes
zero_padding padded size w =
    let at = w.current + (padded - size) - 4 in
    let word = and_bytes (slice w.buffer.bytes at 4) (pad_mask (padded - size)) in
    record w {
      buffer = record (w.buffer) { bytes = splice w.buffer.bytes at word };
      current = w.current + (padded - size);
    }

-- The memory of a UTF-16 string, without its terminating zero.
unfoldable pub units_bytes : List ℕ → Bytes
units_bytes [] = []
units_bytes (u ∷ us) = le_bytes 2 u ++ units_bytes us

module _ (alloc : Allocator) where
  -- The default constructor's writer, over a fresh buffer.
  unfoldable pub new_writer : Result Writer
  unfolding open_writer
  new_writer = create alloc 0 >>= λ b. ok (open_writer b)

  unfoldable pub ensure_size : ℕ → Writer → Result Writer
  ensure_size size w =
      if leb size (get_size w.buffer - w.current)
      then ok w
      else (resize alloc w.buffer (get_size w.buffer + size) >>= λ b. ok (record w { buffer = b }))

  -- `WriteValue<T>` at `sizeof(T)`.
  unfoldable pub write_value : ℕ → ℕ → Writer → Result Writer
  write_value width value w = ensure_size width w >>= λ w'. ok (store (le_bytes width value) w')

  abbrev pub write_uint16 : ℕ → Writer → Result Writer
  write_uint16 = write_value 2

  abbrev pub write_uint32 : ℕ → Writer → Result Writer
  write_uint32 = write_value 4

  abbrev pub write_uint64 : ℕ → Writer → Result Writer
  write_uint64 = write_value 8

  abbrev pub write_int16 : ℕ → Writer → Result Writer
  write_int16 = write_value 2

  abbrev pub write_int32 : ℕ → Writer → Result Writer
  write_int32 = write_value 4

  abbrev pub write_int64 : ℕ → Writer → Result Writer
  write_int64 = write_value 8

  unfoldable pub write_data : Bytes → Writer → Result Writer
  write_data bytes w = if ltb int32_max (length bytes) then err out_of_range else do
    padded ← padded_size w.use_padding (length bytes)
    w' ← ensure_size padded w
    let stored = store bytes w'
    if padded == length bytes then ok stored else ok (zero_padding padded (length bytes) stored)

  unfoldable pub write_sized_data : Bytes → Writer → Result Writer
  write_sized_data bytes w = write_int32 (length bytes) w >>= write_data bytes

  -- `WriteString(s, size)`: the characters and the terminating zero.
  unfoldable pub write_string : Bytes → Writer → Result Writer
  write_string chars w = write_sized_data (chars ++ (0 ∷ [])) w

  unfoldable pub write_string16 : List ℕ → Writer → Result Writer
  write_string16 units w = do
    w' ← write_int32 (length units) w
    if length units == 0 then ok w' else write_data (units_bytes units ++ (0 ∷ 0 ∷ [])) w'
