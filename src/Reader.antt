-- ===== src/Reader.antt =====
-- src/binderd/common/binary_reader.cpp: reads numbers, data and strings from a buffer. The code's
-- `begin` and `end` pointers are the ends of `bytes`, its `current` pointer is an offset. A signed
-- number is its bit pattern.
pub mod Numbers
pub mod Strings
use binderd.Common.{
  ℕ, ◌+◌, ◌-◌, ◌*◌, ◌≤◌, ◌<◌, Bool, true, false, List, [], ◌∷◌, ltb, leb, ◌==◌, if◌then◌else◌,
  Bytes, slice, take, get_or, length, Result, ok, err, out_of_range, ◌>>=◌, le_value,
}
use binderd.Buffer.{Allocator, Buffer, view, create}
use binderd.Writer.{padded_size}

pub record Reader : Type 0 where
  pub bytes : Bytes
  pub current : ℕ
  pub use_padding : Bool

abbrev pub open_reader : Buffer → ℕ → Reader
open_reader b offset = record { bytes = b.bytes; current = offset; use_padding = true }

abbrev pub get_bytes_read : Reader → ℕ
get_bytes_read r = r.current

abbrev pub get_bytes_left : Reader → ℕ
get_bytes_left r = length r.bytes - r.current

abbrev pub set_padding : Bool → Reader → Reader
set_padding enable r = record r { use_padding = enable }

-- The check in front of every read: `current + size > end` throws. It moves `current`.
unfoldable pub advance : ℕ → Reader → Result Reader
advance size r =
    if ltb (length r.bytes) (r.current + size)
    then err out_of_range
    else ok (record r { current = r.current + size })

-- `ReadValue<T>` at `sizeof(T)`: `static_cast<T>(*current)` takes the one byte that `current`,
-- a pointer to bytes, points to.
unfoldable pub read_value : ℕ → Reader → Result (ℕ × Reader)
unfolding advance
read_value width r = advance width r >>= λ r'. ok (get_or r.bytes r.current 0, r')

abbrev pub read_uint16 : Reader → Result (ℕ × Reader)
read_uint16 = read_value 2

abbrev pub read_uint32 : Reader → Result (ℕ × Reader)
read_uint32 = read_value 4

abbrev pub read_uint64 : Reader → Result (ℕ × Reader)
read_uint64 = read_value 8

abbrev pub read_int16 : Reader → Result (ℕ × Reader)
read_int16 = read_value 2

abbrev pub read_int32 : Reader → Result (ℕ × Reader)
read_int32 = read_value 4

abbrev pub read_int64 : Reader → Result (ℕ × Reader)
read_int64 = read_value 8

-- A view of the bytes that were read, or a fresh empty buffer.
unfoldable pub read_data : ℕ → Reader → Result (Buffer × Reader)
unfolding advance padded_size
read_data size r = if size == 0 then ok (record { bytes = []; immutable = false }, r) else do
  padded ← padded_size r.use_padding size
  r' ← advance padded r
  ok (view (slice r.bytes r.current size), r')

unfoldable pub read_sized_data : Reader → Result (Buffer × Reader)
read_sized_data r = do (size, r') ← read_int32 r; read_data size r'

unfoldable pub skip : ℕ → Reader → Result Reader
unfolding advance
skip width r = advance width r

-- The 16-bit units that bytes in memory stand for.
unfoldable pub units : Bytes → List ℕ
units [] = []
units (a ∷ []) = []
units (a ∷ b ∷ bs) = (a + 256 * b) ∷ units bs

module _ (alloc : Allocator) where
  -- The bytes that `ReadString` and `ReadString16` copy into a fresh buffer.
  unfoldable pub read_copy : ℕ → Reader → Result (Bytes × Reader)
  read_copy data_size r = do
    padded ← padded_size r.use_padding data_size
    r' ← advance padded r
    fresh ← create alloc data_size
    ok (slice r.bytes r.current (length fresh.bytes), r')

  unfoldable pub read_string : Reader → Result (Bytes × Reader)
  read_string r = do
    (size, r') ← read_int32 r
    (chars, r'') ← read_copy (size + 1) r'
    ok (take size chars, r'')

  unfoldable pub read_string16 : Reader → Result (List ℕ × Reader)
  read_string16 r = do
    (size, r') ← read_int32 r
    (chars, r'') ← read_copy ((size + 1) * 2) r'
    ok (take size (units chars), r'')
