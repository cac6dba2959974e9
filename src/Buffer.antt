-- ===== src/Buffer.antt =====
-- src/binderd/buffer.cpp: the byte buffer that readers and writers share. The C allocator is a
-- parameter; `malloc`'s memory is zeroed by the code, `realloc`'s new tail is the allocator's.
use binderd.Common.{
  ℕ, ◌<◌, ◌≡◌, Bool, true, false, Option, none, some, [], ◌==◌, if◌then◌else◌, Bytes, IsByte, All,
  length, take, replicate, Result, ok, err, runtime_error,
}

-- `realloc old n` is the memory that `realloc` hands back, `none` if it returns null: as long as
-- was asked for, with the old contents in front as far as they fit.
pub record Allocator : Type 0 where
  pub malloc_succeeds : ℕ → Bool
  pub realloc : Bytes → ℕ → Option Bytes
  pub realloc_length :
      (old : Bytes) (n : ℕ) (new : Bytes) → realloc old n ≡ some new → length new ≡ n
  pub realloc_keeps :
      (old : Bytes) (n : ℕ) (new : Bytes)
      → realloc old n ≡ some new
      → take (length old) new ≡ take n old
  pub realloc_bytes :
      (old : Bytes) (n : ℕ) (new : Bytes)
      → All IsByte old
      → realloc old n ≡ some new
      → All IsByte new

-- There is always enough memory.
pub record NeverFails (alloc : Allocator) : Type 0 where
  pub mallocs : (n : ℕ) → 0 < n → alloc.malloc_succeeds n ≡ true
  pub reallocs : (old : Bytes) (n : ℕ) → 0 < n → (new : Bytes) × (alloc.realloc old n ≡ some new)

-- `size_` is the length of `bytes`.
pub record Buffer : Type 0 where
  pub bytes : Bytes
  pub immutable : Bool

abbrev pub get_size : Buffer → ℕ
get_size b = length b.bytes

-- `Buffer::Create(data, size)`: a view of memory that the buffer does not own.
abbrev pub view : Bytes → Buffer
view bytes = record { bytes = bytes; immutable = true }

module _ (alloc : Allocator) where
  -- `Implementation::allocate`, which the constructor calls.
  unfoldable pub create : ℕ → Result Buffer
  create size =
      if size == 0
      then ok (record { bytes = []; immutable = false })
      else if alloc.malloc_succeeds size
      then ok (record { bytes = replicate size 0; immutable = false })
      else err runtime_error

  abbrev resized : Option Bytes → Result Buffer
  resized none = err runtime_error
  resized (some new) = ok (record { bytes = new; immutable = false })

  unfoldable pub resize : Buffer → ℕ → Result Buffer
  resize b size = if b.immutable then err runtime_error else resized (alloc.realloc b.bytes size)
