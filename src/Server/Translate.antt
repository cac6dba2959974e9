-- ===== src/Server/Translate.antt =====
-- `TranslateObjects` of src/binderd/server_session.cpp: the binder objects in a transaction become
-- handles, and a session's own handles become binder objects again. The transaction's data and
-- object offsets are views of the message's body, so the translation works on that memory, and
-- finds its own writes there.
pub mod Keeps
pub mod Objects
use binderd.Common.{
  ℕ, zero, suc, ◌+◌, ◌*◌, ◌^◌, Bool, true, false, ltb, ◌==◌, if◌then◌else◌, Option, none, some,
  find, insert, Bytes, slice, splice, le_bytes, le_value, get_or, length, Result, ok, undefined,
}
use binderd.Status.{Status, ok_status, invalid_operation}
use binderd.Transaction.{FromMessage, num_objects, offset_size}
use binderd.Server.State.{
  World, Session, BinderObject, M, ◌>>=◌, ◌>>◌, continue_with, pure, lift, get_session,
  modify_session,
}
use binderd.Server.Registry.{new_object_handle}

-- `B_PACK_CHARS` of external/android/include/linux/binder.h, with `B_TYPE_LARGE` as the last one.
abbrev pub object_type : ℕ → ℕ → ℕ
object_type a b = a * 2 ^ 24 + b * 2 ^ 16 + b'*' * 2 ^ 8 + 0x85

abbrev pub type_binder : ℕ
type_binder = object_type b's' b'b'

abbrev pub type_weak_binder : ℕ
type_weak_binder = object_type b'w' b'b'

abbrev pub type_handle : ℕ
type_handle = object_type b's' b'h'

abbrev pub type_weak_handle : ℕ
type_weak_handle = object_type b'w' b'h'

abbrev pub type_fd : ℕ
type_fd = object_type b'f' b'd'

-- `flat_binder_object`: 32-bit type and flags, the union of a 64-bit binder and a 32-bit handle,
-- and a 64-bit cookie.
abbrev pub flat_size : ℕ
flat_size = 24

abbrev pub get_type : Bytes → ℕ → ℕ
get_type memory at = le_value (slice memory at 4)

abbrev pub get_binder : Bytes → ℕ → ℕ
get_binder memory at = le_value (slice memory (at + 8) 8)

abbrev pub get_handle : Bytes → ℕ → ℕ
get_handle memory at = le_value (slice memory (at + 8) 4)

abbrev pub get_cookie : Bytes → ℕ → ℕ
get_cookie memory at = le_value (slice memory (at + 16) 8)

abbrev pub set_type : ℕ → ℕ → Bytes → Bytes
set_type at v memory = splice memory at (le_bytes 4 v)

abbrev pub set_binder : ℕ → ℕ → Bytes → Bytes
set_binder at v memory = splice memory (at + 8) (le_bytes 8 v)

abbrev pub set_handle : ℕ → ℕ → Bytes → Bytes
set_handle at v memory = splice memory (at + 8) (le_bytes 4 v)

abbrev pub set_cookie : ℕ → ℕ → Bytes → Bytes
set_cookie at v memory = splice memory (at + 16) (le_bytes 8 v)

-- The object with its type, binder, cookie and handle assigned, in the code's order.
unfoldable pub assign : ℕ → ℕ → ℕ → ℕ → ℕ → Bytes → Bytes
assign at kind binder cookie handle memory =
    set_handle at handle (set_cookie at cookie (set_binder at binder (set_type at kind memory)))

-- BINDER_TYPE_BINDER: the object gets a new handle that the session owns.
unfoldable pub register_binder : ℕ → ℕ → Bytes → M Bytes
register_binder s at memory = do
  handle ← new_object_handle s
  modify_session s (λ session. record session {
    objects =
        insert handle (record { binder = get_binder memory at; cookie = get_cookie memory at })
          session.objects;
  })
  pure (assign at type_handle 0 0 handle memory)

-- BINDER_TYPE_HANDLE, at what the session knows of the handle.
unfoldable pub resolve_handle : Option BinderObject → ℕ → Bytes → Bytes
unfolding assign
resolve_handle none at memory = memory
resolve_handle (some b) at memory = assign at type_weak_binder b.binder b.cookie 0 memory

-- One object at `at`, `none` for an invalid type. Nothing checks `at`: an object that does not
-- end inside the memory is undefined behaviour.
unfoldable pub translate_object : ℕ → ℕ → Bytes → M (Option Bytes)
unfolding resolve_handle
translate_object s at memory =
    if ltb (length memory) (at + flat_size)
    then lift undefined
    else if get_type memory at == type_binder
    then (register_binder s at memory >>= λ m. pure (some m))
    else if get_type memory at == type_handle
    then (do
      session ← get_session s
      pure (some (resolve_handle (find (get_handle memory at) session.objects) at memory)))
    else if get_type memory at == type_weak_binder
    then pure (some memory)
    else if get_type memory at == type_weak_handle
    then pure (some memory)
    else if get_type memory at == type_fd
    then pure (some memory)
    else pure none

abbrev or_invalid : Option Bytes → Bytes → (Bytes → M (Status × Bytes)) → M (Status × Bytes)
or_invalid none memory rest = pure (invalid_operation, memory)
or_invalid (some memory') memory rest = rest memory'

-- The loop over the object offsets; of each offset `static_cast<binder_size_t>(*current)` reads
-- one byte. `current` steps by whole offsets and starts that many before the end.
unfoldable pub translate_loop : ℕ → ℕ → ℕ → ℕ → Bytes → M (Status × Bytes)
translate_loop s data_at zero current memory = pure (ok_status, memory)
translate_loop s data_at (suc n) current memory = do
  translated ← translate_object s (data_at + get_or memory current 0) memory
  or_invalid translated memory (translate_loop s data_at n (current + offset_size))

-- The status, and the memory as it is left. Empty data is a null pointer, from which the first
-- object would be read.
unfoldable pub translate_objects : ℕ → FromMessage → Bytes → M (Status × Bytes)
unfolding translate_loop
translate_objects s t memory =
    if num_objects t == 0
    then pure (ok_status, memory)
    else if t.data_size == 0
    then lift undefined
    else translate_loop s t.data_at (num_objects t) t.objects_at memory
