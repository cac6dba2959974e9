-- ===== src/Translator.antt =====
-- src/binderd/object_translator.h, object_translator.cpp: the client passes ids out in place of the
-- addresses of its objects, and puts the addresses back into what comes in.
pub mod Cookies
use binderd.Common.{
  ℕ, zero, suc, ◌+◌, Bool, true, false, List, [], ◌∷◌, ltb, ◌==◌, if◌then◌else◌, Option, none, some,
  Map, find, insert, Bytes, get_or, length, Result, ok, undefined, ◌>>=◌,
}
use binderd.Status.{Status, ok_status, bad_value, invalid_operation}
use binderd.Transaction.{
  FromMessage, TransactionData, num_objects, get_num_object_offsets, offset_size,
}
use binderd.Server.State.{next_u64}
use binderd.Server.Translate.{
  flat_size, get_type, get_cookie, set_cookie, type_binder, type_handle, type_weak_binder,
  type_weak_handle, type_fd,
}

pub data Direction : Type 0 where
  inward outward : Direction

pub record Translator : Type 0 where
  pub objects : Map ℕ
  pub next_object_id : ℕ

abbrev pub new_translator : Translator
new_translator = record { objects = []; next_object_id = 1 }

-- `Invalid`
abbrev pub invalid : ℕ
invalid = 0

abbrev pub or_zero : Option ℕ → ℕ
or_zero none = 0
or_zero (some object) = object

unfoldable pub translate_cookie : ℕ → Translator → ℕ
translate_cookie cookie t = or_zero (find cookie t.objects)

-- The first id of the object, in the order of iteration.
unfoldable pub id_of : ℕ → Map ℕ → ℕ
id_of object [] = invalid
id_of object ((id, o) ∷ m) = if o == object then id else id_of object m

abbrev pub translate_object_id : ℕ → Translator → ℕ
translate_object_id object t = id_of object t.objects

unfoldable pub translate_or_add_object : ℕ → Translator → ℕ × Translator
translate_or_add_object object t =
    if translate_object_id object t == invalid
    then (
      t.next_object_id,
      record {
        objects = insert t.next_object_id object t.objects;
        next_object_id = next_u64 t.next_object_id;
      },
    )
    else (translate_object_id object t, t)

-- The status, the memory of the transaction and the translator after a step.
abbrev pub Outcome : Type 0
Outcome = Status × Bytes × Translator

abbrev pub with_address : Option ℕ → ℕ → Bytes → Translator → Outcome
with_address none at memory t = (bad_value, memory, t)
with_address (some object) at memory t = (ok_status, set_cookie at object memory, t)

abbrev pub with_id : ℕ × Translator → ℕ → Bytes → Outcome
with_id (id, t) at memory = (ok_status, set_cookie at id memory, t)

unfoldable pub process_binder_object : Direction → ℕ → Bytes → Translator → Outcome
process_binder_object inward at memory t =
    with_address (find (get_cookie memory at) t.objects) at memory t
process_binder_object outward at memory t =
    with_id (translate_or_add_object (get_cookie memory at) t) at memory

-- One object; nothing checks that it lies inside the memory.
unfoldable pub process_object : Direction → ℕ → Bytes → Translator → Result Outcome
process_object d at memory t =
    if ltb (length memory) (at + flat_size)
    then undefined
    else if get_type memory at == type_binder
    then ok (process_binder_object d at memory t)
    else if get_type memory at == type_handle
    then ok (ok_status, memory, t)
    else if get_type memory at == type_weak_binder
    then ok (ok_status, memory, t)
    else if get_type memory at == type_weak_handle
    then ok (ok_status, memory, t)
    else if get_type memory at == type_fd
    then ok (ok_status, memory, t)
    else ok (invalid_operation, memory, t)

-- The next round of the loop, or the end of it at a status that is not `OK`.
abbrev pub and_then : Outcome → (Bytes → Translator → Result Outcome) → Result Outcome
and_then (ok_status, memory, t) rest = rest memory t
and_then (status, memory, t) rest = ok (status, memory, t)

-- The loop over the object offsets, each read as one byte, in a memory that holds data and offsets.
unfoldable pub process_loop : Direction → ℕ → ℕ → ℕ → Bytes → Translator → Result Outcome
process_loop d data_at zero current memory t = ok (ok_status, memory, t)
process_loop d data_at (suc n) current memory t = do
  outcome ← process_object d (data_at + get_or memory current 0) memory t
  and_then outcome (process_loop d data_at n (current + offset_size))

-- Empty data is a null pointer.
unfoldable pub process_transaction : Direction → FromMessage → Bytes → Translator → Result Outcome
process_transaction d request memory t =
    if num_objects request == 0
    then ok (ok_status, memory, t)
    else if request.data_size == 0
    then undefined
    else process_loop d request.data_at (num_objects request) request.objects_at memory t

-- The same over a transaction whose data and object offsets lie in memories of their own.
unfoldable pub request_loop : Direction → ℕ → ℕ → Bytes → Bytes → Translator → Result Outcome
request_loop d zero current offsets memory t = ok (ok_status, memory, t)
request_loop d (suc n) current offsets memory t = do
  outcome ← process_object d (get_or offsets current 0) memory t
  and_then outcome (request_loop d n (current + offset_size) offsets)

unfoldable pub process_request : Direction → TransactionData → Translator → Result Outcome
process_request d request t =
    request_loop d (get_num_object_offsets request) 0 request.objects request.body t
