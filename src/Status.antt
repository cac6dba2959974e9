-- ===== src/Status.antt =====
-- src/binderd/status.h: `enum class Status : int32_t`. A code is the bit pattern of its int32_t;
-- the errno values are Linux's.
use binderd.Common.{ℕ, ◌+◌, ◌-◌, ◌%◌, ◌^◌, ◌<◌, ◌≡◌, refl, ◌==◌, if◌then◌else◌, arith}
use mathlib.Core.Logic.{◌⊎◌, inl, inr}

pub data Status : Type 0 where
  ok_status unknown_error no_memory invalid_operation bad_value bad_type name_not_found : Status
  permission_denied no_init already_exists dead_object failed_transaction bad_index : Status
  not_enough_data would_block timed_out unknown_transaction fds_not_allowed unexpected_null : Status
  unnamed_status : ℕ → Status

-- The bit pattern of `-n`.
abbrev pub minus : ℕ → ℕ
minus n = 2 ^ 32 - n

abbrev pub int32_min : ℕ
int32_min = 2 ^ 31

unfoldable pub status_code : Status → ℕ
status_code ok_status = 0
status_code unknown_error = int32_min
status_code no_memory = minus 12
status_code invalid_operation = minus 38
status_code bad_value = minus 22
status_code bad_type = int32_min + 1
status_code name_not_found = minus 2
status_code permission_denied = minus 1
status_code no_init = minus 19
status_code already_exists = minus 17
status_code dead_object = minus 32
status_code failed_transaction = int32_min + 2
status_code bad_index = minus 75
status_code not_enough_data = minus 61
status_code would_block = minus 11
status_code timed_out = minus 110
status_code unknown_transaction = minus 74
status_code fds_not_allowed = int32_min + 7
status_code unexpected_null = int32_min + 8
status_code (unnamed_status n) = n

-- `static_cast<Status>(n)`
unfoldable pub status_of_code : ℕ → Status
status_of_code n =
    if n == 0
    then ok_status
    else if n == int32_min
    then unknown_error
    else if n == minus 12
    then no_memory
    else if n == minus 38
    then invalid_operation
    else if n == minus 22
    then bad_value
    else if n == int32_min + 1
    then bad_type
    else if n == minus 2
    then name_not_found
    else if n == minus 1
    then permission_denied
    else if n == minus 19
    then no_init
    else if n == minus 17
    then already_exists
    else if n == minus 32
    then dead_object
    else if n == int32_min + 2
    then failed_transaction
    else if n == minus 75
    then bad_index
    else if n == minus 61
    then not_enough_data
    else if n == minus 11
    then would_block
    else if n == minus 110
    then timed_out
    else if n == minus 74
    then unknown_transaction
    else if n == int32_min + 7
    then fds_not_allowed
    else if n == int32_min + 8
    then unexpected_null
    else unnamed_status n

-- A value of the enumeration that is one of its enumerators.
abbrev pub IsNamed : Status → Type 0
IsNamed (unnamed_status n) = ⊥
IsNamed _ = Unit {0}

pub status_of_code-status_code : (s : Status) → IsNamed s → status_of_code (status_code s) ≡ s
unfolding status_of_code status_code
status_of_code-status_code (unnamed_status n) h = absurd h
status_of_code-status_code ok_status h = refl
status_of_code-status_code _ h = refl

pub status_code-lt : (s : Status) → IsNamed s → status_code s < 2 ^ 32
unfolding status_code
status_code-lt (unnamed_status n) h = absurd h
status_code-lt ok_status h = omega arith
status_code-lt _ h = omega arith

-- What the reader's one-byte numbers make of a status on the wire.
abbrev pub low_byte_status : Status → Status
low_byte_status s = status_of_code (status_code s % 256)

-- Of the enumerators only these two have a lowest byte of zero.
pub low_byte_status_only :
    (s : Status) → IsNamed s → low_byte_status s ≡ ok_status → (s ≡ ok_status) ⊎ (s ≡ unknown_error)
unfolding status_of_code status_code
low_byte_status_only (unnamed_status n) h e = absurd h
low_byte_status_only ok_status h e = inl refl
low_byte_status_only unknown_error h e = inr refl
low_byte_status_only _ h e = cc

pub low_byte_status_ok :
    (s : Status) → (s ≡ ok_status) ⊎ (s ≡ unknown_error) → low_byte_status s ≡ ok_status
unfolding status_of_code status_code
low_byte_status_ok s (inl e) = rw e refl
low_byte_status_ok s (inr e) = rw e refl
