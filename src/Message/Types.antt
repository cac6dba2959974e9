-- ===== src/Message/Types.antt =====
-- src/binderd/message.h and the accessors of message.cpp.
use binderd.Common.{ℕ, ◌<◌, ◌≡◌, refl, false, [], ◌==◌, if◌then◌else◌, arith}
use binderd.Buffer.{Buffer}

-- `enum class Type : uint32_t`. A cast from a number may give a value that is no enumerator.
pub data MessageType : Type 0 where
  unknown transaction transaction_reply acquire release : MessageType
  request_death_notification clear_death_notification dead_binder : MessageType
  set_context_mgr set_monitor version log_entry status : MessageType
  unnamed : ℕ → MessageType

unfoldable pub type_code : MessageType → ℕ
type_code unknown = 0
type_code transaction = 1
type_code transaction_reply = 2
type_code acquire = 3
type_code release = 4
type_code request_death_notification = 5
type_code clear_death_notification = 6
type_code dead_binder = 7
type_code set_context_mgr = 8
type_code set_monitor = 9
type_code version = 10
type_code log_entry = 11
type_code status = 12
type_code (unnamed n) = n

-- `static_cast<Type>(n)`
unfoldable pub type_of_code : ℕ → MessageType
type_of_code n =
    if n == 0
    then unknown
    else if n == 1
    then transaction
    else if n == 2
    then transaction_reply
    else if n == 3
    then acquire
    else if n == 4
    then release
    else if n == 5
    then request_death_notification
    else if n == 6
    then clear_death_notification
    else if n == 7
    then dead_binder
    else if n == 8
    then set_context_mgr
    else if n == 9
    then set_monitor
    else if n == 10
    then version
    else if n == 11
    then log_entry
    else if n == 12
    then status
    else unnamed n

pub record Message : Type 0 where
  pub kind : MessageType
  pub cookie : ℕ
  pub destination : ℕ
  pub body : Buffer

abbrev pub create_message : MessageType → Message
create_message kind = record {
  kind = kind;
  cookie = 0;
  destination = 0;
  body = record { bytes = []; immutable = false };
}

-- A value of the enumeration: an unnamed one lies outside the named codes.
abbrev pub IsProper : MessageType → Type 0
IsProper (unnamed n) = 12 < n
IsProper _ = Unit {0}

pub type_of_code-type_code : (t : MessageType) → IsProper t → type_of_code (type_code t) ≡ t
unfolding type_of_code type_code
type_of_code-type_code (unnamed n) h = ground arith
type_of_code-type_code unknown h = refl
type_of_code-type_code _ h = refl
