-- ===== src/Examples.antt =====
-- The theorems at work on concrete messages, sessions and buffers.
pub mod Heap
pub mod Messenger
pub mod Server
pub mod Client
pub mod Services
pub mod Loops
use binderd.Common.{
  ℕ, ◌+◌, ◌<◌, ◌≤◌, ◌≡◌, ◌≢◌, ◌⊎◌, ◌↔◌, refl, Bool, true, false, List, [], ◌∷◌, ◌++◌, arith, Option,
  none, some, is_some, find, Bytes, length, le_bytes, Result, ok, err, undefined, Map, ◌>>=◌, leb,
  ltb, ◌==◌, if◌then◌else◌,
}
use binderd.Buffer.{Buffer}
use binderd.Message.{
  Message, create_message, type_code, transaction, transaction_reply, acquire, set_context_mgr,
  status, unknown,
}
use binderd.Message.Wire as Wire
use binderd.Message.RoundTrip as MessageRoundTrip
use binderd.Parser.{parse_all, open_parser}
use binderd.Parser.Runs.{parse_all-two, parse_all-three, buffer_of}
use binderd.Parser.Ends.{parse_all-ends}
use binderd.Status.{Status, status_code, status_of_code, ok_status, unknown_error, dead_object}
use binderd.Client.Incoming.{read_status}
use binderd.Server.Output.Written.{status_message}
use binderd.System.Halves.{read_status-status_message_iff}
use binderd.Message.RoundTrip.{received}
use binderd.Writer.{Writer, write_data}
use binderd.Writer.Appends.{AtEnd, appended}
use binderd.Writer.Data.{write_data_lem, padded}
use binderd.Transaction.{
  TransactionData, FromMessage, writable, transaction_status, from_message, has_status, get_status,
}
use binderd.Transaction as Transaction
use binderd.Transaction.RoundTrip as TransactionRoundTrip
use binderd.Transaction.Whole.{IsReceived, from_message-pack, get_status-pack}
use binderd.Translator.{Translator, invalid, translate_cookie, translate_or_add_object}
use binderd.Translator.Cookies.{IsTable, translate_cookie-translate_or_add_object}
use binderd.Pool.{Reference, add_ref, release}
use binderd.Pool.Counts.{release-add_ref}
use binderd.Examples.Heap.{heap, heap-NeverFails}

abbrev a_call : Message
a_call = record {
  kind = transaction;
  cookie = 7;
  destination = 3;
  body = record { bytes = 1 ∷ 2 ∷ 3 ∷ 4 ∷ 5 ∷ []; immutable = false };
}

abbrev a_reply : Message
a_reply = record a_call {
  kind = transaction_reply;
  body = record { bytes = 9 ∷ []; immutable = false };
}

abbrev a_manager_request : Message
a_manager_request = record (create_message set_context_mgr) { cookie = 300 }

a_call-IsStorable : MessageRoundTrip.IsStorable a_call
a_call-IsStorable = record {
  small = omega arith;
  in_bytes = (omega arith, (omega arith, (omega arith, (omega arith, (omega arith, tt)))));
}

a_manager_request-IsStorable : MessageRoundTrip.IsStorable a_manager_request
a_manager_request-IsStorable = record { small = omega arith; in_bytes = tt }

a_call-IsSmall : MessageRoundTrip.IsSmall a_call
a_call-IsSmall = record {
  proper = tt;
  code = unfold type_code in omega arith;
  cookie = omega arith;
  destination = omega arith;
  size = omega arith;
}

-- The body of five bytes is padded, and read back without its padding.
unpack-pack_example :
    (Wire.pack heap a_call >>= λ b. Wire.unpack b 0 (create_message unknown))
    ≡ ok (MessageRoundTrip.received a_call, length (MessageRoundTrip.encode a_call))
unpack-pack_example =
    MessageRoundTrip.unpack-pack heap heap-NeverFails a_call (create_message unknown)
      a_call-IsStorable a_call-IsSmall

-- Cookie 300 comes back as 44.
unpack-pack_truncates_example :
    (Wire.pack heap a_manager_request >>= λ b. Wire.unpack b 0 (create_message unknown))
    ≡ ok (
      MessageRoundTrip.unpacked a_manager_request,
      length (MessageRoundTrip.encode a_manager_request),
    )
unpack-pack_truncates_example =
    MessageRoundTrip.unpack-pack_truncates heap heap-NeverFails a_manager_request
      (create_message unknown) a_manager_request-IsStorable (omega arith)

parse_all-two_example :
    parse_all 3 (
      open_parser
        (buffer_of (MessageRoundTrip.encode a_call ++ MessageRoundTrip.encode a_reply))
        (length (MessageRoundTrip.encode a_call ++ MessageRoundTrip.encode a_reply)))
    ≡ (MessageRoundTrip.unpacked a_call ∷ MessageRoundTrip.unpacked a_reply ∷ [], ok tt)
parse_all-two_example = parse_all-two 0 a_call a_reply (omega arith) (omega arith)

parse_all-three_example :
    parse_all 3 (
      open_parser
        (buffer_of (
          MessageRoundTrip.encode a_call
          ++ (MessageRoundTrip.encode a_reply ++ MessageRoundTrip.encode a_reply)))
        (length (
          MessageRoundTrip.encode a_call
          ++ (MessageRoundTrip.encode a_reply ++ MessageRoundTrip.encode a_reply))))
    ≡ (MessageRoundTrip.unpacked a_call ∷ MessageRoundTrip.unpacked a_reply ∷ [], ok tt)
parse_all-three_example =
    parse_all-three 0 a_call a_reply a_reply (omega arith) (omega arith)
      (unfold le_bytes in omega arith)

-- A buffer that is cut off in the middle of a number.
parse_all-ends_example :
    (parse_all 4 (open_parser (record { bytes = 8 ∷ 0 ∷ 0 ∷ []; immutable = false }) 3)).1
    ≢ undefined
parse_all-ends_example = parse_all-ends (record { bytes = 8 ∷ 0 ∷ 0 ∷ []; immutable = false })

read_status-status_message_iff_example :
    (read_status (received (status_message 3 unknown_error)) ≡ ok ok_status)
    ↔ ((unknown_error ≡ ok_status) ⊎ (unknown_error ≡ unknown_error))
read_status-status_message_iff_example = read_status-status_message_iff 3 unknown_error tt

abbrev a_writer : Writer
a_writer = record {
  buffer = record { bytes = 1 ∷ 0 ∷ 0 ∷ 0 ∷ []; immutable = false };
  current = 4;
  use_padding = true;
}

-- Two bytes go behind a number, and two bytes of padding behind them.
write_data_example :
    write_data heap (0xff ∷ 0xfe ∷ []) a_writer
    ≡ ok (appended a_writer (padded true (0xff ∷ 0xfe ∷ [])))
write_data_example =
    write_data_lem heap heap-NeverFails (0xff ∷ 0xfe ∷ []) a_writer (omega arith)
      (record { ends = refl; owned = refl }) (omega arith, (omega arith, tt))
      (omega arith, (omega arith, (omega arith, (omega arith, tt))))

-- One object offset, and a second that is cut off.
abbrev a_transaction : TransactionData
a_transaction = record writable {
  binder = 0x1234;
  code = 5;
  is_one_way = true;
  body = 1 ∷ 2 ∷ 3 ∷ [];
  objects = 0 ∷ 0 ∷ 0 ∷ 0 ∷ 0 ∷ 0 ∷ 0 ∷ 0 ∷ 24 ∷ [];
}

a_transaction-IsStorable : TransactionRoundTrip.IsStorable a_transaction
a_transaction-IsStorable = record {
  body_small = omega arith;
  objects_small = omega arith;
  body_bytes = (omega arith, (omega arith, (omega arith, tt)));
  object_bytes = (
    omega arith,
    (
      omega arith,
      (
        omega arith,
        (
          omega arith,
          (omega arith, (omega arith, (omega arith, (omega arith, (omega arith, tt))))),
        ),
      ),
    ),
  );
}

from_message-pack_example :
    (b : Buffer) × (Transaction.pack heap a_transaction ≡ ok b)
    × IsReceived a_transaction (record a_call { body = b })
from_message-pack_example =
    from_message-pack heap heap-NeverFails a_transaction a_call a_transaction-IsStorable
      (omega arith) (omega arith)

get_status-pack_example :
    (b : Buffer) × (Transaction.pack heap (transaction_status dead_object) ≡ ok b)
    × (t : FromMessage) × (from_message (record a_reply { body = b }) ≡ ok t)
    × (has_status t ≡ true)
    × (get_status t b.bytes ≡ dead_object)
get_status-pack_example = get_status-pack heap heap-NeverFails dead_object a_reply tt

-- The object at 0x7000, in a table that has another under 1.
abbrev a_translator : Translator
a_translator = record { objects = (1, 0x5000) ∷ []; next_object_id = 2 }

a_translator-IsTable : IsTable a_translator
unfolding find
a_translator-IsTable = record {
  unique = (refl, tt);
  given = λ id e. ground (arith, e);
  valid = refl;
  started = omega arith;
}

translate_cookie-translate_or_add_object_example :
    ((translate_or_add_object 0x7000 a_translator).0 ≢ invalid)
    × (translate_cookie
          (translate_or_add_object 0x7000 a_translator).0
          (translate_or_add_object 0x7000 a_translator).1
        ≡ 0x7000)
    × ((id : ℕ)
        → is_some (find id a_translator.objects) ≡ true
        → translate_cookie id (translate_or_add_object 0x7000 a_translator).1
          ≡ translate_cookie id a_translator)
    × (translate_or_add_object 0x7000 (translate_or_add_object 0x7000 a_translator).1
        ≡ translate_or_add_object 0x7000 a_translator)
    × IsTable (translate_or_add_object 0x7000 a_translator).1
translate_cookie-translate_or_add_object_example =
    translate_cookie-translate_or_add_object 0x7000 a_translator a_translator-IsTable (omega arith)

-- An object that was adopted, and nobody holds.
abbrev a_reference : Reference
a_reference = record { count = 0; obj = 0x5000 }

a_reference_found : find 0x5000 ((0x5000, a_reference) ∷ []) ≡ some a_reference
unfolding find
a_reference_found = refl

release-add_ref_example :
    ((release 0x5000 (add_ref 0x5000 ((0x5000, a_reference) ∷ [])).1).0 ≡ undefined)
    × ((other : ℕ)
        → find other (release 0x5000 (add_ref 0x5000 ((0x5000, a_reference) ∷ [])).1).1
          ≡ (if 0x5000 == other then none else find other ((0x5000, a_reference) ∷ [])))
release-add_ref_example =
    release-add_ref 0x5000 ((0x5000, a_reference) ∷ []) a_reference a_reference_found (omega arith)
