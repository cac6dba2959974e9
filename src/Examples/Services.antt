-- ===== src/Examples/Services.antt =====
-- The service manager's and the parcels' theorems at work.
use binderd.Common.{
  ℕ, ◌≡◌, refl, Bool, true, false, ◌&&◌, ltb, List, [], ◌∷◌, ◌++◌, arith, none, some, Bytes,
  le_bytes, ok, find,
}
use binderd.Common.Effects.{pure}
use binderd.Reader.{read_string16, read_value, advance, read_sized_data, read_data}
use binderd.Writer.{write_string16, padded_size}
use binderd.Reader.Numbers.{at_bytes}
use binderd.Reader.Strings.{read_string16-write_string16}
use binderd.Message.{Message, create_message, transaction}
use binderd.Status.{ok_status, bad_value}
use binderd.Transaction.{FromMessage, from_message, writable, pack_flags}
use binderd.Transaction.Bounds.{IsWithin, from_message-IsWithin}
use binderd.Transaction.RoundTrip as TransactionRoundTrip
use binderd.Pool.{Pool}
use binderd.Objects.{local}
use binderd.Writer.Data.{padded}
use binderd.Writer.{Writer}
use binderd.Parcel.{ParcelWriter, flat_of, read_object}
use binderd.Parcel.Objects.{write_object}
use binderd.Parcel.RoundTrip.{expected, read_object-write_object}
use binderd.ServiceManager.{same_name, Manager}
use binderd.ServiceManager.Calls.{Call, add, ask, died, replay}
use binderd.ServiceManager.Refinement.{run, run-replay}
use binderd.ServiceManager.Transact.{Uses}
use binderd.Examples.Heap.{heap, heap-NeverFails}

abbrev a_string : List ℕ
a_string = b's' ∷ 0x263a ∷ []

-- A writer behind four bytes.
abbrev a_string_writer : Writer
a_string_writer = record {
  buffer = record { bytes = 1 ∷ 2 ∷ 3 ∷ 4 ∷ []; immutable = false };
  current = 4;
  use_padding = true;
}

read_string16-write_string16_example :
    (w' : Writer) × (write_string16 heap a_string a_string_writer ≡ ok w')
    × (read_string16 heap (record { bytes = w'.buffer.bytes; current = 4; use_padding = true })
        ≡ ok (
          a_string,
          record { bytes = w'.buffer.bytes; current = w'.current; use_padding = true },
        ))
read_string16-write_string16_example =
    read_string16-write_string16 heap heap-NeverFails a_string a_string_writer (omega arith)
      (omega arith) (omega arith, (omega arith, tt)) (record { ends = refl; owned = refl })
      (omega arith, (omega arith, (omega arith, (omega arith, tt))))

abbrev new_writer_state : Writer
new_writer_state = record {
  buffer = record { bytes = []; immutable = false };
  current = 0;
  use_padding = true;
}

abbrev a_parcel : ParcelWriter
a_parcel = record {
  code = 0;
  data_writer = new_writer_state;
  objects_writer = new_writer_state;
  local_objects = [];
}

abbrev an_address : ℕ
an_address = 0x7fff00001000

read_object-write_object_example :
    (q : ParcelWriter) × (pool : Pool) × (write_object heap local an_address a_parcel []
      ≡ (ok q, pool))
    × ((back : Bytes)
        → read_object
            (some pool)
            (at_bytes [] (padded true (flat_of local an_address) ++ back) true)
          ≡ ok (expected local an_address, at_bytes q.data_writer.buffer.bytes back true))
unfolding find
read_object-write_object_example =
    read_object-write_object heap heap-NeverFails local an_address a_parcel [] (omega arith)
      (λ cookie ref e. cc) (record { ends = refl; owned = refl })
      (record { ends = refl; owned = refl }) tt refl

abbrev a_payload : Message
a_payload = record (create_message transaction) {
  body = record {
    bytes = TransactionRoundTrip.encode (record writable { code = 5; body = 1 ∷ 2 ∷ [] });
    immutable = false;
  };
}

abbrev a_from_message : FromMessage
a_from_message = record {
  binder = 0;
  cookie = 0;
  code = 5;
  flags = 0x10;
  data_at = 28;
  data_size = 2;
  objects_at = 34;
  objects_size = 0;
}

from_message-IsWithin_example : IsWithin a_payload.body.bytes a_from_message
unfolding from_message read_value advance read_sized_data read_data padded_size le_bytes pack_flags
from_message-IsWithin_example = from_message-IsWithin a_payload a_from_message refl

-- A conversion of ASCII, objects that can be linked to, and a pool.
abbrev plain : Uses Pool
plain = record {
  to_string8 = λ units. ok units;
  to_string16 = λ name. ok name;
  link_to_death = λ object. pure ok_status;
  create_remote = λ handle. pure 1;
  create_local = pure 2;
  object_type = λ object pool. local;
  get_pool = λ pool. pool;
  set_pool = λ pool old. pool;
}

abbrev is_ascii : Bytes → Bool
is_ascii [] = true
is_ascii (b ∷ bs) = ltb b 128 && is_ascii bs

abbrev a_name : Bytes
a_name = b'a' ∷ b'b' ∷ []

-- A service is added, asked for and lost, and its name taken again.
abbrev some_calls : List Call
some_calls = add a_name 5 ∷ add a_name 6 ∷ ask a_name ∷ died 5 ∷ ask a_name ∷ add a_name 7 ∷ []

run-replay_example :
    (run plain.link_to_death some_calls (record { services = []; outside = [] })).0
    ≡ ok (replay some_calls (λ name. none))
run-replay_example =
    run-replay plain.link_to_death (λ object s. (ok_status, s, refl)) some_calls []
      ((omega arith, (omega arith, tt)), ((omega arith, tt), (tt, tt)))

replayed :
    replay some_calls (λ name. none)
    ≡ (ok_status, none)
      ∷ (bad_value, none)
      ∷ (ok_status, some 5)
      ∷ (ok_status, none)
      ∷ (bad_value, none)
      ∷ (ok_status, none)
      ∷ []
unfolding replay same_name
replayed = refl

abbrev two_services : Manager Pool
two_services = record { services = (a_name, 5) ∷ (b'c' ∷ [], 6) ∷ []; outside = [] }
