-- ===== src/System.antt =====
-- A client and the server together: a request of src/binderd/client_impl.cpp, what
-- src/binderd/server_session.cpp makes of its bytes, and the client on the bytes of the answer.
pub mod Packed
pub mod Halves
pub mod Statuses
pub mod Deaths
use binderd.Common.{
  ℕ, zero, suc, ◌+◌, ◌-◌, ◌^◌, ◌%◌, ◌<◌, ◌≤◌, ◌≡◌, refl, sym, ap, ap₂, ◌∙◌, Bool, true, false,
  Option, none, some, is_some, find, List, [], ◌∷◌, ◌++◌, arith, Bytes, IsByte, All, Result, ok,
  length, append-nil, length-append, le→leb, le_bytes, length-le_bytes, find-insert, insert, subst,
  ◌&&◌, if◌then◌else◌, ◌||◌, not, err, runtime_error,
}
use native.Mathlib.Nat.{mod-eq_of_lt}
use binderd.Common.Effects.{Act, proceed, ◌>>=◌, ◌>>◌, pure, lift, get, modify}
use binderd.Buffer.{Allocator, NeverFails, Buffer}
use binderd.Reader.{Reader, read_int32}
use binderd.Reader.Numbers.{data_buffer, read_value-le_bytes}
use binderd.Message.{Message, MessageType, status, transaction, type_code, type_of_code}
use binderd.Message.Wire.{pack, get_reader}
use binderd.Message.RoundTrip.{
  encode, IsSmall, IsStorable, pack_lem, unpacked, received, unpacked_small,
}
use binderd.Parser.{Parser, open_parser, next}
use binderd.Parser.Runs.{buffer_of, next-encode, encode_size}
use binderd.Status.{Status, status_code, status_of_code, low_byte_status}
use binderd.Server.State.{World, continue_with, with_session}
use binderd.Server.Output.Written.{IsWritable, wrote, status_message}
use binderd.Server.Handlers.{process_message}
use binderd.Server.Handlers.Answers.{Answered}
use binderd.Server.Handlers.Requests.{IsPlainRequest, IsComplete, process_message-answers}
use binderd.Server.Lifecycle.{on_read, read_next_message}
use binderd.Server.Lifecycle as Server
use binderd.Client.State.{Client, PendingCall}
use binderd.Client.Calls.{start_call, queue_message, transact_message, write_bytes}
use binderd.Client.Incoming.{
  on_message, on_new_message, read_loop, read_status, status_in, is_transaction,
}
use binderd.Client.Requests.{value_of}
use binderd.Client.Cookies.{IsFresh, started, start_call_lem, unused_promise, unused_cookie}
use binderd.Client.Answers.{IsFor, is_notice, settles, settled, read_loop_step, read_loop_end}
use binderd.System.Packed.{next-one, settles_one, on_read-one}
use binderd.System.Halves.{
  transact_message_lem, session_answers, call_of, client_gets_status, read_status-status_message,
}

module _ (alloc : Allocator) (memory : NeverFails alloc) where
  -- A client that may write sends a request which is no transaction, by `Transact`; the session
  -- reads its bytes, and the client reads the status that the session writes. The request gets the
  -- client's next cookie; the session ends by writing one status with that cookie and reads on; the
  -- client's promise gets that status, of which it reads the lowest byte of the code; and the task
  -- that ends the call is posted. The cookie, the request's fields and its size lie below 256, its
  -- body is what its handler reads, the client's calls are kept apart, and allocations succeed.
  pub request_is_answered :
      (s : ℕ) (m : Message) (c : Client) (w : World)
      → IsFresh c
      → c.next_cookie < 256
      → c.connected ≡ true
      → c.running ≡ true
      → c.should_exit ≡ false
      → IsSmall m
      → All IsByte m.body.bytes
      → IsPlainRequest m.kind
      → IsComplete m.kind (length m.body.bytes)
      → (result : Status) × (v : World) × (d e : Client) × (transact_message alloc m false c
          ≡ (ok (some c.next_promise), d))
        × (d.written ≡ c.written ++ encode (record m { cookie = c.next_cookie }) ∷ [])
        × (on_read alloc s (some (buffer_of (encode (record m { cookie = c.next_cookie })))) w
            ≡ read_next_message s (wrote s (status_message c.next_cookie result) v))
        × (on_new_message (some (buffer_of (encode (status_message c.next_cookie result)))) d
            ≡ (ok tt, e))
        × (answer : Message) × (value_of c.next_promise e ≡ some answer)
        × (read_status answer ≡ ok (low_byte_status result))
  request_is_answered s m c w fresh low connected running stays small in_bytes plain complete =
      let m' = record m { cookie = c.next_cookie } in
      let small' : IsSmall m' = record {
        proper = small.proper;
        code = small.code;
        destination = small.destination;
        cookie = low;
        size = small.size;
      } in
      let (result, v, served) =
        session_answers alloc memory s m' small' in_bytes plain complete
          (with_session s (λ session. record session { reading = false }) w) in
      let answer = status_message c.next_cookie result in
      let d = write_bytes (encode m') (started m false c) in
      let (got, holds) = client_gets_status m c result fresh low plain in
      (
        result,
        v,
        d,
        record (settled (call_of m c) (received answer) d) { reading = true },
        transact_message_lem alloc memory m c fresh (omega (arith, low)) connected running stays
            (record { small = omega (arith, small.size); in_bytes = in_bytes }),
        refl,
        on_read-one alloc s m' w (wrote s answer v) small.size served,
        got (encode m'),
        received answer,
        holds,
        read_status-status_message c.next_cookie result,
      )
