-- ===== src/System/Halves.antt =====
-- The client's half of a request, and the session's.
use binderd.Common.{
  ℕ, ◌+◌, ◌^◌, ◌<◌, ◌≡◌, ◌↔◌, ◌⊎◌, refl, sym, ap, ◌∙◌, true, false, none, some, find, [], arith,
  Bytes, IsByte, All, ok, length, append-nil, le_bytes, length-le_bytes, find-insert, insert, subst,
  ◌&&◌, if◌then◌else◌, ◌||◌, not, err, runtime_error,
}
use binderd.Common.Effects.{proceed, ◌>>=◌, ◌>>◌, pure, lift, modify}
use binderd.Buffer.{Allocator, NeverFails}
use binderd.Reader.{read_int32}
use binderd.Reader.Numbers.{data_buffer-bytes, read_value-le_bytes}
use binderd.Message.{Message, MessageType, transaction, type_code}
use binderd.Message.Wire.{pack}
use binderd.Message.RoundTrip.{
  encode, IsSmall, IsStorable, pack_lem, unpacked, received, unpacked_small,
}
use binderd.Parser.Runs.{buffer_of}
use binderd.Status.{
  Status, status_code, low_byte_status, ok_status, unknown_error, IsNamed, low_byte_status_only,
  low_byte_status_ok,
}
use binderd.Server.State.{World}
use binderd.Server.Output.Written.{status_message}
use binderd.Server.Handlers.{process_message}
use binderd.Server.Handlers.Answers.{Answered}
use binderd.Server.Handlers.Requests.{IsPlainRequest, IsComplete, process_message-answers}
use binderd.Client.State.{Client, PendingCall}
use binderd.Client.Calls.{start_call, queue_message, transact_message, write_bytes}
use binderd.Client.Incoming.{on_new_message, read_status, status_in, is_transaction}
use binderd.Client.Cookies.{IsFresh, started, start_call_lem, unused_promise, unused_cookie}
use binderd.Client.Answers.{IsFor, is_notice, settled}
use binderd.System.Packed.{settles_one}

pub plain_is_no_transaction :
    (kind : MessageType) → IsPlainRequest kind → is_transaction kind ≡ false
plain_is_no_transaction transaction h = absurd h
plain_is_no_transaction _ h = refl

-- What the client reads in a status that the server packed.
pub read_status-status_message :
    (cookie : ℕ) (result : Status)
    → read_status (received (status_message cookie result)) ≡ ok (low_byte_status result)
unfolding read_status
read_status-status_message cookie result =
    let code = status_code result in
    ap
      (λ (b : Bytes).
        status_in (read_int32 (record { bytes = b; current = 0; use_padding = true })))
      (data_buffer-bytes (le_bytes 4 code) ∙ sym (append-nil (le_bytes 4 code)))
    ∙ ap (λ r. status_in r) (read_value-le_bytes [] [] true 4 code (omega arith))

-- Of the enumerators `OK` and `UnknownError`, and no other, are read as `OK` by the client that gets
-- the status message of the server for them.
pub read_status-status_message_iff :
    (cookie : ℕ) (result : Status)
    → IsNamed result
    → (read_status (received (status_message cookie result)) ≡ ok ok_status)
      ↔ ((result ≡ ok_status) ⊎ (result ≡ unknown_error))
read_status-status_message_iff cookie result named = (
  λ e.
      low_byte_status_only result named
        (ok_inj (sym (read_status-status_message cookie result) ∙ e)),
  λ known. read_status-status_message cookie result ∙ ap ok (low_byte_status_ok result known),
)
  where
    ok_inj : {r : Status} → ok r ≡ ok ok_status → r ≡ ok_status
    ok_inj e = cc

pub status_message-IsSmall :
    (cookie : ℕ) (result : Status) → cookie < 256 → IsSmall (status_message cookie result)
unfolding type_code
status_message-IsSmall cookie result h = record {
  proper = tt;
  code = omega arith;
  destination = omega arith;
  cookie = h;
  size = omega (arith, length-le_bytes 4 (status_code result));
}

module _ (alloc : Allocator) (memory : NeverFails alloc) where
  pub queue_message_lem :
      (m : Message) (c : Client)
      → c.running ≡ true
      → c.should_exit ≡ false
      → IsStorable m
      → queue_message alloc m c ≡ (ok tt, write_bytes (encode m) c)
  unfolding queue_message
  queue_message_lem m c running stays h =
      let allowed : c.should_exit || not c.running ≡ false =
        ap (λ b. b || not c.running) stays ∙ ap not running in
      ap
        (λ b.
          (if b
              then lift (err runtime_error)
              else (lift (pack alloc m) >>= λ b. modify (write_bytes b.bytes)))
            c)
        allowed
      ∙ ap (λ r. proceed (r, c) (λ b. modify (write_bytes b.bytes))) (pack_lem alloc memory m h)

  -- What a client writes for a request, where it is connected and may write.
  pub transact_message_lem :
      (m : Message) (c : Client)
      → IsFresh c
      → c.next_cookie + 1 < 2 ^ 64
      → c.connected ≡ true
      → c.running ≡ true
      → c.should_exit ≡ false
      → IsStorable m
      → transact_message alloc m false c ≡ (
        ok (some c.next_promise),
        write_bytes (encode (record m { cookie = c.next_cookie })) (started m false c),
      )
  unfolding transact_message
  transact_message_lem m c fresh room connected running stays h =
      let sends =
        start_call m false >>= λ (sent, promise). queue_message alloc sent >> pure (some promise) in
      let m' = record m { cookie = c.next_cookie } in
      ap (λ b. (if b then sends else pure none) c) connected
      ∙ ap (λ r. proceed r (λ (sent, promise). queue_message alloc sent >> pure (some promise)))
          (start_call_lem m false c fresh room)
      ∙ ap (λ r. proceed r (λ _. pure (some c.next_promise)))
          (queue_message_lem m' (started m false c) running stays
            (record { small = h.small; in_bytes = h.in_bytes }))

  -- The session's handler answers the request as it was unpacked.
  pub session_answers :
      (s : ℕ) (m : Message)
      → IsSmall m
      → All IsByte m.body.bytes
      → IsPlainRequest m.kind
      → IsComplete m.kind (length m.body.bytes)
      → (w : World) → Answered s m.cookie (process_message alloc s (unpacked m) w)
  session_answers s m small in_bytes plain complete w =
      let body = data_buffer-bytes m.body.bytes in
      subst (λ (n : Message). Answered s m.cookie (process_message alloc s n w))
        (sym (unpacked_small m small))
        (process_message-answers alloc memory s (received m) w plain
          (subst (λ (b : Bytes). IsComplete m.kind (length b)) (sym body) complete)
          (record {
            room = omega (arith, ap (λ (b : Bytes). length b) body, small.size);
            in_bytes = subst (λ (b : Bytes). All IsByte b) (sym body) in_bytes;
          }))

-- The call that `StartCall` makes for a request.
abbrev pub call_of : Message → Client → PendingCall
call_of m c = record { promise = c.next_promise; msg_type = m.kind; one_way = false }

-- The client on the status that settles the request which it sent last.
pub client_gets_status :
    (m : Message) (c : Client) (result : Status)
    → IsFresh c
    → c.next_cookie < 256
    → IsPlainRequest m.kind
    → ((b : Bytes)
        → on_new_message
            (some (buffer_of (encode (status_message c.next_cookie result))))
            (write_bytes b (started m false c))
          ≡ (
            ok tt,
            record (settled
                (call_of m c)
                (received (status_message c.next_cookie result))
                (write_bytes b (started m false c))) { reading = true },
          ))
      × (find c.next_promise
            (insert c.next_promise (received (status_message c.next_cookie result)) c.promises)
          ≡ some (received (status_message c.next_cookie result)))
client_gets_status m c result fresh low plain =
    let answer = status_message c.next_cookie result in
    let small = status_message-IsSmall c.next_cookie result low in
    let same = unpacked_small answer small in
    let waits : find c.next_cookie (insert c.next_cookie (call_of m c) c.pending_calls)
        ≡ some (call_of m c) =
      ground (
        arith,
        unused_cookie c fresh,
        find-insert c.next_cookie c.next_cookie (call_of m c) c.pending_calls,
      ) in
    (
      λ b.
          let d = write_bytes b (started m false c) in
          subst
            (λ (n : Message).
              on_new_message (some (buffer_of (encode answer))) d
              ≡ (ok tt, record (settled (call_of m c) n d) { reading = true }))
            same
            (settles_one (call_of m c) answer d small.size
              (subst (λ (n : Message). IsFor (call_of m c) n d) (sym same)
                (record { waits = waits; not_log = refl }))
              (subst (λ (n : Message). is_notice (call_of m c) n ≡ false) (sym same)
                (ap (λ b. b && true) (plain_is_no_transaction m.kind plain)))
              (unused_promise c fresh)),
      ground (
        arith,
        unused_promise c fresh,
        find-insert c.next_promise c.next_promise (received answer) c.promises,
      ),
    )
