-- ===== src/System/Statuses.antt =====
-- A status that an object returns, from the client that called the object to the one that waits.
use binderd.Common.{
  ℕ, ◌≡◌, ◌≢◌, refl, ap, ◌∙◌, true, false, ◌++◌, Option, none, some, arith, Bytes, IsByte, All,
  All-append, le_bytes, le_bytes-IsByte, length, length-le_bytes, replicate, ok,
}
use binderd.Buffer.{Allocator, NeverFails}
use binderd.Writer.{open_writer}
use binderd.Writer.Data.{padded, padding, length-padded, write_data_lem}
use binderd.Reader.Numbers.{data_buffer-bytes}
use binderd.Message.{Message, create_message, transaction_reply}
use binderd.Message.RoundTrip.{encode, received, fresh_writer-AtEnd, IsStorable}
use binderd.Status.{Status, ok_status, IsNamed, status_code}
use binderd.Transaction.{TransactionData, FromMessage, transaction_status, from_message, get_status}
use binderd.Transaction.RoundTrip as Payload
use binderd.Transaction.Whole.{status-IsStorable}
use binderd.Transaction.Received.{from_message-encode, get_status-encode, flags_lem}
use binderd.Server.Output.Written.{zeros-IsByte, empty_writer}
use binderd.Client.State.{Client}
use binderd.Client.Calls.{write_bytes}
use binderd.Client.Requests.{end_transact}
use binderd.Client.Commands.{Objects, call_object, reply_message, answer_payload}
use binderd.System.Halves.{queue_message_lem}

-- The message that carries a status in the place of a reply.
abbrev pub status_answer : ℕ → Status → Message
status_answer cookie result = record (create_message transaction_reply) {
  cookie = cookie;
  body = record {
    bytes = padded true (Payload.encode (transaction_status result));
    immutable = false;
  };
}

padded-IsByte : (b : Bytes) → All IsByte b → All IsByte (padded true b)
padded-IsByte b h =
    All-append IsByte b (replicate (padding true (length b)) 0) h
      (zeros-IsByte (padding true (length b)))

encode-IsByte : (result : Status) → All IsByte (Payload.encode (transaction_status result))
encode-IsByte result =
    let t = transaction_status result in
    All-append IsByte (Payload.words t ++ Payload.sized t.body)
      (Payload.sized (Payload.packed_objects t))
      (All-append IsByte (Payload.words t) (Payload.sized t.body) (Payload.words-IsByte t)
        (Payload.sized-IsByte t.body (le_bytes-IsByte 4 (status_code result))))
      (Payload.sized-IsByte (Payload.packed_objects t) tt)

length-encode : (result : Status) → length (Payload.encode (transaction_status result)) ≡ 36
unfolding le_bytes
length-encode result = refl

-- What the waiting client makes of it, under whatever cookie it comes.
status_answer-read :
    (cookie : ℕ) (result : Status) (d : Client)
    → IsNamed result
    → end_transact false (received (status_answer cookie result)) d ≡ (ok (result, none), d)
unfolding end_transact le_bytes
status_answer-read cookie result d named =
    let t = transaction_status result in
    let back = replicate {A = ℕ} (padding true (length (Payload.encode t))) 0 in
    let m = received (status_answer cookie result) in
    let body = data_buffer-bytes (padded true (Payload.encode t)) in
    let parsed : from_message m ≡ ok (Payload.from_encoded t) =
      from_message-encode t back m body (omega (arith, length-le_bytes 4 (status_code result)))
        (omega arith) in
    let word : get_status (Payload.from_encoded t) m.body.bytes ≡ result =
      ap (get_status (Payload.from_encoded t)) body ∙ get_status-encode result back named in
    rw (parsed, (flags_lem t).1, word)

module _ (alloc : Allocator) (memory : NeverFails alloc) where
  reply_message-status :
      (m : Message) (result : Status) (c : Client)
      → reply_message alloc m (transaction_status result) c
        ≡ (ok (status_answer m.cookie result), c)
  unfolding reply_message open_writer
  reply_message-status m result c =
      let t = transaction_status result in
      rw (
        Payload.pack_lem alloc memory t (status-IsStorable result),
        write_data_lem alloc memory (Payload.encode t) empty_writer
            (omega (arith, length-encode result)) fresh_writer-AtEnd (encode-IsByte result) tt,
      )

  answer_payload-fails :
      (result : Status) (reply : Option TransactionData) (d : Client)
      → result ≢ ok_status
      → answer_payload alloc (result, reply) d ≡ (ok (transaction_status result), d)
  answer_payload-fails ok_status reply d h = absurd (h refl)
  answer_payload-fails _ reply d h = refl

  status_answer-IsStorable :
      (cookie : ℕ) (result : Status) → IsStorable (status_answer cookie result)
  status_answer-IsStorable cookie result = record {
    small = omega (
      arith,
      length-encode result,
      length-padded true (Payload.encode (transaction_status result)),
    );
    in_bytes = padded-IsByte (Payload.encode (transaction_status result)) (encode-IsByte result);
  }

  -- An object that returns an error is answered for: the client that called it writes one reply with
  -- the transaction's cookie, and whichever cookie that has when it arrives, the client that waits
  -- reads the same status from it and no reply. The client that called it may write, the status is an
  -- enumerator, and allocations succeed.
  pub call_object-status :
      (objects : Objects) (object : ℕ) (m : Message) (request : FromMessage) (bytes : Bytes)
      (result : Status) (reply : Option TransactionData) (c d e : Client) (cookie : ℕ)
      → objects.transact object request bytes c ≡ (ok (result, reply), d)
      → result ≢ ok_status
      → IsNamed result
      → d.running ≡ true
      → d.should_exit ≡ false
      → (call_object alloc objects (some object) m request bytes c
          ≡ (ok tt, write_bytes (encode (status_answer m.cookie result)) d))
        × (end_transact false (received (status_answer cookie result)) e ≡ (ok (result, none), e))
  call_object-status objects object m request bytes result reply c d e cookie returns fails named
        running stays =
      (
        rw (returns, answer_payload-fails result reply d fails, reply_message-status m result d)
            (queue_message_lem alloc memory (status_answer m.cookie result) d running stays
              (status_answer-IsStorable m.cookie result)),
        status_answer-read cookie result e named,
      )
