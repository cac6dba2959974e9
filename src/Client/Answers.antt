-- ===== src/Client/Answers.antt =====
-- What becomes of a call that waits: the messages that settle it, in the order in which they come.
use binderd.Common.{
  ℕ, suc, ◌+◌, ◌<◌, ◌≡◌, ◌≢◌, refl, sym, ap, ◌∙◌, Bool, true, false, ◌&&◌, not, none, some, is_some,
  find, insert, find-insert, find-erase, [], ◌∷◌, ◌++◌, arith, Bytes, Result, ok, err, future_error,
  Exception, length, ◌-◌, ◌≤◌, append-nil, length-append, le→leb,
}
use binderd.Common.Effects.{◌>>◌, proceed, modify}
use binderd.Buffer.{Allocator}
use binderd.Message.{Message, status, transaction, transaction_reply}
use binderd.Parser.{Parser, open_parser, next}
use binderd.Parser.Runs.{buffer_of, next-encode, encode_size}
use binderd.Message.RoundTrip.{encode, unpacked}
use binderd.Status.{ok_status}
use binderd.Client.State.{Client, PendingCall, finish}
use binderd.Client.Calls.{finish_call}
use binderd.Client.Incoming.{
  on_message, answer_call, read_status, is_status, is_transaction, is_log_entry, read_loop,
  on_new_message,
}
use binderd.Client.Requests.{value_of}
use binderd.Client.Commands.{Objects, run_next_task}

-- The server's word on a transaction that wants a reply; all other messages settle the call.
abbrev pub is_notice : PendingCall → Message → Bool
is_notice call m = is_status m.kind && (is_transaction call.msg_type && not call.one_way)

-- A message for the call with its cookie.
pub record IsFor (call : PendingCall) (m : Message) (c : Client) : Type 0 where
  pub waits : find m.cookie c.pending_calls ≡ some call
  pub not_log : is_log_entry m.kind ≡ false

-- The client after a call's promise was set.
abbrev pub settled : PendingCall → Message → Client → Client
settled call m c = record c {
  promises = insert call.promise m c.promises;
  tasks = c.tasks ++ finish m.cookie ∷ [];
}

pub notice_delivered :
    (call : PendingCall) (m : Message) (c : Client)
    → IsFor call m c
    → is_notice call m ≡ true
    → read_status m ≡ ok ok_status
    → on_message m c ≡ (ok tt, c)
unfolding on_message answer_call
notice_delivered call m c f n s = rw (f.not_log, f.waits, n, s)

pub settles :
    (call : PendingCall) (m : Message) (c : Client)
    → IsFor call m c
    → is_notice call m ≡ false
    → is_some (find call.promise c.promises) ≡ false
    → on_message m c ≡ (ok tt, settled call m c)
unfolding on_message answer_call
settles call m c f n unset = rw (f.not_log, f.waits, n, unset)

-- A second message that settles a call throws.
pub settled_before :
    (call : PendingCall) (m : Message) (c : Client)
    → IsFor call m c
    → is_notice call m ≡ false
    → is_some (find call.promise c.promises) ≡ true
    → on_message m c ≡ (err future_error, c)
unfolding on_message answer_call
settled_before call m c f n set = rw (f.not_log, f.waits, n, set)

module _ (alloc : Allocator) (objects : Objects) where
  -- The task that was posted ends the call, where it is the first of the strand.
  finishes :
      (call : PendingCall) (m : Message) (c : Client)
      → c.tasks ≡ []
      → run_next_task alloc objects (settled call m c) ≡ (
        ok tt,
        finish_call m.cookie (record c { promises = insert call.promise m c.promises; tasks = [] }),
      )
  unfolding run_next_task
  finishes call m c idle = rw idle

  -- A transaction that waits for its reply: a status with its cookie that says `Ok` does not end it,
  -- and a reply with its cookie does. After the strand, which was idle, ran the task that the reply
  -- posted, the caller's promise holds the reply, no call has the cookie, and the other calls wait
  -- as before. The promise was not set before.
  pub two_way_call :
      (call : PendingCall) (notice reply : Message) (c : Client)
      → find reply.cookie c.pending_calls ≡ some call
      → notice.cookie ≡ reply.cookie
      → call.msg_type ≡ transaction
      → call.one_way ≡ false
      → notice.kind ≡ status
      → read_status notice ≡ ok ok_status
      → reply.kind ≡ transaction_reply
      → is_some (find call.promise c.promises) ≡ false
      → c.tasks ≡ []
      → (d : Client) × ((on_message notice >> (on_message reply >> run_next_task alloc objects)) c
          ≡ (ok tt, d))
        × (value_of call.promise d ≡ some reply)
        × (find reply.cookie d.pending_calls ≡ none)
        × ((cookie : ℕ)
            → cookie ≢ reply.cookie
            → find cookie d.pending_calls ≡ find cookie c.pending_calls)
  unfolding finish_call
  two_way_call call notice reply c waits same kind two_way is_notice' delivered is_reply' unset
        idle =
      let forNotice : IsFor call notice c = record {
        waits = ap (λ k. find k c.pending_calls) same ∙ waits;
        not_log = ap is_log_entry is_notice';
      } in
      let forReply : IsFor call reply c = record {
        waits = waits;
        not_log = ap is_log_entry is_reply';
      } in
      (
        finish_call reply.cookie
            (record c { promises = insert call.promise reply c.promises; tasks = [] }),
        rw
            (
              notice_delivered call notice c forNotice (rw (is_notice', kind, two_way) refl)
                  delivered,
              settles call reply c forReply (rw is_reply' refl) unset,
              finishes call reply c idle,
            )
            refl,
        ground (arith, find-insert call.promise call.promise reply c.promises),
        ground (arith, find-erase reply.cookie reply.cookie c.pending_calls),
        λ cookie ne. ground (arith, ne, find-erase reply.cookie cookie c.pending_calls),
      )

-- One round of the client's loop.
pub read_loop_step :
    (fuel : ℕ) (p q : Parser) (m : Message) (c d : Client)
    → next p ≡ ok (some m, q)
    → on_message m c ≡ (ok tt, d)
    → read_loop (suc fuel) p c ≡ read_loop fuel q d
unfolding read_loop
read_loop_step fuel p q m c d e runs = rw (e, runs)

pub read_loop_throws :
    (fuel : ℕ) (p q : Parser) (m : Message) (thrown : Exception) (c d : Client)
    → next p ≡ ok (some m, q)
    → on_message m c ≡ (err thrown, d)
    → read_loop (suc fuel) p c ≡ (err thrown, d)
unfolding read_loop
read_loop_throws fuel p q m thrown c d e throws = rw (e, throws)

pub read_loop_end :
    (fuel : ℕ) (p : Parser) (c : Client)
    → p.bytes_available ≤ p.consumed
    → read_loop (suc fuel) p c ≡ (ok tt, c)
unfolding read_loop next
read_loop_end fuel p c h = rw (le→leb p.bytes_available p.consumed h)

second_round :
    (fuel : ℕ) (call : PendingCall) (m n : Message) (c : Client)
    → length m.body.bytes < 256
    → length n.body.bytes < 256
    → IsFor call (unpacked m) c
    → IsFor call (unpacked n) c
    → is_notice call (unpacked m) ≡ false
    → is_notice call (unpacked n) ≡ false
    → is_some (find call.promise c.promises) ≡ false
    → read_loop
        (suc (suc fuel))
        (open_parser
          (buffer_of (encode m ++ (encode n ++ [])))
          (length (encode m ++ (encode n ++ []))))
        c
      ≡ (err future_error, settled call (unpacked m) c)
second_round fuel call m n c hm hn fm fn sm sn unset =
    let all = length (encode m ++ (encode n ++ [])) in
    let d = settled call (unpacked m) c in
    let size = length-append (encode m) (encode n ++ []) in
    let rest = length-append (encode n) [] in
    read_loop_step (suc fuel) _ _ _ c d
      (next-encode [] (encode n ++ []) m all 0 hm refl (omega (arith, size, encode_size m)))
      (settles call (unpacked m) c fm sm unset)
    ∙ read_loop_throws fuel _ _ _ future_error d d
        (next-encode (encode m) [] n all (0 + (0 + length (encode m))) hn (omega arith)
          (omega (arith, size, rest, encode_size n)))
        (settled_before call (unpacked n) d (record { waits = fn.waits; not_log = fn.not_log }) sn
          (ground (arith, unset, find-insert call.promise call.promise (unpacked m) c.promises)))

-- A buffer with two packed messages that settle the same call, before the task of the first has
-- run: the promise holds the first, the second throws, and no further read is under way. The bodies
-- lie below 256 bytes, and the promise was not set before.
pub on_new_message-second_answer :
    (call : PendingCall) (m n : Message) (c : Client)
    → length m.body.bytes < 256
    → length n.body.bytes < 256
    → IsFor call (unpacked m) c
    → IsFor call (unpacked n) c
    → is_notice call (unpacked m) ≡ false
    → is_notice call (unpacked n) ≡ false
    → is_some (find call.promise c.promises) ≡ false
    → (on_new_message (some (buffer_of (encode m ++ encode n))) c
        ≡ (err future_error, record (settled call (unpacked m) c) { reading = false }))
      × (value_of call.promise (on_new_message (some (buffer_of (encode m ++ encode n))) c).1
          ≡ some (unpacked m))
unfolding on_new_message
on_new_message-second_answer call m n c hm hn fm fn sm sn unset =
    let both = encode m ++ encode n in
    let d = record c { reading = false } in
    let fuel = length both - 1 in
    let loop : read_loop (suc (length both)) (open_parser (buffer_of both) (length both)) d
        ≡ (err future_error, settled call (unpacked m) d) =
      ap (λ k. read_loop (suc k) (open_parser (buffer_of both) (length both)) d)
        (omega (arith, encode_size m, length-append (encode m) (encode n)))
      ∙ ap (λ (b : Bytes). read_loop (suc (suc fuel)) (open_parser (buffer_of b) (length b)) d)
          (ap (λ (b : Bytes). encode m ++ b) (sym (append-nil (encode n))))
      ∙ second_round fuel call m n d hm hn (record { waits = fm.waits; not_log = fm.not_log })
          (record { waits = fn.waits; not_log = fn.not_log }) sm sn unset in
    let whole : on_new_message (some (buffer_of both)) c
        ≡ (err future_error, settled call (unpacked m) d) =
      ap (λ r. proceed r (λ _. modify (λ e. record e { reading = true }))) loop in
    (
      whole,
      ap (λ (r : Result (Unit {0}) × Client). value_of call.promise r.1) whole
          ∙ ground (arith, unset, find-insert call.promise call.promise (unpacked m) c.promises),
    )
