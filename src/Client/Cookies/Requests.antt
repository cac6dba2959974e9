-- ===== src/Client/Cookies/Requests.antt =====
-- The client's requests keep its calls apart.
use binderd.Common.{
  ℕ, ◌+◌, ◌^◌, ◌%◌, ◌<◌, ◌≡◌, ◌==◌, Bool, true, false, not, ◌&&◌, if◌then◌else◌, Option, none, some,
  arith, Bytes, Result, ok, err, undefined,
}
use native.Mathlib.Nat.{mod-eq_of_lt}
use binderd.Common.Effects.{Act, ◌>>=◌, pure, lift, get, Keeps, proceed-Keeps, if-Keeps, lift-Keeps}
use binderd.Buffer.{Allocator, Buffer}
use binderd.Writer.{Writer, write_data}
use binderd.Message.{Message, create_message, transaction}
use binderd.Message.Wire.{get_writer}
use binderd.Status.{Status, bad_value, failed_transaction}
use binderd.Transaction.{TransactionData, FromMessage, from_message, has_status, get_status}
use binderd.Transaction as Transaction
use binderd.Translator.{Outcome, outward, inward, process_request, process_transaction}
use binderd.Client.State.{Client}
use binderd.Client.Calls.{transact_message, new_cookie}
use binderd.Client.Incoming.{is_status, read_status}
use binderd.Client.Requests.{
  Waiting, answered, or_status, begin_request, begin_transact, destination_of, send_translated,
  end_transact, reply_of, translated_reply, status_only, with_writer, is_reply,
}
use binderd.Client.Cookies.{IsFresh}
use binderd.Client.Cookies.Steps.{transact_message-IsFresh}

-- Cookies are left for a call.
abbrev pub HasRoom : ℕ → Client → Type 0
HasRoom k c = IsFresh c × (c.next_cookie + k < 2 ^ 64)

module _ (alloc : Allocator) where
  pub begin_request-IsFresh :
      (if_null : Status) (m : Message) (c : Client)
      → HasRoom 1 c
      → IsFresh (begin_request alloc if_null m c).1
  unfolding begin_request
  begin_request-IsFresh if_null m c (h, room) =
      proceed-Keeps IsFresh (transact_message alloc m false c) (λ p. pure (or_status if_null p))
        (transact_message-IsFresh alloc m false c h room) (λ p d k. k)

  send_translated-IsFresh :
      (handle cookie : ℕ) (request : TransactionData) (outcome : Outcome) (c : Client)
      → HasRoom 1 c
      → IsFresh (send_translated alloc handle cookie request outcome c).1
  send_translated-IsFresh handle cookie request (result, memory, t) c (h, room) =
      packing (Transaction.pack alloc (record request { body = memory }))
    where
      m : Message
      m = record (create_message transaction) {
        destination = destination_of handle;
        cookie = cookie;
      }

      d : Client
      d = record c { object_translator = t }

      sending : Writer → Act Client Waiting
      sending w = transact_message alloc (with_writer m w) request.is_one_way >>= λ p.
          pure (or_status failed_transaction p)

      writing : (w : Result Writer) → IsFresh ((lift w >>= sending) d).1
      writing (ok w) =
          proceed-Keeps IsFresh (transact_message alloc (with_writer m w) request.is_one_way d)
            (λ p. pure (or_status failed_transaction p))
            (transact_message-IsFresh alloc (with_writer m w) request.is_one_way d h room)
            (λ p e k. k)
      writing (err e) = h
      writing undefined = h

      packing :
          (b : Result Buffer)
          → IsFresh
              ((lift b >>= λ packed.
                  lift (write_data alloc packed.bytes (get_writer m)) >>= sending)
                d).1
      packing (ok b) = writing (write_data alloc b.bytes (get_writer m))
      packing (err e) = h
      packing undefined = h

  pub begin_transact-IsFresh :
      (handle : ℕ) (request : Option TransactionData) (wants_reply : Bool) (c : Client)
      → HasRoom 2 c
      → IsFresh (begin_transact alloc handle request wants_reply c).1
  unfolding begin_transact new_cookie
  begin_transact-IsFresh handle none wants_reply c (h, room) = h
  begin_transact-IsFresh handle (some request) wants_reply c (h, room) =
      choose (not request.is_one_way && not wants_reply)
    where
      d : Client
      d = record c { next_cookie = (c.next_cookie + 1) % 2 ^ 64 }

      next : d.next_cookie ≡ c.next_cookie + 1
      next = mod-eq_of_lt (omega (arith, room))

      fresh : IsFresh d
      fresh = rw next (record {
        below = λ k call e. omega (arith, h.below k call e);
        named = h.named;
        distinct = h.distinct;
        promised = h.promised;
      })

      translating :
          (outcome : Result Outcome)
          → IsFresh ((lift outcome >>= send_translated alloc handle c.next_cookie request) d).1
      translating (ok outcome) =
          send_translated-IsFresh handle c.next_cookie request outcome d
            (fresh, omega (arith, next, room))
      translating (err e) = fresh
      translating undefined = fresh

      choose :
          (refused : Bool)
          → IsFresh
              ((if refused
                  then pure (answered bad_value)
                  else (new_cookie >>= λ cookie. get >>= λ e.
                      lift (process_request outward request e.object_translator)
                      >>= send_translated alloc handle cookie request))
                c).1
      choose true = h
      choose false = translating (process_request outward request c.object_translator)

reply_of-IsFresh : (reply : FromMessage) (memory : Bytes) → Keeps IsFresh (reply_of reply memory)
reply_of-IsFresh reply memory c h =
    choose (has_status reply) (reply.data_size == 0)
      (process_transaction inward reply memory c.object_translator)
  where
    choose :
        (is_status is_empty : Bool) (outcome : Result Outcome)
        → IsFresh
            ((if is_status
                then (if is_empty then lift undefined else pure (get_status reply memory, none))
                else (lift outcome >>= translated_reply reply))
              c).1
    choose true true outcome = h
    choose true false outcome = h
    choose false is_empty (ok (result, m, t)) = h
    choose false is_empty (err e) = h
    choose false is_empty undefined = h

pub end_transact-IsFresh : (one_way : Bool) (m : Message) → Keeps IsFresh (end_transact one_way m)
unfolding end_transact
end_transact-IsFresh one_way m =
    if-Keeps IsFresh (one_way && is_status m.kind) (lift (read_status m) >>= status_only) _
      (lift-Keeps IsFresh (read_status m) status_only (λ r c h. h))
      (if-Keeps IsFresh (is_reply m.kind)
        (lift (from_message m) >>= λ reply. reply_of reply m.body.bytes) (status_only bad_value)
        (lift-Keeps IsFresh (from_message m) (λ reply. reply_of reply m.body.bytes)
          (λ reply. reply_of-IsFresh reply m.body.bytes))
        (λ c h. h))
