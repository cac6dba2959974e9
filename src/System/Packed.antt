-- ===== src/System/Packed.antt =====
-- What both sides make of a buffer that holds one packed message.
use binderd.Common.{
  ℕ, suc, ◌-◌, ◌<◌, ◌≡◌, refl, sym, ap, ap₂, ◌∙◌, true, false, some, is_some, find, [], arith,
  Bytes, ok, length, append-nil, le→leb,
}
use binderd.Common.Effects.{proceed, modify}
use binderd.Buffer.{Allocator}
use binderd.Message.{Message}
use binderd.Message.RoundTrip.{encode, unpacked}
use binderd.Parser.{Parser, open_parser, next}
use binderd.Parser.Runs.{buffer_of, next-encode, encode_size}
use binderd.Server.State.{World, continue_with, with_session}
use binderd.Server.Handlers.{process_message}
use binderd.Server.Lifecycle.{on_read, read_next_message}
use binderd.Server.Lifecycle as Server
use binderd.Client.State.{Client, PendingCall}
use binderd.Client.Incoming.{on_new_message, read_loop}
use binderd.Client.Answers.{IsFor, is_notice, settles, settled, read_loop_step, read_loop_end}

-- A parser of one packed message, after its one round.
abbrev pub after : Message → Parser
after m = record {
  buffer = buffer_of (encode m);
  bytes_available = length (encode m);
  consumed = length (encode m);
}

pub next-one :
    (m : Message)
    → length m.body.bytes < 256
    → next (open_parser (buffer_of (encode m)) (length (encode m)))
      ≡ ok (some (unpacked m), after m)
next-one m h =
    ap (λ (b : Bytes). next (open_parser (buffer_of b) (length (encode m))))
      (sym (append-nil (encode m)))
    ∙ next-encode [] [] m (length (encode m)) 0 h refl (omega (arith, encode_size m))
    ∙ ap₂
        (λ (b : Bytes) (n : ℕ).
          ok (some (unpacked m), record (after m) { buffer = buffer_of b; consumed = n }))
        (append-nil (encode m)) (omega arith)

-- The client's handler on one packed message that settles a call.
pub settles_one :
    (call : PendingCall) (m : Message) (c : Client)
    → length m.body.bytes < 256
    → IsFor call (unpacked m) c
    → is_notice call (unpacked m) ≡ false
    → is_some (find call.promise c.promises) ≡ false
    → on_new_message (some (buffer_of (encode m))) c
      ≡ (ok tt, record (settled call (unpacked m) c) { reading = true })
unfolding on_new_message
settles_one call m c h f n unset =
    let p = open_parser (buffer_of (encode m)) (length (encode m)) in
    let d = record c { reading = false } in
    let fuel = length (encode m) - 1 in
    let loop : read_loop (suc (length (encode m))) p d ≡ (ok tt, settled call (unpacked m) d) =
      ap (λ k. read_loop (suc k) p d) (omega (arith, encode_size m))
      ∙ read_loop_step (suc fuel) p (after m) (unpacked m) d (settled call (unpacked m) d)
          (next-one m h)
          (settles call (unpacked m) d (record { waits = f.waits; not_log = f.not_log }) n unset)
      ∙ read_loop_end fuel (after m) (settled call (unpacked m) d) (omega arith) in
    ap (λ r. proceed r (λ _. modify (λ e. record e { reading = true }))) loop

module _ (alloc : Allocator) (s : ℕ) where
  server_end :
      (fuel : ℕ) (m : Message) (v : World)
      → Server.read_loop alloc (suc fuel) s (after m) v ≡ (ok tt, v)
  unfolding Server.read_loop next
  server_end fuel m v = rw (le→leb (length (encode m)) (length (encode m)) (omega arith))

  server_loop :
      (fuel : ℕ) (m : Message) (u v : World)
      → length m.body.bytes < 256
      → process_message alloc s (unpacked m) u ≡ (ok tt, v)
      → Server.read_loop alloc
          (suc (suc fuel))
          s
          (open_parser (buffer_of (encode m)) (length (encode m)))
          u
        ≡ (ok tt, v)
  unfolding Server.read_loop
  server_loop fuel m u v h runs = rw (next-one m h, runs) (server_end fuel m v)

  -- The session's handler on one packed message.
  pub on_read-one :
      (m : Message) (w v : World)
      → length m.body.bytes < 256
      → process_message alloc s
          (unpacked m)
          (with_session s (λ session. record session { reading = false }) w)
        ≡ (ok tt, v)
      → on_read alloc s (some (buffer_of (encode m))) w ≡ read_next_message s v
  unfolding on_read
  on_read-one m w v h runs =
      let p = open_parser (buffer_of (encode m)) (length (encode m)) in
      let u = with_session s (λ session. record session { reading = false }) w in
      let loop : Server.read_loop alloc (suc (length (encode m))) s p u ≡ (ok tt, v) =
        ap (λ k. Server.read_loop alloc (suc k) s p u) (omega (arith, encode_size m))
        ∙ server_loop (length (encode m) - 1) m u v h runs in
      ap (λ r. continue_with r (λ _. read_next_message s)) loop
