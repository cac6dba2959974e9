-- ===== src/Client/Loop.antt =====
-- The client's read handler is its handler of one message, on each message that the parser finds.
use binderd.Common.{
  ℕ, zero, suc, ◌≡◌, ◌≢◌, refl, ap, List, [], ◌∷◌, Option, none, some, Result, ok, err, undefined,
  length, true, false,
}
use binderd.Common.Effects.{Act, proceed, proceed_same, ◌>>◌, lift, modify}
use binderd.Buffer.{Buffer}
use binderd.Message.{Message}
use binderd.Parser.{Parser, open_parser, next, parse_all}
use binderd.Parser.Ends.{next-ne-undefined, parse_all-ends}
use binderd.Client.State.{Client}
use binderd.Client.Incoming.{on_message, read_loop, on_new_message}

-- The messages one after the other, and then how the parser ended.
unfoldable pub for_each : List Message → Result (Unit {0}) → Act Client (Unit {0})
for_each [] end = lift end
for_each (m ∷ ms) end = on_message m >> for_each ms end

round-for_each :
    (fuel : ℕ) (p : Parser) (c : Client) (found : Result (Option Message × Parser))
    → next p ≡ found
    → ((q : Parser) (d : Client)
        → read_loop fuel q d ≡ for_each (parse_all fuel q).0 (parse_all fuel q).1 d)
    → read_loop (suc fuel) p c ≡ for_each (parse_all (suc fuel) p).0 (parse_all (suc fuel) p).1 c
unfolding read_loop for_each parse_all
round-for_each fuel p c (ok (none, q)) e later = rw (e, parse_all)
round-for_each fuel p c (ok (some m, q)) e later =
    rw (e, parse_all)
      (proceed_same (on_message m c) (λ _. read_loop fuel q)
        (λ _. for_each (parse_all fuel q).0 (parse_all fuel q).1) (λ _ d. later q d))
round-for_each fuel p c (err thrown) e later = rw (e, parse_all)
round-for_each fuel p c undefined e later = absurd (next-ne-undefined p e)

read_loop-for_each :
    (fuel : ℕ) (p : Parser) (c : Client)
    → read_loop fuel p c ≡ for_each (parse_all fuel p).0 (parse_all fuel p).1 c
unfolding read_loop for_each parse_all
read_loop-for_each zero p c = refl
read_loop-for_each (suc fuel) p c = round-for_each fuel p c (next p) refl (read_loop-for_each fuel)

-- The handler of a buffer does to each message that the parser finds in it, in order, what the client
-- does to one message; then it throws what the parser throws, or asks for the next buffer. What a
-- message throws ends it. The parser's rounds are enough: they do not run out.
on_new_message-for_each :
    (b : Buffer) (c : Client)
    → let found = parse_all (suc (length b.bytes)) (open_parser b (length b.bytes)) in
      (on_new_message (some b) c
        ≡ (for_each found.0 found.1 >> modify (λ d. record d { reading = true }))
            (record c { reading = false }))
      × (found.1 ≢ undefined)
unfolding on_new_message
on_new_message-for_each b c = (
  ap
      (λ (r : Result (Unit {0}) × Client).
        proceed r (λ _. modify (λ d. record d { reading = true })))
      (read_loop-for_each (suc (length b.bytes)) (open_parser b (length b.bytes))
        (record c { reading = false })),
  parse_all-ends b,
)
