-- ===== src/Parser/Ends.antt =====
-- The parser's loop ends on every buffer.
use binderd.Common.{
  ℕ, zero, suc, ◌-◌, ◌<◌, ◌≡◌, ◌≢◌, refl, arith, length, Option, none, some, Result, ok, err,
  undefined,
}
use binderd.Buffer.{Buffer}
use binderd.Message.{Message, create_message, unknown}
use binderd.Parser.{Parser, open_parser, next, parse_all}
use binderd.Parser.Runs.{unpack-ne-undefined}

pub next-ne-undefined : (p : Parser) → next p ≢ undefined
unfolding next
next-ne-undefined p =
    ground (arith, unpack-ne-undefined p.buffer p.consumed (create_message unknown))

-- A message that was found moves the parser on.
next_moves :
    (p q : Parser) (m : Message)
    → next p ≡ ok (some m, q)
    → (p.consumed < q.consumed)
      × (p.consumed < p.bytes_available)
      × (q.bytes_available ≡ p.bytes_available)
unfolding next
next_moves p q m e = ground arith

round_ends :
    (fuel : ℕ) (p : Parser) (r : Result (Option Message × Parser))
    → next p ≡ r
    → ((q : Parser) (m : Message) → r ≡ ok (some m, q) → (parse_all fuel q).1 ≢ undefined)
    → (parse_all (suc fuel) p).1 ≢ undefined
unfolding parse_all
round_ends fuel p (ok (none, q)) e rest = rw (e, parse_all) (λ h. cc)
round_ends fuel p (ok (some m, q)) e rest = rw (e, parse_all) (rest q m refl)
round_ends fuel p (err x) e rest = rw (e, parse_all) (λ h. cc)
round_ends fuel p undefined e rest = absurd (next-ne-undefined p e)

rounds_end :
    (fuel : ℕ) (p : Parser)
    → p.bytes_available - p.consumed < fuel
    → (parse_all fuel p).1 ≢ undefined
rounds_end zero p h = absurd (omega arith)
rounds_end (suc fuel) p h =
    round_ends fuel p (next p) refl λ q m e. rounds_end fuel q (omega (arith, next_moves p q m e))

-- On every buffer, well formed or not, the loop ends by the null pointer or by an exception within
-- one round more than the buffer has bytes.
pub parse_all-ends :
    (b : Buffer) → (parse_all (suc (length b.bytes)) (open_parser b (length b.bytes))).1 ≢ undefined
parse_all-ends b = rounds_end (suc (length b.bytes)) (open_parser b (length b.bytes)) (omega arith)
