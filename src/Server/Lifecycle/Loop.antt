-- ===== src/Server/Lifecycle/Loop.antt =====
-- A session's read handler is its handler of one message, on each message that the parser finds.
use binderd.Common.{
  ℕ, zero, suc, ◌≡◌, ◌≢◌, refl, ap, List, [], ◌∷◌, Option, none, some, Result, ok, err, undefined,
  length, false,
}
use binderd.Buffer.{Allocator, Buffer}
use binderd.Message.{Message}
use binderd.Parser.{Parser, open_parser, next, parse_all}
use binderd.Parser.Ends.{next-ne-undefined, parse_all-ends}
use binderd.Server.State.{World, M, ◌>>◌, continue_with, lift, with_session}
use binderd.Server.Handlers.{process_message}
use binderd.Server.Lifecycle.{read_loop, on_read, read_next_message}

continue_with_same :
    {A B : Type 0} (first : Result A × World) (rest other : A → M B)
    → ((a : A) (w : World) → rest a w ≡ other a w)
    → continue_with first rest ≡ continue_with first other
continue_with_same (ok a, w) rest other same = same a w
continue_with_same (err e, w) rest other same = refl
continue_with_same (undefined, w) rest other same = refl

module _ (alloc : Allocator) (s : ℕ) where
  -- The messages one after the other, and then how the parser ended.
  unfoldable pub process_each : List Message → Result (Unit {0}) → M (Unit {0})
  process_each [] end = lift end
  process_each (m ∷ ms) end = process_message alloc s m >> process_each ms end

  round-process_each :
      (fuel : ℕ) (p : Parser) (w : World) (found : Result (Option Message × Parser))
      → next p ≡ found
      → ((q : Parser) (v : World)
          → read_loop alloc fuel s q v ≡ process_each (parse_all fuel q).0 (parse_all fuel q).1 v)
      → read_loop alloc (suc fuel) s p w
        ≡ process_each (parse_all (suc fuel) p).0 (parse_all (suc fuel) p).1 w
  unfolding read_loop process_each parse_all
  round-process_each fuel p w (ok (none, q)) e later = rw (e, parse_all)
  round-process_each fuel p w (ok (some m, q)) e later =
      rw (e, parse_all)
        (continue_with_same (process_message alloc s m w) (λ _. read_loop alloc fuel s q)
          (λ _. process_each (parse_all fuel q).0 (parse_all fuel q).1) (λ _ v. later q v))
  round-process_each fuel p w (err thrown) e later = rw (e, parse_all)
  round-process_each fuel p w undefined e later = absurd (next-ne-undefined p e)

  read_loop-process_each :
      (fuel : ℕ) (p : Parser) (w : World)
      → read_loop alloc fuel s p w ≡ process_each (parse_all fuel p).0 (parse_all fuel p).1 w
  unfolding read_loop process_each parse_all
  read_loop-process_each zero p w = refl
  read_loop-process_each (suc fuel) p w =
      round-process_each fuel p w (next p) refl (read_loop-process_each fuel)

  -- The session's handler of a buffer does to each message that the parser finds in it, in order, what
  -- `ProcessMessage` does to one; then it throws what the parser throws, or asks for the next buffer.
  -- What a message throws ends it. The parser's rounds are enough: they do not run out.
  on_read-process_each :
      (b : Buffer) (w : World)
      → let found = parse_all (suc (length b.bytes)) (open_parser b (length b.bytes)) in
        (on_read alloc s (some b) w
          ≡ (process_each found.0 found.1 >> read_next_message s)
              (with_session s (λ session. record session { reading = false }) w))
        × (found.1 ≢ undefined)
  unfolding on_read
  on_read-process_each b w = (
    ap (λ (r : Result (Unit {0}) × World). continue_with r (λ _. read_next_message s))
        (read_loop-process_each (suc (length b.bytes)) (open_parser b (length b.bytes))
          (with_session s (λ session. record session { reading = false }) w)),
    parse_all-ends b,
  )
