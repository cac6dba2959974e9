-- ===== src/Parser.antt =====
-- src/binderd/message_parser.h, message_parser.cpp: takes the messages of one buffer apart.
pub mod Runs
pub mod Ends
use binderd.Common.{
  ℕ, zero, suc, ◌+◌, List, [], ◌∷◌, Bool, leb, ◌==◌, if◌then◌else◌, Option, none, some, Result, ok,
  err, undefined, ◌>>=◌,
}
use binderd.Buffer.{Buffer}
use binderd.Message.{Message, create_message, unknown}
use binderd.Message.Wire.{unpack}

pub record Parser : Type 0 where
  pub buffer : Buffer
  pub bytes_available : ℕ
  pub consumed : ℕ

abbrev pub open_parser : Buffer → ℕ → Parser
open_parser b size = record { buffer = b; bytes_available = size; consumed = 0 }

-- `Next`: `none` is the null pointer. `used` counts from the front of the buffer, as `Unpack` does.
unfoldable pub next : Parser → Result (Option Message × Parser)
next p = if leb p.bytes_available p.consumed then ok (none, p) else do
  (m, used) ← unpack p.buffer p.consumed (create_message unknown)
  if used == 0 then ok (none, p) else ok (some m, record p { consumed = p.consumed + used })

-- The messages that `while (auto msg = parser.Next())` sees, and how the loop ends: by the null
-- pointer or by an exception. `undefined` as the end means that the fuel ran out.
unfoldable pub parse_all : ℕ → Parser → List Message × Result (Unit {0})
parse_all zero p = ([], undefined)
parse_all (suc fuel) p = elim (next p) [
  | ok (none, p') ↦ ([], ok tt)
  | ok (some m, p') ↦ let rest = parse_all fuel p' in (m ∷ rest.0, rest.1)
  | err e ↦ ([], err e)
  | undefined ↦ ([], undefined)
]
