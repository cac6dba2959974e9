-- ===== src/Parser/Runs.antt =====
-- The parser's loop on buffers of packed messages, and that it ends on every buffer.
use binderd.Common.{
  ℕ, suc, ◌+◌, ◌≤◌, ◌<◌, ◌≡◌, ◌≢◌, refl, sym, ap, ◌∙◌, false, List, [], ◌∷◌, ◌++◌, arith, Bytes,
  length, some, Result, ok, undefined, ◌>>=◌, append-nil, length-append, le→leb, lt→leb_false,
  length-le_bytes, le_bytes, ==_ne,
}
use binderd.Buffer.{Buffer}
use binderd.Reader.{Reader, read_value, read_data, read_sized_data}
use binderd.Message.{Message, create_message, unknown, type_code}
use binderd.Message.Wire.{unpack}
use binderd.Message.RoundTrip.{encode, header, unpacked, unpack-encode}
use binderd.Parser.{Parser, open_parser, next, parse_all}

abbrev pub buffer_of : Bytes → Buffer
buffer_of b = record { bytes = b; immutable = false }

pub encode_size : (m : Message) → 24 ≤ length (encode m)
encode_size m =
    let kind : Bytes = le_bytes 4 (type_code m.kind) in
    let dest : Bytes = le_bytes 8 m.destination in
    let cookie : Bytes = le_bytes 8 m.cookie in
    let size : Bytes = le_bytes 4 (length m.body.bytes) in
    omega (
      arith,
      length-append (header m),
      length-append (kind ++ dest ++ cookie) size,
      length-append (kind ++ dest) cookie,
      length-append kind dest,
      length-le_bytes 4 (type_code m.kind),
      length-le_bytes 8 m.destination,
      length-le_bytes 8 m.cookie,
      length-le_bytes 4 (length m.body.bytes),
    )

-- One round in front of a packed message.
pub next-encode :
    (front back : Bytes) (m : Message) (available consumed : ℕ)
    → length m.body.bytes < 256
    → consumed ≡ length front
    → consumed < available
    → next (record {
      buffer = buffer_of (front ++ (encode m ++ back));
      bytes_available = available;
      consumed = consumed;
    })
      ≡ ok (
        some (unpacked m),
        record {
          buffer = buffer_of (front ++ (encode m ++ back));
          bytes_available = available;
          consumed = consumed + (length front + length (encode m));
        },
      )
unfolding next
next-encode front back m available consumed h here more = rw (
  lt→leb_false available consumed more,
  here,
  unpack-encode front back false m (create_message unknown) h,
  ◌>>=◌,
  length-append front (encode m),
  ==_ne (length front + length (encode m)) 0 (omega (arith, encode_size m)),
)

-- The loop stops where nothing is left.
parse_all_end :
    (fuel : ℕ) (p : Parser) → p.bytes_available ≤ p.consumed → parse_all (suc fuel) p ≡ ([], ok tt)
unfolding parse_all next
parse_all_end fuel p h = rw (parse_all, next, le→leb p.bytes_available p.consumed h)

parse_all_step :
    (fuel : ℕ) (p q : Parser) (m : Message)
    → next p ≡ ok (some m, q)
    → parse_all (suc fuel) p ≡ (m ∷ (parse_all fuel q).0, (parse_all fuel q).1)
unfolding parse_all
parse_all_step fuel p q m e = rw (parse_all, e)

-- One packed message in a buffer is what the loop sees, whatever fuel of two rounds or more.
pub parse_all-one :
    (fuel : ℕ) (m : Message)
    → length m.body.bytes < 256
    → parse_all (suc (suc fuel)) (open_parser (buffer_of (encode m)) (length (encode m)))
      ≡ (unpacked m ∷ [], ok tt)
parse_all-one fuel m h =
    let size = length (encode m) in
    ap (λ (b : Bytes). parse_all (suc (suc fuel)) (open_parser (buffer_of b) size))
      (sym (append-nil (encode m)))
    ∙ parse_all_step (suc fuel) _ _ _
        (next-encode [] [] m size 0 h refl (omega (arith, encode_size m)))
    ∙ ap (λ (r : List Message × Result (Unit {0})). (unpacked m ∷ r.0, r.1))
        (parse_all_end fuel _ (omega arith))

-- Two packed messages with something behind them that is no longer than the first.
two_in_front :
    (fuel : ℕ) (m n : Message) (back : Bytes)
    → length m.body.bytes < 256
    → length n.body.bytes < 256
    → length back ≤ length (encode m)
    → parse_all (suc (suc (suc fuel))) (
        open_parser
          (buffer_of (encode m ++ (encode n ++ back)))
          (length (encode m ++ (encode n ++ back))))
      ≡ (unpacked m ∷ unpacked n ∷ [], ok tt)
two_in_front fuel m n back hm hn short =
    let first = encode m in
    let second = encode n in
    let size = length (first ++ (second ++ back)) in
    let outer = length-append first (second ++ back) in
    let inner = length-append second back in
    parse_all_step (suc (suc fuel)) _ _ _
      (next-encode [] (second ++ back) m size 0 hm refl (omega (arith, outer, encode_size m)))
    ∙ ap (λ (r : List Message × Result (Unit {0})). (unpacked m ∷ r.0, r.1))
        (parse_all_step (suc fuel) _ _ _ (
            next-encode first back n size (0 + (0 + length first)) hn (omega arith)
              (omega (arith, outer, inner, encode_size n)))
          ∙ ap (λ (r : List Message × Result (Unit {0})). (unpacked n ∷ r.0, r.1))
              (parse_all_end fuel _ (omega (arith, outer, inner))))

-- Of a buffer that holds two packed messages with bodies below 256 bytes the loop sees both, and
-- ends by the null pointer.
pub parse_all-two :
    (fuel : ℕ) (m n : Message)
    → length m.body.bytes < 256
    → length n.body.bytes < 256
    → parse_all
        (suc (suc (suc fuel)))
        (open_parser (buffer_of (encode m ++ encode n)) (length (encode m ++ encode n)))
      ≡ (unpacked m ∷ unpacked n ∷ [], ok tt)
parse_all-two fuel m n hm hn =
    ap
      (λ (b : Bytes).
        parse_all (suc (suc (suc fuel)))
          (open_parser (buffer_of (encode m ++ b)) (length (encode m ++ b))))
      (sym (append-nil (encode n)))
    ∙ two_in_front fuel m n [] hm hn (omega arith)

-- Of a buffer that holds three packed messages the loop sees the first two only, if the third is no
-- longer than the first: `consumed` then counts the first message twice.
pub parse_all-three :
    (fuel : ℕ) (m n k : Message)
    → length m.body.bytes < 256
    → length n.body.bytes < 256
    → length (encode k) ≤ length (encode m)
    → parse_all (suc (suc (suc fuel))) (
        open_parser
          (buffer_of (encode m ++ (encode n ++ encode k)))
          (length (encode m ++ (encode n ++ encode k))))
      ≡ (unpacked m ∷ unpacked n ∷ [], ok tt)
parse_all-three fuel m n k hm hn short = two_in_front fuel m n (encode k) hm hn short

-- The parser's reads end by a value or an exception.
read_value-ne-undefined : (width : ℕ) (r : Reader) → read_value width r ≢ undefined
unfolding read_value
read_value-ne-undefined width r = ground arith

read_sized_data-ne-undefined : (r : Reader) → read_sized_data r ≢ undefined
unfolding read_sized_data read_value read_data
read_sized_data-ne-undefined r = ground arith

pub unpack-ne-undefined : (b : Buffer) (offset : ℕ) (m : Message) → unpack b offset m ≢ undefined
unfolding unpack
unpack-ne-undefined b offset m =
    grind (arith, read_value-ne-undefined, read_sized_data-ne-undefined)
