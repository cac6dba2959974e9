-- ===== src/Transaction/Bounds.antt =====
-- What a payload's views point to lies in the message.
use binderd.Common.{
  ℕ, ◌+◌, ◌≤◌, ◌≡◌, refl, ap, false, ◌==◌, ltb, Bytes, slice, drop, length, length-take, Result, ok,
  err, undefined, ◌>>=◌, arith, Bool-cases, inl, inr, subst,
}
use binderd.Buffer.{Buffer, view}
use binderd.Reader.{Reader, advance, read_value, read_data, read_sized_data, set_padding}
use binderd.Writer.{padded_size}
use binderd.Message.{Message}
use binderd.Message.Wire.{get_reader}
use binderd.Transaction.{FromMessage, from_message}

-- A property of the value of a computation that returns.
abbrev Holds : {A : Type 0} → (A → Type 0) → Result A → Type 0
Holds P (ok a) = P a
Holds P _ = Unit {0}

bind-Holds :
    {A B : Type 0} (P : A → Type 0) (Q : B → Type 0) (x : Result A) (rest : A → Result B)
    → Holds P x
    → ((a : A) → P a → Holds Q (rest a))
    → Holds Q (x >>= rest)
bind-Holds P Q (ok a) rest h leads = leads a h
bind-Holds P Q (err e) rest h leads = tt
bind-Holds P Q undefined rest h leads = tt

-- A reader without padding that went on in the given bytes, and not behind them.
record Inside (bytes : Bytes) (r : Reader) : Type 0 where
  pub same : r.bytes ≡ bytes
  pub inside : r.current ≤ length bytes
  pub plain : r.use_padding ≡ false

-- A buffer that was read just in front of a reader.
abbrev Behind : Bytes → Buffer × Reader → Type 0
Behind bytes (b, r) = Inside bytes r × (length b.bytes ≤ r.current)

advance-Inside :
    (bytes : Bytes) (size : ℕ) (r : Reader)
    → Inside bytes r
    → Holds (λ s. Inside bytes s × (s.current ≡ r.current + size)) (advance size r)
unfolding advance
advance-Inside bytes size r h = elim (Bool-cases (ltb (length r.bytes) (r.current + size))) [
  | inl over ↦ rw over tt
  | inr fits ↦ rw fits (
    record {
      same = h.same;
      inside = ground (arith, fits, ap (λ (b : Bytes). length b) h.same);
      plain = h.plain;
    },
    refl,
  )
]

read_value-Inside :
    (bytes : Bytes) (width : ℕ) (r : Reader)
    → Inside bytes r
    → Holds (λ (found : ℕ × Reader). Inside bytes found.1) (read_value width r)
unfolding read_value
read_value-Inside bytes width r h =
    bind-Holds (λ s. Inside bytes s × (s.current ≡ r.current + width))
      (λ (found : ℕ × Reader). Inside bytes found.1) (advance width r) _
      (advance-Inside bytes width r h) (λ s k. k.0)

abbrev plain_reader : Reader → Reader
plain_reader r = record r { use_padding = false }

read_data-Behind :
    (bytes : Bytes) (size : ℕ) (r : Reader)
    → Inside bytes r
    → Holds (Behind bytes) (read_data size r)
unfolding read_data padded_size
read_data-Behind bytes size r h = elim (Bool-cases (size == 0)) [
  | inl nothing ↦ rw nothing (h, omega arith)
  | inr some_bytes ↦
      rw (some_bytes, h.plain)
        (bind-Holds (λ s. Inside bytes s × (s.current ≡ r.current + size)) (Behind bytes)
          (advance size (plain_reader r)) (λ s. ok (view (slice r.bytes r.current size), s))
          (advance-Inside bytes size (plain_reader r)
            (record { same = h.same; inside = h.inside; plain = refl }))
          (λ s (k, at). (k, omega (arith, at, length-take size (drop r.current r.bytes)))))
]

read_sized_data-Behind :
    (bytes : Bytes) (r : Reader) → Inside bytes r → Holds (Behind bytes) (read_sized_data r)
unfolding read_sized_data
read_sized_data-Behind bytes r h =
    bind-Holds (λ (found : ℕ × Reader). Inside bytes found.1) (Behind bytes) (read_value 4 r)
      (λ (size, s). read_data size s) (read_value-Inside bytes 4 r h)
      (λ (size, s) k. read_data-Behind bytes size s k)

-- The views of a payload lie inside the message's body.
abbrev pub IsWithin : Bytes → FromMessage → Type 0
IsWithin bytes t =
    (t.data_at + t.data_size ≤ length bytes) × (t.objects_at + t.objects_size ≤ length bytes)

from_message-Holds : (m : Message) → Holds (IsWithin m.body.bytes) (from_message m)
unfolding from_message
from_message-Holds m =
    let bytes = m.body.bytes in
    let number = λ (found : ℕ × Reader). Inside bytes found.1 in
    let start : Inside bytes (set_padding false (get_reader m)) = record {
      same = refl;
      inside = omega arith;
      plain = refl;
    } in
    bind-Holds number (IsWithin bytes) (read_value 8 (set_padding false (get_reader m))) _
      (read_value-Inside bytes 8 (set_padding false (get_reader m)) start)
      λ (binder, r1) h1.
        bind-Holds number (IsWithin bytes) (read_value 8 r1) _ (read_value-Inside bytes 8 r1 h1)
          λ (cookie, r2) h2.
            bind-Holds number (IsWithin bytes) (read_value 4 r2) _ (read_value-Inside bytes 4 r2 h2)
              λ (code, r3) h3.
                bind-Holds number (IsWithin bytes) (read_value 4 r3) _
                  (read_value-Inside bytes 4 r3 h3)
                  λ (flags, r4) h4.
                    bind-Holds (Behind bytes) (IsWithin bytes) (read_sized_data r4) _
                      (read_sized_data-Behind bytes r4 h4)
                      λ (body, r5) (h5, b5).
                        bind-Holds (Behind bytes) (IsWithin bytes) (read_sized_data r5) _
                          (read_sized_data-Behind bytes r5 h5)
                          λ (objects, r6) (h6, b6).
                            (omega (arith, h5.inside, b5), omega (arith, h6.inside, b6))

-- Whatever the body of a message holds: where `TransactionDataFromMessage` can be made of it, the
-- data and the object offsets that it points to lie inside the body.
pub from_message-IsWithin :
    (m : Message) (t : FromMessage) → from_message m ≡ ok t → IsWithin m.body.bytes t
from_message-IsWithin m t e = subst (λ r. Holds (IsWithin m.body.bytes) r) e (from_message-Holds m)
