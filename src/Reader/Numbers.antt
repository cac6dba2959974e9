-- ===== src/Reader/Numbers.antt =====
-- What the number and data reads of binary_reader.cpp return, on every input.
use binderd.Common.{
  ℕ, zero, suc, ◌+◌, ◌/◌, ◌%◌, ◌≤◌, ◌<◌, ◌≡◌, refl, sym, ap, ap₂, ◌∙◌, Bool, true, false, [], ◌∷◌,
  ◌++◌, arith, Bytes, le_bytes, slice, length, take, get_or, length-append, append_assoc,
  append-nil, ==_ne, length-le_bytes, drop-append, take-append, ok, ◌>>=◌, le→ltb_false,
  get_or-append, replicate,
}
use binderd.Buffer.{Buffer, view}
use binderd.Writer.{int32_max}
use binderd.Writer.Data.{padding, padded, length-padded, padded_size_lem}
use binderd.Reader.{Reader, advance, read_value, read_data}

-- The bytes in front of a reader that stands behind `front`.
abbrev pub at_bytes : Bytes → Bytes → Bool → Reader
at_bytes front back p = record { bytes = front ++ back; current = length front; use_padding = p }

pub advance_lem :
    (front here back : Bytes) (p : Bool) (size : ℕ)
    → size ≡ length here
    → advance size (at_bytes front (here ++ back) p) ≡ ok (at_bytes (front ++ here) back p)
unfolding advance
advance_lem front here back p size h =
    rw
      (le→ltb_false (length (front ++ (here ++ back))) (length front + size)
        (omega (arith, h, length-append front (here ++ back), length-append here back)))
      (ap₂ (λ (m : Bytes) (n : ℕ). ok (record { bytes = m; current = n; use_padding = p }))
        (sym (append_assoc front here back)) (omega (arith, h, length-append front here)))

first_byte :
    (front back : Bytes) (width v : ℕ)
    → get_or (front ++ (le_bytes (suc width) v ++ back)) (length front) 0 ≡ v % 256
unfolding le_bytes
first_byte front back width v =
    get_or-append (length front) front (v % 256) (le_bytes width (v / 256) ++ back) 0 refl

-- A number that was stored in `width` bytes comes back as its lowest byte.
pub read_value-le_bytes :
    (front back : Bytes) (p : Bool) (width v : ℕ)
    → 0 < width
    → read_value width (at_bytes front (le_bytes width v ++ back) p)
      ≡ ok (v % 256, at_bytes (front ++ le_bytes width v) back p)
unfolding read_value
read_value-le_bytes front back p zero v h = absurd (omega arith)
read_value-le_bytes front back p (suc width) v h =
    rw
      (
        advance_lem front (le_bytes (suc width) v) back p (suc width)
            (sym (length-le_bytes (suc width) v)),
        ◌>>=◌,
      )
      (ap (λ (n : ℕ). ok (n, at_bytes (front ++ le_bytes (suc width) v) back p))
        (first_byte front back width v))

-- The buffer that holds data which was read.
abbrev pub data_buffer : Bytes → Buffer
data_buffer [] = record { bytes = []; immutable = false }
data_buffer (b ∷ bs) = view (b ∷ bs)

pub data_buffer-bytes : (b : Bytes) → (data_buffer b).bytes ≡ b
data_buffer-bytes [] = refl
data_buffer-bytes (b ∷ bs) = refl

padding_zero : (p : Bool) → padding p 0 ≡ 0
padding_zero true = refl
padding_zero false = refl

-- Data that was stored with its padding comes back, and the reader stands behind the padding.
pub read_data-padded :
    (front body back : Bytes) (p : Bool)
    → length body ≤ int32_max
    → read_data (length body) (at_bytes front (padded p body ++ back) p)
      ≡ ok (data_buffer body, at_bytes (front ++ padded p body) back p)
unfolding read_data
read_data-padded front [] back p h = rw padding_zero (
    ap
      (λ (m : Bytes).
        ok (data_buffer [], record { bytes = m ++ back; current = length m; use_padding = p }))
      (sym (append-nil front)))
read_data-padded front (b ∷ bs) back p h =
    let body : Bytes = b ∷ bs in
    let rest = replicate {A = ℕ} (padding p (length body)) 0 in
    let copied : slice (front ++ (padded p body ++ back)) (length front) (length body) ≡ body =
      ap (take (length body)) (drop-append (length front) front (padded p body ++ back) refl)
      ∙ ap (take (length body)) (append_assoc body rest back)
      ∙ take-append (length body) body (rest ++ back) refl in
    rw
      (
        ==_ne (length body) 0 (omega arith),
        padded_size_lem p (length body) h,
        ◌>>=◌,
        advance_lem front (padded p body) back p (length body + padding p (length body))
            (sym (length-padded p body)),
        ◌>>=◌,
      )
      (ap (λ (m : Bytes). ok (view m, at_bytes (front ++ padded p body) back p)) copied)
