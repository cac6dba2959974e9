-- ===== src/Writer/Data.antt =====
-- `WriteData` and the strings of binary_writer.cpp: data is stored whole, behind it the zero bytes
-- that fill the last word.
use binderd.Common.{
  ℕ, zero, suc, ◌+◌, ◌-◌, ◌*◌, ◌/◌, ◌≤◌, ◌<◌, ◌≡◌, ◌≢◌, ◌⊎◌, inl, inr, refl, sym, ap, ap₂, ◌∙◌,
  Bool, true, false, [], ◌∷◌, ◌++◌, arith, Bytes, IsByte, All, le_bytes, splice, slice, length,
  take, drop, replicate, append-nil, append_assoc, length-append, drop_all, take_all,
  take-append-drop, length-take, length-drop, All-append, All-drop, length-replicate, ok, ◌>>=◌,
  ==_ne, ==_refl, le→ltb_false, le→leb, le_bytes-IsByte,
}
use binderd.Buffer.{Allocator, NeverFails}
use binderd.Writer.{
  Writer, ensure_size, padded_size, pad_mask, and_bytes, zero_padding, write_data, int32_max,
  write_sized_data,
}
use binderd.Writer.Appends.{
  AtEnd, appended, room, splice_end, mask_last_word, write_value_lem, appended-AtEnd,
  appended-appended,
}

-- The number of zero bytes behind `size` bytes of data.
abbrev pub padding : Bool → ℕ → ℕ
padding true size = (size + 3) / 4 * 4 - size
padding false size = 0

-- Data as it lies in the buffer.
abbrev pub padded : Bool → Bytes → Bytes
padded use_padding bytes = bytes ++ replicate (padding use_padding (length bytes)) 0

pub length-padded :
    (use_padding : Bool) (bytes : Bytes)
    → length (padded use_padding bytes) ≡ length bytes + padding use_padding (length bytes)
length-padded p bytes = omega (
  arith,
  length-append bytes (replicate (padding p (length bytes)) 0),
  length-replicate {A = ℕ} (padding p (length bytes)) 0,
)

pub padded_size_lem :
    (use_padding : Bool) (size : ℕ)
    → size ≤ int32_max
    → padded_size use_padding size ≡ ok (size + padding use_padding size)
unfolding padded_size
padded_size_lem true size h = ground arith
padded_size_lem false size h = ground arith

zero_or_more : (n : ℕ) → (n ≡ 0) ⊎ (n ≢ 0)
zero_or_more zero = inl refl
zero_or_more (suc n) = inr (omega arith)

padding_word :
    (use_padding : Bool) (size : ℕ)
    → padding use_padding size ≢ 0
    → (padding use_padding size < 4) × (0 < size) × (4 ≤ size + padding use_padding size)
padding_word true size h = omega arith
padding_word false size h = absurd (h refl)

-- Memory with data stored at its old end and the last word masked.
stored_padded :
    (old new bytes : Bytes) (pad : ℕ)
    → pad < 4
    → 0 < pad
    → 4 ≤ length bytes + pad
    → take (length old) new ≡ old
    → length new ≡ length old + (length bytes + pad)
    → All IsByte bytes
    → All IsByte new
    → splice (splice new (length old) bytes) (length old + length bytes + pad - 4) (
        and_bytes
          (slice (splice new (length old) bytes) (length old + length bytes + pad - 4) 4)
          (pad_mask pad))
      ≡ old ++ (bytes ++ replicate pad 0)
unfolding splice
stored_padded old new bytes pad small pos word front total isb isn =
    let k : ℕ = length bytes + pad - 4 in
    let head : Bytes = take k bytes in
    let tail : Bytes = drop k bytes in
    let rest : Bytes = drop (length old + length bytes) new in
    let regroup = λ (back : Bytes).
      append_assoc old head (tail ++ back)
      ∙ ap (◌++◌ old) (
          sym (append_assoc head tail back)
          ∙ ap (λ (m : Bytes). m ++ back) (take-append-drop k bytes)) in
    let shape : splice new (length old) bytes ≡ (old ++ head) ++ (tail ++ rest) =
      rw front (sym (regroup rest)) in
    let place : length old + length bytes + pad - 4 ≡ length (old ++ head) =
      omega (arith, length-append old head, length-take k bytes) in
    rw (shape, place)
      (mask_last_word (old ++ head) tail rest pad pos (omega (arith, length-drop k bytes))
          (omega (arith, length-drop (length old + length bytes) new))
          (omega (arith, length-drop k bytes)) (All-drop IsByte k bytes isb)
          (All-drop IsByte (length old + length bytes) new isn)
        ∙ regroup (replicate pad 0))

module _ (alloc : Allocator) (memory : NeverFails alloc) where
  padded_data :
      (bytes : Bytes) (w : Writer)
      → length bytes ≤ int32_max
      → AtEnd w
      → All IsByte bytes
      → All IsByte w.buffer.bytes
      → padding w.use_padding (length bytes) ≢ 0
      → write_data alloc bytes w ≡ ok (appended w (padded w.use_padding bytes))
  unfolding write_data zero_padding
  padded_data bytes w small e isb isw some_padding =
      let old = w.buffer.bytes in
      let pad = padding w.use_padding (length bytes) in
      let (p4, pos, word) = padding_word w.use_padding (length bytes) some_padding in
      let (new, made, total, front, isn) =
        room alloc memory w (length bytes + pad) e (omega arith) in
      let unpad : length bytes + pad - length bytes ≡ pad = omega arith in
      let total_pad : length bytes + pad ≢ length bytes = omega arith in
      rw
        (
          le→ltb_false int32_max (length bytes) small,
          padded_size_lem w.use_padding (length bytes) small,
          ◌>>=◌,
          made,
          ◌>>=◌,
          ==_ne (length bytes + pad) (length bytes) total_pad,
          unpad,
          e.ends,
        )
        (ap₂
          (λ (m : Bytes) (n : ℕ).
            ok (record w { buffer = record { bytes = m; immutable = false }; current = n }))
          (stored_padded old new bytes pad p4 (omega arith) word front total isb (isn isw))
          (omega (arith, length-padded w.use_padding bytes)))

  plain_data :
      (bytes : Bytes) (w : Writer)
      → length bytes ≤ int32_max
      → AtEnd w
      → padding w.use_padding (length bytes) ≡ 0
      → write_data alloc bytes w ≡ ok (appended w bytes)
  unfolding write_data ensure_size splice
  plain_data [] w small e no_padding =
      let old = w.buffer.bytes in
      rw (
        e.ends,
        padded_size_lem w.use_padding 0 small,
        no_padding,
        le→leb 0 (length old - length old) (omega arith),
        e.owned,
        take_all (length old) old (omega arith),
        drop_all (length old + 0) old (omega arith),
      )
  plain_data (b ∷ bs) w small e no_padding =
      let bytes : Bytes = b ∷ bs in
      let (new, made, total, front, _) = room alloc memory w (length bytes) e (omega arith) in
      let no_growth : length bytes + padding w.use_padding (length bytes) ≡ length bytes =
        omega arith in
      rw
        (
          le→ltb_false int32_max (length bytes) small,
          padded_size_lem w.use_padding (length bytes) small,
          ◌>>=◌,
          no_growth,
          made,
          ◌>>=◌,
          ==_refl (length bytes),
          e.ends,
        )
        (ap
          (λ (m : Bytes). ok (record w {
            buffer = record { bytes = m; immutable = false };
            current = length w.buffer.bytes + length bytes;
          }))
          (splice_end w.buffer.bytes new bytes front total))

  -- At the end of a writable buffer of bytes, up to INT32_MAX bytes are appended whole, with zeros up
  -- to the next multiple of four behind them if padding is on, whatever `realloc` left there.
  -- Allocations succeed.
  pub write_data_lem :
      (bytes : Bytes) (w : Writer)
      → length bytes ≤ int32_max
      → AtEnd w
      → All IsByte bytes
      → All IsByte w.buffer.bytes
      → write_data alloc bytes w ≡ ok (appended w (padded w.use_padding bytes))
  write_data_lem bytes w small e isb isw =
      elim (zero_or_more (padding w.use_padding (length bytes))) [
        | inl z ↦
            plain_data bytes w small e z
            ∙ ap (λ (m : Bytes). ok (appended w m)) (rw z (sym (append-nil bytes)))
        | inr n ↦ padded_data bytes w small e isb isw n
      ]

  pub write_sized_data_lem :
      (bytes : Bytes) (w : Writer)
      → length bytes ≤ int32_max
      → AtEnd w
      → All IsByte bytes
      → All IsByte w.buffer.bytes
      → write_sized_data alloc bytes w
        ≡ ok (appended w (le_bytes 4 (length bytes) ++ padded w.use_padding bytes))
  unfolding write_sized_data
  write_sized_data_lem bytes w small e isb isw =
      let size : Bytes = le_bytes 4 (length bytes) in
      rw (write_value_lem alloc memory 4 (length bytes) w (omega arith) e, ◌>>=◌)
        (write_data_lem bytes (appended w size) small (appended-AtEnd w size e) isb
            (All-append IsByte w.buffer.bytes size isw (le_bytes-IsByte 4 (length bytes)))
          ∙ ap ok (appended-appended w size (padded w.use_padding bytes)))
