-- ===== src/Writer/Appends.antt =====
-- Every write of binary_writer.cpp appends: what it leaves in the buffer is the old contents and
-- the encoding, whatever memory the allocator hands out.
use binderd.Common.{
  ℕ, zero, suc, ◌+◌, ◌<◌, ◌≡◌, refl, sym, ap, ap₂, ◌∙◌, false, [], ◌∷◌, ◌++◌, arith, Bytes, IsByte,
  All, le_bytes, splice, slice, length, take, drop, replicate, append-nil, append_assoc,
  length-append, length-le_bytes, drop_all, take_all, byte_masks, take-append, drop-append,
  length-replicate, ok, ◌>>=◌,
}
use binderd.Buffer.{Allocator, NeverFails, resize}
use binderd.Writer.{Writer, ensure_size, write_value, pad_mask, and_bytes}

-- The state of every writer that started on an empty buffer: the end is reached, the buffer owned.
pub record AtEnd (w : Writer) : Type 0 where
  pub ends : w.current ≡ length w.buffer.bytes
  pub owned : w.buffer.immutable ≡ false

-- A writer after some bytes more.
abbrev pub appended : Writer → Bytes → Writer
appended w bytes = record w {
  buffer = record { bytes = w.buffer.bytes ++ bytes; immutable = false };
  current = w.current + length bytes;
}

pub appended-AtEnd : (w : Writer) (bytes : Bytes) → AtEnd w → AtEnd (appended w bytes)
appended-AtEnd w bytes e = record {
  ends = omega (arith, e.ends, length-append w.buffer.bytes bytes);
  owned = refl;
}

pub appended-appended :
    (w : Writer) (xs ys : Bytes) → appended (appended w xs) ys ≡ appended w (xs ++ ys)
appended-appended w xs ys =
    ap₂
      (λ (m : Bytes) (n : ℕ). record w {
        buffer = record { bytes = m; immutable = false };
        current = n;
      })
      (append_assoc w.buffer.bytes xs ys) (omega (arith, length-append xs ys))

-- A store at the end of the old contents, into memory that ends with it.
pub splice_end :
    (old new bytes : Bytes)
    → take (length old) new ≡ old
    → length new ≡ length old + length bytes
    → splice new (length old) bytes ≡ old ++ bytes
unfolding splice
splice_end old new bytes front total =
    rw (front, drop_all (length old + length bytes) new (omega arith), append-nil bytes)

module _ (alloc : Allocator) (memory : NeverFails alloc) where
  -- Room made at the end: the old contents, and a tail of the right size.
  pub room :
      (w : Writer) (size : ℕ)
      → AtEnd w
      → 0 < size
      → (new : Bytes) × (ensure_size alloc size w
          ≡ ok (record w { buffer = record { bytes = new; immutable = false } }))
        × (length new ≡ length w.buffer.bytes + size)
        × (take (length w.buffer.bytes) new ≡ w.buffer.bytes)
        × (All IsByte w.buffer.bytes → All IsByte new)
  unfolding ensure_size resize
  room w size e h =
      let old = w.buffer.bytes in
      let (new, made) = memory.reallocs old (length old + size) (omega arith) in
      (
        new,
        ground (arith, e.owned, e.ends, made),
        alloc.realloc_length old _ new made,
        alloc.realloc_keeps old _ new made ∙ take_all (length old + size) old (omega arith),
        λ b. alloc.realloc_bytes old _ new b made,
      )

  -- A number is stored behind what was there.
  pub write_value_lem :
      (width value : ℕ) (w : Writer)
      → 0 < width
      → AtEnd w
      → write_value alloc width value w ≡ ok (appended w (le_bytes width value))
  unfolding write_value
  write_value_lem width value w h e =
      let (new, made, total, front, _) = room w width e h in
      rw (made, ◌>>=◌, e.ends)
        (ap
          (λ (m : Bytes). ok (record w {
            buffer = record { bytes = m; immutable = false };
            current = length w.buffer.bytes + length (le_bytes width value);
          }))
          (splice_end w.buffer.bytes new (le_bytes width value) front (rw (length-le_bytes) total)))

-- A splice and a slice in the middle of memory.
pub splice_middle :
    (front old back new : Bytes)
    → length old ≡ length new
    → splice (front ++ (old ++ back)) (length front) new ≡ front ++ (new ++ back)
unfolding splice
splice_middle front old back new h =
    ap₂ (λ (a b : Bytes). a ++ (new ++ b)) (take-append (length front) front _ refl)
      (ap (drop (length front + length new)) (sym (append_assoc front old back))
        ∙ drop-append (length front + length new) (front ++ old) back
            (omega (arith, length-append front old)))

-- The mask keeps the data bytes of the last word and clears the padding.
and_bytes-pad_mask :
    (padding : ℕ) (tail rest : Bytes)
    → 0 < padding
    → length tail + padding ≡ 4
    → length rest ≡ padding
    → 0 < length tail
    → All IsByte tail
    → All IsByte rest
    → and_bytes (tail ++ rest) (pad_mask padding) ≡ tail ++ replicate padding 0
unfolding and_bytes pad_mask
and_bytes-pad_mask (suc zero) (a ∷ b ∷ c ∷ []) (r ∷ []) p h k l t u =
    simp
      ((byte_masks a t.0).0, (byte_masks b t.1.0).0, (byte_masks c t.1.1.0).0, (byte_masks r u.0).1)
and_bytes-pad_mask (suc (suc zero)) (a ∷ b ∷ []) (r ∷ s ∷ []) p h k l t u =
    simp
      ((byte_masks a t.0).0, (byte_masks b t.1.0).0, (byte_masks r u.0).1, (byte_masks s u.1.0).1)
and_bytes-pad_mask (suc (suc (suc zero))) (a ∷ []) (r ∷ s ∷ q ∷ []) p h k l t u =
    simp
      ((byte_masks a t.0).0, (byte_masks r u.0).1, (byte_masks s u.1.0).1, (byte_masks q u.1.1.0).1)
and_bytes-pad_mask _ _ _ p h k l t u = absurd (omega arith)

-- The last word of memory, masked.
pub mask_last_word :
    (front tail rest : Bytes) (padding : ℕ)
    → 0 < padding
    → length tail + padding ≡ 4
    → length rest ≡ padding
    → 0 < length tail
    → All IsByte tail
    → All IsByte rest
    → splice
        (front ++ (tail ++ rest))
        (length front)
        (and_bytes (slice (front ++ (tail ++ rest)) (length front) 4) (pad_mask padding))
      ≡ front ++ (tail ++ replicate padding 0)
mask_last_word front tail rest padding p h k l t u =
    let word : Bytes = tail ++ rest in
    let masked : Bytes = tail ++ replicate padding 0 in
    let sliced : slice (front ++ word) (length front) 4 ≡ word =
      ap (take 4) (drop-append (length front) front word refl)
      ∙ take_all 4 word (omega (arith, length-append tail rest)) in
    rw (sliced, and_bytes-pad_mask padding tail rest p h k l t u)
      (ap (λ (m : Bytes). splice (front ++ m) (length front) masked) (sym (append-nil word))
        ∙ splice_middle front word [] masked (
            omega (
              arith,
              length-append tail rest,
              length-append tail (replicate padding 0),
              length-replicate {A = ℕ} padding 0,
            ))
        ∙ ap (◌++◌ front) (append-nil masked))
