-- ===== src/Reader/Strings.antt =====
-- What `ReadString16` makes of what `WriteString` wrote.
use binderd.Common.{
  ℕ, ◌+◌, ◌*◌, ◌^◌, ◌≤◌, ◌<◌, ◌≡◌, refl, sym, ap, ap₂, ◌∙◌, Bool, false, List, [], ◌∷◌, ◌++◌, arith,
  Bytes, IsByte, All, le_bytes, slice, length, take, append_assoc, ==_ne, le_bytes-IsByte,
  drop-append, take-append, ok, ◌>>=◌, replicate, length-replicate, All-append, subst, append-nil,
  length-append,
}
use native.Mathlib.Nat.{mod-eq_of_lt}
use binderd.Buffer.{Allocator, NeverFails, create}
use binderd.Writer.{Writer, write_string16, units_bytes, int32_max}
use binderd.Writer.Appends.{AtEnd, appended, appended-AtEnd, appended-appended, write_value_lem}
use binderd.Writer.Data.{padding, padded, length-padded, padded_size_lem, write_data_lem}
use binderd.Reader.{units, read_copy, read_string16}
use binderd.Reader.Numbers.{at_bytes, advance_lem, read_value-le_bytes}

abbrev pub IsUnit : ℕ → Type 0
IsUnit u = u < 2 ^ 16

-- The memory of a string with its terminating zero, and what is written for it.
abbrev pub terminated : List ℕ → Bytes
terminated us = units_bytes us ++ (0 ∷ 0 ∷ [])

abbrev pub string_bytes : Bool → List ℕ → Bytes
string_bytes p us = le_bytes 4 (length us) ++ padded p (terminated us)

pub length-terminated : (us : List ℕ) → length (terminated us) ≡ (length us + 1) * 2
unfolding units_bytes le_bytes
length-terminated [] = refl
length-terminated (u ∷ us) = omega (arith, length-terminated us)

pub terminated-IsByte : (us : List ℕ) → All IsByte (terminated us)
unfolding units_bytes
terminated-IsByte [] = (omega arith, (omega arith, tt))
terminated-IsByte (u ∷ us) =
    subst (λ (b : Bytes). All IsByte b)
      (sym (append_assoc (le_bytes 2 u) (units_bytes us) (0 ∷ 0 ∷ [])))
      (All-append IsByte (le_bytes 2 u) (terminated us) (le_bytes-IsByte 2 u)
        (terminated-IsByte us))

units-terminated : (us : List ℕ) → All IsUnit us → units (terminated us) ≡ us ++ (0 ∷ [])
unfolding units units_bytes le_bytes
units-terminated [] h = refl
units-terminated (u ∷ us) (hu, h) =
    ap₂ (λ (n : ℕ) (ns : List ℕ). n ∷ ns) (omega (arith, hu)) (units-terminated us h)

module _ (alloc : Allocator) (memory : NeverFails alloc) where
  pub write_string16_lem :
      (us : List ℕ) (w : Writer)
      → 0 < length us
      → length (terminated us) ≤ int32_max
      → AtEnd w
      → All IsByte w.buffer.bytes
      → write_string16 alloc us w ≡ ok (appended w (string_bytes w.use_padding us))
  unfolding write_string16
  write_string16_lem us w some_units small e isw =
      let size : Bytes = le_bytes 4 (length us) in
      rw
        (
          write_value_lem alloc memory 4 (length us) w (omega arith) e,
          ◌>>=◌,
          ==_ne (length us) 0 (omega (arith, some_units)),
        )
        (write_data_lem alloc memory (terminated us) (appended w size) small
            (appended-AtEnd w size e) (terminated-IsByte us)
            (All-append IsByte w.buffer.bytes size isw (le_bytes-IsByte 4 (length us)))
          ∙ ap ok (appended-appended w size (padded w.use_padding (terminated us))))

  create_lem :
      (n : ℕ) → 0 < n → create alloc n ≡ ok (record { bytes = replicate n 0; immutable = false })
  unfolding create
  create_lem n h = rw (==_ne n 0 (omega (arith, h)), memory.mallocs n h)

  read_copy-padded :
      (front body back : Bytes) (p : Bool)
      → 0 < length body
      → length body ≤ int32_max
      → read_copy alloc (length body) (at_bytes front (padded p body ++ back) p)
        ≡ ok (body, at_bytes (front ++ padded p body) back p)
  unfolding read_copy
  read_copy-padded front body back p some_bytes h =
      let rest = replicate {A = ℕ} (padding p (length body)) 0 in
      let copied : slice (front ++ (padded p body ++ back)) (length front) (length body) ≡ body =
        ap (take (length body)) (drop-append (length front) front (padded p body ++ back) refl)
        ∙ ap (take (length body)) (append_assoc body rest back)
        ∙ take-append (length body) body (rest ++ back) refl in
      rw
        (
          padded_size_lem p (length body) h,
          ◌>>=◌,
          advance_lem front (padded p body) back p (length body + padding p (length body))
              (sym (length-padded p body)),
          ◌>>=◌,
          create_lem (length body) some_bytes,
          ◌>>=◌,
          length-replicate {A = ℕ} (length body) 0,
        )
        (ap (λ (m : Bytes). ok (m, at_bytes (front ++ padded p body) back p)) copied)

  -- What is written for a string, between other bytes.
  pub read_string16-string_bytes :
      (front back : Bytes) (p : Bool) (us : List ℕ)
      → 0 < length us
      → length us < 256
      → All IsUnit us
      → read_string16 alloc (at_bytes front (string_bytes p us ++ back) p)
        ≡ ok (us, at_bytes (front ++ string_bytes p us) back p)
  unfolding read_string16
  read_string16-string_bytes front back p us some_units small h =
      let size : Bytes = le_bytes 4 (length us) in
      let body : Bytes = padded p (terminated us) in
      rw
        (
          append_assoc size body back,
          read_value-le_bytes front (body ++ back) p 4 (length us) (omega arith),
          ◌>>=◌,
          mod-eq_of_lt small,
          sym (length-terminated us),
          read_copy-padded (front ++ size) (terminated us) back p
              (omega (arith, length-terminated us)) (omega (arith, length-terminated us, small)),
          ◌>>=◌,
          units-terminated us h,
          take-append (length us) us (0 ∷ []) refl,
        )
        (ap (λ (m : Bytes). ok (us, at_bytes m back p)) (append_assoc front size body))

  -- A string of one to 255 UTF-16 units that `WriteString` writes at the end of a writer's bytes is
  -- read back from there by `ReadString16`, up to where the writer stands then. Reader and writer both
  -- use padding or both do not, and allocations succeed.
  pub read_string16-write_string16 :
      (us : List ℕ) (w : Writer)
      → 0 < length us
      → length us < 256
      → All IsUnit us
      → AtEnd w
      → All IsByte w.buffer.bytes
      → (w' : Writer) × (write_string16 alloc us w ≡ ok w')
        × (read_string16 alloc
              (record { bytes = w'.buffer.bytes; current = w.current; use_padding = w.use_padding })
            ≡ ok (
              us,
              record { bytes = w'.buffer.bytes; current = w'.current; use_padding = w.use_padding },
            ))
  read_string16-write_string16 us w some_units small h e isw =
      let front : Bytes = w.buffer.bytes in
      let string : Bytes = string_bytes w.use_padding us in
      let whole = ap (λ (b : Bytes). front ++ b) (append-nil string) in
      (
        appended w string,
        write_string16_lem us w some_units (omega (arith, length-terminated us, small)) e isw,
        ap
              (λ (b : Bytes).
                read_string16 alloc
                  (record { bytes = b; current = w.current; use_padding = w.use_padding }))
              (sym whole)
            ∙ ap
                (λ k. read_string16 alloc (record {
                  bytes = front ++ (string ++ []);
                  current = k;
                  use_padding = w.use_padding;
                }))
                e.ends
            ∙ read_string16-string_bytes front [] w.use_padding us some_units small h
            ∙ ap₂
                (λ (b : Bytes) (k : ℕ).
                  ok (us, record { bytes = b; current = k; use_padding = w.use_padding }))
                (append-nil (front ++ string)) (omega (arith, length-append front string, e.ends)),
      )
