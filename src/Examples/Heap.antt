-- ===== src/Examples/Heap.antt =====
-- A C allocator for the examples: there is always memory, and the tail that `realloc` adds is not
-- zero.
use binderd.Common.{
  ℕ, zero, suc, ◌≤◌, ◌≡◌, refl, ap, sym, true, [], ◌∷◌, ◌++◌, arith, some, Bytes, IsByte, All,
  length, take, replicate, length-take, length-append, length-replicate, All-append, All-take,
}
use binderd.Buffer.{Allocator, NeverFails}

-- What lies in memory that nobody wrote yet.
abbrev fresh_byte : ℕ
fresh_byte = 0xaa

abbrev grown : Bytes → ℕ → Bytes
grown old n = take n (old ++ replicate n fresh_byte)

pub length-grown : (old : Bytes) (n : ℕ) → length (grown old n) ≡ n
length-grown old n = omega (
  arith,
  length-take n (old ++ replicate n fresh_byte),
  length-append old (replicate n fresh_byte),
  length-replicate n fresh_byte,
)

pub take-grown :
    (old tail : Bytes) (n : ℕ)
    → n ≤ length tail
    → take (length old) (take n (old ++ tail)) ≡ take n old
take-grown [] tail zero h = refl
take-grown [] tail (suc n) h = refl
take-grown (b ∷ old) tail zero h = refl
take-grown (b ∷ old) tail (suc n) h = ap (◌∷◌ b) (take-grown old tail n (omega (arith, h)))

pub tail-IsByte : (n : ℕ) → All IsByte (replicate n fresh_byte)
tail-IsByte zero = tt
tail-IsByte (suc n) = (omega arith, tail-IsByte n)

pub same : {x y : Bytes} → some x ≡ some y → x ≡ y
same e = cc e

abbrev pub heap : Allocator
heap = record {
  malloc_succeeds = λ n. true;
  realloc = λ old n. some (grown old n);
  realloc_length = λ old n new e. rw (sym (same e)) (length-grown old n);
  realloc_keeps = λ old n new e.
      rw (sym (same e))
        (take-grown old (replicate n fresh_byte) n (omega (arith, length-replicate n fresh_byte)));
  realloc_bytes = λ old n new h e. rw (sym (same e)) (
      All-take IsByte n (old ++ replicate n fresh_byte)
        (All-append IsByte old (replicate n fresh_byte) h (tail-IsByte n)));
}

pub heap-NeverFails : NeverFails heap
heap-NeverFails = record { mallocs = λ n h. refl; reallocs = λ old n h. (grown old n, refl) }
