-- ===== src/Common/Memory.antt =====
-- Bytes in memory, little-endian.
use Prim.Native.Nat.{ℕ, zero, suc, ◌+◌, ◌*◌, ◌/◌, ◌%◌, ◌^◌, ◌≤◌, ◌<◌, bit_and}
use mathlib.Core.Path.{◌≡◌, refl}
use mathlib.Core.Bool.{Bool, true, ◌&&◌}
use mathlib.Core.List.{List, [], ◌∷◌, ◌++◌}
use native.Mathlib.Omega.{arith}
use native.Mathlib.Nat.{pow-suc}
use binderd.Common.Tests.{◌==◌}
use binderd.Common.Lists.{length, take, drop, All, length-append, length-take, length-drop}

abbrev pub Bytes : Type 0
Bytes = List ℕ

abbrev pub IsByte : ℕ → Type 0
IsByte b = b < 256

-- The object representation of an unsigned number of `width` bytes.
unfoldable pub le_bytes : ℕ → ℕ → Bytes
le_bytes zero v = []
le_bytes (suc width) v = (v % 256) ∷ le_bytes width (v / 256)

-- The number that bytes stand for.
unfoldable pub le_value : Bytes → ℕ
le_value [] = 0
le_value (b ∷ bs) = b + 256 * le_value bs

-- `memcpy(begin + pos, bytes, n)`, inside the memory.
unfoldable pub splice : Bytes → ℕ → Bytes → Bytes
splice memory pos bytes = take pos memory ++ (bytes ++ drop (pos + length bytes) memory)

-- The bytes from `pos` on, as many as there are up to `size`.
abbrev pub slice : Bytes → ℕ → ℕ → Bytes
slice memory pos size = take size (drop pos memory)

pub length-le_bytes : (width v : ℕ) → length (le_bytes width v) ≡ width
unfolding le_bytes
length-le_bytes zero v = refl
length-le_bytes (suc width) v = omega (arith, length-le_bytes width (v / 256))

pub le_bytes-IsByte : (width v : ℕ) → All IsByte (le_bytes width v)
unfolding le_bytes
le_bytes-IsByte zero v = tt
le_bytes-IsByte (suc width) v = (omega arith, le_bytes-IsByte width (v / 256))

pub le_value-le_bytes : (width v : ℕ) → v < 256 ^ width → le_value (le_bytes width v) ≡ v
unfolding le_value le_bytes
le_value-le_bytes zero v h = omega arith
le_value-le_bytes (suc width) v h =
    omega (arith, le_value-le_bytes width (v / 256) (omega (arith, pow-suc 256 width)))

pub length-splice :
    (memory : Bytes) (pos : ℕ) (bytes : Bytes)
    → pos + length bytes ≤ length memory
    → length (splice memory pos bytes) ≡ length memory
unfolding splice
length-splice memory pos bytes h = omega (
  arith,
  length-append (take pos memory) (bytes ++ drop (pos + length bytes) memory),
  length-append bytes (drop (pos + length bytes) memory),
  length-take pos memory,
  length-drop (pos + length bytes) memory,
)

-- Masks on one byte, checked over its 256 values.
masked_below : ℕ → Bool
masked_below zero = true
masked_below (suc n) = ((bit_and n 0xff == n) && (bit_and n 0x00 == 0)) && masked_below n

masked_below_sound :
    (n : ℕ) → masked_below n ≡ true → (b : ℕ) → b < n → (bit_and b 0xff ≡ b) × (bit_and b 0x00 ≡ 0)
unfolding masked_below
masked_below_sound zero e b h = absurd (omega arith)
masked_below_sound (suc n) e b h = ground (arith, masked_below_sound n (ground arith) b)

pub byte_masks : (b : ℕ) → IsByte b → (bit_and b 0xff ≡ b) × (bit_and b 0x00 ≡ 0)
unfolding masked_below
byte_masks b h = masked_below_sound 256 refl b h
