-- ===== src/Common/Maps.antt =====
-- `std::unordered_map` with integer keys, as an association list. `insert` keeps an entry that is
-- there, as the standard's `insert` does; the order of iteration is the list's.
use Prim.Native.Nat.{ℕ}
use mathlib.Core.Path.{◌≡◌}
use mathlib.Core.Bool.{Bool, true, false}
use mathlib.Core.Option.{Option, none, some}
use mathlib.Core.List.{List, [], ◌∷◌}
use native.Mathlib.Omega.{arith}
use binderd.Common.Tests.{◌==◌, if◌then◌else◌}

abbrev pub Map {ℓ} : Type ℓ → Type ℓ
Map V = List (ℕ × V)

-- `if_some o x y`: `x` where the option holds a value.
abbrev pub is_some {ℓ} : {A : Type ℓ} → Option A → Bool
is_some none = false
is_some (some a) = true

module _ {ℓ} {V : Type ℓ} where
  unfoldable pub find : ℕ → Map V → Option V
  find k [] = none
  find k ((j, v) ∷ m) = if j == k then some v else find k m

  unfoldable pub insert : ℕ → V → Map V → Map V
  insert k v [] = (k, v) ∷ []
  insert k v ((j, w) ∷ m) = if j == k then (j, w) ∷ m else (j, w) ∷ insert k v m

  -- A write through a reference into the map: `m[k] = v` for a key that is there.
  unfoldable pub replace : ℕ → V → Map V → Map V
  replace k v [] = []
  replace k v ((j, w) ∷ m) = if j == k then (j, v) ∷ m else (j, w) ∷ replace k v m

  -- Every entry of the key goes; a map that `insert` built has one at most.
  unfoldable pub erase : ℕ → Map V → Map V
  erase k [] = []
  erase k ((j, w) ∷ m) = if j == k then erase k m else (j, w) ∷ erase k m

module _ {ℓ} {V : Type ℓ} where
  pub find-insert :
      (k j : ℕ) (v : V) (m : Map V)
      → find j (insert k v m)
        ≡ (if k == j then (if is_some (find j m) then find j m else some v) else find j m)
  unfolding find insert
  find-insert k j v [] = ground arith
  find-insert k j v ((i, w) ∷ m) = ground (arith, find-insert k j v m)

  pub find-erase : (k j : ℕ) (m : Map V) → find j (erase k m) ≡ (if k == j then none else find j m)
  unfolding find erase
  find-erase k j [] = ground arith
  find-erase k j ((i, w) ∷ m) = ground (arith, find-erase k j m)

  pub find-replace :
      (k j : ℕ) (v : V) (m : Map V)
      → find j (replace k v m)
        ≡ (if k == j then (if is_some (find j m) then some v else none) else find j m)
  unfolding find replace
  find-replace k j v [] = ground arith
  find-replace k j v ((i, w) ∷ m) = ground (arith, find-replace k j v m)
