-- ===== src/Common/Results.antt =====
-- Exceptions as values. `undefined` is the behaviour of a program that leaves the memory it owns.

-- The standard's exception classes that the code throws; `out_of_range` is caught on its own.
-- `future_error` is what a promise throws that is set twice.
pub data Exception : Type 0 where
  out_of_range runtime_error future_error : Exception

pub data Result {ℓ} (V : Type ℓ) : Type ℓ where
  undefined : Result V
  err : Exception → Result V
  ok : V → Result V

-- The statement after `;` runs where the one before it returned a value.
infixl 5 ◌>>=◌
abbrev pub ◌>>=◌ {κ ℓ} : {V : Type κ} {W : Type ℓ} → Result V → (V → Result W) → Result W
undefined >>= next = undefined
err thrown >>= next = err thrown
ok v >>= next = next v
