-- ===== src/Server/State/Keeps.antt =====
-- A property of the state that an operation keeps, whether it returns or throws.
use binderd.Common.{
  ℕ, List, Bytes, Result, ok, err, undefined, Exception, Bool, true, false, if◌then◌else◌,
}
use binderd.Server.State.{World, M, continue_with, with_session, handled}

abbrev pub Keeps : {A : Type 0} → (World → Type 0) → M A → Type 0
Keeps P m = (w : World) → P w → P (m w).1

-- The property does not depend on what was written.
abbrev pub IgnoresWritten : (World → Type 0) → Type 0
IgnoresWritten P =
    (s : ℕ) (written : List Bytes) (w : World)
    → P w
    → P (with_session s (λ session. record session { written = written }) w)

pub continue_with-Keeps :
    {A B : Type 0} (P : World → Type 0) (x : Result A × World) (k : A → M B)
    → P x.1
    → ((a : A) → Keeps P (k a))
    → P (continue_with x k).1
continue_with-Keeps P (ok a, w) k h keeps = keeps a w h
continue_with-Keeps P (err e, w) k h keeps = h
continue_with-Keeps P (undefined, w) k h keeps = h

pub if-Keeps :
    {A : Type 0} (P : World → Type 0) (b : Bool) (x y : M A)
    → Keeps P x
    → Keeps P y
    → Keeps P (if b then x else y)
if-Keeps P true x y h k = h
if-Keeps P false x y h k = k

pub handled-Keeps :
    (P : World → Type 0) (out : Result (Unit {0}) × World) (k l : M (Unit {0}))
    → P out.1
    → Keeps P k
    → Keeps P l
    → P (handled out k l).1
handled-Keeps P (ok a, w) k l h hk hl = h
handled-Keeps P (err Exception.out_of_range, w) k l h hk hl = hk w h
handled-Keeps P (err Exception.runtime_error, w) k l h hk hl = hl w h
handled-Keeps P (err Exception.future_error, w) k l h hk hl = hl w h
handled-Keeps P (undefined, w) k l h hk hl = h
