-- ===== src/Common/Effects.antt =====
-- Operations on a state that may throw: what was done before an exception stays done.
use mathlib.Core.Bool.{Bool, true, false}
use mathlib.Core.Path.{◌≡◌, refl}
use binderd.Common.Tests.{if◌then◌else◌}
use binderd.Common.Results.{Result, ok, err, undefined}

abbrev pub Act : Type 0 → Type 0 → Type 0
Act S A = S → Result A × S

-- The rest of an operation, at what the first part left.
abbrev pub proceed : {S A B : Type 0} → Result A × S → (A → Act S B) → Result B × S
proceed (ok a, s) rest = rest a s
proceed (err e, s) rest = (err e, s)
proceed (undefined, s) rest = (undefined, s)

infixl 5 ◌>>=◌ ◌>>◌
abbrev pub ◌>>=◌ : {S A B : Type 0} → Act S A → (A → Act S B) → Act S B
◌>>=◌ first rest s = proceed (first s) rest

abbrev pub ◌>>◌ : {S B : Type 0} → Act S (Unit {0}) → Act S B → Act S B
◌>>◌ first rest s = proceed (first s) (λ _. rest)

abbrev pub pure : {S A : Type 0} → A → Act S A
pure a s = (ok a, s)

abbrev pub lift : {S A : Type 0} → Result A → Act S A
lift r s = (r, s)

abbrev pub get : {S : Type 0} → Act S S
get s = (ok s, s)

abbrev pub modify : {S : Type 0} → (S → S) → Act S (Unit {0})
modify f s = (ok tt, f s)

-- A property of the state that an operation keeps, whether it returns or throws.
abbrev pub Keeps : {S A : Type 0} → (S → Type 0) → Act S A → Type 0
Keeps {S} P act = (s : S) → P s → P (act s).1

pub proceed-Keeps :
    {S A B : Type 0} (P : S → Type 0) (first : Result A × S) (rest : A → Act S B)
    → P first.1
    → ((a : A) → Keeps P (rest a))
    → P (proceed first rest).1
proceed-Keeps P (ok a, s) rest h keeps = keeps a s h
proceed-Keeps P (err e, s) rest h keeps = h
proceed-Keeps P (undefined, s) rest h keeps = h

pub if-Keeps :
    {S A : Type 0} (P : S → Type 0) (b : Bool) (x y : Act S A)
    → Keeps P x
    → Keeps P y
    → Keeps P (if b then x else y)
if-Keeps P true x y h k = h
if-Keeps P false x y h k = k

-- A computation that does not touch the state.
pub lift-Keeps :
    {S A B : Type 0} (P : S → Type 0) (r : Result A) (rest : A → Act S B)
    → ((a : A) → Keeps P (rest a))
    → Keeps P (lift r >>= rest)
lift-Keeps P (ok a) rest keeps s h = keeps a s h
lift-Keeps P (err e) rest keeps s h = h
lift-Keeps P undefined rest keeps s h = h

-- The same with a property before that is stronger than the one after.
pub proceed-Leads :
    {S A B : Type 0} (P Q : S → Type 0) (first : Result A × S) (rest : A → Act S B)
    → ((s : S) → P s → Q s)
    → P first.1
    → ((a : A) (s : S) → P s → Q (rest a s).1)
    → Q (proceed first rest).1
proceed-Leads P Q (ok a, s) rest weaker h leads = leads a s h
proceed-Leads P Q (err e, s) rest weaker h leads = weaker s h
proceed-Leads P Q (undefined, s) rest weaker h leads = weaker s h

-- Two continuations that do the same.
pub proceed_same :
    {S A B : Type 0} (first : Result A × S) (rest other : A → Act S B)
    → ((a : A) (s : S) → rest a s ≡ other a s)
    → proceed first rest ≡ proceed first other
proceed_same (ok a, s) rest other same = same a s
proceed_same (err e, s) rest other same = refl
proceed_same (undefined, s) rest other same = refl
