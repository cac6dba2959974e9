-- ===== src/ServiceManager/Calls.antt =====
-- Calls of the service, what a partial function from names to objects answers to them, and services
-- that stand for such a function.
use binderd.Common.{
  ℕ, ◌≡◌, ◌≢◌, inl, inr, refl, sym, ap, ◌∙◌, Bool, true, false, ◌==◌, ==_eq, if◌then◌else◌, List,
  [], ◌∷◌, Option, none, some, is_some, Bytes, arith, Bool-cases,
}
use binderd.Status.{Status, ok_status, bad_value}
use binderd.ServiceManager.{
  same_name, same_name-cases, Services, lookup, found_service, on_object_died,
}

pub data Call : Type 0 where
  add : Bytes → ℕ → Call
  ask : Bytes → Call
  died : ℕ → Call

abbrev pub Answer : Type 0
Answer = Status × Option ℕ

-- What a call promises of a partial function, and the function after it.
abbrev pub forget : ℕ → Option ℕ → Option ℕ
forget who none = none
forget who (some object) = if object == who then none else some object

abbrev pub bound : Bytes → ℕ → (Bytes → Option ℕ) → Bytes → Option ℕ
bound name object f other = if same_name name other then some object else f other

unfoldable pub replay : List Call → (Bytes → Option ℕ) → List Answer
replay [] f = []
replay (add name object ∷ calls) f =
    if is_some (f name)
    then (bad_value, none) ∷ replay calls f
    else (ok_status, none) ∷ replay calls (bound name object f)
replay (ask name ∷ calls) f = found_service (f name) ∷ replay calls f
replay (died who ∷ calls) f = (ok_status, none) ∷ replay calls (λ name. forget who (f name))

-- An object that is added was not added before.
abbrev pub IsNew : ℕ → List Call → Type 0
IsNew object [] = Unit {0}
IsNew object (add name other ∷ calls) = (object ≢ other) × IsNew object calls
IsNew object (_ ∷ calls) = IsNew object calls

abbrev pub AddsOnce : List Call → Type 0
AddsOnce [] = Unit {0}
AddsOnce (add name object ∷ calls) = IsNew object calls × AddsOnce calls
AddsOnce (_ ∷ calls) = AddsOnce calls

-- No name and no object stands twice.
abbrev pub IsApart : Services → Type 0
IsApart [] = Unit {0}
IsApart ((name, object) ∷ services) =
    (lookup name services ≡ none)
    × ((other : Bytes) → lookup other services ≢ some object)
    × IsApart services

-- The objects of the services are none of those that are added later.
abbrev pub AllNew : Services → List Call → Type 0
AllNew [] calls = Unit {0}
AllNew ((name, object) ∷ services) calls = IsNew object calls × AllNew services calls

pub lookup-on_object_died :
    (who : ℕ) (name : Bytes) (services : Services)
    → IsApart services
    → lookup name (on_object_died who services) ≡ forget who (lookup name services)
unfolding lookup on_object_died
lookup-on_object_died who name [] h = refl
lookup-on_object_died who name ((other, object) ∷ services) (unnamed, unheld, h) =
    elim (Bool-cases (object == who)) [
      | inl e ↦ elim (same_name-cases other name) [
        | inl (test, same) ↦ rw (e, test, e) (ap (λ n. lookup n services) (sym same) ∙ unnamed)
        | inr (test, differ) ↦ rw (e, test) (kept (==_eq object who e) (lookup name services) refl)
      ]
      | inr e ↦ elim (same_name-cases other name) [
        | inl (test, same) ↦ rw (e, test, e)
        | inr (test, differ) ↦ rw (e, test) (lookup-on_object_died who name services h)
      ]
    ]
  where
    kept : object ≡ who → (o : Option ℕ) → lookup name services ≡ o → o ≡ forget who o
    kept e none f = refl
    kept e (some p) f = elim (Bool-cases (p == who)) [
      | inl q ↦ absurd (unheld name (f ∙ ap some (==_eq p who q ∙ sym e)))
      | inr q ↦ rw q
    ]

forget-ne : (who object : ℕ) (o : Option ℕ) → o ≢ some object → forget who o ≢ some object
forget-ne who object none h e = h e
forget-ne who object (some p) h e = elim (Bool-cases (p == who)) [
  | inl q ↦ ground (arith, q, e)
  | inr q ↦ ground (arith, q, e, h)
]

either : (P : Services → Type 0) (b : Bool) (x y : Services) → P x → P y → P (if b then x else y)
either P true x y h k = h
either P false x y h k = k

pub on_object_died-IsApart :
    (who : ℕ) (services : Services) → IsApart services → IsApart (on_object_died who services)
unfolding on_object_died
on_object_died-IsApart who [] h = tt
on_object_died-IsApart who ((name, object) ∷ services) (unnamed, unheld, h) =
    let later = on_object_died who services in
    either (λ v. IsApart v) (object == who) services ((name, object) ∷ later) h
      (
        rw (lookup-on_object_died who name services h, unnamed) refl,
        λ other e.
            forget-ne who object (lookup other services) (unheld other)
              (sym (lookup-on_object_died who other services h) ∙ e),
        on_object_died-IsApart who services h,
      )

pub on_object_died-AllNew :
    (who : ℕ) (services : Services) (calls : List Call)
    → AllNew services calls
    → AllNew (on_object_died who services) calls
unfolding on_object_died
on_object_died-AllNew who [] calls h = tt
on_object_died-AllNew who ((name, object) ∷ services) calls (new, h) =
    either (λ v. AllNew v calls) (object == who) services
      ((name, object) ∷ on_object_died who services) h
      (new, on_object_died-AllNew who services calls h)

-- An object that is added now is held under no name.
pub AllNew-unheld :
    (name : Bytes) (object : ℕ) (calls : List Call) (services : Services)
    → AllNew services (add name object ∷ calls)
    → (other : Bytes) → lookup other services ≢ some object
unfolding lookup
AllNew-unheld name object calls [] h other e = cc
AllNew-unheld name object calls ((n, p) ∷ services) ((ne, new), h) other e =
    elim (Bool-cases (same_name n other)) [
      | inl test ↦
          ne (some_eq (ap (λ b. if b then some p else lookup other services) (sym test) ∙ e))
      | inr test ↦
          AllNew-unheld name object calls services h other
            (ap (λ b. if b then some p else lookup other services) (sym test) ∙ e)
    ]
  where
    some_eq : {a b : ℕ} → some a ≡ some b → a ≡ b
    some_eq q = cc

pub AllNew-later :
    (name : Bytes) (object : ℕ) (calls : List Call) (services : Services)
    → AllNew services (add name object ∷ calls)
    → AllNew services calls
AllNew-later name object calls [] h = tt
AllNew-later name object calls ((n, p) ∷ services) ((ne, new), h) =
    (new, AllNew-later name object calls services h)

pub AllNew-same :
    (call : Call) (calls : List Call) (services : Services)
    → ((object : ℕ) → IsNew object (call ∷ calls) → IsNew object calls)
    → AllNew services (call ∷ calls)
    → AllNew services calls
AllNew-same call calls [] weaker h = tt
AllNew-same call calls ((n, p) ∷ services) weaker (new, h) =
    (weaker p new, AllNew-same call calls services weaker h)
