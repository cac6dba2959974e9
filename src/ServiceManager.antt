-- ===== src/ServiceManager.antt =====
-- src/binderd/service_manager_service.cpp: the names under which objects are registered. The order of
-- iteration of its `unordered_map` is the list's; a new entry stands in front. What the service calls
-- outside itself is a parameter over a state of its own.
pub mod Calls
pub mod Refinement
pub mod Transact
pub mod Proxy
use binderd.Common.{
  ℕ, ◌≡◌, ◌≢◌, ◌⊎◌, inl, inr, refl, ap, ap₂, ◌∙◌, Bool, true, false, ◌==◌, ◌&&◌, ==_refl, ==_eq,
  if◌then◌else◌, List, [], ◌∷◌, map, Option, none, some, is_some, Bytes, Result, arith, Bool-cases,
}
use binderd.Common.Effects.{Act, proceed, ◌>>=◌, ◌>>◌, pure, get, modify}
use binderd.Status.{Status, ok_status, bad_value}

-- `==` of two `std::string`s.
unfoldable pub same_name : Bytes → Bytes → Bool
same_name [] [] = true
same_name [] (b ∷ ys) = false
same_name (a ∷ xs) [] = false
same_name (a ∷ xs) (b ∷ ys) = (a == b) && same_name xs ys

abbrev pub Services : Type 0
Services = List (Bytes × ℕ)

-- `services_.find(name)`
unfoldable pub lookup : Bytes → Services → Option ℕ
lookup name [] = none
lookup name ((other, object) ∷ services) =
    if same_name other name then some object else lookup name services

-- `GetService`: the status, and the object where it is `Ok`.
abbrev pub found_service : Option ℕ → Status × Option ℕ
found_service none = (bad_value, none)
found_service (some object) = (ok_status, some object)

unfoldable pub get_service : Bytes → Services → Status × Option ℕ
get_service name services = found_service (lookup name services)

-- `ListServices`
unfoldable pub list_services : Services → List Bytes
list_services [] = []
list_services ((name, object) ∷ services) = name ∷ list_services services

-- `OnObjectDied`: the first entry that holds the object goes.
unfoldable pub on_object_died : ℕ → Services → Services
on_object_died who [] = []
on_object_died who ((name, object) ∷ services) =
    if object == who then services else (name, object) ∷ on_object_died who services

-- The service, and the state of what it calls.
pub record Manager (S : Type 0) : Type 0 where
  pub services : Services
  pub outside : S

abbrev pub on_outside : {S A : Type 0} → Act S A → Act (Manager S) A
on_outside act m = let out = act m.outside in (out.0, record m { outside = out.1 })

-- `AddService`, by what `LinkToDeath` of an object does; its status is ignored.
unfoldable pub add_service :
    {S : Type 0} → (ℕ → Act S Status) → Bytes → Option ℕ → Act (Manager S) Status
add_service link name none = pure bad_value
add_service link name (some object) = do
  m ← get
  if is_some (lookup name m.services) then pure bad_value else (do
    modify (λ n. record n { services = (name, object) ∷ n.services })
    result ← on_outside (link object)
    pure ok_status)

and_false : (b : Bool) → (b && false) ≡ false
and_false true = refl
and_false false = refl

pub same_name-cases :
    (a b : Bytes) → ((same_name a b ≡ true) × (a ≡ b)) ⊎ ((same_name a b ≡ false) × (a ≢ b))
unfolding same_name
same_name-cases [] [] = inl (refl, refl)
same_name-cases [] (b ∷ ys) = inr (refl, λ e. cc)
same_name-cases (a ∷ xs) [] = inr (refl, λ e. cc)
same_name-cases (a ∷ xs) (b ∷ ys) = elim (same_name-cases xs ys) [
  | inl (test, same) ↦ elim (Bool-cases (a == b)) [
    | inl e ↦ inl (rw (e, test) refl, ap₂ (λ (n : ℕ) (ns : Bytes). n ∷ ns) (==_eq a b e) same)
    | inr e ↦ inr (rw e refl, λ q. ground (arith, q, e))
  ]
  | inr (test, differ) ↦ inr (rw (test) (and_false (a == b)), λ q. differ (cc))
]
