-- ===== src/ServiceManager/Refinement.antt =====
-- The service manager's service is a partial function from names to objects.
use binderd.Common.{
  ℕ, ◌≡◌, inl, inr, refl, sym, ap, ◌∙◌, if◌then◌else◌, List, [], ◌∷◌, Option, none, some, is_some,
  Bytes, Result, ok, err, undefined, Option-cases,
}
use binderd.Common.Effects.{Act, proceed, ◌>>=◌, ◌>>◌, pure, get, modify}
use binderd.Status.{Status, ok_status, bad_value}
use binderd.ServiceManager.{
  same_name, lookup, found_service, get_service, on_object_died, Manager, add_service,
}
use binderd.ServiceManager.Calls.{
  Call, add, ask, died, Answer, forget, bound, replay, AddsOnce, IsApart, AllNew,
  lookup-on_object_died, on_object_died-IsApart, on_object_died-AllNew, AllNew-unheld, AllNew-later,
  AllNew-same,
}

-- The link to death returns.
abbrev pub Returns : {S : Type 0} → (ℕ → Act S Status) → Type 0
Returns {S} link =
    (object : ℕ) (s : S) → (result : Status) × (t : S) × (link object s ≡ (ok result, t))

module _ {S : Type 0} (link : ℕ → Act S Status) where
  -- The service's answers to calls, one after the other.
  unfoldable pub run : List Call → Act (Manager S) (List Answer)
  run [] = pure []
  run (add name object ∷ calls) = do
    result ← add_service link name (some object)
    answers ← run calls
    pure ((result, none) ∷ answers)
  run (ask name ∷ calls) = do
    m ← get
    answers ← run calls
    pure (get_service name m.services ∷ answers)
  run (died who ∷ calls) = do
    modify (λ m. record m { services = on_object_died who m.services })
    answers ← run calls
    pure ((ok_status, none) ∷ answers)

  cons_answer :
      (answer : Answer) (out : Result (List Answer) × Manager S) (answers : List Answer)
      → out.0 ≡ ok answers
      → (proceed out (λ later. pure (answer ∷ later))).0 ≡ ok (answer ∷ answers)
  cons_answer answer (ok later, m) answers e = ap (λ (r : Result (List Answer)). with_answer r) e
    where
      with_answer : Result (List Answer) → Result (List Answer)
      with_answer (ok xs) = ok (answer ∷ xs)
      with_answer _ = ok []
  cons_answer answer (err e, m) answers q = absurd (cc)
  cons_answer answer (undefined, m) answers q = absurd (cc)

  add_service_taken :
      (name : Bytes) (object other : ℕ) (m : Manager S)
      → lookup name m.services ≡ some other
      → add_service link name (some object) m ≡ (ok bad_value, m)
  unfolding add_service
  add_service_taken name object other m there = rw there

  add_service_new :
      (name : Bytes) (object : ℕ) (result : Status) (t : S) (m : Manager S)
      → lookup name m.services ≡ none
      → link object m.outside ≡ (ok result, t)
      → add_service link name (some object) m
        ≡ (ok ok_status, record m { services = (name, object) ∷ m.services; outside = t })
  unfolding add_service
  add_service_new name object result t m absent linked = rw (absent, linked)

  module _ (returns : Returns link) where
    run-replay_from :
        (calls : List Call) (m : Manager S) (f : Bytes → Option ℕ)
        → IsApart m.services
        → AllNew m.services calls
        → AddsOnce calls
        → ((name : Bytes) → lookup name m.services ≡ f name)
        → (run calls m).0 ≡ ok (replay calls f)
    unfolding run replay get_service lookup
    run-replay_from [] m f apart new once agree = refl
    run-replay_from (ask name ∷ calls) m f apart new once agree =
        cons_answer (get_service name m.services) (run calls m) (replay calls f) (
          run-replay_from calls m f apart (AllNew-same (ask name) calls m.services (λ o h. h) new)
            once agree)
        ∙ ap (λ o. ok (found_service o ∷ replay calls f)) (agree name)
    run-replay_from (died who ∷ calls) m f apart new once agree =
        let left = on_object_died who m.services in
        let after = λ (name : Bytes). forget who (f name) in
        cons_answer (ok_status, none) (run calls (record m { services = left }))
          (replay calls after)
          (run-replay_from calls (record m { services = left }) after
            (on_object_died-IsApart who m.services apart)
            (on_object_died-AllNew who m.services calls
              (AllNew-same (died who) calls m.services (λ o h. h) new))
            once
            (λ name.
              lookup-on_object_died who name m.services apart ∙ ap (forget who) (agree name)))
    run-replay_from (add name object ∷ calls) m f apart new (is_new, once) agree =
        let later = AllNew-later name object calls m.services new in
        let taken = (bad_value, none) ∷ replay calls f in
        let made = (ok_status, none) ∷ replay calls (bound name object f) in
        let rest : Status → Act (Manager S) (List Answer) =
          λ result. run calls >>= λ answers. pure ((result, none) ∷ answers) in
        elim (Option-cases (lookup name m.services)) [
          | inr (other, there) ↦
              ap (λ r. (proceed r rest).0) (add_service_taken name object other m there)
              ∙ cons_answer (bad_value, none) (run calls m) (replay calls f)
                  (run-replay_from calls m f apart later once agree)
              ∙ ap (λ o. ok (if is_some o then taken else made)) (sym there ∙ agree name)
          | inl absent ↦
              let (result, t, linked) = returns object m.outside in
              let n = record m { services = (name, object) ∷ m.services; outside = t } in
              ap (λ r. (proceed r rest).0) (add_service_new name object result t m absent linked)
              ∙ cons_answer (ok_status, none) (run calls n) (replay calls (bound name object f))
                  (run-replay_from calls n (bound name object f)
                    (absent, AllNew-unheld name object calls m.services new, apart) (is_new, later)
                    once
                    (λ other.
                      ap (λ o. if same_name name other then some object else o) (agree other)))
              ∙ ap (λ o. ok (if is_some o then taken else made)) (sym absent ∙ agree name)
        ]

    -- A list of calls of `AddService` with an object, `GetService` and `OnObjectDied`, on a new service,
    -- is answered as a partial function from names to objects answers it: a name is taken until its
    -- object died, and a taken name keeps its object. No object is added twice, and what
    -- `LinkToDeath` does, it returns.
    pub run-replay :
        (calls : List Call) (s : S)
        → AddsOnce calls
        → (run calls (record { services = []; outside = s })).0 ≡ ok (replay calls (λ name. none))
    unfolding lookup
    run-replay calls s once =
        run-replay_from calls (record { services = []; outside = s }) (λ name. none) tt tt once
          (λ name. refl)
