-- ===== src/Server/Registry/References.antt =====
-- The references that sessions hold on a handle.
use binderd.Common.{
  ℕ, suc, ◌≡◌, refl, ◌∙◌, ==_refl, true, ◌==◌, if◌then◌else◌, Option, none, some, find, replace,
  find-insert, find-replace, List, [], ◌∷◌, ◌++◌, arith, ok, Bool-cases, inl, inr,
}
use binderd.Status.{ok_status}
use binderd.Server.State.{World, Registry}
use binderd.Server.Registry.{
  add_reference_for_handle, remove_reference_for_handle, remove_reference, dereference,
  remove_first, referenced, is_handle_known,
}

-- How often a session is in the list.
unfoldable pub count : ℕ → List ℕ → ℕ
count s [] = 0
count s (t ∷ ts) = if t == s then suc (count s ts) else count s ts

abbrev pub count_in : ℕ → Option (List ℕ) → ℕ
count_in s none = 0
count_in s (some sessions) = count s sessions

-- How many references a session holds on a handle.
abbrev pub num_references : ℕ → ℕ → Registry → ℕ
num_references s handle r = count_in s (find handle r.references)

count-append :
    (t : ℕ) (ts : List ℕ) (s : ℕ)
    → count t (ts ++ s ∷ []) ≡ (if s == t then suc (count t ts) else count t ts)
unfolding count
count-append t [] s = refl
count-append t (x ∷ ts) s = ground (arith, count-append t ts s)

remove_first-append :
    (s : ℕ) (ts : List ℕ)
    → (us : List ℕ) × (remove_first s (ts ++ s ∷ []) ≡ some us)
      × ((t : ℕ) → count t us ≡ count t ts)
unfolding remove_first count
remove_first-append s [] = ([], ground arith, λ t. refl)
remove_first-append s (x ∷ ts) = elim (Bool-cases (x == s)) [
  | inl same ↦ (ts ++ s ∷ [], ground (arith, same), λ t. ground (arith, same, count-append t ts s))
  | inr other ↦
      let (us, e, counts) = remove_first-append s ts in
      (x ∷ us, ground (arith, e, other), λ t. ground (arith, counts t))
]

-- What the table of references holds after an acquire.
references_after :
    (o : Option (List ℕ)) (s handle : ℕ) (r : Registry)
    → find handle r.references ≡ o
    → (ts : List ℕ) × (find handle (referenced o s handle r).references ≡ some (ts ++ s ∷ []))
      × ((t : ℕ) → count t ts ≡ count_in t o)
unfolding count
references_after none s handle r e =
    ([], ground (arith, e, find-insert handle handle (s ∷ []) r.references), λ t. refl)
references_after (some sessions) s handle r e = (
  sessions,
  ground (arith, e, find-replace handle handle (sessions ++ s ∷ []) r.references),
  λ t. refl,
)

add_reference_lem :
    (s handle : ℕ) (w : World)
    → is_handle_known handle w.registry ≡ true
    → add_reference_for_handle s handle w ≡ (
      ok ok_status,
      record w { registry = referenced (find handle w.registry.references) s handle w.registry },
    )
unfolding add_reference_for_handle
add_reference_lem s handle w known = rw known refl

referenced_known :
    (o : Option (List ℕ)) (s handle : ℕ) (r : Registry)
    → is_handle_known handle (referenced o s handle r) ≡ is_handle_known handle r
unfolding is_handle_known
referenced_known none s handle r = refl
referenced_known (some sessions) s handle r = refl

remove_reference_lem :
    (s handle : ℕ) (w : World) (ts us : List ℕ)
    → is_handle_known handle w.registry ≡ true
    → find handle w.registry.references ≡ some ts
    → remove_first s ts ≡ some us
    → remove_reference_for_handle s handle w ≡ (
      ok ok_status,
      record w {
        registry = record (w.registry) { references = replace handle us w.registry.references };
      },
    )
unfolding remove_reference_for_handle
remove_reference_lem s handle w ts us known e f =
    rw (known, e, remove_reference, f, dereference) refl

-- A session that acquired a known handle can release it again: both calls return `Ok`, and then
-- every session holds as many references on the handle as before.
pub remove_reference-add_reference :
    (s handle : ℕ) (w : World)
    → is_handle_known handle w.registry ≡ true
    → ((add_reference_for_handle s handle w).0 ≡ ok ok_status)
      × ((remove_reference_for_handle s handle (add_reference_for_handle s handle w).1).0
          ≡ ok ok_status)
      × ((t : ℕ)
          → num_references t handle
              (remove_reference_for_handle s handle
                (add_reference_for_handle s handle w).1).1.registry
            ≡ num_references t handle w.registry)
remove_reference-add_reference s handle w known =
    rw (add_reference_lem s handle w known) (refl, rw released refl, rw released counts)
  where
    r : Registry
    r = referenced (find handle w.registry.references) s handle w.registry

    v : World
    v = record w { registry = r }

    after :
        (ts : List ℕ) × (find handle r.references ≡ some (ts ++ s ∷ []))
        × ((t : ℕ) → count t ts ≡ num_references t handle w.registry)
    after = references_after (find handle w.registry.references) s handle w.registry refl

    rest :
        (us : List ℕ) × (remove_first s (after.0 ++ s ∷ []) ≡ some us)
        × ((t : ℕ) → count t us ≡ count t after.0)
    rest = remove_first-append s after.0

    released : remove_reference_for_handle s handle v ≡ (
      ok ok_status,
      record v { registry = record r { references = replace handle rest.0 r.references } },
    )
    released =
        remove_reference_lem s handle v (after.0 ++ s ∷ []) rest.0
          (referenced_known (find handle w.registry.references) s handle w.registry ∙ known) after.1
          rest.1

    counts :
        (t : ℕ)
        → count_in t (find handle (replace handle rest.0 r.references))
          ≡ num_references t handle w.registry
    counts t =
        rw (find-replace handle handle rest.0 r.references, ==_refl handle, after.1)
          (rest.2 t ∙ after.2 t)
