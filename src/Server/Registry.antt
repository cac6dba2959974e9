-- ===== src/Server/Registry.antt =====
-- src/binderd/registry.cpp: which session owns a handle, and which sessions hold references.
pub mod Notices
pub mod References
use binderd.Common.{
  ℕ, ◌+◌, Bool, true, false, List, [], ◌∷◌, ◌++◌, ltb, ◌==◌, if◌then◌else◌, Option, none, some,
  is_some, find, insert, replace, erase, length, Result, ok,
}
use binderd.Buffer.{Allocator}
use binderd.Status.{Status, ok_status, dead_object, bad_value}
use binderd.Server.State.{
  World, Session, Registry, M, ◌>>=◌, ◌>>◌, continue_with, pure, get_registry, modify_registry,
  next_u64,
}
use binderd.Server.Output.{send_death_notification}

abbrev pub context_manager_handle : ℕ
context_manager_handle = 0

abbrev pub set_context_manager : Option ℕ → M (Unit {0})
set_context_manager session = modify_registry (λ r. record r { context_mgr = session })

abbrev pub set_monitor : Option ℕ → M (Unit {0})
set_monitor session = modify_registry (λ r. record r { monitor = session })

unfoldable pub find_session_by_handle : ℕ → Registry → Option ℕ
find_session_by_handle handle r =
    if handle == context_manager_handle then r.context_mgr else find handle r.handles

unfoldable pub new_object_handle : ℕ → M ℕ
new_object_handle session = do
  r ← get_registry
  modify_registry (λ r. record r {
    next_object_handle = next_u64 r.next_object_handle;
    handles = insert r.next_object_handle session r.handles;
  })
  pure r.next_object_handle

unfoldable pub is_handle_known : ℕ → Registry → Bool
is_handle_known handle r = is_some (find handle r.handles)

abbrev pub is_referenced : Option (List ℕ) → Bool
is_referenced none = false
is_referenced (some sessions) = ltb 0 (length sessions)

unfoldable pub is_handle_referenced : ℕ → Registry → Bool
is_handle_referenced handle r = is_referenced (find handle r.references)

abbrev pub referenced : Option (List ℕ) → ℕ → ℕ → Registry → Registry
referenced none session handle r = record r {
  references = insert handle (session ∷ []) r.references;
}
referenced (some sessions) session handle r = record r {
  references = replace handle (sessions ++ session ∷ []) r.references;
}

unfoldable pub add_reference_for_handle : ℕ → ℕ → M Status
unfolding is_handle_known
add_reference_for_handle session handle = do
  r ← get_registry
  if is_handle_known handle r
      then (modify_registry (referenced (find handle r.references) session handle)
          >> pure ok_status)
      else pure dead_object

-- `std::find` and `erase`: the first entry of the session goes; `none` where there is none.
unfoldable pub remove_first : ℕ → List ℕ → Option (List ℕ)
remove_first s [] = none
remove_first s (t ∷ ts) =
    let rest = remove_first s ts in
    if t == s then some ts else elim rest [ none ↦ none | some us ↦ some (t ∷ us) ]

abbrev pub dereference : Option (List ℕ) → ℕ → M Status
dereference none handle = pure bad_value
dereference (some sessions) handle = do
  modify_registry (λ r. record r { references = replace handle sessions r.references })
  pure ok_status

abbrev pub remove_reference : Option (List ℕ) → ℕ → ℕ → M Status
remove_reference none session handle = pure bad_value
remove_reference (some sessions) session handle = dereference (remove_first session sessions) handle

unfoldable pub remove_reference_for_handle : ℕ → ℕ → M Status
unfolding is_handle_known remove_first
remove_reference_for_handle session handle = do
  r ← get_registry
  if is_handle_known handle r
      then remove_reference (find handle r.references) session handle
      else pure dead_object

module _ (alloc : Allocator) where
  unfoldable pub notify_all : ℕ → List ℕ → M (Unit {0})
  notify_all handle [] = pure tt
  notify_all handle (s ∷ ss) = send_death_notification alloc s handle >> notify_all handle ss

  abbrev pub drop_references : Option (List ℕ) → ℕ → M (Unit {0})
  drop_references none handle = pure tt
  drop_references (some sessions) handle = do
    notify_all handle sessions
    modify_registry (λ r. record r { references = erase handle r.references })

  unfoldable pub remove_handle : ℕ → M (Unit {0})
  unfolding is_handle_known
  remove_handle handle = do
    r ← get_registry
    if is_handle_known handle r
        then (drop_references (find handle r.references) handle
            >> modify_registry (λ r. record r { handles = erase handle r.handles }))
        else pure tt
