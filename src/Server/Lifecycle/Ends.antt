-- ===== src/Server/Lifecycle/Ends.antt =====
-- What `Terminate` leaves: no handle of the registry names the session as its owner, and it has no role
-- any more. It stays among the holders of other sessions' handles, and the caller of transactions
-- that others have not answered.
use binderd.Common.{
  ℕ, ◌≡◌, ◌≢◌, refl, true, false, ◌==◌, inl, inr, Option, none, some, is_some, find, erase,
  find-erase, Bool-cases, Option-cases, List, [], ◌∷◌, Map, arith, Result, ok,
}
use binderd.Buffer.{Allocator, NeverFails}
use binderd.Server.State.{World, Registry, BinderObject, ◌>>◌, continue_with, modify_registry, pure}
use binderd.Server.State.Keeps.{Keeps, continue_with-Keeps, if-Keeps}
use binderd.Server.Registry as Registry
use binderd.Server.Registry.Notices.{
  notify_all-Keeps, notify_all-Succeeds, Succeeds, continue_with-Succeeds, continue_with-ok,
}
use binderd.Server.Invariant.{IsConsistent}
use binderd.Server.Lifecycle.{
  remove_handles, resign, messenger_close, sessions_remove, terminate, is_open, remove_id,
}

abbrev drop_handle : ℕ → Registry → Registry
drop_handle handle r = record r { handles = erase handle r.handles }

-- Properties of the table of handles that a smaller table keeps.
abbrev IsAboutHandles : (Map ℕ → Type 0) → Type 0
IsAboutHandles Q = (handle : ℕ) (m : Map ℕ) → Q m → Q (erase handle m)

module _ (alloc : Allocator) (Q : Map ℕ → Type 0) (smaller : IsAboutHandles Q) where
  drop_references-Keeps :
      (o : Option (List ℕ)) (handle : ℕ)
      → Keeps (λ w. Q w.registry.handles) (Registry.drop_references alloc o handle)
  drop_references-Keeps none handle w h = h
  drop_references-Keeps (some sessions) handle w h =
      continue_with-Keeps (λ v. Q v.registry.handles) (Registry.notify_all alloc handle sessions w)
        (λ _. modify_registry (λ r. record r { references = erase handle r.references }))
        (notify_all-Keeps alloc (λ v. Q v.registry.handles) (λ s b v k. k) handle sessions w h)
        (λ _ v k. k)

  remove_handle-Keeps :
      (handle : ℕ) → Keeps (λ w. Q w.registry.handles) (Registry.remove_handle alloc handle)
  unfolding Registry.remove_handle
  remove_handle-Keeps handle w =
      if-Keeps (λ v. Q v.registry.handles) (Registry.is_handle_known handle w.registry)
        (Registry.drop_references alloc (find handle w.registry.references) handle
          >> modify_registry (drop_handle handle))
        (pure tt)
        (λ v h.
          continue_with-Keeps (λ u. Q u.registry.handles)
            (Registry.drop_references alloc (find handle w.registry.references) handle v)
            (λ _. modify_registry (drop_handle handle))
            (drop_references-Keeps (find handle w.registry.references) handle v h)
            (λ _ u k. smaller handle u.registry.handles k))
        (λ v h. h) w

  remove_handles-Keeps :
      (objects : Map BinderObject)
      → Keeps (λ w. Q w.registry.handles) (remove_handles alloc objects)
  unfolding remove_handles
  remove_handles-Keeps [] w h = h
  remove_handles-Keeps ((handle, object) ∷ rest) w h =
      continue_with-Keeps (λ v. Q v.registry.handles) (Registry.remove_handle alloc handle w)
        (λ _. remove_handles alloc rest) (remove_handle-Keeps handle w h)
        (λ _. remove_handles-Keeps rest)

module _ (alloc : Allocator) (memory : NeverFails alloc) where
  drop_references-Succeeds :
      (o : Option (List ℕ)) (handle : ℕ) (w : World)
      → Succeeds (Registry.drop_references alloc o handle w)
  drop_references-Succeeds none handle w = refl
  drop_references-Succeeds (some sessions) handle w =
      continue_with-Succeeds (Registry.notify_all alloc handle sessions w)
        (λ _. modify_registry (λ r. record r { references = erase handle r.references }))
        (notify_all-Succeeds alloc memory handle sessions w) (λ v. refl)

  -- The handle goes from the table at the end.
  drop_handle_last :
      (handle : ℕ) (x : Result (Unit {0}) × World)
      → Succeeds x
      → Succeeds (continue_with x (λ _. modify_registry (drop_handle handle)))
        × (find handle
              (continue_with x (λ _. modify_registry (drop_handle handle))).1.registry.handles
            ≡ none)
  drop_handle_last handle (ok a, w) h =
      (refl, ground (arith, find-erase handle handle w.registry.handles))
  drop_handle_last handle (Result.err e, w) h = cc
  drop_handle_last handle (Result.undefined, w) h = cc

  -- A handle that is removed is not in the table any more, known or not.
  remove_handle_lem :
      (handle : ℕ) (w : World)
      → Succeeds (Registry.remove_handle alloc handle w)
        × (find handle (Registry.remove_handle alloc handle w).1.registry.handles ≡ none)
  unfolding Registry.remove_handle Registry.is_handle_known
  remove_handle_lem handle w = elim (Option-cases (find handle w.registry.handles)) [
    | inl e ↦ ground (arith, e)
    | inr (s, e) ↦ (rw e last.0, rw e last.1)
  ]
    where
      references : Option (List ℕ)
      references = find handle w.registry.references

      last :
          Succeeds (
            continue_with
              (Registry.drop_references alloc references handle w)
              (λ _. modify_registry (drop_handle handle)))
          × (find handle
                (continue_with
                  (Registry.drop_references alloc references handle w)
                  (λ _. modify_registry (drop_handle handle))).1.registry.handles
              ≡ none)
      last =
          drop_handle_last handle (Registry.drop_references alloc references handle w)
            (drop_references-Succeeds references handle w)

  -- All of a session's handles leave the table.
  remove_handles_lem :
      (objects : Map BinderObject) (w : World)
      → Succeeds (remove_handles alloc objects w)
        × ((handle : ℕ)
            → is_some (find handle objects) ≡ true
            → find handle (remove_handles alloc objects w).1.registry.handles ≡ none)
  unfolding remove_handles find
  remove_handles_lem [] w = (refl, λ handle e. cc)
  remove_handles_lem ((handle, object) ∷ rest) w =
      let v = (Registry.remove_handle alloc handle w).1 in
      let first = remove_handle_lem handle w in
      rw
        (continue_with-ok (Registry.remove_handle alloc handle w) (λ _. remove_handles alloc rest)
          first.0)
        (
          (remove_handles_lem rest v).0,
          λ k e. elim (Option-cases (find k rest)) [
            | inl absent ↦
                remove_handles-Keeps alloc (λ m. find k m ≡ none)
                  (λ j m gone. ground (arith, gone, find-erase j k m)) rest v
                  (ground (arith, first.1, absent, e))
            | inr (o, present) ↦ (remove_handles_lem rest v).1 k (rw present refl)
          ],
        )

remove_id-is_open : (s : ℕ) (ts : List ℕ) → is_open s (remove_id s ts) ≡ false
unfolding is_open remove_id
remove_id-is_open s [] = refl
remove_id-is_open s (t ∷ ts) = ground (arith, remove_id-is_open s ts)

-- No handle is the session's, it has no role, and it is closed.
pub record IsGone (s : ℕ) (w : World) : Type 0 where
  pub no_handle : (handle : ℕ) → find handle w.registry.handles ≢ some s
  pub no_manager : w.registry.context_mgr ≢ some s
  pub no_monitor : w.registry.monitor ≢ some s
  pub is_closed : (w.sessions s).closed ≡ true
  pub not_open : is_open s w.open_sessions ≡ false

-- From a consistent state, and if allocations succeed, `Terminate` returns; afterwards no handle of
-- the registry leads to the session, it is neither context manager nor monitor, its messenger is
-- closed, and it is not among the open sessions.
pub terminate-IsGone :
    (alloc : Allocator)
    → NeverFails alloc
    → (s : ℕ) (w : World) → IsConsistent w
    → Succeeds (terminate alloc s w) × IsGone s (terminate alloc s w).1
unfolding terminate resign
terminate-IsGone alloc memory s w h =
    rw
      (continue_with-ok (remove_handles alloc (w.sessions s).objects w)
        (λ _. resign s >> (messenger_close s >> sessions_remove s)) removed.0)
      (
        refl,
        record {
          no_handle = λ k e. no_handle k (ground (arith, e));
          no_manager = ground (arith);
          no_monitor = ground (arith);
          is_closed = ground (arith);
          not_open = remove_id-is_open s _;
        },
      )
  where
    v : World
    v = (remove_handles alloc (w.sessions s).objects w).1

    removed :
        Succeeds (remove_handles alloc (w.sessions s).objects w)
        × ((k : ℕ)
            → is_some (find k (w.sessions s).objects) ≡ true
            → find k v.registry.handles ≡ none)
    removed = remove_handles_lem alloc memory (w.sessions s).objects w

    shrinks : (k : ℕ) → find k w.registry.handles ≢ some s → find k v.registry.handles ≢ some s
    shrinks k never =
        remove_handles-Keeps alloc (λ m. find k m ≢ some s)
          (λ j m other e. other (ground (arith, e, find-erase j k m))) (w.sessions s).objects w
          never

    no_handle : (k : ℕ) → find k v.registry.handles ≢ some s
    no_handle k e = elim (Option-cases (find k w.registry.handles)) [
      | inl absent ↦ shrinks k (λ e2. ground (arith, absent, e2)) e
      | inr (t, found) ↦ elim (Bool-cases (t == s)) [
        | inl same ↦ ground (arith, e, removed.1 k (h.owned k s (ground (arith, same, found))))
        | inr other ↦ shrinks k (λ e2. ground (arith, e2, found, other)) e
      ]
    ]
