-- ===== src/Objects/Deaths.antt =====
-- Who is told of a remote object's death, and how often.
use binderd.Common.{
  ℕ, ◌≡◌, refl, subst, Bool, true, false, if◌then◌else◌, Result, ok, err, undefined,
}
use binderd.Common.Effects.{Keeps, proceed, ◌>>◌, pure, modify}
use binderd.Status.{dead_object}
use binderd.Objects.{
  RemoteObject, Environment, Held, link_to_death, unlink_to_death, tell_all, send_obituary, sent,
}

-- Where an obituary was sent without an exception, the object says so.
abbrev HasSent : {S : Type 0} → Result (Unit {0}) × Held S → Type 0
HasSent (ok tt, h) = h.object.obituaries_sent ≡ true
HasSent (_, h) = Unit {0}

told-HasSent :
    {S : Type 0} (told : Result (Unit {0}) × Held S) → HasSent (proceed told (λ _. modify sent))
told-HasSent (ok tt, h) = refl
told-HasSent (err e, h) = tt
told-HasSent (undefined, h) = tt

module _ {S : Type 0} (environment : Environment (Held S)) where
  send_obituary-HasSent : (h : Held S) → HasSent (send_obituary environment h)
  unfolding send_obituary
  send_obituary-HasSent h = choose h.object.obituaries_sent refl
    where
      choose :
          (is_sent : Bool)
          → h.object.obituaries_sent ≡ is_sent
          → HasSent (
              (if is_sent
                  then pure tt
                  else (tell_all environment h.object.obituaries >> modify sent))
                h)
      choose true dead = dead
      choose false alive = told-HasSent (tell_all environment h.object.obituaries h)

  -- After a `SendObituary` that returned, a second one tells nobody, and `LinkToDeath` and
  -- `UnlinkToDeath` answer `DeadObject`; none of them calls the client or changes anything.
  pub send_obituary-once :
      (recipient : ℕ) (h k : Held S)
      → send_obituary environment h ≡ (ok tt, k)
      → (send_obituary environment k ≡ (ok tt, k))
        × (link_to_death environment recipient k ≡ (ok dead_object, k))
        × (unlink_to_death environment recipient k ≡ (ok dead_object, k))
  unfolding send_obituary link_to_death unlink_to_death
  send_obituary-once recipient h k returned =
      let is_sent = subst (λ out. HasSent out) returned (send_obituary-HasSent h) in
      (rw is_sent, rw is_sent, rw is_sent)

  -- The recipients leave the object alone.
  abbrev pub LeaveObject : Type 0
  LeaveObject =
      (o : RemoteObject) (r : ℕ) → Keeps (λ h. h.object ≡ o) (environment.on_object_died r)
