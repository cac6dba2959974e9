-- ===== src/Client/Deaths/Recipients.antt =====
-- The recipients of death notices: a notice that was asked for and cleared leaves them as they were.
use binderd.Common.{
  ℕ, ◌-◌, ◌^◌, ◌<◌, ◌≤◌, ◌≡◌, ◌≢◌, refl, ap, true, false, ==_refl, ==_ne, List, [], ◌∷◌, ◌++◌, none,
  arith, Bool-cases, inl, inr, All,
}
use binderd.Client.State.{DeadRecipient}
use binderd.Client.Deaths.{
  int_of, same_id, add_recipient, find_recipient, drop_first, keep_recipient, remove_recipient,
}

same_id-int_of : (id : ℕ) → id < 2 ^ 31 → same_id (int_of id) id ≡ true
same_id-int_of id h = ground (arith, h)

-- No int is equal to an id between its bounds.
same_id_lost :
    (recipient id : ℕ)
    → recipient < 2 ^ 32
    → 2 ^ 31 ≤ id
    → id < 2 ^ 64 - 2 ^ 31
    → same_id recipient id ≡ false
same_id_lost recipient id h low high = ground (arith, h, low, high)

-- A recipient that has handles, and not the given one if it has the id.
abbrev pub Waits : ℕ → ℕ → DeadRecipient → Type 0
Waits id handle r = (r.handles ≢ []) × (same_id r.id id ≡ true → All (λ h. h ≢ handle) r.handles)

drop_first-append :
    (handle : ℕ) (hs : List ℕ)
    → All (λ h. h ≢ handle) hs
    → drop_first handle (hs ++ handle ∷ []) ≡ hs
unfolding drop_first
drop_first-append handle [] h = rw (==_refl handle)
drop_first-append handle (x ∷ hs) (ne, h) =
    rw (==_ne x handle ne) (ap (λ (l : List ℕ). x ∷ l) (drop_first-append handle hs h))

keep_recipient_same :
    (r : DeadRecipient) (hs : List ℕ) (rs : List DeadRecipient)
    → hs ≢ []
    → keep_recipient r hs rs ≡ record r { handles = hs } ∷ rs
keep_recipient_same r [] rs h = absurd (h refl)
keep_recipient_same r (x ∷ hs) rs h = refl

-- A handle that is added under an id below 2^31, and removed again, leaves the recipients as they
-- were, if each has a handle, and none with the id has that one.
pub remove_recipient-add_recipient :
    (id proxy handle : ℕ) (rs : List DeadRecipient)
    → id < 2 ^ 31
    → All (Waits id handle) rs
    → remove_recipient id handle (add_recipient id proxy handle rs) ≡ rs
unfolding remove_recipient add_recipient drop_first
remove_recipient-add_recipient id proxy handle [] low h = rw (same_id-int_of id low, ==_refl handle)
remove_recipient-add_recipient id proxy handle (r ∷ rs) low ((some_handles, fresh), h) =
    elim (Bool-cases (same_id r.id id)) [
      | inl same ↦
          rw (same, same, drop_first-append handle r.handles (fresh same))
            (keep_recipient_same (record r { handles = r.handles ++ handle ∷ [] }) r.handles rs
              some_handles)
      | inr other ↦
          rw (other, other)
            (ap (λ (l : List DeadRecipient). r ∷ l)
              (remove_recipient-add_recipient id proxy handle rs low h))
    ]

-- An id from 2^31 on, up to 2^64 - 2^31, is never found again: whatever is added under it, a search
-- for it finds no recipient. The ids of the recipients are ints.
pub find_recipient_lost :
    (id proxy handle : ℕ) (rs : List DeadRecipient)
    → 2 ^ 31 ≤ id
    → id < 2 ^ 64 - 2 ^ 31
    → All (λ r. r.id < 2 ^ 32) rs
    → find_recipient id (add_recipient id proxy handle rs) ≡ none
unfolding find_recipient add_recipient
find_recipient_lost id proxy handle [] low high h =
    rw (same_id_lost (int_of id) id (omega arith) low high)
find_recipient_lost id proxy handle (r ∷ rs) low high (is_int, h) =
    let other = same_id_lost r.id id is_int low high in
    rw (other, other) (find_recipient_lost id proxy handle rs low high h)
