-- ===== src/Client/Cookies.antt =====
-- The cookies and promises of the calls that wait: none is given out twice while it is in use.
pub mod Steps
pub mod Requests
pub mod Deaths
pub mod Commands
pub mod Reachable
use binderd.Common.{
  ℕ, ◌+◌, ◌^◌, ◌<◌, ◌≤◌, ◌≡◌, refl, sym, ap, ◌∙◌, Bool, true, false, ◌==◌, if◌then◌else◌, Option,
  none, some, is_some, find, insert, erase, find-insert, find-erase, Map, arith, Result, ok,
  Bool-cases, inl, inr, Option-cases,
}
use native.Mathlib.Nat.{mod-eq_of_lt}
use binderd.Common.Effects.{proceed}
use binderd.Message.{Message}
use binderd.Server.State.{next_u64}
use binderd.Client.State.{Client, PendingCall}
use binderd.Client.Calls.{start_call, new_cookie, finish_call, with_call}

-- Of the next cookie, the calls, the next promise and the values that were set.
pub record Fresh (cookie : ℕ) (calls : Map PendingCall) (promise : ℕ) (values : Map Message)
    : Type 0 where
  pub below : (k : ℕ) (call : PendingCall) → find k calls ≡ some call → k < cookie
  pub named : (k : ℕ) (call : PendingCall) → find k calls ≡ some call → call.promise < promise
  pub distinct :
      (j k : ℕ) (a b : PendingCall)
      → find j calls ≡ some a
      → find k calls ≡ some b
      → a.promise ≡ b.promise
      → j ≡ k
  pub promised : (p : ℕ) → is_some (find p values) ≡ true → p < promise

abbrev pub IsFresh : Client → Type 0
IsFresh c = Fresh c.next_cookie c.pending_calls c.next_promise c.promises

pub unused_cookie : (c : Client) → IsFresh c → find c.next_cookie c.pending_calls ≡ none
unused_cookie c h = elim (Option-cases (find c.next_cookie c.pending_calls)) [
  | inl none_there ↦ none_there
  | inr (call, there) ↦ absurd (omega (arith, h.below c.next_cookie call there))
]

pub unused_promise : (c : Client) → IsFresh c → is_some (find c.next_promise c.promises) ≡ false
unused_promise c h = elim (Bool-cases (is_some (find c.next_promise c.promises))) [
  | inl there ↦ absurd (omega (arith, h.promised c.next_promise there))
  | inr absent ↦ absent
]

-- The client after a call was started.
abbrev pub started : Message → Bool → Client → Client
started m one_way c = record c {
  next_cookie = c.next_cookie + 1;
  pending_calls =
      insert c.next_cookie
        (record { promise = c.next_promise; msg_type = m.kind; one_way = one_way }) c.pending_calls;
  next_promise = c.next_promise + 1;
}

pub start_call_lem :
    (m : Message) (one_way : Bool) (c : Client)
    → IsFresh c
    → c.next_cookie + 1 < 2 ^ 64
    → start_call m one_way c
      ≡ (ok (record m { cookie = c.next_cookie }, c.next_promise), started m one_way c)
unfolding start_call new_cookie
start_call_lem m one_way c h room = rw (mod-eq_of_lt room, unused_cookie c h)

pub started-IsFresh :
    (m : Message) (one_way : Bool) (c : Client) → IsFresh c → IsFresh (started m one_way c)
started-IsFresh m one_way c h =
    let call : PendingCall = record {
      promise = c.next_promise;
      msg_type = m.kind;
      one_way = one_way;
    } in
    record {
      below =
          λ k a e. ground (arith, e, find-insert c.next_cookie k call c.pending_calls, h.below k a);
      named =
          λ k a e. ground (arith, e, find-insert c.next_cookie k call c.pending_calls, h.named k a);
      distinct = λ j k a b e f same. ground (
        arith,
        e,
        f,
        same,
        find-insert c.next_cookie j call c.pending_calls,
        find-insert c.next_cookie k call c.pending_calls,
        h.named j a,
        h.named k b,
        h.distinct j k a b,
      );
      promised = λ p e. omega (arith, h.promised p e);
    }

-- A call that ends takes no other with it.
pub finish_call-IsFresh : (cookie : ℕ) (c : Client) → IsFresh c → IsFresh (finish_call cookie c)
unfolding finish_call
finish_call-IsFresh cookie c h = record {
  below = λ k a e. ground (arith, e, find-erase cookie k c.pending_calls, h.below k a);
  named = λ k a e. ground (arith, e, find-erase cookie k c.pending_calls, h.named k a);
  distinct = λ j k a b e f same. ground (
    arith,
    e,
    f,
    same,
    find-erase cookie j c.pending_calls,
    find-erase cookie k c.pending_calls,
    h.distinct j k a b,
  );
  promised = h.promised;
}

-- A promise of a call that waits is set.
pub set_promise-IsFresh :
    (p : ℕ) (m : Message) (cookie promise : ℕ) (calls : Map PendingCall) (values : Map Message)
    → p < promise
    → Fresh cookie calls promise values
    → Fresh cookie calls promise (insert p m values)
set_promise-IsFresh p m cookie promise calls values lt h = record {
  below = h.below;
  named = h.named;
  distinct = h.distinct;
  promised = λ q e. ground (arith, e, lt, find-insert p q m values, h.promised q);
}
