-- ===== src/Client/Deaths.antt =====
-- `RequestDeathNotification` and `ClearDeathNotification`, each up to its wait, and what a
-- `DeadBinder` message does.
pub mod Recipients
use binderd.Common.{
  ℕ, ◌+◌, ◌-◌, ◌/◌, ◌%◌, ◌^◌, Bool, ◌==◌, if◌then◌else◌, List, [], ◌∷◌, ◌++◌, Option, none, some,
}
use binderd.Common.Effects.{Act, ◌>>=◌, ◌>>◌, pure, lift, get, modify}
use binderd.Buffer.{Allocator}
use binderd.Writer.{write_uint64}
use binderd.Message.{create_message, request_death_notification, clear_death_notification}
use binderd.Message.Wire.{get_writer}
use binderd.Status.{dead_object, unknown_error}
use binderd.Translator.{translate_object_id, translate_or_add_object, invalid}
use binderd.Client.State.{Client, DeadRecipient}
use binderd.Client.Requests.{Waiting, answered, begin_request, with_writer}

-- The recipient's id is an int, the translator's a uint64_t.
abbrev pub int_of : ℕ → ℕ
int_of id = id % 2 ^ 32

-- As a signed number converted to 64 bits compares with an id.
abbrev pub same_id : ℕ → ℕ → Bool
same_id recipient id =
    (if recipient / 2 ^ 31 == 0 then recipient else recipient + (2 ^ 64 - 2 ^ 32)) == id

-- The handle goes to the recipient's, or to a new recipient's.
unfoldable pub add_recipient : ℕ → ℕ → ℕ → List DeadRecipient → List DeadRecipient
add_recipient id proxy handle [] =
    record { id = int_of id; proxy = proxy; handles = handle ∷ [] } ∷ []
add_recipient id proxy handle (r ∷ rs) =
    if same_id r.id id
    then record r { handles = r.handles ++ handle ∷ [] } ∷ rs
    else r ∷ add_recipient id proxy handle rs

unfoldable pub find_recipient : ℕ → List DeadRecipient → Option DeadRecipient
find_recipient id [] = none
find_recipient id (r ∷ rs) = if same_id r.id id then some r else find_recipient id rs

-- `std::find` and `erase`: the first one goes, if there is one.
unfoldable pub drop_first : ℕ → List ℕ → List ℕ
drop_first handle [] = []
drop_first handle (h ∷ hs) = if h == handle then hs else h ∷ drop_first handle hs

abbrev pub keep_recipient : DeadRecipient → List ℕ → List DeadRecipient → List DeadRecipient
keep_recipient r [] rs = rs
keep_recipient r (h ∷ hs) rs = record r { handles = h ∷ hs } ∷ rs

-- The handle leaves the first recipient with the id, and the recipient goes with its last handle.
unfoldable pub remove_recipient : ℕ → ℕ → List DeadRecipient → List DeadRecipient
unfolding drop_first
remove_recipient id handle [] = []
remove_recipient id handle (r ∷ rs) =
    if same_id r.id id
    then keep_recipient r (drop_first handle r.handles) rs
    else r ∷ remove_recipient id handle rs

module _ (alloc : Allocator) where
  unfoldable pub begin_request_death_notification : ℕ → ℕ → Act Client Waiting
  begin_request_death_notification handle proxy = do
    let m = create_message request_death_notification
    w ← lift (write_uint64 alloc handle (get_writer m))
    c ← get
    let found = translate_or_add_object proxy c.object_translator
    modify (λ d. record d {
      object_translator = found.1;
      dead_recipients = add_recipient found.0 proxy handle d.dead_recipients;
    })
    w' ← lift (write_uint64 alloc found.0 w)
    begin_request alloc unknown_error (with_writer m w')

  abbrev pub clear_for : Option DeadRecipient → ℕ → ℕ → Act Client Waiting
  clear_for none id handle = pure (answered dead_object)
  clear_for (some r) id handle = do
    modify (λ d. record d { dead_recipients = remove_recipient id handle d.dead_recipients })
    let m = create_message clear_death_notification
    w ← lift (write_uint64 alloc handle (get_writer m))
    w' ← lift (write_uint64 alloc id w)
    begin_request alloc unknown_error (with_writer m w')

  unfoldable pub begin_clear_death_notification : ℕ → ℕ → Act Client Waiting
  begin_clear_death_notification handle proxy = do
    c ← get
    let id = translate_object_id proxy c.object_translator
    if id == invalid
        then pure (answered dead_object)
        else clear_for (find_recipient id c.dead_recipients) id handle
