-- ===== src/Messenger/Order.antt =====
-- Data is written in the order in which it was queued, one frame at a time.
use binderd.Common.{
  ◌<◌, ◌≡◌, refl, ap, sym, subst, ◌∙◌, Bool, true, false, List, [], ◌∷◌, ◌++◌, Bytes, length, take,
  drop, lt→ltb, if◌then◌else◌, append_assoc, append-nil, length-append, arith,
}
use mathlib.Core.List.{map, map-append}
use binderd.Messenger.{
  send_front, Messenger, new_messenger, frame, write_next, write_data, close, on_message_sent,
}

-- What a messenger went through, and the data that it was given, oldest first. A write ends only if
-- one is under way, and that is so while something is queued.
pub data Run : List Bytes → Messenger → Type 0 where
  begin : Run [] new_messenger
  data_queued :
      {given : List Bytes} {m : Messenger} (b : Bytes)
      → Run given m
      → Run (given ++ b ∷ []) (write_data b m)
  write_ended :
      {given : List Bytes} {m : Messenger}
      → Run given m
      → 0 < length m.write_queue
      → Run given (on_message_sent false m)
  closed : {given : List Bytes} {m : Messenger} → Run given m → Run given (close m)

-- The data that was given is what was finished and what is queued, and the frames of the finished
-- data and of the first in the queue were sent.
pub record IsOrdered (given : List Bytes) (m : Messenger) : Type 0 where
  pub finished : List Bytes
  pub whole : finished ++ m.write_queue ≡ given
  pub frames : m.sent ≡ map frame (finished ++ take 1 m.write_queue)

sent_one :
    (sent l : List Bytes) (b : Bytes)
    → sent ≡ map frame l
    → sent ++ frame b ∷ [] ≡ map frame (l ++ b ∷ [])
sent_one sent l b k =
    ap (λ (s : List Bytes). s ++ frame b ∷ []) k ∙ sym (map-append frame l (b ∷ []))

abbrev open_messenger : List Bytes → List Bytes → Bool → Messenger
open_messenger queue sent shut_down = record {
  write_queue = queue;
  exit = false;
  sent = sent;
  shut_down = shut_down;
}

queued-IsOrdered :
    (given finished queue sent : List Bytes) (d : Bool) (b : Bytes)
    → finished ++ queue ≡ given
    → sent ≡ map frame (finished ++ take 1 queue)
    → IsOrdered (given ++ b ∷ []) (write_data b (open_messenger queue sent d))
unfolding write_data write_next
queued-IsOrdered given finished [] sent d b h k = record {
  finished = finished;
  whole = ap (λ (l : List Bytes). l ++ b ∷ []) (sym (append-nil finished) ∙ h);
  frames = sent_one sent finished b (k ∙ ap (map frame) (append-nil finished));
}
queued-IsOrdered given finished (x ∷ xs) sent d b h k =
    rw (lt→ltb 1 (length (x ∷ xs ++ b ∷ [])) (omega (arith, length-append xs (b ∷ [])))) (record {
      finished = finished;
      whole =
          sym (append_assoc finished (x ∷ xs) (b ∷ [])) ∙ ap (λ (l : List Bytes). l ++ b ∷ []) h;
      frames = k;
    })

ended-IsOrdered :
    (given finished queue sent : List Bytes) (d : Bool)
    → 0 < length queue
    → finished ++ queue ≡ given
    → sent ≡ map frame (finished ++ take 1 queue)
    → IsOrdered given (on_message_sent false (open_messenger queue sent d))
unfolding on_message_sent write_next
ended-IsOrdered given finished [] sent d busy h k = absurd (omega (arith, busy))
ended-IsOrdered given finished (x ∷ []) sent d busy h k = record {
  finished = finished ++ x ∷ [];
  whole = append-nil (finished ++ x ∷ []) ∙ h;
  frames = k ∙ ap (map frame) (sym (append-nil (finished ++ x ∷ [])));
}
ended-IsOrdered given finished (x ∷ y ∷ ys) sent d busy h k =
    rw (lt→ltb 0 (length (y ∷ ys)) (omega arith)) (record {
      finished = finished ++ x ∷ [];
      whole = append_assoc finished (x ∷ []) (y ∷ ys) ∙ h;
      frames = sent_one sent (finished ++ x ∷ []) y k;
    })

write_next-exit : (m : Messenger) → (write_next m).exit ≡ m.exit
unfolding write_next
write_next-exit m = choose m.exit (sent_front m.write_queue)
  where
    sent_front : (q : List Bytes) → (send_front q m).exit ≡ m.exit
    sent_front [] = refl
    sent_front (x ∷ xs) = refl

    choose :
        (closed : Bool)
        → (send_front m.write_queue m).exit ≡ m.exit
        → (if closed then m else send_front m.write_queue m).exit ≡ m.exit
    choose true h = refl
    choose false h = h

write_data-exit : (b : Bytes) (m : Messenger) → (write_data b m).exit ≡ m.exit
unfolding write_data
write_data-exit b m =
    ground (arith, write_next-exit (record m { write_queue = m.write_queue ++ b ∷ [] }))

on_message_sent-exit : (m : Messenger) → (on_message_sent false m).exit ≡ m.exit
unfolding on_message_sent
on_message_sent-exit m =
    ground (arith, write_next-exit (record m { write_queue = drop 1 m.write_queue }))

-- Until it is closed, a messenger has sent the frames of the data that it was given, in order and
-- without gaps: what was given is the finished data and then the queue, and the frames of the
-- finished data and of the first in the queue were sent.
pub Run-IsOrdered :
    (given : List Bytes) (m : Messenger) → Run given m → m.exit ≡ false → IsOrdered given m
Run-IsOrdered _ _ begin e = record { finished = []; whole = refl; frames = refl }
Run-IsOrdered _ _ (data_queued {given} {m} b r) e =
    let open_before = sym (write_data-exit b m) ∙ e in
    let h = Run-IsOrdered given m r open_before in
    subst (λ n. IsOrdered (given ++ b ∷ []) (write_data b n))
      (ap (λ (x : Bool). record m { exit = x }) (sym open_before))
      (queued-IsOrdered given h.finished m.write_queue m.sent m.shut_down b h.whole h.frames)
Run-IsOrdered _ _ (write_ended {given} {m} r busy) e =
    let open_before = sym (on_message_sent-exit m) ∙ e in
    let h = Run-IsOrdered given m r open_before in
    subst (λ n. IsOrdered given (on_message_sent false n))
      (ap (λ (x : Bool). record m { exit = x }) (sym open_before))
      (ended-IsOrdered given h.finished m.write_queue m.sent m.shut_down busy h.whole h.frames)
Run-IsOrdered _ _ (closed r) e = cc
