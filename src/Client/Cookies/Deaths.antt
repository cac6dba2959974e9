-- ===== src/Client/Cookies/Deaths.antt =====
-- The requests for death notices keep the client's calls apart.
use binderd.Common.{
  ℕ, Bool, true, false, ◌==◌, if◌then◌else◌, Option, none, some, Result, ok, err, undefined,
}
use binderd.Common.Effects.{◌>>=◌, ◌>>◌, pure, lift, get, modify}
use binderd.Buffer.{Allocator}
use binderd.Writer.{Writer, write_uint64}
use binderd.Message.{Message, create_message, request_death_notification, clear_death_notification}
use binderd.Message.Wire.{get_writer}
use binderd.Status.{unknown_error, dead_object}
use binderd.Translator.{Translator, translate_or_add_object, translate_object_id, invalid}
use binderd.Client.State.{Client, DeadRecipient}
use binderd.Client.Requests.{answered, begin_request, with_writer}
use binderd.Client.Deaths.{
  begin_request_death_notification, begin_clear_death_notification, clear_for, find_recipient,
  add_recipient, remove_recipient,
}
use binderd.Client.Cookies.{IsFresh}
use binderd.Client.Cookies.Requests.{HasRoom, begin_request-IsFresh}

module _ (alloc : Allocator) where
  pub begin_request_death_notification-IsFresh :
      (handle proxy : ℕ) (c : Client)
      → HasRoom 1 c
      → IsFresh (begin_request_death_notification alloc handle proxy c).1
  unfolding begin_request_death_notification
  begin_request_death_notification-IsFresh handle proxy c (h, room) =
      first (write_uint64 alloc handle (get_writer m))
    where
      m : Message
      m = create_message request_death_notification

      found : ℕ × Translator
      found = translate_or_add_object proxy c.object_translator

      d : Client
      d = record c {
        object_translator = found.1;
        dead_recipients = add_recipient found.0 proxy handle c.dead_recipients;
      }

      second :
          (w : Result Writer)
          → IsFresh ((lift w >>= λ v. begin_request alloc unknown_error (with_writer m v)) d).1
      second (ok w) = begin_request-IsFresh alloc unknown_error (with_writer m w) d (h, room)
      second (err e) = h
      second undefined = h

      first :
          (w : Result Writer)
          → IsFresh
              ((lift w >>= λ v. get >>= λ e.
                  modify (λ b. record b {
                    object_translator = (translate_or_add_object proxy e.object_translator).1;
                    dead_recipients =
                        add_recipient
                          (translate_or_add_object proxy e.object_translator).0
                          proxy
                          handle
                          b.dead_recipients;
                  })
                  >> (lift
                        (write_uint64 alloc (translate_or_add_object proxy e.object_translator).0 v)
                      >>= λ u. begin_request alloc unknown_error (with_writer m u)))
                c).1
      first (ok w) = second (write_uint64 alloc found.0 w)
      first (err e) = h
      first undefined = h

  clear_for-IsFresh :
      (r : Option DeadRecipient) (id handle : ℕ) (c : Client)
      → HasRoom 1 c
      → IsFresh (clear_for alloc r id handle c).1
  clear_for-IsFresh none id handle c (h, room) = h
  clear_for-IsFresh (some r) id handle c (h, room) =
      first (write_uint64 alloc handle (get_writer m))
    where
      m : Message
      m = create_message clear_death_notification

      d : Client
      d = record c { dead_recipients = remove_recipient id handle c.dead_recipients }

      second :
          (w : Result Writer)
          → IsFresh ((lift w >>= λ v. begin_request alloc unknown_error (with_writer m v)) d).1
      second (ok w) = begin_request-IsFresh alloc unknown_error (with_writer m w) d (h, room)
      second (err e) = h
      second undefined = h

      first :
          (w : Result Writer)
          → IsFresh
              ((lift w >>= λ v. lift (write_uint64 alloc id v) >>= λ u.
                  begin_request alloc unknown_error (with_writer m u))
                d).1
      first (ok w) = second (write_uint64 alloc id w)
      first (err e) = h
      first undefined = h

  pub begin_clear_death_notification-IsFresh :
      (handle proxy : ℕ) (c : Client)
      → HasRoom 1 c
      → IsFresh (begin_clear_death_notification alloc handle proxy c).1
  unfolding begin_clear_death_notification
  begin_clear_death_notification-IsFresh handle proxy c (h, room) =
      choose (translate_object_id proxy c.object_translator == invalid)
    where
      id : ℕ
      id = translate_object_id proxy c.object_translator

      choose :
          (unknown : Bool)
          → IsFresh
              ((if unknown
                  then pure (answered dead_object)
                  else clear_for alloc (find_recipient id c.dead_recipients) id handle)
                c).1
      choose true = h
      choose false = clear_for-IsFresh (find_recipient id c.dead_recipients) id handle c (h, room)
