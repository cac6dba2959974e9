-- ===== src/Server/Translate/Keeps.antt =====
-- A property that registering a binder object keeps is kept by the whole translation.
use binderd.Common.{
  ℕ, zero, suc, ◌+◌, Option, none, some, find, Bytes, length, ltb, ◌==◌, get_or, undefined,
}
use binderd.Status.{Status, ok_status}
use binderd.Transaction.{FromMessage, num_objects, offset_size}
use binderd.Server.State.{World, M, ◌>>=◌, lift, pure, get_session}
use binderd.Server.State.Keeps.{Keeps, continue_with-Keeps, if-Keeps}
use binderd.Server.Translate.{
  register_binder, resolve_handle, translate_object, or_invalid, translate_loop, translate_objects,
  flat_size, get_type, get_handle, type_binder, type_handle, type_weak_binder, type_weak_handle,
  type_fd,
}

module _ (P : World → Type 0) (s : ℕ)
    (registers : (at : ℕ) (memory : Bytes) → Keeps P (register_binder s at memory)) where
  translate_object-Keeps : (at : ℕ) (memory : Bytes) → Keeps P (translate_object s at memory)
  unfolding translate_object
  translate_object-Keeps at memory =
      if-Keeps P (ltb (length memory) (at + flat_size)) (lift undefined) _ (λ w h. h)
        (if-Keeps P (get_type memory at == type_binder)
          (register_binder s at memory >>= λ m. pure (some m)) _
          (λ w h.
            continue_with-Keeps P (register_binder s at memory w) (λ m. pure (some m))
              (registers at memory w h) (λ m v k. k))
          (if-Keeps P (get_type memory at == type_handle)
            (get_session s >>= λ session.
              pure (some (resolve_handle (find (get_handle memory at) session.objects) at memory)))
            _ (λ w h. h)
            (if-Keeps P (get_type memory at == type_weak_binder) (pure (some memory)) _ (λ w h. h)
              (if-Keeps P (get_type memory at == type_weak_handle) (pure (some memory)) _ (λ w h. h)
                (if-Keeps P (get_type memory at == type_fd) (pure (some memory)) (pure none)
                  (λ w h. h) (λ w h. h))))))

  or_invalid-Keeps :
      (translated : Option Bytes) (memory : Bytes) (rest : Bytes → M (Status × Bytes))
      → ((m : Bytes) → Keeps P (rest m))
      → Keeps P (or_invalid translated memory rest)
  or_invalid-Keeps none memory rest h w k = k
  or_invalid-Keeps (some m) memory rest h w k = h m w k

  translate_loop-Keeps :
      (data_at n current : ℕ) (memory : Bytes) → Keeps P (translate_loop s data_at n current memory)
  unfolding translate_loop
  translate_loop-Keeps data_at zero current memory w h = h
  translate_loop-Keeps data_at (suc n) current memory w h =
      let at = data_at + get_or memory current 0 in
      let rest = translate_loop s data_at n (current + offset_size) in
      continue_with-Keeps P (translate_object s at memory w) (λ o. or_invalid o memory rest)
        (translate_object-Keeps at memory w h)
        λ o. or_invalid-Keeps o memory rest (translate_loop-Keeps data_at n (current + offset_size))

  pub translate_objects-Keeps :
      (t : FromMessage) (memory : Bytes) → Keeps P (translate_objects s t memory)
  unfolding translate_objects
  translate_objects-Keeps t memory =
      if-Keeps P (num_objects t == 0) (pure (ok_status, memory)) _ (λ w h. h)
        (if-Keeps P (t.data_size == 0) (lift undefined) _ (λ w h. h)
          (translate_loop-Keeps t.data_at (num_objects t) t.objects_at memory))
