-- ===== src/Server/Translate/Objects.antt =====
-- What a binder object in a transaction reads as, once it was translated.
use binderd.Common.{
  ℕ, zero, suc, ◌+◌, ◌^◌, ◌≤◌, ◌<◌, ◌≡◌, refl, sym, ap, ◌∙◌, [], ◌∷◌, ◌++◌, arith, Bytes, length,
  take, drop, slice, splice, le_bytes, le_value, length-append, length-take, take-append,
  drop-append, take-append-drop, append_assoc, length-splice, le_value-le_bytes,
}
use binderd.Common.{Map, none, some, find, insert, find-insert, ok}
use binderd.Server.State.{World, BinderObject, next_u64}
use binderd.Server.Registry.{find_session_by_handle, new_object_handle}
use binderd.Server.Translate.{
  flat_size, get_type, get_binder, get_handle, get_cookie, assign, type_handle, type_weak_binder,
  register_binder, resolve_handle,
}

-- What lies in front of a place does not depend on what is behind it.
slice_front : (p n : ℕ) (xs ys : Bytes) → p + n ≤ length xs → slice (xs ++ ys) p n ≡ slice xs p n
slice_front zero zero xs ys h = refl
slice_front zero (suc n) [] ys h = absurd (omega (arith, h))
slice_front zero (suc n) (x ∷ xs) ys h = ap (◌∷◌ x) (slice_front zero n xs ys (omega (arith, h)))
slice_front (suc p) n [] ys h = absurd (omega (arith, h))
slice_front (suc p) n (x ∷ xs) ys h = slice_front p n xs ys (omega (arith, h))

-- What lies behind a place does not depend on what is in front of it.
slice_back :
    (k n : ℕ) (xs zs ys : Bytes)
    → length xs ≤ k
    → length xs ≡ length zs
    → slice (xs ++ ys) k n ≡ slice (zs ++ ys) k n
slice_back k n [] [] ys h e = refl
slice_back k n [] (z ∷ zs) ys h e = absurd (omega (arith, e))
slice_back k n (x ∷ xs) [] ys h e = absurd (omega (arith, e))
slice_back zero n (x ∷ xs) (z ∷ zs) ys h e = absurd (omega (arith, h))
slice_back (suc k) n (x ∷ xs) (z ∷ zs) ys h e =
    slice_back k n xs zs ys (omega (arith, h)) (omega (arith, e))

module _ (memory : Bytes) (at : ℕ) (bytes : Bytes)
    (inside : at + length bytes ≤ length memory) where
  length-front : length (take at memory) ≡ at
  length-front = omega (arith, length-take at memory, inside)

  -- What was written is read.
  slice-splice : slice (splice memory at bytes) at (length bytes) ≡ bytes
  unfolding splice
  slice-splice =
      ap (take (length bytes)) (
        drop-append at (take at memory) (bytes ++ drop (at + length bytes) memory)
          (sym length-front))
      ∙ take-append (length bytes) bytes (drop (at + length bytes) memory) refl

  slice-splice_before :
      (p n : ℕ) → p + n ≤ at → slice (splice memory at bytes) p n ≡ slice memory p n
  unfolding splice
  slice-splice_before p n h =
      slice_front p n (take at memory) (bytes ++ drop (at + length bytes) memory)
        (omega (arith, h, length-front))
      ∙ sym (slice_front p n (take at memory) (drop at memory) (omega (arith, h, length-front)))
      ∙ ap (λ (m : Bytes). slice m p n) (take-append-drop at memory)

  slice-splice_after :
      (p n : ℕ) → at + length bytes ≤ p → slice (splice memory at bytes) p n ≡ slice memory p n
  unfolding splice
  slice-splice_after p n h =
      let behind = drop (at + length bytes) memory in
      let before = length-append (take at memory) bytes in
      ap (λ (m : Bytes). slice m p n) (sym (append_assoc (take at memory) bytes behind))
      ∙ slice_back p n (take at memory ++ bytes) (take (at + length bytes) memory) behind
          (omega (arith, before, length-front, h))
          (omega (arith, before, length-front, length-take (at + length bytes) memory, inside))
      ∙ ap (λ (m : Bytes). slice m p n) (take-append-drop (at + length bytes) memory)

-- An object inside the memory reads as what was assigned to it: type, handle and cookie, for values
-- that fit. The handle is assigned last, and is the lower half of the binder.
pub assign_lem :
    (at kind binder cookie handle : ℕ) (memory : Bytes)
    → at + flat_size ≤ length memory
    → kind < 2 ^ 32
    → handle < 2 ^ 32
    → cookie < 2 ^ 64
    → (get_type (assign at kind binder cookie handle memory) at ≡ kind)
      × (get_handle (assign at kind binder cookie handle memory) at ≡ handle)
      × (get_cookie (assign at kind binder cookie handle memory) at ≡ cookie)
unfolding assign le_bytes
assign_lem at kind binder cookie handle memory h hk hh hc = (
  ap le_value kind_read ∙ le_value-le_bytes 4 kind (omega (arith, hk)),
  ap le_value (slice-splice m3 (at + 8) (le_bytes 4 handle) in4)
      ∙ le_value-le_bytes 4 handle (omega (arith, hh)),
  ap le_value cookie_read ∙ le_value-le_bytes 8 cookie (omega (arith, hc)),
)
  where
    m1 : Bytes
    m1 = splice memory at (le_bytes 4 kind)

    m2 : Bytes
    m2 = splice m1 (at + 8) (le_bytes 8 binder)

    m3 : Bytes
    m3 = splice m2 (at + 16) (le_bytes 8 cookie)

    in1 : at + 4 ≤ length memory
    in1 = omega (arith, h)

    in2 : at + 8 + 8 ≤ length m1
    in2 = omega (arith, h, length-splice memory at (le_bytes 4 kind) in1)

    in3 : at + 16 + 8 ≤ length m2
    in3 = omega (
      arith,
      h,
      length-splice memory at (le_bytes 4 kind) in1,
      length-splice m1 (at + 8) (le_bytes 8 binder) in2,
    )

    in4 : at + 8 + 4 ≤ length m3
    in4 = omega (arith, in3, length-splice m2 (at + 16) (le_bytes 8 cookie) in3)

    kind_read : slice (splice m3 (at + 8) (le_bytes 4 handle)) at 4 ≡ le_bytes 4 kind
    kind_read =
        slice-splice_before m3 (at + 8) (le_bytes 4 handle) in4 at 4 (omega arith)
        ∙ slice-splice_before m2 (at + 16) (le_bytes 8 cookie) in3 at 4 (omega arith)
        ∙ slice-splice_before m1 (at + 8) (le_bytes 8 binder) in2 at 4 (omega arith)
        ∙ slice-splice memory at (le_bytes 4 kind) in1

    cookie_read : slice (splice m3 (at + 8) (le_bytes 4 handle)) (at + 16) 8 ≡ le_bytes 8 cookie
    cookie_read =
        slice-splice_after m3 (at + 8) (le_bytes 4 handle) in4 (at + 16) 8 (omega arith)
        ∙ slice-splice m2 (at + 16) (le_bytes 8 cookie) in3

resolved_to :
    (b : BinderObject) (at : ℕ) (memory : Bytes)
    → resolve_handle (some b) at memory ≡ assign at type_weak_binder b.binder b.cookie 0 memory
unfolding resolve_handle
resolved_to b at memory = refl

length-assign :
    (at kind binder cookie handle : ℕ) (memory : Bytes)
    → at + flat_size ≤ length memory
    → length (assign at kind binder cookie handle memory) ≡ length memory
unfolding assign le_bytes
length-assign at kind binder cookie handle memory h =
    length-splice m3 (at + 8) (le_bytes 4 handle) (omega (arith, h, e1, e2, e3)) ∙ e3 ∙ e2 ∙ e1
  where
    m1 : Bytes
    m1 = splice memory at (le_bytes 4 kind)

    m2 : Bytes
    m2 = splice m1 (at + 8) (le_bytes 8 binder)

    m3 : Bytes
    m3 = splice m2 (at + 16) (le_bytes 8 cookie)

    e1 : length m1 ≡ length memory
    e1 = length-splice memory at (le_bytes 4 kind) (omega (arith, h))

    e2 : length m2 ≡ length m1
    e2 = length-splice m1 (at + 8) (le_bytes 8 binder) (omega (arith, h, e1))

    e3 : length m3 ≡ length m2
    e3 = length-splice m2 (at + 16) (le_bytes 8 cookie) (omega (arith, h, e1, e2))

-- A binder object on its way out and back: a session that takes over an object inside the memory
-- gives it the registry's next handle, which then stands in its place with the type of a handle,
-- leads to the session, and belongs to the object with its binder and cookie. The handle coming back
-- is replaced by a weak binder with that cookie, but reads as handle zero: so does the lower half of
-- the binder, which is the same memory. The next handle is not in use, is not zero and fits 32 bits,
-- and the cookie fits 64.
pub resolve_handle-register_binder :
    (s at : ℕ) (memory : Bytes) (w : World)
    → at + flat_size ≤ length memory
    → get_cookie memory at < 2 ^ 64
    → 0 < w.registry.next_object_handle
    → w.registry.next_object_handle < 2 ^ 32
    → find w.registry.next_object_handle w.registry.handles ≡ none
    → find w.registry.next_object_handle (w.sessions s).objects ≡ none
    → (m : Bytes) × ((register_binder s at memory w).0 ≡ ok m)
      × (get_type m at ≡ type_handle)
      × (get_handle m at ≡ w.registry.next_object_handle)
      × (find_session_by_handle (get_handle m at) (register_binder s at memory w).1.registry
          ≡ some s)
      × (find (get_handle m at) ((register_binder s at memory w).1.sessions s).objects
          ≡ some (record { binder = get_binder memory at; cookie = get_cookie memory at }))
      × (back : Bytes) × (resolve_handle
            (find (get_handle m at) ((register_binder s at memory w).1.sessions s).objects)
            at
            m
          ≡ back)
      × (get_type back at ≡ type_weak_binder)
      × (get_cookie back at ≡ get_cookie memory at)
      × (get_handle back at ≡ 0)
unfolding register_binder new_object_handle find_session_by_handle
resolve_handle-register_binder s at memory w inside small started fits unowned unused = (
  m,
  refl,
  there.0,
  there.1,
  owner,
  ap (find (get_handle m at)) same_objects ∙ found,
  assign at type_weak_binder object.binder object.cookie 0 m,
  ap (λ (o : Map BinderObject). resolve_handle (find (get_handle m at) o) at m) same_objects
      ∙ resolved,
  back.0,
  back.2,
  back.1,
)
  where
    n : ℕ
    n = w.registry.next_object_handle

    object : BinderObject
    object = record { binder = get_binder memory at; cookie = get_cookie memory at }

    m : Bytes
    m = assign at type_handle 0 0 n memory

    there : (get_type m at ≡ type_handle) × (get_handle m at ≡ n) × (get_cookie m at ≡ 0)
    there = assign_lem at type_handle 0 0 n memory inside (omega arith) fits (omega arith)

    same_objects :
        ((register_binder s at memory w).1.sessions s).objects
        ≡ insert n object (w.sessions s).objects
    same_objects = ground arith

    owner :
        find_session_by_handle (get_handle m at) (record (w.registry) {
          handles = insert n s w.registry.handles;
          next_object_handle = next_u64 n;
        })
        ≡ some s
    owner = rw there.1 (ground (arith, started, unowned, find-insert n n s w.registry.handles))

    found : find (get_handle m at) (insert n object (w.sessions s).objects) ≡ some object
    found = rw there.1 (ground (arith, find-insert n n object (w.sessions s).objects, unused))

    resolved :
        resolve_handle (find (get_handle m at) (insert n object (w.sessions s).objects)) at m
        ≡ assign at type_weak_binder object.binder object.cookie 0 m
    resolved = rw found (resolved_to object at m)

    same_size : length m ≡ length memory
    same_size = length-assign at type_handle 0 0 n memory inside

    back :
        (get_type (assign at type_weak_binder object.binder object.cookie 0 m) at
          ≡ type_weak_binder)
        × (get_handle (assign at type_weak_binder object.binder object.cookie 0 m) at ≡ 0)
        × (get_cookie (assign at type_weak_binder object.binder object.cookie 0 m) at
            ≡ object.cookie)
    back =
        assign_lem at type_weak_binder object.binder object.cookie 0 m
          (omega (arith, inside, same_size)) (omega arith) (omega arith) small
