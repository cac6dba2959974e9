-- ===== src/Parcel/RoundTrip.antt =====
-- An object that was written to a parcel, as it is read.
use binderd.Common.{
  ℕ, ◌^◌, ◌<◌, ◌≡◌, refl, sym, ap, ◌∙◌, true, [], ◌∷◌, ◌++◌, arith, Bytes, IsByte, All, some, find,
  insert, find-insert, le_bytes, le_value-le_bytes, le_bytes-IsByte, All-append, length, ok, ◌>>=◌,
  Option-cases, inl, inr,
}
use binderd.Buffer.{Allocator, NeverFails}
use binderd.Writer.Appends.{AtEnd, appended, write_value_lem}
use binderd.Writer.Data.{padded, write_data_lem}
use binderd.Reader.{read_data}
use binderd.Reader.Numbers.{at_bytes, data_buffer, data_buffer-bytes, read_data-padded}
use binderd.Pool.{Pool, Reference, contains, adopt_object, get_object}
use binderd.Server.Translate.{type_binder, type_handle, flat_size, get_type, get_handle, get_cookie}
use binderd.Objects.{ObjectType, local, remote}
use binderd.Parcel.{
  ParcelWriter, flat_bytes, flat_of, flat_flags, read_object, object_in, Found, new_remote, pooled,
}
use binderd.Parcel.Objects.{adopted, write_object}

-- Each entry of the pool is for the object at its cookie.
abbrev pub IsOwn : Pool → Type 0
IsOwn pool = (cookie : ℕ) (ref : Reference) → find cookie pool ≡ some ref → ref.obj ≡ cookie

-- What a reader should find.
abbrev pub expected : ObjectType → ℕ → Found
expected local address = pooled (some address)
expected (remote handle) address = new_remote handle

-- An address or a handle that fits its field.
abbrev pub Fits : ObjectType → ℕ → Type 0
Fits local address = address < 2 ^ 64
Fits (remote handle) address = handle < 2 ^ 32

length-flat_of : (kind : ObjectType) (address : ℕ) → length (flat_of kind address) ≡ flat_size
unfolding le_bytes
length-flat_of local address = refl
length-flat_of (remote handle) address = refl

flat_bytes-IsByte : (kind handle cookie : ℕ) → All IsByte (flat_bytes kind handle cookie)
flat_bytes-IsByte kind handle cookie =
    All-append IsByte (le_bytes 4 kind) _ (le_bytes-IsByte 4 kind) (
      All-append IsByte (le_bytes 4 flat_flags) _ (le_bytes-IsByte 4 flat_flags) (
        All-append IsByte (le_bytes 4 handle) _ (le_bytes-IsByte 4 handle) (
          All-append IsByte (le_bytes 4 0) (le_bytes 8 cookie) (le_bytes-IsByte 4 0)
            (le_bytes-IsByte 8 cookie))))

flat_of-IsByte : (kind : ObjectType) (address : ℕ) → All IsByte (flat_of kind address)
flat_of-IsByte local address = flat_bytes-IsByte type_binder 0 address
flat_of-IsByte (remote handle) address = flat_bytes-IsByte type_handle handle 0

flat_fields :
    (kind handle cookie : ℕ)
    → kind < 2 ^ 32
    → handle < 2 ^ 32
    → cookie < 2 ^ 64
    → (get_type (flat_bytes kind handle cookie) 0 ≡ kind)
      × (get_handle (flat_bytes kind handle cookie) 0 ≡ handle)
      × (get_cookie (flat_bytes kind handle cookie) 0 ≡ cookie)
unfolding le_bytes
flat_fields kind handle cookie hk hh hc = (
  le_value-le_bytes 4 kind (omega (arith, hk)),
  le_value-le_bytes 4 handle (omega (arith, hh)),
  le_value-le_bytes 8 cookie (omega (arith, hc)),
)

-- The pool after a local object was written has it.
adopted-has :
    (address : ℕ) (pool : Pool)
    → IsOwn pool
    → (q : Pool) × (adopted local address pool ≡ (ok tt, q)) × (get_object address q ≡ some address)
unfolding contains adopt_object get_object
adopted-has address pool own =
    let fresh : Reference = record { count = 0; obj = address } in
    elim (Option-cases (find address pool)) [
      | inl absent ↦ (
        insert address fresh pool,
        rw (absent, adopt_object, absent),
        ground (arith, absent, find-insert address address fresh pool),
      )
      | inr (ref, there) ↦ (pool, rw there, rw there (ap some (own address ref there)))
    ]

adopted-expected :
    (kind : ObjectType) (address : ℕ) (pool : Pool)
    → IsOwn pool
    → Fits kind address
    → (q : Pool) × (adopted kind address pool ≡ (ok tt, q))
      × (object_in (some q) (flat_of kind address) ≡ expected kind address)
unfolding object_in
adopted-expected local address pool own fits =
    let (q, done, has) = adopted-has address pool own in
    let (kind_read, handle_read, cookie_read) =
      flat_fields type_binder 0 address (omega arith) (omega arith) fits in
    (q, done, rw (kind_read, cookie_read, has))
adopted-expected (remote handle) address pool own fits =
    let (kind_read, handle_read, cookie_read) =
      flat_fields type_handle handle 0 (omega arith) fits (omega arith) in
    (pool, refl, rw (kind_read, handle_read))

module _ (alloc : Allocator) (memory : NeverFails alloc) where
  -- An object that is written to a parcel is found where it was written, whatever is written behind
  -- it: a local object in the client's pool, which has it from then on, at its address; and a
  -- remote object as a new one with the same handle. The address or the handle fits its field, the
  -- pool's entries are the objects at their cookies, the parcel's writers stand at the end of their
  -- buffers of bytes, and allocations succeed.
  pub read_object-write_object :
      (kind : ObjectType) (address : ℕ) (p : ParcelWriter) (pool : Pool)
      → Fits kind address
      → IsOwn pool
      → AtEnd p.data_writer
      → AtEnd p.objects_writer
      → All IsByte p.data_writer.buffer.bytes
      → p.data_writer.use_padding ≡ true
      → (q : ParcelWriter) × (pool' : Pool) × (write_object alloc kind address p pool
          ≡ (ok q, pool'))
        × ((back : Bytes)
            → read_object (some pool') (
                at_bytes p.data_writer.buffer.bytes
                  (padded true (flat_of kind address) ++ back)
                  true)
              ≡ ok (expected kind address, at_bytes q.data_writer.buffer.bytes back true))
  unfolding write_object read_object
  read_object-write_object kind address p pool fits own data_end objects_end in_bytes pads =
      let (pool', done, finds) = adopted-expected kind address pool own fits in
      let flat = flat_of kind address in
      let size = length-flat_of kind address in
      let w = appended p.data_writer (padded true flat) in
      let v = appended p.objects_writer (le_bytes 8 p.data_writer.current) in
      (
        record p {
          data_writer = w;
          objects_writer = v;
          local_objects = p.local_objects ++ address ∷ [];
        },
        pool',
        rw
            (
              done,
              write_value_lem alloc memory 8 p.data_writer.current p.objects_writer (omega arith)
                  objects_end,
              write_data_lem alloc memory flat p.data_writer (omega (arith, size)) data_end
                  (flat_of-IsByte kind address) in_bytes,
              pads,
            )
            refl,
        λ back.
            let front = p.data_writer.buffer.bytes in
            let got : read_data flat_size (at_bytes front (padded true flat ++ back) true)
                ≡ ok (data_buffer flat, at_bytes (front ++ padded true flat) back true) =
              ap (λ n. read_data n (at_bytes front (padded true flat ++ back) true)) (sym size)
              ∙ read_data-padded front flat back true (omega (arith, size)) in
            rw (got, ◌>>=◌, data_buffer-bytes flat, finds),
      )
