-- ===== src/Parcel/Objects.antt =====
-- `WriteObject` of src/binderd/parcel_transaction_data_writer.cpp, with the client's object pool.
use binderd.Common.{ℕ, if◌then◌else◌, [], ◌∷◌, ◌++◌}
use binderd.Common.Effects.{Act, ◌>>=◌, ◌>>◌, pure, lift}
use binderd.Buffer.{Allocator}
use binderd.Writer.{write_uint64, write_data, get_bytes_written}
use binderd.Pool.{Pool, contains, adopt_object}
use binderd.Objects.{ObjectType, local, remote}
use binderd.Parcel.{ParcelWriter, flat_of}

-- A local object is put into the pool if it is not there.
abbrev pub adopted : ObjectType → ℕ → Act Pool (Unit {0})
adopted local address =
    λ pool. (if contains address pool then pure tt else adopt_object address) pool
adopted (remote handle) address = pure tt

module _ (alloc : Allocator) where
  -- The object at an address.
  unfoldable pub write_object : ObjectType → ℕ → ParcelWriter → Act Pool ParcelWriter
  write_object kind address p = do
    adopted kind address
    objects ← lift (write_uint64 alloc (get_bytes_written p.data_writer) p.objects_writer)
    w ← lift (write_data alloc (flat_of kind address) p.data_writer)
    pure (record p {
      data_writer = w;
      objects_writer = objects;
      local_objects = p.local_objects ++ address ∷ [];
    })
