-- ===== src/ServiceManager/Proxy/Listing.antt =====
-- One round of the loop of `ListServices` against the service.
use binderd.Common.{
  ℕ, suc, ◌+◌, ◌*◌, ◌%◌, ◌^◌, ◌<◌, ◌≤◌, ◌≡◌, sym, ap, ◌∙◌, true, false, leb, if◌then◌else◌, List,
  [], ◌∷◌, ◌++◌, Option, none, some, Bytes, All, ok, arith, length, le_bytes, bit_or, le→leb,
  lt→leb_false, append-nil, append_assoc, le_bytes-IsByte, length-le_bytes, length-append,
  All-append, IsByte, replicate, refl, ==_ne, ◌-◌,
}
use binderd.Common.Effects.{Act, ◌>>=◌, pure, lift}
use binderd.Buffer.{Allocator, NeverFails, create}
use binderd.Writer.{Writer, open_writer}
use binderd.Writer.Appends.{appended, appended-AtEnd, write_value_lem}
use binderd.Reader.{read_string16, read_int32}
use binderd.Reader.Numbers.{at_bytes, read_value-le_bytes}
use binderd.Reader.Strings.{
  IsUnit, string_bytes, length-terminated, terminated, terminated-IsByte, write_string16_lem,
  read_string16-string_bytes,
}
use binderd.Message.RoundTrip.{fresh_writer-AtEnd}
use binderd.Status.{Status, ok_status, bad_value}
use binderd.Transaction.{TransactionData, writable}
use binderd.Transaction.Carried.{IsCarriable, carried, carried_lem}
use binderd.Writer.Data.{padded, padding, length-padded}
use binderd.Server.Output.Written.{zeros-IsByte}
use binderd.Parcel.{
  ParcelWriter, new_parcel_writer, write_interface_token, parcel_write_int32, parcel_reader,
  finalize, enforce_interface, strict_mode_penalty_gather,
}
use binderd.ServiceManager.{Manager, list_services, same_name}
use binderd.ServiceManager.Transact.{
  Uses, interface_name, list_services_transaction, service_at, on_list_services, listed, Answered,
}
use binderd.ServiceManager.Proxy.{begin_parcel, name_of_reply, list_loop, next_int32}

-- The memory of a string is bytes, of a size that its units give.
string_bytes-IsByte : (us : List ℕ) → All IsByte (string_bytes true us)
string_bytes-IsByte us =
    All-append IsByte (le_bytes 4 (length us)) (padded true (terminated us))
      (le_bytes-IsByte 4 (length us))
      (All-append IsByte (terminated us) (replicate (padding true (length (terminated us))) 0)
        (terminated-IsByte us) (zeros-IsByte (padding true (length (terminated us)))))

length-string_bytes : (us : List ℕ) → length (string_bytes true us) ≤ 10 + length us * 2
length-string_bytes us = omega (
  arith,
  length-append (le_bytes 4 (length us)) (padded true (terminated us)),
  length-le_bytes 4 (length us),
  length-padded true (terminated us),
  length-terminated us,
)

next_int32_lem : (n : ℕ) → n < 256 → next_int32 n ≡ ok (n + 1)
unfolding next_int32
next_int32_lem n low = rw (==_ne n (2 ^ 31 - 1) (λ e. omega (arith, e, low)))

module _ (alloc : Allocator) {S : Type 0} (uses : Uses S) where
  -- A name that is converted to one to 99 units and back: the requests and replies with it fit a
  -- message.
  pub record IsConvertible (name : Bytes) : Type 0 where
    pub units : List ℕ
    pub there : uses.to_string16 name ≡ ok units
    pub back : uses.to_string8 units ≡ ok name
    pub some_units : 0 < length units
    pub few : length units < 100
    pub in_units : All IsUnit units

  abbrev pub answered_data : Answered → Act (Manager S) (Status × Option Bytes)
  answered_data (result, none) = pure (result, none)
  answered_data (result, some reply) =
      lift (carried alloc reply) >>= λ body. pure (result, some body)

  -- `Transact` where the service gets the request's data out of a message, and the proxy the reply's.
  abbrev pub served : TransactionData → Act (Manager S) (Status × Option Bytes)
  served request = do
    body ← lift (carried alloc request)
    answer ← on_list_services alloc uses body
    answered_data answer

  module _ (memory : NeverFails alloc) (interface : IsConvertible interface_name) where
    abbrev fresh : Writer
    fresh = record {
      buffer = record { bytes = []; immutable = false };
      current = 0;
      use_padding = true;
    }

    -- The data of the request for an index.
    abbrev token : Bytes
    token = le_bytes 4 (bit_or strict_mode_penalty_gather 0) ++ string_bytes true interface.units

    abbrev request_body : ℕ → Bytes
    request_body n = token ++ le_bytes 4 n

    abbrev begun : ℕ → ParcelWriter
    begun code = record {
      code = code;
      data_writer =
          appended (appended fresh (le_bytes 4 (bit_or strict_mode_penalty_gather 0)))
            (string_bytes true interface.units);
      objects_writer = fresh;
      local_objects = [];
    }

    begin_parcel_lem :
        (transact : TransactionData → Act (Manager S) (Status × Option Bytes)) (code : ℕ)
        (m : Manager S)
        → begin_parcel alloc uses.to_string8 uses.to_string16 transact code m ≡ (ok (begun code), m)
    unfolding begin_parcel new_parcel_writer write_interface_token create open_writer
    begin_parcel_lem transact code m =
        let policy = bit_or strict_mode_penalty_gather 0 in
        let w = appended fresh (le_bytes 4 policy) in
        rw (
          write_value_lem alloc memory 4 policy fresh (omega arith) fresh_writer-AtEnd,
          interface.there,
          write_string16_lem alloc memory interface.units w interface.some_units
              (omega (arith, length-terminated interface.units, interface.few))
              (appended-AtEnd fresh (le_bytes 4 policy) fresh_writer-AtEnd)
              (le_bytes-IsByte 4 policy),
        )

    written_request : ℕ → ParcelWriter
    written_request n = record (begun list_services_transaction) {
      data_writer = appended (begun list_services_transaction).data_writer (le_bytes 4 n);
    }

    write_index :
        (n : ℕ)
        → parcel_write_int32 alloc n (begun list_services_transaction) ≡ ok (written_request n)
    unfolding written_request
    write_index n =
        let policy = bit_or strict_mode_penalty_gather 0 in
        let w = appended fresh (le_bytes 4 policy) in
        let string = string_bytes true interface.units in
        rw (
          write_value_lem alloc memory 4 n (appended w string) (omega arith)
            (appended-AtEnd w string (appended-AtEnd fresh (le_bytes 4 policy) fresh_writer-AtEnd)))

    enforce_interface_lem :
        (n : ℕ)
        → enforce_interface alloc uses.to_string8 same_name interface_name
            (parcel_reader (request_body n))
          ≡ ok (same_name interface_name interface_name, at_bytes token (le_bytes 4 n) true)
    unfolding enforce_interface
    enforce_interface_lem n =
        let policy = bit_or strict_mode_penalty_gather 0 in
        let string = string_bytes true interface.units in
        rw
          (
            append_assoc (le_bytes 4 policy) string (le_bytes 4 n),
            read_value-le_bytes [] (string ++ le_bytes 4 n) true 4 policy (omega arith),
            read_string16-string_bytes alloc memory (le_bytes 4 policy) (le_bytes 4 n) true
                interface.units interface.some_units (omega (arith, interface.few))
                interface.in_units,
            interface.back,
          )
          (ap
            (λ (b : Bytes). ok (
              same_name interface_name interface_name,
              record { bytes = b; current = length token; use_padding = true },
            ))
            (append_assoc (le_bytes 4 policy) string (le_bytes 4 n)))

    read_index :
        (n : ℕ)
        → read_int32 (at_bytes token (le_bytes 4 n) true)
          ≡ ok (n % 256, at_bytes (token ++ le_bytes 4 n) [] true)
    read_index n =
        ap (λ (b : Bytes). read_int32 (at_bytes token b true)) (sym (append-nil (le_bytes 4 n)))
        ∙ read_value-le_bytes token [] true 4 n (omega arith)

    -- The service on the request for an index, of which it reads the lowest byte.
    on_list_services_lem :
        (n : ℕ) (m : Manager S)
        → on_list_services alloc uses (request_body n) m
          ≡ (if leb (length (list_services m.services)) (n % 256)
                then pure (bad_value, none)
                else listed alloc uses (service_at (n % 256) (list_services m.services)))
              m
    unfolding on_list_services
    on_list_services_lem n m =
        rw (enforce_interface_lem n, read_index n, lt→leb_false (2 ^ 31) (n % 256) (omega arith))

    request_IsCarriable : (n : ℕ) → IsCarriable (finalize (written_request n))
    unfolding written_request
    request_IsCarriable n =
        let policy : Bytes = le_bytes 4 (bit_or strict_mode_penalty_gather 0) in
        let string = string_bytes true interface.units in
        record {
          plain = refl;
          in_bytes =
              All-append IsByte (policy ++ string) (le_bytes 4 n)
                (All-append IsByte policy string
                  (le_bytes-IsByte 4 (bit_or strict_mode_penalty_gather 0))
                  (string_bytes-IsByte interface.units))
                (le_bytes-IsByte 4 n);
          room = omega (
            arith,
            length-append (policy ++ string) (le_bytes 4 n),
            length-append policy string,
            length-string_bytes interface.units,
            length-le_bytes 4 n,
            length-le_bytes 4 (bit_or strict_mode_penalty_gather 0),
            interface.few,
          );
        }

    -- The reply that holds a name.
    abbrev reply_for : (name : Bytes) → IsConvertible name → TransactionData
    reply_for name c = record writable { body = string_bytes true c.units }

    reply_IsCarriable : (name : Bytes) (c : IsConvertible name) → IsCarriable (reply_for name c)
    reply_IsCarriable name c = record {
      plain = refl;
      in_bytes = string_bytes-IsByte c.units;
      room = omega (arith, length-string_bytes c.units, c.few);
    }

    listed_lem :
        (name : Bytes) (c : IsConvertible name) (m : Manager S)
        → listed alloc uses (some name) m ≡ (ok (ok_status, some (reply_for name c)), m)
    unfolding new_parcel_writer create open_writer
    listed_lem name c m = rw (
      c.there,
      write_string16_lem alloc memory c.units fresh c.some_units
          (omega (arith, length-terminated c.units, c.few)) fresh_writer-AtEnd tt,
    )

    name_of_reply_lem :
        (transact : TransactionData → Act (Manager S) (Status × Option Bytes)) (name : Bytes)
        (c : IsConvertible name) (m : Manager S)
        → name_of_reply alloc uses.to_string8 uses.to_string16 transact
            (some (string_bytes true c.units))
            m
          ≡ (ok (name ∷ []), m)
    name_of_reply_lem transact name c m =
        let string = string_bytes true c.units in
        let got : read_string16 alloc (parcel_reader string)
            ≡ ok (c.units, at_bytes string [] true) =
          ap (λ (b : Bytes). read_string16 alloc (parcel_reader b)) (sym (append-nil string))
          ∙ read_string16-string_bytes alloc memory [] [] true c.units c.some_units
              (omega (arith, c.few)) c.in_units in
        rw (got, c.back)

    abbrev pub loop : ℕ → ℕ → List Bytes → Act (Manager S) (Option (Status × List Bytes))
    loop = list_loop alloc uses.to_string8 uses.to_string16 served

    pub round_found :
        (fuel n : ℕ) (names : List Bytes) (name : Bytes) (c : IsConvertible name) (m : Manager S)
        → n < 256
        → n % 256 < length (list_services m.services)
        → service_at (n % 256) (list_services m.services) ≡ some name
        → loop (suc fuel) n names m ≡ loop fuel (n + 1) (names ++ name ∷ []) m
    unfolding list_loop written_request
    round_found fuel n names name c m low inside there = rw (
      begin_parcel_lem served list_services_transaction m,
      write_index n,
      next_int32_lem n low,
      carried_lem alloc memory (finalize (written_request n)) (request_IsCarriable n),
      on_list_services_lem n m,
      lt→leb_false (length (list_services m.services)) (n % 256) inside,
      there,
      listed_lem name c m,
      carried_lem alloc memory (reply_for name c) (reply_IsCarriable name c),
      name_of_reply_lem served name c m,
    )

    pub round_refused :
        (fuel n : ℕ) (names : List Bytes) (m : Manager S)
        → n < 256
        → length (list_services m.services) ≤ n % 256
        → loop (suc fuel) n names m ≡ (ok (some (bad_value, names)), m)
    unfolding list_loop written_request
    round_refused fuel n names m low outside = rw (
      begin_parcel_lem served list_services_transaction m,
      write_index n,
      next_int32_lem n low,
      carried_lem alloc memory (finalize (written_request n)) (request_IsCarriable n),
      on_list_services_lem n m,
      le→leb (length (list_services m.services)) (n % 256) outside,
      append-nil names,
    )
