-- ===== src/Pool.antt =====
-- src/binderd/object_pool.h, object_pool.cpp: the client's local objects by their cookie, with the
-- references that others hold on them. An object is named by its address, which is its cookie; the
-- callbacks of the objects do nothing in this program.
pub mod Counts
use binderd.Common.{
  ℕ, ◌+◌, ◌-◌, ◌%◌, ◌^◌, Bool, List, [], ◌==◌, if◌then◌else◌, Option, none, some, is_some, Map,
  find, insert, replace, erase, length, Result, ok, err, undefined, runtime_error,
}

pub record Reference : Type 0 where
  pub count : ℕ
  pub obj : ℕ

abbrev pub Pool : Type 0
Pool = Map Reference

abbrev pub empty_pool : Pool
empty_pool = []

-- What a call returns or throws, and the pool that it leaves.
abbrev pub Outcome : Type 0
Outcome = Result (Unit {0}) × Pool

abbrev pub acquired : Option Reference → ℕ → Pool → Outcome
acquired none cookie p = (err runtime_error, p)
acquired (some ref) cookie p =
    (ok tt, replace cookie (record ref { count = (ref.count + 1) % 2 ^ 32 }) p)

unfoldable pub add_ref : ℕ → Pool → Outcome
add_ref cookie p = acquired (find cookie p) cookie p

-- The count wraps below zero. When it reaches zero the entry is erased, and the call that follows
-- goes through a reference into the erased entry.
abbrev pub released : Option Reference → ℕ → Pool → Outcome
released none cookie p = (err runtime_error, p)
released (some ref) cookie p =
    let count = (ref.count + (2 ^ 32 - 1)) % 2 ^ 32 in
    if count == 0
    then (undefined, erase cookie p)
    else (ok tt, replace cookie (record ref { count = count }) p)

unfoldable pub release : ℕ → Pool → Outcome
release cookie p = released (find cookie p) cookie p

unfoldable pub adopt_object : ℕ → Pool → Outcome
adopt_object obj p =
    if is_some (find obj p)
    then (err runtime_error, p)
    else (ok tt, insert obj (record { count = 0; obj = obj }) p)

-- `New` of an object that was put at this address.
unfoldable pub new_object : ℕ → Pool → Pool
new_object obj p = insert obj (record { count = 0; obj = obj }) p

abbrev object_of : Option Reference → Option ℕ
object_of none = none
object_of (some ref) = some ref.obj

unfoldable pub get_object : ℕ → Pool → Option ℕ
get_object cookie p = object_of (find cookie p)

unfoldable pub contains : ℕ → Pool → Bool
contains cookie p = is_some (find cookie p)

abbrev pub get_references_count : Pool → ℕ
get_references_count p = length p
