-- ===== src/Pool/Counts.antt =====
-- The reference counts of the object pool.
use binderd.Common.{
  ℕ, ◌+◌, ◌-◌, ◌%◌, ◌^◌, ◌<◌, ◌≡◌, ◌==◌, if◌then◌else◌, none, some, find, replace, erase,
  find-replace, find-erase, ok, undefined, arith,
}
use native.Mathlib.Nat.{mod-eq_of_lt}
use binderd.Pool.{Reference, Pool, add_ref, release, acquired, released}

add_ref_lem :
    (cookie : ℕ) (p : Pool) (ref : Reference)
    → find cookie p ≡ some ref
    → ref.count + 1 < 2 ^ 32
    → add_ref cookie p ≡ (ok tt, replace cookie (record ref { count = ref.count + 1 }) p)
unfolding add_ref
add_ref_lem cookie p ref e room = rw (e, acquired, mod-eq_of_lt room)

-- A release of an object with the given count.
release_lem :
    (cookie : ℕ) (p : Pool) (obj count : ℕ)
    → find cookie p ≡ some (record { count = count + 1; obj = obj })
    → count + 1 < 2 ^ 32
    → release cookie p ≡ (
        if count == 0
        then (undefined, erase cookie p)
        else (ok tt, replace cookie (record { count = count; obj = obj }) p))
unfolding release
release_lem cookie p obj count e room = rw (e, released, wrap)
  where
    wrap : (count + 1 + (2 ^ 32 - 1)) % 2 ^ 32 ≡ count
    wrap = omega (arith, room)

-- A release undoes an acquire of a tracked object, if its count does not wrap: the pool is the same
-- as before. But if nobody held a reference before, the object leaves the pool, and the release ends
-- in undefined behaviour, through a reference into the erased entry.
pub release-add_ref :
    (cookie : ℕ) (p : Pool) (ref : Reference)
    → find cookie p ≡ some ref
    → ref.count + 1 < 2 ^ 32
    → ((release cookie (add_ref cookie p).1).0 ≡ (if ref.count == 0 then undefined else ok tt))
      × ((other : ℕ)
          → find other (release cookie (add_ref cookie p).1).1 ≡ (
              if ref.count == 0
              then (if cookie == other then none else find other p)
              else find other p))
release-add_ref cookie p ref e room =
    rw (add_ref_lem cookie p ref e room, release_lem cookie q ref.obj ref.count found room)
      (
        ground arith,
        λ other. ground (
          arith,
          find-erase cookie other q,
          find-replace cookie other ref q,
          find-replace cookie other more p,
          e,
        ),
      )
  where
    more : Reference
    more = record ref { count = ref.count + 1 }

    q : Pool
    q = replace cookie more p

    found : find cookie q ≡ some more
    found = ground (arith, e, find-replace cookie cookie more p)
