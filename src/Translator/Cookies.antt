-- ===== src/Translator/Cookies.antt =====
-- An id that went out comes back as the address that it stands for.
use binderd.Common.{
  ℕ, ◌+◌, ◌^◌, ◌<◌, ◌≡◌, ◌≢◌, refl, ap, ◌∙◌, true, false, [], ◌∷◌, ◌==◌, Option, none, some,
  is_some, Map, find, insert, find-insert, arith, Bool-cases, inl, inr,
}
use native.Mathlib.Nat.{mod-eq_of_lt}
use binderd.Translator.{
  Translator, invalid, translate_cookie, id_of, translate_or_add_object, new_translator,
}

-- No key stands twice.
abbrev pub HasUniqueKeys : Map ℕ → Type 0
HasUniqueKeys [] = Unit {0}
HasUniqueKeys ((id, o) ∷ m) = (find id m ≡ none) × HasUniqueKeys m

-- Ids were given out once each, from 1 on, and the counter has room for another.
pub record IsTable (t : Translator) : Type 0 where
  pub unique : HasUniqueKeys t.objects
  pub given : (id : ℕ) → is_some (find id t.objects) ≡ true → id < t.next_object_id
  pub valid : find 0 t.objects ≡ none
  pub started : 0 < t.next_object_id

insert-HasUniqueKeys : (id o : ℕ) (m : Map ℕ) → HasUniqueKeys m → HasUniqueKeys (insert id o m)
unfolding insert find
insert-HasUniqueKeys id o [] h = (refl, tt)
insert-HasUniqueKeys id o ((i, v) ∷ m) h = elim (Bool-cases (i == id)) [
  | inl same ↦ rw same h
  | inr other ↦
      rw other (ground (arith, other, find-insert id i o m, h.0), insert-HasUniqueKeys id o m h.1)
]

-- The id that stands for an object is a key of it.
find-id_of :
    (object : ℕ) (m : Map ℕ)
    → HasUniqueKeys m
    → id_of object m ≢ 0
    → find (id_of object m) m ≡ some object
unfolding find id_of
find-id_of object [] h e = absurd (e refl)
find-id_of object ((i, v) ∷ m) h e = elim (Bool-cases (v == object)) [
  | inl same ↦ ground (arith, same)
  | inr other ↦
      let later = find-id_of object m h.1 (λ z. e (ground (arith, other, z))) in
      ground (arith, other, later, h.0)
]

new_translator-IsTable : IsTable new_translator
unfolding find
new_translator-IsTable = record {
  unique = tt;
  given = λ id e. cc;
  valid = refl;
  started = omega arith;
}

-- An object that has no id yet has the one under which it is inserted.
id_of-insert :
    (object id : ℕ) (m : Map ℕ)
    → find id m ≡ none
    → find 0 m ≡ none
    → id_of object m ≡ 0
    → id_of object (insert id object m) ≡ id
unfolding find insert id_of
id_of-insert object id [] absent valid e = ground arith
id_of-insert object id ((i, v) ∷ m) absent valid e = elim (Bool-cases (v == object)) [
  | inl same ↦ ground (arith, same, e, valid)
  | inr other ↦ elim (Bool-cases (i == id)) [
    | inl here ↦ ground (arith, here, absent)
    | inr there ↦
        let rest =
          id_of-insert object id m (ground (arith, there, absent)) (ground (arith, valid))
            (ground (arith, other, e)) in
        ground (arith, other, there, rest)
  ]
]

fresh_id : (t : Translator) → IsTable t → find t.next_object_id t.objects ≡ none
fresh_id t h = elim (Bool-cases (is_some (find t.next_object_id t.objects))) [
  | inl known ↦ absurd (omega (arith, h.given t.next_object_id known))
  | inr unknown ↦ is_some_false (find t.next_object_id t.objects) unknown
]
  where
    is_some_false : (o : Option ℕ) → is_some o ≡ false → o ≡ none
    is_some_false none e = refl
    is_some_false (some v) e = cc

added :
    (object : ℕ) (t : Translator)
    → (id_of object t.objects == invalid) ≡ true
    → t.next_object_id + 1 < 2 ^ 64
    → translate_or_add_object object t ≡ (
      t.next_object_id,
      record {
        objects = insert t.next_object_id object t.objects;
        next_object_id = t.next_object_id + 1;
      },
    )
unfolding translate_or_add_object
added object t e room = rw (e, mod-eq_of_lt room)

kept :
    (object : ℕ) (t : Translator)
    → (id_of object t.objects == invalid) ≡ false
    → translate_or_add_object object t ≡ (id_of object t.objects, t)
unfolding translate_or_add_object
kept object t e = rw e

-- What goes out and what comes back: for a table of ids with room for one more, an object gets an
-- id that is not `Invalid`, the id is translated back to the object, ids that were given out before
-- still stand for the same objects, the same object gets the same id the next time without a change,
-- and the table stays one.
pub translate_cookie-translate_or_add_object :
    (object : ℕ) (t : Translator)
    → IsTable t
    → t.next_object_id + 1 < 2 ^ 64
    → ((translate_or_add_object object t).0 ≢ invalid)
      × (translate_cookie (translate_or_add_object object t).0 (translate_or_add_object object t).1
          ≡ object)
      × ((id : ℕ)
          → is_some (find id t.objects) ≡ true
          → translate_cookie id (translate_or_add_object object t).1 ≡ translate_cookie id t)
      × (translate_or_add_object object (translate_or_add_object object t).1
          ≡ translate_or_add_object object t)
      × IsTable (translate_or_add_object object t).1
unfolding translate_cookie
translate_cookie-translate_or_add_object object t h room =
    elim (Bool-cases (id_of object t.objects == invalid)) [
      | inl new ↦ rw (added object t new room) (
        ground (arith, h.started),
        ground (arith, find-insert n n object t.objects, fresh_id t h),
        λ id known. ground (arith, known, find-insert n id object t.objects, fresh_id t h),
        kept object u (rw (again new) (ground (arith, h.started))) ∙ ap (λ id. (id, u)) (again new),
        record {
          unique = insert-HasUniqueKeys n object t.objects h.unique;
          given = λ id known. ground (arith, known, find-insert n id object t.objects, h.given id);
          valid = ground (arith, find-insert n 0 object t.objects, h.valid, h.started);
          started = omega arith;
        },
      )
      | inr old ↦ rw (kept object t old) (
        ground (arith, old),
        rw (find-id_of object t.objects h.unique (ground (arith, old))) refl,
        λ id known. refl,
        kept object t old,
        h,
      )
    ]
  where
    n : ℕ
    n = t.next_object_id

    u : Translator
    u = record { objects = insert n object t.objects; next_object_id = n + 1 }

    again :
        (id_of object t.objects == invalid) ≡ true → id_of object (insert n object t.objects) ≡ n
    again new = id_of-insert object n t.objects (fresh_id t h) h.valid (ground (arith, new))
