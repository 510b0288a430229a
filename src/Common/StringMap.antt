-- ===== src/Common/StringMap.antt =====
-- A Go map with string keys, as an association list. The order of the list stands for the order
-- in which a `range` visits the entries, which Go leaves open; a write to a key that is there
-- keeps its place, and a delete removes every entry of the key.
use Prim.Native.String.{String}
use text.Mathlib.Text.{◌==◌}
use text.Mathlib.TextEquality.{eq_iff}
use mathlib.Core.Path.{◌≡◌, refl}
use mathlib.Core.Logic.{inl, inr}
use mathlib.Core.Bool.{Bool, true, false}
use mathlib.Core.Option.{Option, none, some}
use mathlib.Core.List.{List, [], ◌∷◌, map}
use native.Mathlib.Omega.{arith}
use blades.Common.Tests.{Bool-cases, if◌then◌else◌}
use blades.Common.Lists.{In, here, there}

module _ {ℓ} {V : Type ℓ} where
  abbrev pub keys : List (String × V) → List String
  keys entries = map (λ entry. entry.0) entries

  -- `_, ok := entries[key]`
  unfoldable pub has_key : String → List (String × V) → Bool
  has_key key [] = false
  has_key key ((name, _) ∷ rest) = if name == key then true else has_key key rest

  -- `entries[key]`, with the zero value `zeroed` of the element type where the key is missing
  unfoldable pub get_or : V → String → List (String × V) → V
  get_or zeroed key [] = zeroed
  get_or zeroed key ((name, value) ∷ rest) = if name == key then value else get_or zeroed key rest

  -- `value, ok := entries[key]`
  unfoldable pub lookup : String → List (String × V) → Option V
  lookup key [] = none
  lookup key ((name, value) ∷ rest) = if name == key then some value else lookup key rest

  -- `delete(entries, key)`
  unfoldable pub delete : String → List (String × V) → List (String × V)
  delete key [] = []
  delete key ((name, value) ∷ rest) =
      if name == key then delete key rest else (name, value) ∷ delete key rest

  -- `entries[key] = value`
  unfoldable pub insert : String → V → List (String × V) → List (String × V)
  insert key value [] = (key, value) ∷ []
  insert key value ((name, old) ∷ rest) =
      if name == key then (name, value) ∷ rest else (name, old) ∷ insert key value rest

  pub get_or-insert :
      (zeroed : V) (key other : String) (value : V) (entries : List (String × V))
      → get_or zeroed other (insert key value entries)
        ≡ (if key == other then value else get_or zeroed other entries)
  unfolding get_or insert
  get_or-insert zeroed key other value [] = refl
  get_or-insert zeroed key other value ((name, old) ∷ rest) = ground (
    arith,
    get_or-insert zeroed key other value rest,
    eq_iff name key,
    eq_iff name other,
    eq_iff key other,
  )

  pub has_key-insert :
      (key other : String) (value : V) (entries : List (String × V))
      → has_key other (insert key value entries)
        ≡ (if key == other then true else has_key other entries)
  unfolding has_key insert
  has_key-insert key other value [] = refl
  has_key-insert key other value ((name, old) ∷ rest) = ground (
    arith,
    has_key-insert key other value rest,
    eq_iff name key,
    eq_iff name other,
    eq_iff key other,
  )

  pub lookup-insert :
      (key other : String) (value : V) (entries : List (String × V))
      → lookup other (insert key value entries)
        ≡ (if key == other then some value else lookup other entries)
  unfolding lookup insert
  lookup-insert key other value [] = refl
  lookup-insert key other value ((name, old) ∷ rest) = ground (
    arith,
    lookup-insert key other value rest,
    eq_iff name key,
    eq_iff name other,
    eq_iff key other,
  )

  pub has_key-In : (key : String) (m : List (String × V)) → has_key key m ≡ true → In key (keys m)
  unfolding has_key
  has_key-In key [] h = cc
  has_key-In key ((name, value) ∷ m) h = elim (Bool-cases (name == key)) [
    | inl same ↦ rw ((eq_iff name key).0 same) here
    | inr other ↦ there (has_key-In key m (rw other at h))
  ]

  pub In-has_key : (key : String) (m : List (String × V)) → In key (keys m) → has_key key m ≡ true
  unfolding has_key
  In-has_key key [] i = elim i [ ]
  In-has_key key ((name, value) ∷ m) here = ground (arith, eq_iff name name)
  In-has_key key ((name, value) ∷ m) (there i) = ground (arith, In-has_key key m i)

  -- A Go map has an entry for each key.
  abbrev pub IsMap : List (String × V) → Type 0
  IsMap [] = Unit
  IsMap ((key, value) ∷ rest) = (has_key key rest ≡ false) × IsMap rest

  pub insert-IsMap :
      (key : String) (value : V) (m : List (String × V)) → IsMap m → IsMap (insert key value m)
  unfolding insert has_key
  insert-IsMap key value [] h = (refl, tt)
  insert-IsMap key value ((name, old) ∷ rest) (new, h) = elim (Bool-cases (name == key)) [
    | inl same ↦ rw same (new, h)
    | inr other ↦ rw other (
      ground
          (arith, new, other, has_key-insert key name value rest, eq_iff key name, eq_iff name key),
      insert-IsMap key value rest h,
    )
  ]

  pub lookup-delete :
      (key other : String) (entries : List (String × V))
      → lookup other (delete key entries) ≡ (if key == other then none else lookup other entries)
  unfolding lookup delete
  lookup-delete key other [] = ground arith
  lookup-delete key other ((name, old) ∷ rest) =
      ground
        (arith, lookup-delete key other rest, eq_iff name key, eq_iff name other, eq_iff key other)

  pub has_key-lookup :
      (key : String) (m : List (String × V)) → has_key key m ≡ false → lookup key m ≡ none
  unfolding lookup has_key
  has_key-lookup key [] h = refl
  has_key-lookup key ((name, old) ∷ rest) h = ground (arith, has_key-lookup key rest, h)
