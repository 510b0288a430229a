-- ===== src/Message/Merge.antt =====
-- `MergeActions`, `AppendMessages` and `MergeParts`.
use blades.Common.{
  String, str_eq, eq_iff, ◌≡◌, ◌≢◌, refl, sym, subst, Bool, true, false, Bool-cases, Option, none,
  some, List, [], ◌∷◌, ◌++◌, inl, inr, arith, if◌then◌else◌,
}
use blades.Common.StringMap.{insert, has_key, lookup, lookup-insert, has_key-insert}
use blades.Message.{
  Any, Actions, Message, copy_actions, merge_actions, id_set, filter_base, append_messages,
}

-- The value that the last of the entries for `key` has, which a `range` over a Go map with its
-- distinct keys stores.
unfoldable pub last_value : String → Actions → Option Any
last_value key [] = none
last_value key ((name, value) ∷ rest) = elim (last_value key rest) [
  | some later ↦ some later
  | none ↦ if str_eq name key then some value else none
]

or_else : Option Any → Option Any → Option Any
or_else none other = other
or_else (some v) other = some v

copy_actions-lookup :
    (key : String) (extra actions : Actions)
    → lookup key (copy_actions extra actions) ≡ or_else (last_value key extra) (lookup key actions)
unfolding copy_actions last_value or_else
copy_actions-lookup key [] actions = refl
copy_actions-lookup key ((name, value) ∷ rest) actions = ground (
  arith,
  copy_actions-lookup key rest (insert name value actions),
  lookup-insert name key value actions,
)

-- In merged actions a key has its value in `extra`, and its value in `base` if it is not there.
pub merge_actions-lookup :
    (key : String) (base extra : Actions)
    → lookup key (merge_actions base extra)
      ≡ elim (last_value key extra) [ some v ↦ some v | none ↦ last_value key base ]
unfolding merge_actions lookup or_else
merge_actions-lookup key base extra =
    ground
      (arith, copy_actions-lookup key extra (copy_actions base []), copy_actions-lookup key base [])

-- A message with the identifier is among these.
unfoldable pub holds_id : String → List Message → Bool
holds_id id [] = false
holds_id id (m ∷ rest) = if str_eq m.id id then true else holds_id id rest

id_set-has_key :
    (id : String) (extra : List Message) (sets : List (String × Unit {0}))
    → id ≢ ""
    → has_key id (id_set extra sets) ≡ (if holds_id id extra then true else has_key id sets)
unfolding id_set holds_id
id_set-has_key id [] sets h = refl
id_set-has_key id (m ∷ extra) sets h = ground (
  arith,
  id_set-has_key id extra (insert m.id tt sets) h,
  id_set-has_key id extra sets h,
  has_key-insert m.id id tt sets,
  eq_iff m.id "",
  eq_iff m.id id,
)

id_set-empty :
    (extra : List Message) (sets : List (String × Unit {0}))
    → has_key "" (id_set extra sets) ≡ has_key "" sets
unfolding id_set
id_set-empty [] sets = refl
id_set-empty (m ∷ extra) sets = ground (
  arith,
  id_set-empty extra (insert m.id tt sets),
  id_set-empty extra sets,
  has_key-insert m.id "" tt sets,
)

-- The messages of `base` that no message of `extra` replaces.
unfoldable pub kept : List Message → List Message → List Message
kept extra [] = []
kept extra (m ∷ base) =
    if str_eq m.id ""
    then m ∷ kept extra base
    else if holds_id m.id extra
    then kept extra base
    else m ∷ kept extra base

filter_base-eq-kept :
    (base extra : List Message) → filter_base (id_set extra []) base ≡ kept extra base
unfolding filter_base kept has_key
filter_base-eq-kept [] extra = refl
filter_base-eq-kept (m ∷ base) extra = elim (Bool-cases (str_eq m.id "")) [
  | inl empty ↦
      let absent =
        subst (λ id. has_key id (id_set extra []) ≡ false) (sym ((eq_iff m.id "").0 empty))
          (id_set-empty extra []) in
      ground (arith, filter_base-eq-kept base extra, absent)
  | inr named ↦ ground (
    arith,
    filter_base-eq-kept base extra,
    id_set-has_key m.id extra [] (λ e. ground (arith, eq_iff m.id "")),
  )
]

-- `AppendMessages` keeps the messages of `base` in their order, except those with an identifier,
-- not empty, that a message of `extra` has too, and puts `extra` behind them.
pub append_messages-eq-kept :
    (base extra : List Message) → append_messages base extra ≡ kept extra base ++ extra
unfolding append_messages
append_messages-eq-kept base extra = rw (filter_base-eq-kept base extra)
