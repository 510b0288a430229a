-- ===== src/Stream/Laws.antt =====
-- stream/stream.go: the combinators against functions on lists of what a stream yields.
use blades.Common.{
  ◌≡◌, inl, inr, refl, ◌∙◌, Bool, true, false, Bool-cases, Option, some, none, List, [], ◌∷◌,
  String, if◌then◌else◌,
}
use blades.Stream.{
  Yield, Seq2, unless_stopped, just, filter_yield, filter, observed, observe, mapped_yield,
  map_yield, map,
}

abbrev is_some : Option String → Bool
is_some (some e) = true
is_some none = false

abbrev pub Item : Type 0 → Type 0
Item T = T × Option String

-- The stream that yields what is in the list.
unfoldable pub emits : {S T : Type 0} → List (Item T) → Seq2 T S
emits [] yield s = s
emits ((v, e) ∷ items) yield s = unless_stopped (yield v e s) (emits items yield)

-- The values that satisfy the predicate, and all errors.
unfoldable pub kept : {T : Type 0} → T → (T → Bool) → List (Item T) → List (Item T)
kept zero_value predicate [] = []
kept zero_value predicate ((v, some e) ∷ items) =
    (zero_value, some e) ∷ kept zero_value predicate items
kept zero_value predicate ((v, none) ∷ items) =
    let rest = kept zero_value predicate items in if predicate v then (v, none) ∷ rest else rest

abbrev pub mapped : {R : Type 0} → R → R × Option String → Item R
mapped zero_value (r, some e) = (zero_value, some e)
mapped zero_value (r, none) = (r, none)

-- The images of the values, and all errors.
unfoldable pub images : {T R : Type 0} → R → (T → R × Option String) → List (Item T) → List (Item R)
images zero_value mapper [] = []
images zero_value mapper ((v, some e) ∷ items) =
    (zero_value, some e) ∷ images zero_value mapper items
images zero_value mapper ((v, none) ∷ items) =
    mapped zero_value (mapper v) ∷ images zero_value mapper items

-- A value with its error or, if there is one, the observer's.
abbrev pub noted : {T : Type 0} → (T → Option String → Option String) → T → Option String → Item T
noted observer v e = (v, (if is_some (observer v e) then observer v e else e))

unfoldable pub notes :
    {T : Type 0} → (T → Option String → Option String) → List (Item T) → List (Item T)
notes observer [] = []
notes observer ((v, e) ∷ items) = noted observer v e ∷ notes observer items

-- The values, none with an error.
unfoldable pub sound : {T : Type 0} → List T → List (Item T)
sound [] = []
sound (v ∷ values) = (v, none) ∷ sound values

module _ {S : Type 0} where
  unless_stopped-ap :
      (r : S × Bool) (f g : S → S) → ((s : S) → f s ≡ g s) → unless_stopped r f ≡ unless_stopped r g
  unless_stopped-ap (s, true) f g same = same s
  unless_stopped-ap (s, false) f g same = refl

  just-emits :
      {T : Type 0} (values : List T) (yield : Yield T S) (s : S)
      → just values yield s ≡ emits (sound values) yield s
  unfolding just emits sound
  just-emits [] yield s = refl
  just-emits (v ∷ values) yield s = unless_stopped-ap (yield v none s) _ _ (just-emits values yield)

  filter-emits :
      {T : Type 0} (zero_value : T) (predicate : T → Bool) (items : List (Item T))
      (yield : Yield T S) (s : S)
      → emits items (filter_yield zero_value predicate yield) s
        ≡ emits (kept zero_value predicate items) yield s
  unfolding emits kept
  filter-emits zero_value predicate [] yield s = refl
  filter-emits zero_value predicate ((v, some e) ∷ items) yield s =
      unless_stopped-ap (yield zero_value (some e) s) _ _
        (filter-emits zero_value predicate items yield)
  filter-emits zero_value predicate ((v, none) ∷ items) yield s = elim (Bool-cases (predicate v)) [
    | inl keeps ↦
        rw keeps
          (unless_stopped-ap (yield v none s) _ _ (filter-emits zero_value predicate items yield))
    | inr drops ↦ rw drops (filter-emits zero_value predicate items yield s)
  ]

  mapped-emits :
      {R : Type 0} (zero_value : R) (r : R × Option String) (yield : Yield R S) (f g : S → S)
      (s : S)
      → ((t : S) → f t ≡ g t)
      → unless_stopped (mapped_yield zero_value yield r s) f
        ≡ unless_stopped (yield (mapped zero_value r).0 (mapped zero_value r).1 s) g
  mapped-emits zero_value (r, some e) yield f g s same =
      unless_stopped-ap (yield zero_value (some e) s) f g same
  mapped-emits zero_value (r, none) yield f g s same = unless_stopped-ap (yield r none s) f g same

  map-emits :
      {T R : Type 0} (zero_value : R) (mapper : T → R × Option String) (items : List (Item T))
      (yield : Yield R S) (s : S)
      → emits items (map_yield zero_value mapper yield) s
        ≡ emits (images zero_value mapper items) yield s
  unfolding emits images
  map-emits zero_value mapper [] yield s = refl
  map-emits zero_value mapper ((v, some e) ∷ items) yield s =
      unless_stopped-ap (yield zero_value (some e) s) _ _ (map-emits zero_value mapper items yield)
  map-emits zero_value mapper ((v, none) ∷ items) yield s =
      mapped-emits zero_value (mapper v) yield _ _ s (map-emits zero_value mapper items yield)

  observed-emits :
      {T : Type 0} (yield : Yield T S) (v : T) (e other : Option String) (s : S)
      → observed yield v e (s, other) ≡ yield v (if is_some other then other else e) s
  observed-emits yield v e (some x) s = refl
  observed-emits yield v e none s = refl

  observe-emits :
      {T : Type 0} (observer : T → Option String → Option String) (items : List (Item T))
      (yield : Yield T S) (s : S)
      → emits items (λ v e t. observed yield v e (t, observer v e)) s
        ≡ emits (notes observer items) yield s
  unfolding emits notes
  observe-emits observer [] yield s = refl
  observe-emits observer ((v, e) ∷ items) yield s = rw (observed-emits yield v e (observer v e) s) (
      unless_stopped-ap (yield v (noted observer v e).1 s) _ _ (observe-emits observer items yield))

  -- What reaches `yield` through Just, Filter, Map and Observe, one after another, is what the
  -- functions on lists make of the values: no stage ends the stream, and `yield` may change its
  -- state and stop at any result. The observer does not change the state.
  pub observe-map-filter-just :
      {T R : Type 0} (zero_value : T) (zero_result : R) (predicate : T → Bool)
      (mapper : T → R × Option String) (observer : R → Option String → Option String)
      (values : List T) (yield : Yield R S) (s : S)
      → observe
          (map zero_result (filter zero_value (just values) predicate) mapper)
          (λ v e t. (t, observer v e))
          yield
          s
        ≡ emits
            (notes observer (images zero_result mapper (kept zero_value predicate (sound values))))
            yield
            s
  unfolding observe map filter
  observe-map-filter-just zero_value zero_result predicate mapper observer values yield s =
      just-emits values _ s
      ∙ filter-emits zero_value predicate (sound values) _ s
      ∙ map-emits zero_result mapper (kept zero_value predicate (sound values)) _ s
      ∙ observe-emits observer
          (images zero_result mapper (kept zero_value predicate (sound values))) yield s
