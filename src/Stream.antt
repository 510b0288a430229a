-- ===== src/Stream.antt =====
-- stream/stream.go: the combinators of streams. A stream is a function of `yield`, which may change
-- a state and says whether it wants more; an error of none is nil. Merge is not modelled.
use blades.Common.{
  ◌≡◌, refl, Bool, true, false, Option, some, none, List, [], ◌∷◌, String, if◌then◌else◌,
}
pub mod Laws
mod Witness

abbrev pub Yield : Type 0 → Type 0 → Type 0
Yield T S = T → Option String → S → S × Bool

-- `iter.Seq2[T, error]`
abbrev pub Seq2 : Type 0 → Type 0 → Type 0
Seq2 T S = Yield T S → S → S

module _ {S : Type 0} where
  -- `if !yield(v, nil) { return }`
  abbrev pub unless_stopped : S × Bool → (S → S) → S
  unless_stopped (s, true) rest = rest s
  unless_stopped (s, false) rest = s

  unfoldable pub just : {T : Type 0} → List T → Seq2 T S
  just [] yield s = s
  just (v ∷ values) yield s = unless_stopped (yield v none s) (just values yield)

  -- The zero value of the type, `*new(T)`, is a parameter.
  unfoldable pub error : {T : Type 0} → T → String → Seq2 T S
  error zero_value e yield s = (yield zero_value (some e) s).0

  abbrev pub filter_yield : {T : Type 0} → T → (T → Bool) → Yield T S → Yield T S
  filter_yield zero_value predicate yield v (some e) s = yield zero_value (some e) s
  filter_yield zero_value predicate yield v none s =
      if predicate v then yield v none s else (s, true)

  unfoldable pub filter : {T : Type 0} → T → Seq2 T S → (T → Bool) → Seq2 T S
  filter zero_value stream predicate yield s = stream (filter_yield zero_value predicate yield) s

  abbrev pub observed : {T : Type 0} → Yield T S → T → Option String → S × Option String → S × Bool
  observed yield v e (s, some other) = yield v (some other) s
  observed yield v e (s, none) = yield v e s

  -- The observer may change the state.
  unfoldable pub observe :
      {T : Type 0} → Seq2 T S → (T → Option String → S → S × Option String) → Seq2 T S
  observe stream observer yield s = stream (λ v e t. observed yield v e (observer v e t)) s

  abbrev pub mapped_yield : {R : Type 0} → R → Yield R S → R × Option String → S → S × Bool
  mapped_yield zero_value yield (r, some e) s = yield zero_value (some e) s
  mapped_yield zero_value yield (r, none) s = yield r none s

  abbrev pub map_yield : {T R : Type 0} → R → (T → R × Option String) → Yield R S → Yield T S
  map_yield zero_value mapper yield v (some e) s = yield zero_value (some e) s
  map_yield zero_value mapper yield v none s = mapped_yield zero_value yield (mapper v) s

  unfoldable pub map : {T R : Type 0} → R → Seq2 T S → (T → R × Option String) → Seq2 R S
  map zero_value stream mapper yield s = stream (map_yield zero_value mapper yield) s
