-- ===== src/Stream/Witness.antt =====
-- Runs of the combinators of stream/stream.go.
use blades.Common.{
  ℕ, zero, suc, ◌*◌, ◌==◌, if◌then◌else◌, ◌≡◌, refl, Bool, Option, some, none, List, [], ◌∷◌, ◌++◌,
  String, length, ltb,
}
use blades.Stream.{Yield, just, filter, map, observe, error}
use blades.Stream.Laws.{Item, emits, kept, images, notes, sound, observe-map-filter-just}

-- A consumer that keeps what it gets, and stops after two results.
abbrev two_results : Yield ℕ (List (Item ℕ))
two_results v e got = (got ++ (v, e) ∷ [], ltb (length got) 1)

abbrev small : ℕ → Bool
small v = ltb v 10

abbrev triple : ℕ → ℕ × Option String
triple zero = (0, some "zero")
triple (suc n) = (3 * suc n, none)

abbrev watch : ℕ → Option String → Option String
watch v e = if v == 6 then some "six" else e

abbrev numbers : List ℕ
numbers = 12 ∷ 2 ∷ 0 ∷ 5 ∷ []

-- The consumer goes on after the observer's error, and stops after the next result.
observe_test :
    observe (map 0 (filter 0 (just numbers) small) triple) (λ v e t. (t, watch v e)) two_results []
    ≡ (6, some "six") ∷ (0, some "zero") ∷ []
unfolding observe map filter just
observe_test = refl

error_test : error 0 "broken" two_results [] ≡ (0, some "broken") ∷ []
unfolding error
error_test = refl

observe-map-filter-just_example :
    observe (map 0 (filter 0 (just numbers) small) triple) (λ v e t. (t, watch v e)) two_results []
    ≡ emits (notes watch (images 0 triple (kept 0 small (sound numbers)))) two_results []
observe-map-filter-just_example =
    observe-map-filter-just 0 0 small triple watch numbers two_results []
