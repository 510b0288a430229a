-- ===== src/Graph/Edges.antt =====
-- What the edges of a graph mean: steps, routes, and nodes from which every route ends.
use mathlib.Core.WellFounded.{Acc}
use blades.Common.{String, ◌≡◌, refl, ◌⊎◌, inl, inr, List, [], ◌∷◌, ◌++◌, In}
use blades.Graph.Types.{Graph}
use blades.Graph.Build.{out_edges, targets}

module _ {V : Type 0} (g : Graph V) where
  -- There is an edge from `a` to `b`.
  abbrev pub Edge : String → String → Type 0
  Edge a b = In b (targets (out_edges g a))

  abbrev pub Successor : String → String → Type 0
  Successor b a = Edge a b

  -- A way along one edge or more.
  pub data Route : String → String → Type 0 where
    one : {a b : String} → Edge a b → Route a b
    more : {a b c : String} → Edge a b → Route b c → Route a c

  abbrev pub IsChain : List String → Type 0
  IsChain [] = Unit
  IsChain (x ∷ []) = Unit
  IsChain (x ∷ y ∷ xs) = Edge x y × IsChain (y ∷ xs)

  -- A walk along the edges that ends where it begins.
  pub record IsCycle (c : List String) : Type 0 where
    pub start : String
    pub middle : List String
    pub closed : c ≡ start ∷ middle ++ start ∷ []
    pub chain : IsChain c

  pub Route-trans : {a b c : String} → Route a b → Route b c → Route a c
  Route-trans (one e) r = more e r
  Route-trans (more e s) r = more e (Route-trans s r)

  -- A route takes a first edge, and goes on from there or is at its end.
  Route-first : {a b : String} → Route a b → (c : String) × Edge a c × (Route c b ⊎ (c ≡ b))
  Route-first (one {b} e) = (b, e, inr refl)
  Route-first (more {b} e r) = (b, e, inl r)

  -- No route leads from an accessible node back to it.
  pub not-Route-Acc : (a : String) → Acc Successor a → ¬ Route a a
  not-Route-Acc a (Acc.intro _ below) r =
      let (c, e, rest) = Route-first r in
      elim rest [
        | inl s ↦ not-Route-Acc c (below c e) (Route-trans s (one e))
        | inr same ↦ not-Route-Acc c (below c e) (rw same r)
      ]

  pub IsChain-Route : (x y : String) (xs : List String) → IsChain (x ∷ xs ++ y ∷ []) → Route x y
  IsChain-Route x y [] h = one h.0
  IsChain-Route x y (z ∷ xs) h = more h.0 (IsChain-Route z y xs h.1)
