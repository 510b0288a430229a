-- ===== src/Flow/Generator.antt =====
-- The protocol of generators: what has been yielded stays, and nothing is yielded after the
-- consumer has stopped, or, for a flow, after an error.
use blades.Common.{
  ◌≡◌, ◌⊎◌, inl, inr, refl, sym, ap, ◌∙◌, subst, true, false, not, ◌&&◌, List, [], ◌∷◌, ◌++◌,
  length, ltb, append_assoc, append-nil, arith, length-append,
}
use blades.Agent.Loop.{Event, Invocation, Run, emit}
use blades.Flow.{Consumer, Behaviour, passing, is_stopped}

-- Every event but the last was wanted when it was yielded.
abbrev pub Allowed : Consumer → List Event → List Event → Type 0
Allowed wants past [] = Unit {0}
Allowed wants past (e ∷ []) = Unit {0}
Allowed wants past (e ∷ f ∷ events) =
    (wants (past ++ e ∷ []) ≡ true) × Allowed wants (past ++ e ∷ []) (f ∷ events)

-- The generator may yield another event.
abbrev pub MayGoOn : Consumer → List Event → List Event → Type 0
MayGoOn wants past shown = (shown ≡ []) ⊎ (wants (past ++ shown) ≡ true)

Allowed-append :
    (wants : Consumer) (past xs ys : List Event)
    → Allowed wants past xs
    → MayGoOn wants past xs
    → Allowed wants (past ++ xs) ys
    → Allowed wants past (xs ++ ys)
Allowed-append wants past [] ys a g b = rw (append-nil past) at b
Allowed-append wants past (x ∷ []) [] a g b = tt
Allowed-append wants past (x ∷ []) (y ∷ ys) a (inl none) b = absurd (cc)
Allowed-append wants past (x ∷ []) (y ∷ ys) a (inr more) b = (more, b)
Allowed-append wants past (x ∷ y ∷ xs) ys a (inl none) b = absurd (cc)
Allowed-append wants past (x ∷ y ∷ xs) ys a (inr more) b = (
  a.0,
  Allowed-append wants (past ++ x ∷ []) (y ∷ xs) ys a.1
      (inr (rw (append_assoc past (x ∷ []) (y ∷ xs)) more))
      (rw (append_assoc past (x ∷ []) (y ∷ xs)) b),
)

pub Allowed-passing :
    (wants : Consumer) (past events : List Event)
    → Allowed (passing wants) past events
    → Allowed wants past events
Allowed-passing wants past [] a = tt
Allowed-passing wants past (e ∷ []) a = tt
Allowed-passing wants past (e ∷ f ∷ events) a =
    (ground (arith, a.0), Allowed-passing wants (past ++ e ∷ []) (f ∷ events) a.1)

may_go_on :
    (wants : Consumer) (past shown : List Event)
    → (ltb (length past) (length (past ++ shown)) && not (wants (past ++ shown))) ≡ false
    → MayGoOn wants past shown
may_go_on wants past [] h = inl refl
may_go_on wants past (e ∷ shown) h = inr (ground (arith, length-append past (e ∷ shown)))

MayGoOn-append :
    (wants : Consumer) (past xs ys : List Event)
    → MayGoOn wants past xs
    → MayGoOn wants (past ++ xs) ys
    → MayGoOn wants past (xs ++ ys)
MayGoOn-append wants past xs [] g (inl none) = rw (append-nil xs) g
MayGoOn-append wants past xs (y ∷ ys) g (inl none) = absurd (cc)
MayGoOn-append wants past xs ys g (inr more) = inr (rw (← append_assoc past xs ys) more)

module _ {M : Type 0} where
  -- `after` has the events of `before` and others, which were allowed.
  pub record Shows (wants : Consumer) (before after : Run M) : Type 0 where
    pub shown : List Event
    pub split : after.events ≡ before.events ++ shown
    pub allowed : Allowed wants before.events shown

  -- The same, and another event may follow.
  pub record Live (wants : Consumer) (before after : Run M) : Type 0 where
    pub shows : Shows wants before after
    pub goes_on : MayGoOn wants before.events shows.shown

  -- An agent that keeps to the protocol.
  pub record IsGenerator (agent : Behaviour M) : Type 0 where
    pub keeps :
        (wants : Consumer) (input : Invocation) (r : Run M) → Shows wants r (agent wants input r)

  pub Live-refl : (wants : Consumer) (r : Run M) → Live wants r r
  Live-refl wants r = record {
    shows = record { shown = []; split = sym (append-nil r.events); allowed = tt };
    goes_on = inl refl;
  }

  pub join_shows :
      (wants : Consumer) (r s t : Run M) → Live wants r s → Shows wants s t → Shows wants r t
  join_shows wants r s t live next = record {
    shown = live.shows.shown ++ next.shown;
    split =
        next.split
        ∙ ap (λ l. l ++ next.shown) live.shows.split
        ∙ append_assoc r.events live.shows.shown next.shown;
    allowed =
        Allowed-append wants r.events live.shows.shown next.shown live.shows.allowed live.goes_on
          (subst (λ past. Allowed wants past next.shown) live.shows.split next.allowed);
  }

  -- One more event.
  pub Shows-emit : (wants : Consumer) (r : Run M) (e : Event) → Shows wants r (emit e r)
  Shows-emit wants r e = record { shown = e ∷ []; split = refl; allowed = tt }

  pub Shows-passing : (wants : Consumer) (r s : Run M) → Shows (passing wants) r s → Shows wants r s
  Shows-passing wants r s h = record {
    shown = h.shown;
    split = h.split;
    allowed = Allowed-passing wants r.events h.shown h.allowed;
  }

  pub Live-intro :
      (wants : Consumer) (r s : Run M)
      → Shows wants r s
      → is_stopped wants r s ≡ false
      → Live wants r s
  Live-intro wants r s h going = record {
    shows = h;
    goes_on =
        may_go_on wants r.events h.shown
          (subst (λ l. (ltb (length r.events) (length l) && not (wants l)) ≡ false) h.split going);
  }

  pub Live-trans :
      (wants : Consumer) (r s t : Run M) → Live wants r s → Live wants s t → Live wants r t
  unfolding join_shows
  Live-trans wants r s t live next = record {
    shows = join_shows wants r s t live next.shows;
    goes_on =
        MayGoOn-append wants r.events live.shows.shown next.shows.shown live.goes_on
          (subst (λ past. MayGoOn wants past next.shows.shown) live.shows.split next.goes_on);
  }
