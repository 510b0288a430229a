-- ===== src/Agent/Commit.antt =====
-- How often the user's message is appended.
use blades.Common.{
  ◌+◌, ◌≤◌, ◌≡◌, refl, sym, ap, subst, Bool, true, false, List, [], ◌∷◌, Option, none, some, arith,
  length, length-append, inl, inr, ◌⊎◌,
}
use blades.Message.{Message}
use blades.Context.Session.{Session, append}
use blades.Agent.Loop.{Invocation}
use blades.Agent.Tools.{AgentError}
use blades.Agent.New.{sign, append_to, commit_message, commit}

-- The steps of clones, one after another: each of them commits its message in one atomic step.
unfoldable pub commit_all : List Invocation → Bool → Session → Bool × Session
commit_all [] committed s = (committed, s)
commit_all (inv ∷ clones) committed s =
    let (committed', s') = commit inv committed s in commit_all clones committed' s'

commit_message-committed :
    (resume : Bool) (m : Option Message) (inv : Invocation) (s : Session)
    → commit_message resume m inv true s ≡ (true, s)
commit_message-committed true m inv s = refl
commit_message-committed false none inv s = refl
commit_message-committed false (some m) inv s = refl

commit-committed : (inv : Invocation) (s : Session) → commit inv true s ≡ (true, s)
unfolding commit
commit-committed inv s = commit_message-committed inv.resume inv.message inv s

commit_all-committed :
    (clones : List Invocation) (s : Session) → commit_all clones true s ≡ (true, s)
unfolding commit_all
commit_all-committed [] s = refl
commit_all-committed (inv ∷ clones) s = rw (commit-committed inv s) (commit_all-committed clones s)

-- Nothing happens, or the flag is set, and a message is appended if the session takes it.
abbrev IsStep : Session → Bool × Session → Type 0
IsStep s step =
    (step ≡ (false, s)) ⊎ ((step ≡ (true, s)) ⊎ ((m : Message) × (step ≡ (true, append m s))))

commit_message-IsStep :
    (resume : Bool) (m : Option Message) (inv : Invocation) (s : Session)
    → IsStep s (commit_message resume m inv false s)
commit_message-IsStep true m inv s = inl refl
commit_message-IsStep false none inv s = inl refl
commit_message-IsStep false (some m) inv s = inr (by_append (inv.refuses (sign inv m)))
  where
    by_append :
        (error : Option AgentError)
        → (◌≡◌ {A = Bool × Session} (true, append_to error (sign inv m) s) (true, s))
          ⊎ ((n : Message) × (◌≡◌ {A = Bool × Session}
                (true, append_to error (sign inv m) s)
                (true, append n s)))
    by_append (some error) = inl refl
    by_append none = inr (sign inv m, refl)

commit-IsStep : (inv : Invocation) (s : Session) → IsStep s (commit inv false s)
unfolding commit
commit-IsStep inv s = commit_message-IsStep inv.resume inv.message inv s

appended : (m : Message) (s : Session) → length (append m s).history ≡ length s.history + 1
unfolding append
appended m s = omega (arith, length-append s.history (m ∷ []))

-- Of the steps that commit the message of an invocation, taken by any number of clones that share
-- the flag, at most one appends a message, in whatever order they are taken.
pub commit_all-le_one :
    (clones : List Invocation) (s : Session)
    → length (commit_all clones false s).1.history ≤ length s.history + 1
unfolding commit_all
commit_all-le_one [] s = omega arith
commit_all-le_one (inv ∷ clones) s =
    by_step (commit inv false s) (commit-IsStep inv s) (commit_all-le_one clones s)
  where
    by_step :
        (step : Bool × Session)
        → IsStep s step
        → length (commit_all clones false s).1.history ≤ length s.history + 1
        → length (commit_all clones step.0 step.1).1.history ≤ length s.history + 1
    by_step step (inl nothing) rest =
        subst (λ step. length (commit_all clones step.0 step.1).1.history ≤ length s.history + 1)
          (sym nothing) rest
    by_step step (inr (inl refused)) rest =
        subst (λ step. length (commit_all clones step.0 step.1).1.history ≤ length s.history + 1)
          (sym refused)
          (omega (arith, ap (λ p. length p.1.history) (commit_all-committed clones s)))
    by_step step (inr (inr (m, first))) rest =
        subst (λ step. length (commit_all clones step.0 step.1).1.history ≤ length s.history + 1)
          (sym first)
          (omega (
            arith,
            appended m s,
            ap (λ p. length p.1.history) (commit_all-committed clones (append m s)),
          ))
