-- ===== src/Planner/Contested.antt =====
-- planner.py: obligations that no provider claims, or that several claim.
use sapl_python.Prelude.{
  ℕ, ◌+◌, ◌≡◌, ◌≢◌, refl, Bool, true, List, [], ◌∷◌, some, Memᴰ, inl, inr, arith, length,
  length-append,
}
use sapl_python.Python.Value.{Value}
use sapl_python.Python.Exception.{AuthorizationDecision}
use sapl_python.Python.Action.{Result, ok, raised}
use sapl_python.Signal.{
  SignalKind, ScopedHandler, Provider, ConstraintTag, obligation, decision_signal,
}
use sapl_python.Plan.{execute}
use sapl_python.Planner.{plan, claim_of, claims_on, admitted, iter_constraints}
use sapl_python.Planner.FailClosed.{plan-fails_closed}

module _ {W : Type 0} where
  -- One for an answer with handlers, none for an answer without and for an exception.
  abbrev pub claimed : Result (List (ScopedHandler W)) → ℕ
  claimed (ok (h ∷ hs)) = 1
  claimed _ = 0

  -- How many providers answer a constraint with handlers.
  abbrev pub claimants : List (Provider W) → Value → ℕ
  claimants [] c = 0
  claimants (provider ∷ rest) c = claimed (provider c) + claimants rest c

  length-claim_of :
      (answer : Result (List (ScopedHandler W))) → length (claim_of answer) ≡ claimed answer
  length-claim_of (ok []) = refl
  length-claim_of (ok (h ∷ hs)) = refl
  length-claim_of (raised e) = refl

  length-claims_on :
      (providers : List (Provider W)) (c : Value)
      → length (claims_on providers c) ≡ claimants providers c
  unfolding claims_on
  length-claims_on [] c = refl
  length-claims_on (provider ∷ rest) c = omega (
    arith,
    length-append (claim_of (provider c)) (claims_on rest c),
    length-claim_of (provider c),
    length-claims_on rest c,
  )

  length-admitted :
      (claims : List (List (ScopedHandler W))) (tag : ConstraintTag) (supported : List SignalKind)
      (claim : List (ScopedHandler W))
      → admitted claims tag supported ≡ some claim
      → length claims ≡ 1
  unfolding admitted
  length-admitted [] tag supported claim h = cc
  length-admitted (x ∷ []) tag supported claim h = refl
  length-admitted (x ∷ y ∷ rest) tag supported claim h = cc

  -- An obligation that not exactly one provider answers with handlers fails closed: under every plan
  -- of its decision, each execution of the decision signal fails, in any world.
  pub plan-contested :
      (providers : List (Provider W)) (decision : AuthorizationDecision)
      (supported : List SignalKind) (c : Value) (prior : Bool) (w : W)
      → Memᴰ c (iter_constraints decision.obligations)
      → claimants providers c ≢ 1
      → (execute (plan providers decision supported) decision_signal prior w).0.failure_state ≡ true
  plan-contested providers decision supported c prior w m contested =
      elim (plan-fails_closed providers decision supported c m) [
        | inl fails ↦ fails prior w
        | inr (claim, unique, _) ↦
            let one = length-admitted (claims_on providers c) obligation supported claim unique in
            let same = length-claims_on providers c in elim (contested (omega arith)) [ ]
      ]
