-- ===== src/Mcp/Gate.antt =====
-- sapl_fastmcp/src/sapl_fastmcp/enforcement.py: the gate at which only DECISION handlers run.
use sapl_python.Prelude.{
  ◌≡◌, Bool, true, false, List, [], ◌∷◌, none, if◌then◌else◌, Memᴰ, arith, inl, inr,
}
use sapl_python.Python.Value.{Value}
use sapl_python.Python.Exception.{AuthorizationDecision, has_resource}
use sapl_python.Signal.{SignalKind, Provider, obligation, decision_kind, decision_signal}
use sapl_python.Plan.{execute}
use sapl_python.Planner.{plan, claims_on, admitted, iter_constraints}
use sapl_python.Planner.FailClosed.{plan-fails_closed}
use sapl_python.Enforce.{is_permit}

abbrev pub decision_only : List SignalKind
decision_only = decision_kind ∷ []

module _ {W : Type 0} (providers : List (Provider W)) where
  -- `enforce_decision_gate`
  unfoldable pub enforce_decision_gate : AuthorizationDecision → W → Bool × W
  enforce_decision_gate decision w =
      let (r, w') = execute (plan providers decision decision_only) decision_signal false w in
      if has_resource decision
      then (false, w)
      else (if r.failure_state then false else is_permit decision.decision, w')

  -- The gate opens only for a PERMIT without a resource, all of whose obligations have one
  -- well-formed claim that is admissible at the DECISION signal.
  pub enforce_decision_gate-opens :
      (decision : AuthorizationDecision) (w : W)
      → (enforce_decision_gate decision w).0 ≡ true
      → (has_resource decision ≡ false)
        × (is_permit decision.decision ≡ true)
        × ((c : Value)
            → Memᴰ c (iter_constraints decision.obligations)
            → admitted (claims_on providers c) obligation decision_only ≡ none
            → true ≡ false)
  unfolding enforce_decision_gate
  enforce_decision_gate-opens decision w h =
      let p = plan providers decision decision_only in
      (
        ground arith,
        ground arith,
        λ c m unclaimed. elim (plan-fails_closed providers decision decision_only c m) [
          | inl fails ↦ let failed = fails false w in ground arith
          | inr (claim, claimed, _) ↦ cc
        ],
      )
