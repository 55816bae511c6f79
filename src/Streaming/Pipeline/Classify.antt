-- ===== src/Streaming/Pipeline/Classify.antt =====
-- pipeline.py: how a decision becomes an event.
use sapl_python.Prelude.{◌≡◌, true, false, List, none, Memᴰ, inl, inr, arith}
use sapl_python.Python.Value.{Value}
use sapl_python.Python.Exception.{permit, suspend, AuthorizationDecision}
use sapl_python.Signal.{Provider, obligation, decision_signal}
use sapl_python.Plan.{EnforcementPlan, execute}
use sapl_python.Planner.{plan, claims_on, admitted, iter_constraints}
use sapl_python.Planner.FailClosed.{plan-fails_closed}
use sapl_python.Enforce.{verb_reason}
use sapl_python.Streaming.Mealy.{Event, pdp_permit, pdp_suspend, pdp_deny}
use sapl_python.Streaming.Pipeline.{stream_supported, classify}

module _ {W : Type 0} (providers : List (Provider W)) (d : AuthorizationDecision) (w : W) where
  -- A decision becomes a grant only if it is PERMIT and no obligation of its DECISION stage failed;
  -- the grant carries the decision and its own plan.
  pub classify-pdp_permit :
      (d' : AuthorizationDecision) (p : EnforcementPlan W)
      → (classify d providers w).0 ≡ pdp_permit d' p
      → (d.decision ≡ permit)
        × (d' ≡ d)
        × (p ≡ plan providers d stream_supported)
        × ((execute p decision_signal false w).0.failure_state ≡ false)
  unfolding classify
  classify-pdp_permit d' p h = ground arith

  -- The event for a decision whose DECISION stage fails.
  abbrev pub refusal : Event (EnforcementPlan W)
  refusal = elim d.decision [
    | permit ↦ pdp_deny d "OBLIGATION_FAILURE"
    | suspend ↦ pdp_suspend d
    | _ ↦ pdp_deny d (verb_reason d.decision)
  ]

  refusal_of_failure :
      (execute (plan providers d stream_supported) decision_signal false w).0.failure_state ≡ true
      → (classify d providers w).0 ≡ refusal
  unfolding classify
  refusal_of_failure h = ground arith

  -- A decision with an obligation that has no single well-formed claim grants nothing: a PERMIT
  -- becomes a denial for obligation failure, a SUSPEND suspends, and any other verb denies.
  pub classify-unresolved :
      (c : Value)
      → Memᴰ c (iter_constraints d.obligations)
      → admitted (claims_on providers c) obligation stream_supported ≡ none
      → (classify d providers w).0 ≡ refusal
  classify-unresolved c m unclaimed = elim (plan-fails_closed providers d stream_supported c m) [
    | inl fails ↦ refusal_of_failure (fails false w)
    | inr (claim, claimed, _) ↦ cc
  ]
