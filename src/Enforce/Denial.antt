-- ===== src/Enforce/Denial.antt =====
-- enforce.py: what keeps the protected method from being called.
use sapl_python.Prelude.{
  ◌≡◌, Bool, true, false, List, none, Option, Memᴰ, inl, inr, arith, ◌&&◌, not,
}
use sapl_python.Python.Value.{Value}
use sapl_python.Python.Exception.{AuthorizationDecision}
use sapl_python.Python.Action.{ok, raised}
use sapl_python.Python.Context.{Env, Transaction}
use sapl_python.Signal.{SignalKind, Provider, obligation}
use sapl_python.Plan.{EnforcementPlan}
use sapl_python.Planner.{plan, claims_on, admitted, iter_constraints}
use sapl_python.Planner.FailClosed.{plan-fails_closed}
use sapl_python.Subscription.{AuthorizationSubscription}
use sapl_python.Enforce.{
  PdpClient, Method, decide_awaited, pre_enforce_supported, union, is_permit, denied, reason_for,
  before_call, deny_pre_invocation, pre_enforce,
}
use sapl_python.Enforce.Stages.{has_failed, before_call-has_failed}

deny_pre_invocation-denied :
    {W : Type 0} (d : AuthorizationDecision) (failed : Bool) (w : W)
    → (is_permit d.decision && not failed) ≡ false
    → deny_pre_invocation d failed w ≡ (raised (denied d (reason_for d (is_permit d.decision))), w)
unfolding deny_pre_invocation
deny_pre_invocation-denied d failed w h = ground arith

module _ {W : Type 0} (client : PdpClient W) (method : Method W) (providers : List (Provider W))
    (shims : List SignalKind) (subscription : AuthorizationSubscription) (call : Value × Value)
    (transaction : Option (Transaction W)) (env : Env W (EnforcementPlan W))
    {d : AuthorizationDecision} {w : W}
    (decided : decide_awaited client subscription env.world ≡ (ok d, w)) where
  -- Unless the decision is PERMIT and no obligation of its plan fails at the DECISION stage or
  -- behind it at the INPUT stage, the call is denied with the reason, in the world that those two
  -- stages left: the method is not called, and no transaction is opened.
  pub pre_enforce-denied :
      let p = plan providers d (union pre_enforce_supported shims) in
      (is_permit d.decision && not (has_failed p call w)) ≡ false
      → pre_enforce client method providers shims subscription call transaction env ≡ (
        raised (denied d (reason_for d (is_permit d.decision))),
        record env { world = (before_call p call w).1 },
      )
  unfolding pre_enforce
  pre_enforce-denied h =
      let p = plan providers d (union pre_enforce_supported shims) in
      let (call', stages) = before_call-has_failed p call w in
      rw decided (
        rw stages
          (rw (deny_pre_invocation-denied d (has_failed p call w) (before_call p call w).1 h)))

  -- An obligation that no provider claims, that several claim, or that is claimed by ill-formed
  -- handlers denies the call, whatever the decision: the method is not called.
  pub pre_enforce-unresolved :
      (c : Value)
      → Memᴰ c (iter_constraints d.obligations)
      → admitted (claims_on providers c) obligation (union pre_enforce_supported shims) ≡ none
      → pre_enforce client method providers shims subscription call transaction env ≡ (
        raised (denied d (reason_for d (is_permit d.decision))),
        record env {
          world = (before_call (plan providers d (union pre_enforce_supported shims)) call w).1;
        },
      )
  pre_enforce-unresolved c m unclaimed =
      let p = plan providers d (union pre_enforce_supported shims) in
      elim (plan-fails_closed providers d (union pre_enforce_supported shims) c m) [
        | inl fails ↦
            let failed : has_failed p call w ≡ true = rw (fails false w) in
            pre_enforce-denied (rw failed (ground arith))
        | inr (claim, claimed, _) ↦ cc
      ]
