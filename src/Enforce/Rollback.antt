-- ===== src/Enforce/Rollback.antt =====
-- enforce.py and transaction.py: denials behind the method's write.
use sapl_python.Prelude.{◌≡◌, Bool, true, false, List, some, arith, ◌&&◌, not}
use sapl_python.Python.Value.{Value}
use sapl_python.Python.Exception.{AuthorizationDecision, Obj}
use sapl_python.Python.Action.{Result, ok, raised}
use sapl_python.Python.Context.{Env, Transaction}
use sapl_python.Signal.{SignalKind, Provider, decision_signal, output_signal, output_kind}
use sapl_python.Plan.{PlanResult, EnforcementPlan, execute, has_entries}
use sapl_python.Planner.{plan}
use sapl_python.Subscription.{AuthorizationSubscription}
use sapl_python.Enforce.Release.{deny_pre_invocation-permit}
use sapl_python.Enforce.{
  PdpClient, Method, decide_awaited, post_enforce_supported, pre_enforce_supported, union,
  is_permit, denied, reason_for, replaced, before_call, guarded_call, output_stage,
  deny_post_invocation, authorize_result, pre_enforce, post_enforce,
}

output_stage-failure :
    {W : Type 0} (d : AuthorizationDecision) (p : EnforcementPlan W) (v : Obj) (w : W)
    → (has_entries p output_kind && (execute p (output_signal v) false w).0.failure_state) ≡ true
    → output_stage d p v w
      ≡ (raised (denied d "OUTPUT_FAILURE"), (execute p (output_signal v) false w).1)
unfolding output_stage
output_stage-failure d p v w h = ground arith

deny_post_invocation-denied :
    {W : Type 0} (d : AuthorizationDecision) (failed : Bool) (w : W)
    → (is_permit d.decision && not failed) ≡ false
    → deny_post_invocation d failed w ≡ (raised (denied d (reason_for d failed)), w)
unfolding deny_post_invocation
deny_post_invocation-denied d failed w h = ground arith

-- `post_enforce` in a transaction: the method returned, and then the decision on its result is not
-- PERMIT, or an obligation of the DECISION stage fails. The caller gets AccessDeniedError with the
-- reason, and the world is the rolled back one; nothing is committed.
pub post_enforce-rolled_back :
    {W : Type 0} (client : PdpClient W) (method : Method W) (providers : List (Provider W))
    (builder : Obj → Result AuthorizationSubscription) (call : Value × Value) (t : Transaction W)
    (env : Env W (EnforcementPlan W)) (w₁ w₃ w₄ : W) (r : PlanResult)
    (env₂ : Env W (EnforcementPlan W)) (result : Obj) (subscription : AuthorizationSubscription)
    (d : AuthorizationDecision)
    → t.enter env.world ≡ (ok tt, w₁)
    → method call (record env { world = w₁ }) ≡ (ok result, env₂)
    → builder result ≡ ok subscription
    → decide_awaited client subscription env₂.world ≡ (ok d, w₃)
    → execute (plan providers d post_enforce_supported) decision_signal false w₃ ≡ (r, w₄)
    → (is_permit d.decision && not r.failure_state) ≡ false
    → post_enforce client method providers builder call (some t) env
      ≡ (raised (denied d (reason_for d r.failure_state)), record env₂ { world = t.rollback w₄ })
unfolding post_enforce authorize_result
post_enforce-rolled_back client method providers builder call t env w₁ w₃ w₄ r env₂ result
      subscription d entered ran built decided executed h =
    rw entered (
      rw ran (
        rw built
          (rw decided (rw executed (rw (deny_post_invocation-denied d r.failure_state w₄ h))))))

-- `pre_enforce` in a transaction: the method returned, and then an obligation of the OUTPUT stage
-- fails. The caller gets AccessDeniedError, and the world is the rolled back one; nothing is
-- committed.
pub pre_enforce-rolled_back :
    {W : Type 0} (client : PdpClient W) (method : Method W) (providers : List (Provider W))
    (shims : List SignalKind) (subscription : AuthorizationSubscription)
    (call call' : Value × Value) (t : Transaction W) (env : Env W (EnforcementPlan W))
    (w₁ w₂ w₃ : W) (env₄ : Env W (EnforcementPlan W)) (result : Obj) (d : AuthorizationDecision)
    (p : EnforcementPlan W)
    → decide_awaited client subscription env.world ≡ (ok d, w₁)
    → plan providers d (union pre_enforce_supported shims) ≡ p
    → before_call p call w₁ ≡ (ok (false, call'), w₂)
    → is_permit d.decision ≡ true
    → t.enter w₂ ≡ (ok tt, w₃)
    → guarded_call p method call' (record env { world = w₃ }) ≡ (ok result, env₄)
    → (has_entries p output_kind
        && (execute p (output_signal (replaced d result)) false env₄.world).0.failure_state)
      ≡ true
    → pre_enforce client method providers shims subscription call (some t) env ≡ (
      raised (denied d "OUTPUT_FAILURE"),
      record env₄ {
        world = t.rollback (execute p (output_signal (replaced d result)) false env₄.world).1;
      },
    )
unfolding pre_enforce
pre_enforce-rolled_back client method providers shims subscription call call' t env w₁ w₂ w₃ env₄
      result d p decided planned stages permitted entered ran failed =
    rw decided (
      rw planned (
        rw stages (
          rw (deny_pre_invocation-permit d w₂ permitted) (
            rw entered
              (rw ran (rw (output_stage-failure d p (replaced d result) env₄.world failed)))))))
