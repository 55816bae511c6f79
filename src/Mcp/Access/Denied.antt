-- ===== src/Mcp/Access/Denied.antt =====
-- sapl_fastmcp/src/sapl_fastmcp/middleware.py: accesses that the PDP does not let through.
use sapl_python.Prelude.{◌≡◌, refl, String, Option, none, some, Memᴰ, if◌then◌else◌}
use sapl_python.Python.Value.{Value, tuple, nil, dict, Fields}
use sapl_python.Python.Exception.{AuthorizationDecision, decision_of, deny, Exc}
use sapl_python.Python.Action.{ok, raised}
use sapl_python.Python.Context.{Env}
use sapl_python.Signal.{obligation}
use sapl_python.Plan.{EnforcementPlan}
use sapl_python.Planner.{plan, claims_on, admitted, iter_constraints}
use sapl_python.Subscription.{AuthorizationSubscription}
use sapl_python.Enforce.{
  decide_awaited, pre_enforce_supported, union, is_permit, denied, reason_for, before_call,
}
use sapl_python.Enforce.Denial.{pre_enforce-unresolved}
use sapl_python.Mcp.Subscription.{
  AccessToken, SubscriptionContext, pre, SaplConfig, Component, build_middleware_subscription,
}
use sapl_python.Mcp.Access.{
  Server, CallNext, not_found, masked, finalized, protected, attempt, enforce_component_access,
  access_context, or_no_arguments, has_arguments, authorize_component,
}

module _ {W : Type 0} (server : Server W) (call_next : CallNext W) (component : Component W)
    (operation : String) (kwargs : Option Fields) (uri : Option String)
    (env : Env W (EnforcementPlan W)) {config : SaplConfig W} {token : Option AccessToken} {w : W}
    (configured : component.config ≡ some config)
    (authenticated : server.get_access_token env.world ≡ (ok token, w)) where
  abbrev context : SubscriptionContext
  context = access_context token component.described operation kwargs uri

  authorize_component-raised :
      (e : Exc) (env' : Env W (EnforcementPlan W))
      → attempt server config.mode config context
          (protected server call_next (has_arguments kwargs))
          (or_no_arguments kwargs)
          (record env { world = w })
        ≡ (raised e, env')
      → authorize_component server call_next (some component) operation kwargs uri env ≡ (
        raised (masked config.stealth e),
        finalized config.finalize (decision_of deny) context env',
      )
  unfolding authorize_component enforce_component_access
  authorize_component-raised e env' h = rw configured (rw authenticated (rw h refl))

  -- An access to a component in the mode `pre`, whose decision has an obligation without one
  -- well-formed claim, is denied: the component is not called, the callback hears of a denial, and a
  -- stealth component answers with the exception of a component that does not exist.
  pub authorize_component-unresolved :
      {subscription : AuthorizationSubscription} {d : AuthorizationDecision} {w' : W} (c : Value)
      → config.mode ≡ pre
      → build_middleware_subscription context config ≡ ok subscription
      → decide_awaited server.pdp subscription w ≡ (ok d, w')
      → Memᴰ c (iter_constraints d.obligations)
      → admitted
          (claims_on server.providers c)
          obligation
          (union pre_enforce_supported server.shims)
        ≡ none
      → let p = plan server.providers d (union pre_enforce_supported server.shims) in
        let call : Value × Value = (tuple nil, dict (or_no_arguments kwargs)) in
        authorize_component server call_next (some component) operation kwargs uri env ≡ (
          raised (
              if config.stealth then not_found else denied d (reason_for d (is_permit d.decision))),
          finalized config.finalize
              (decision_of deny)
              context
              (record env { world = (before_call p call w').1 }),
        )
  unfolding build_middleware_subscription before_call
  authorize_component-unresolved {subscription} {d} {w'} c in_pre builds decided m unclaimed =
      let p = plan server.providers d (union pre_enforce_supported server.shims) in
      let call : Value × Value = (tuple nil, dict (or_no_arguments kwargs)) in
      authorize_component-raised (denied d (reason_for d (is_permit d.decision)))
        (record env { world = (before_call p call w').1 })
        (rw in_pre (
          rw builds (
            pre_enforce-unresolved server.pdp (protected server call_next (has_arguments kwargs))
              server.providers server.shims subscription (tuple nil, dict (or_no_arguments kwargs))
              none (record env { world = w }) decided c m unclaimed)))
