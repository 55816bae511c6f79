-- ===== src/Enforce.antt =====
-- sapl_base/src/sapl_base/pep/enforce.py: one-shot enforcement round a method call, in its async and
-- its blocking form. `pep/shim_signals.py` contributes signals to the supported set.
-- The PDP client, the method, the subscription builder and the transaction provider are arguments.
pub mod Stages
pub mod Denial
pub mod Release
pub mod Rollback
pub mod Blocking
pub mod CurrentPlan
mod Tests
use sapl_python.Prelude.{
  String, Bool, true, false, List, [], ◌∷◌, ◌++◌, Option, none, some, if◌then◌else◌, not, ◌||◌,
}
use sapl_python.Python.Value.{Value, tuple, cons, nil}
use sapl_python.Python.Exception.{
  Decision, permit, deny, indeterminate, not_applicable, suspend, AuthorizationDecision,
  has_resource, Exc, access_denied, Obj, plain, exception, other,
}
use sapl_python.Python.Action.{Result, ok, raised, Action, pure, raise, continue, ◌>>=◌, ◌>>◌}
use sapl_python.Python.Context.{Env, Transaction, on_world, with_plan, transaction_scope}
use sapl_python.Signal.{
  SignalKind, kind_eq, supports, Provider, decision_kind, input_kind, output_kind, error_kind,
  decision_signal, input_signal, output_signal, error_signal,
}
use sapl_python.Plan.{PlanResult, EnforcementPlan, has_entries, execute, is_absent}
use sapl_python.Planner.{plan}
use sapl_python.Subscription.{AuthorizationSubscription}

abbrev pub pre_enforce_supported : List SignalKind
pre_enforce_supported = decision_kind ∷ input_kind ∷ output_kind ∷ error_kind ∷ []

abbrev pub post_enforce_supported : List SignalKind
post_enforce_supported = decision_kind ∷ output_kind ∷ error_kind ∷ []

-- A union of frozensets, which keeps one of two equal kinds.
abbrev pub union : List SignalKind → List SignalKind → List SignalKind
union xs [] = xs
union xs (y ∷ ys) = union (if supports xs y then xs else xs ++ y ∷ []) ys

abbrev pub is_permit : Decision → Bool
is_permit permit = true
is_permit _ = false

-- f"VERB_{decision.decision.value}"
abbrev pub verb_reason : Decision → String
verb_reason permit = "VERB_PERMIT"
verb_reason deny = "VERB_DENY"
verb_reason indeterminate = "VERB_INDETERMINATE"
verb_reason not_applicable = "VERB_NOT_APPLICABLE"
verb_reason suspend = "VERB_SUSPEND"

abbrev pub reason_for : AuthorizationDecision → Bool → String
reason_for decision true = "OBLIGATION_FAILURE"
reason_for decision false = verb_reason decision.decision

abbrev pub denied : AuthorizationDecision → String → Exc
denied decision reason = access_denied "Access denied" (some decision) reason

-- The arguments behind the INPUT stage: a mapper's result counts only if it is a pair.
abbrev pub transformed : Obj → Value × Value → Value × Value
transformed (plain (tuple (cons args (cons kwargs nil)))) call = (args, kwargs)
transformed _ call = call

-- `if decision.has_resource: result = decision.resource`
abbrev pub replaced : AuthorizationDecision → Obj → Obj
replaced decision result = elim decision.resource [ none ↦ result | some v ↦ plain v ]

-- An error mapper's result counts only if it is an exception.
abbrev pub mapped_error : Obj → Exc → Exc
mapped_error (exception e) original = e
mapped_error _ original = original

module _ {W : Type 0} where
  -- `_deny_pre_invocation`
  unfoldable pub deny_pre_invocation : AuthorizationDecision → Bool → Action W (Unit {0})
  deny_pre_invocation decision failed =
      if is_permit decision.decision
      then (if failed then raise (denied decision "OBLIGATION_FAILURE") else pure tt)
      else raise (denied decision (reason_for decision false))

  -- `_resolve_error`
  unfoldable pub resolve_error : EnforcementPlan W → Exc → W → Exc × W
  resolve_error p e w =
      let (r, w') = execute p (error_signal e) false w in
      (
        if r.failure_state
            then access_denied "Access denied" none "ERROR_OBLIGATION_FAILURE"
            else mapped_error r.value e,
        w',
      )

  -- The INPUT stage: the failure flag and the arguments behind it.
  unfoldable pub input_stage :
      EnforcementPlan W → Bool → Value × Value → W → (Bool × (Value × Value)) × W
  input_stage p failed call w =
      let (r, w') = execute p (input_signal call.0 call.1) failed w in
      if has_entries p input_kind
      then ((r.failure_state, transformed r.value call), w')
      else ((failed, call), w)

  -- The OUTPUT stage. An absent value leaves the result as it was.
  unfoldable pub output_stage : AuthorizationDecision → EnforcementPlan W → Obj → Action W Obj
  output_stage decision p result w =
      let (r, w') = execute p (output_signal result) false w in
      if has_entries p output_kind
      then (if r.failure_state
          then (raised (denied decision "OUTPUT_FAILURE"), w')
          else (ok (if is_absent r.value then result else r.value), w'))
      else (ok result, w)

-- `decide_once` is a coroutine function, or answers at once.
pub data PdpClient (W : Type 0) : Type 0 where
  asynchronous : (AuthorizationSubscription → Action W AuthorizationDecision) → PdpClient W
  synchronous : (AuthorizationSubscription → Action W AuthorizationDecision) → PdpClient W

module _ {W : Type 0} where
  -- `await pdp_client.decide_once(subscription)`: what cannot be awaited raises.
  abbrev pub decide_awaited :
      PdpClient W → AuthorizationSubscription → Action W AuthorizationDecision
  decide_awaited (asynchronous m) subscription = m subscription
  decide_awaited (synchronous m) subscription = m subscription >> raise (other "TypeError")

  -- `_decide_blocking`
  abbrev pub decide_blocking :
      PdpClient W → AuthorizationSubscription → Action W AuthorizationDecision
  decide_blocking (asynchronous m) subscription = m subscription
  decide_blocking (synchronous m) subscription = m subscription

-- The protected method, called with its positional and its keyword arguments.
abbrev pub Method : Type 0 → Type 0
Method W = Value × Value → Action (Env W (EnforcementPlan W)) Obj

module _ {W : Type 0} where
  -- The `except` clause round the method.
  resolved :
      EnforcementPlan W
      → Result Obj × Env W (EnforcementPlan W)
      → Result Obj × Env W (EnforcementPlan W)
  unfolding resolve_error
  resolved p (ok v, env) = (ok v, env)
  resolved p (raised e, env) =
      let (e', w) = resolve_error p e env.world in (raised e', record env { world = w })

  -- The method with the plan as the current one; the ERROR signal fires before the reset.
  unfoldable pub guarded_call :
      EnforcementPlan W → Method W → Value × Value → Action (Env W (EnforcementPlan W)) Obj
  unfolding resolved
  guarded_call p method call = with_plan p (λ env. resolved p (method call env))

  -- The DECISION and INPUT stages.
  unfoldable pub before_call : EnforcementPlan W → Value × Value → Action W (Bool × (Value × Value))
  before_call p call w =
      let (r, w') = execute p decision_signal false w in
      let (x, w'') = input_stage p r.failure_state call w' in (ok x, w'')

  unfoldable pub pre_enforce :
      PdpClient W
      → Method W
      → List (Provider W)
      → List SignalKind
      → AuthorizationSubscription
      → Value × Value
      → Option (Transaction W)
      → Action (Env W (EnforcementPlan W)) Obj
  pre_enforce client method providers shims subscription call transaction = do
    decision ← on_world (decide_awaited client subscription)
    let p = plan providers decision (union pre_enforce_supported shims)
    (failed, call') ← on_world (before_call p call)
    on_world (deny_pre_invocation decision failed)
    transaction_scope transaction (do
      result ← guarded_call p method call'
      on_world (output_stage decision p (replaced decision result)))

  unfoldable pub pre_enforce_blocking :
      PdpClient W
      → Method W
      → List (Provider W)
      → List SignalKind
      → AuthorizationSubscription
      → Value × Value
      → Option (Transaction W)
      → Action (Env W (EnforcementPlan W)) Obj
  pre_enforce_blocking client method providers shims subscription call transaction = do
    decision ← on_world (decide_blocking client subscription)
    let p = plan providers decision (union pre_enforce_supported shims)
    (failed, call') ← on_world (before_call p call)
    on_world (deny_pre_invocation decision failed)
    transaction_scope transaction (do
      result ← guarded_call p method call'
      on_world (output_stage decision p (replaced decision result)))

  -- The check behind the DECISION stage of `post_enforce`.
  unfoldable pub deny_post_invocation : AuthorizationDecision → Bool → Action W (Unit {0})
  deny_post_invocation decision failed =
      if failed || not (is_permit decision.decision)
      then raise (denied decision (reason_for decision failed))
      else pure tt

  -- From the result of the method on: both forms of `post_enforce` go on alike.
  unfoldable pub authorize_result :
      (AuthorizationSubscription → Action W AuthorizationDecision)
      → List (Provider W)
      → (Obj → Result AuthorizationSubscription)
      → Obj
      → Action W Obj
  authorize_result decide providers builder result = do
    subscription ← (λ w. (builder result, w))
    decision ← decide subscription
    let p = plan providers decision post_enforce_supported
    failed ← (λ w. let (r, w') = execute p decision_signal false w in (ok r.failure_state, w'))
    deny_post_invocation decision failed
    output_stage decision p (replaced decision result)

  unfoldable pub post_enforce :
      PdpClient W
      → Method W
      → List (Provider W)
      → (Obj → Result AuthorizationSubscription)
      → Value × Value
      → Option (Transaction W)
      → Action (Env W (EnforcementPlan W)) Obj
  post_enforce client method providers builder call transaction = transaction_scope transaction (do
    result ← method call
    on_world (authorize_result (decide_awaited client) providers builder result))

  unfoldable pub post_enforce_blocking :
      PdpClient W
      → Method W
      → List (Provider W)
      → (Obj → Result AuthorizationSubscription)
      → Value × Value
      → Option (Transaction W)
      → Action (Env W (EnforcementPlan W)) Obj
  post_enforce_blocking client method providers builder call transaction =
      transaction_scope transaction (do
        result ← method call
        on_world (authorize_result (decide_blocking client) providers builder result))
