-- ===== src/Enforce/Release.antt =====
-- enforce.py: what must have held when a caller gets a result.
use sapl_python.Prelude.{
  ◌≡◌, Bool, true, false, List, none, some, Option, arith, ap, ◌&&◌, not, if◌then◌else◌,
}
use sapl_python.Python.Value.{Value}
use sapl_python.Python.Exception.{AuthorizationDecision, Obj}
use sapl_python.Python.Action.{Result, ok, raised, Action, ◌>>=◌, ◌>>◌}
use sapl_python.Python.Action.Laws.{>>=-eq-ok}
use sapl_python.Python.Context.{Env, Transaction, on_world, leave, transaction_scope}
use sapl_python.Signal.{
  SignalKind, Provider, decision_signal, input_kind, output_signal, output_kind,
}
use sapl_python.Plan.{EnforcementPlan, execute, has_entries, is_absent}
use sapl_python.Planner.{plan}
use sapl_python.Subscription.{AuthorizationSubscription}
use sapl_python.Enforce.{
  PdpClient, Method, decide_awaited, pre_enforce_supported, union, is_permit, replaced, before_call,
  deny_pre_invocation, guarded_call, output_stage, pre_enforce,
}
use sapl_python.Enforce.Stages.{
  arguments_stage, has_failed, mapped_call, world_behind, before_call-has_failed,
  before_call-passed,
}

deny_pre_invocation-ok :
    {W : Type 0} (d : AuthorizationDecision) (failed : Bool) (w : W) {x : Unit {0}}
    → (deny_pre_invocation d failed w).0 ≡ ok x
    → (is_permit d.decision ≡ true) × (failed ≡ false)
unfolding deny_pre_invocation
deny_pre_invocation-ok d failed w h = ground arith

pub deny_pre_invocation-permit :
    {W : Type 0} (d : AuthorizationDecision) (w : W)
    → is_permit d.decision ≡ true
    → deny_pre_invocation d false w ≡ (ok tt, w)
unfolding deny_pre_invocation
deny_pre_invocation-permit d w h = rw h

-- What the OUTPUT stage of a plan makes of a value.
abbrev pub released : {W : Type 0} → EnforcementPlan W → Obj → W → Obj
released p v w =
    let r = (execute p (output_signal v) false w).0 in
    if has_entries p output_kind && not (is_absent r.value) then r.value else v

-- The OUTPUT stage lets a result through only if no obligation failed; the result is then the
-- mapped one, or the one from before where the mappers left no value.
output_stage-ok :
    {W : Type 0} (d : AuthorizationDecision) (p : EnforcementPlan W) (v : Obj) (w : W) {u : Obj}
    → (output_stage d p v w).0 ≡ ok u
    → ((has_entries p output_kind && (execute p (output_signal v) false w).0.failure_state) ≡ false)
      × (u ≡ released p v w)
unfolding output_stage
output_stage-ok d p v w h = (ground arith, ground arith)

module _ {W P : Type 0} where
  -- The environment in which the body of a transaction scope starts.
  abbrev pub entered : Option (Transaction W) → Env W P → Env W P
  entered none env = env
  entered (some t) env = record env { world = (t.enter env.world).1 }

module _ {W P A : Type 0} where
  leave-ok :
      (t : Transaction W) (r : Result A) (env : Env W P) {v : A} {env' : Env W P}
      → leave t (r, env) ≡ (ok v, env')
      → r ≡ ok v
  leave-ok t (ok a) env h = ground arith
  leave-ok t (raised e) env h = cc

  -- A body in a transaction scope that returns has run to its end.
  transaction_scope-ok :
      (transaction : Option (Transaction W)) (body : Action (Env W P) A) (env : Env W P) {v : A}
      {env' : Env W P}
      → transaction_scope transaction body env ≡ (ok v, env')
      → (body (entered transaction env)).0 ≡ ok v
  transaction_scope-ok none body env h = ap (λ x. x.0) h
  transaction_scope-ok (some t) body env h =
      let (_, _, rest) = >>=-eq-ok (on_world t.enter) (λ _ env'. leave t (body env')) env h in
      let start = (on_world t.enter env).1 in leave-ok t (body start).0 (body start).1 rest

-- The run of the method behind the two stages, in the scope of the transaction.
abbrev pub called :
    {W : Type 0}
    → Method W
    → Option (Transaction W)
    → EnforcementPlan W
    → Value × Value
    → Env W (EnforcementPlan W)
    → Result Obj × Env W (EnforcementPlan W)
called method transaction p call env =
    guarded_call p method (mapped_call p call env.world)
      (entered transaction (record env { world = world_behind p call env.world }))

-- How a call under a decision and its plan came to its result `v`: the decision is PERMIT; no
-- obligation failed at DECISION, nor behind it at INPUT; the method, called with the mapped
-- arguments in the transaction that was opened behind INPUT, returned `result`; in the world that it
-- left no obligation failed at OUTPUT on this result or the decision's resource; and `v` is what
-- the OUTPUT handlers made of that, or that itself where they left no value.
pub record Passed {W : Type 0} (method : Method W) (transaction : Option (Transaction W))
    (d : AuthorizationDecision) (p : EnforcementPlan W) (call : Value × Value)
    (env : Env W (EnforcementPlan W)) (v : Obj) : Type 0 where
  pub permitted : is_permit d.decision ≡ true
  pub decision_discharged : (execute p decision_signal false env.world).0.failure_state ≡ false
  pub input_discharged :
      (has_entries p input_kind && (arguments_stage p call env.world).0.failure_state) ≡ false
  pub result : Obj
  pub returned : (called method transaction p call env).0 ≡ ok result
  pub output_discharged :
      (has_entries p output_kind
        && (execute p
            (output_signal (replaced d result))
            false
            (called method transaction p call env).1.world).0.failure_state)
      ≡ false
  pub delivered : v ≡ released p (replaced d result) (called method transaction p call env).1.world

module _ {W : Type 0} (method : Method W) (d : AuthorizationDecision) (p : EnforcementPlan W)
    (call : Value × Value) where
  abbrev body : Action (Env W (EnforcementPlan W)) Obj
  body = guarded_call p method call >>= λ result. on_world (output_stage d p (replaced d result))

  body-ok :
      (env : Env W (EnforcementPlan W)) {v : Obj}
      → (body env).0 ≡ ok v
      → (result : Obj) × ((guarded_call p method call env).0 ≡ ok result)
        × ((output_stage d p (replaced d result) (guarded_call p method call env).1.world).0 ≡ ok v)
  body-ok env h =
      let (result, returned, rest) =
        >>=-eq-ok (guarded_call p method call)
          (λ result. on_world (output_stage d p (replaced d result))) env {w'' = (body env).1}
          (ap (λ r. (r, (body env).1)) h) in
      (result, returned, ap (λ x. x.0) rest)

module _ {W : Type 0} (method : Method W) (d : AuthorizationDecision) (p : EnforcementPlan W)
    (call : Value × Value) where
  -- The part of `pre_enforce` behind the decision.
  abbrev enforced : Option (Transaction W) → Action (Env W (EnforcementPlan W)) Obj
  enforced transaction = on_world (before_call p call) >>= λ x.
      on_world (deny_pre_invocation d x.0)
      >> transaction_scope transaction
          (guarded_call p method x.1 >>= λ result. on_world (output_stage d p (replaced d result)))

  -- What is left of it once no obligation has failed in front of the method.
  admitted-Passed :
      (transaction : Option (Transaction W)) (env : Env W (EnforcementPlan W)) {v : Obj}
      {env' : Env W (EnforcementPlan W)}
      → is_permit d.decision ≡ true
      → has_failed p call env.world ≡ false
      → transaction_scope transaction
          (body method d p (mapped_call p call env.world))
          (record env { world = world_behind p call env.world })
        ≡ (ok v, env')
      → Passed method transaction d p call env v
  admitted-Passed transaction env permitted unfailed h =
      let start = record env { world = world_behind p call env.world } in
      let ran =
        transaction_scope-ok transaction (body method d p (mapped_call p call env.world)) start h in
      let (result, returned, delivered) =
        body-ok method d p (mapped_call p call env.world) (entered transaction start) ran in
      let (discharged, is) =
        output_stage-ok d p (replaced d result) (called method transaction p call env).1.world
          delivered in
      record {
        permitted = permitted;
        decision_discharged = ground arith;
        input_discharged = ground arith;
        result = result;
        returned = returned;
        output_discharged = discharged;
        delivered = is;
      }

  enforced-Passed :
      (transaction : Option (Transaction W)) (env : Env W (EnforcementPlan W)) {v : Obj}
      {env' : Env W (EnforcementPlan W)}
      → enforced transaction env ≡ (ok v, env')
      → Passed method transaction d p call env v
  enforced-Passed transaction env {v} h =
      let (call', stages) = before_call-has_failed p call env.world in
      let failed = has_failed p call env.world in
      let env₁ = (on_world (before_call p call) env).1 in
      let (_, admitted, h₁) =
        >>=-eq-ok (on_world (deny_pre_invocation d failed)) _ env₁ (rw stages at h) in
      let (permitted, unfailed) = deny_pre_invocation-ok d failed env₁.world admitted in
      let passed = before_call-passed p call env.world unfailed in
      admitted-Passed transaction env permitted unfailed (
        rw (deny_pre_invocation-permit d (world_behind p call env.world) permitted) at
          (rw passed at h))

-- A result of `pre_enforce` comes under a decision of the client that is PERMIT and its plan, after
-- DECISION, INPUT and OUTPUT stages in which no obligation failed, each in the world that the step
-- before it left, and it is what the OUTPUT stage made of the method's result or the decision's
-- resource; whatever the client, the method, the providers and the transaction do.
pub pre_enforce-Passed :
    {W : Type 0} (client : PdpClient W) (method : Method W) (providers : List (Provider W))
    (shims : List SignalKind) (subscription : AuthorizationSubscription) (call : Value × Value)
    (transaction : Option (Transaction W)) (env : Env W (EnforcementPlan W)) (v : Obj)
    (env' : Env W (EnforcementPlan W))
    → pre_enforce client method providers shims subscription call transaction env ≡ (ok v, env')
    → (d : AuthorizationDecision) × ((decide_awaited client subscription env.world).0 ≡ ok d)
      × Passed method transaction d
          (plan providers d (union pre_enforce_supported shims))
          call
          (record env { world = (decide_awaited client subscription env.world).1 })
          v
unfolding pre_enforce
pre_enforce-Passed client method providers shims subscription call transaction env v env' h =
    let (d, decided, h₁) = >>=-eq-ok (on_world (decide_awaited client subscription)) _ env h in
    (
      d,
      decided,
      enforced-Passed method d (plan providers d (union pre_enforce_supported shims)) call
          transaction (on_world (decide_awaited client subscription) env).1 h₁,
    )
