-- ===== src/Enforce/CurrentPlan.antt =====
-- enforce.py and request_context.py: the context variable with the active plan.
use sapl_python.Prelude.{◌≡◌, refl, ◌∙◌, List, none, some, Option}
use sapl_python.Python.Value.{Value}
use sapl_python.Python.Action.{Result, ok, raised, Action, continue, ◌>>=◌}
use sapl_python.Python.Context.{Env, Transaction, on_world, leave, transaction_scope}
use sapl_python.Signal.{SignalKind, Provider}
use sapl_python.Plan.{EnforcementPlan}
use sapl_python.Subscription.{AuthorizationSubscription}
use sapl_python.Enforce.{
  PdpClient, Method, decide_awaited, before_call, deny_pre_invocation, guarded_call, pre_enforce,
}

module _ {W P : Type 0} where
  -- An action that leaves the context variable as it found it.
  abbrev Keeps : {A : Type 0} → Action (Env W P) A → Type 0
  Keeps m = (env : Env W P) → (m env).1.current_plan ≡ env.current_plan

  continue-Keeps :
      {A B : Type 0} (r : Result A) (f : A → Action (Env W P) B)
      → ((a : A) → Keeps (f a))
      → Keeps (continue r f)
  continue-Keeps (ok a) f kf env = kf a env
  continue-Keeps (raised e) f kf env = refl

  bind-Keeps :
      {A B : Type 0} (m : Action (Env W P) A) (f : A → Action (Env W P) B)
      → Keeps m
      → ((a : A) → Keeps (f a))
      → Keeps (m >>= f)
  bind-Keeps m f km kf env = continue-Keeps (m env).0 f kf (m env).1 ∙ km env

  leave-Keeps :
      {A : Type 0} (t : Transaction W) (r : Result A) (env : Env W P)
      → (leave t (r, env)).1.current_plan ≡ env.current_plan
  leave-Keeps t (ok a) env =
      continue-Keeps (t.commit env.world).0 (λ _ env'. (ok a, env')) (λ _ _. refl) _
  leave-Keeps t (raised e) env = refl

  scope-Keeps :
      {A : Type 0} (transaction : Option (Transaction W)) (body : Action (Env W P) A)
      → Keeps body
      → Keeps (transaction_scope transaction body)
  scope-Keeps none body k = k
  scope-Keeps (some t) body k =
      bind-Keeps (on_world t.enter) (λ _ env. leave t (body env)) (λ _. refl)
        (λ _ env. leave-Keeps t (body env).0 (body env).1 ∙ k env)

module _ {W : Type 0} where
  -- While the method runs the current plan is the plan of the decision; behind the call it is the
  -- one from before, also where the method changed it or raised.
  guarded_call-Keeps :
      (p : EnforcementPlan W) (method : Method W) (call : Value × Value)
      → Keeps (guarded_call p method call)
  unfolding guarded_call
  guarded_call-Keeps p method call env = refl

  -- Whether it returns or raises, `pre_enforce` leaves the current plan as it found it, whatever
  -- the method does to it.
  pub current_plan-pre_enforce :
      (client : PdpClient W) (method : Method W) (providers : List (Provider W))
      (shims : List SignalKind) (subscription : AuthorizationSubscription) (call : Value × Value)
      (transaction : Option (Transaction W)) (env : Env W (EnforcementPlan W))
      → (pre_enforce client method providers shims subscription call transaction env).1.current_plan
        ≡ env.current_plan
  unfolding pre_enforce
  current_plan-pre_enforce client method providers shims subscription call transaction =
      bind-Keeps (on_world (decide_awaited client subscription)) _ (λ _. refl)
        λ d.
          bind-Keeps (on_world (before_call _ call)) _ (λ _. refl)
            λ x.
              bind-Keeps (on_world (deny_pre_invocation d x.0)) _ (λ _. refl)
                λ _. scope-Keeps transaction _ (
                  bind-Keeps (guarded_call _ method x.1) _ (guarded_call-Keeps _ method x.1)
                    (λ result env. refl))
