-- ===== src/Enforce/Tests.antt =====
-- Enforced calls in a journalling world, and the theorems at them.
use sapl_python.Prelude.{◌≡◌, refl, false, List, [], ◌∷◌, none, some, String, Memᴰ}
use sapl_python.Python.Value.{str}
use sapl_python.Python.Exception.{permit, deny, AuthorizationDecision, Obj, plain, absent}
use sapl_python.Python.Action.{ok, raised, Result, Action}
use sapl_python.Python.Context.{Env}
use sapl_python.Plan.{EnforcementPlan, execute, has_entries}
use sapl_python.Planner.{plan, claims_on, admitted, iter_constraints}
use sapl_python.Subscription.{AuthorizationSubscription}
use sapl_python.Enforce.{
  decide_awaited, pre_enforce_supported, denied, before_call, input_stage, deny_pre_invocation,
  guarded_call, output_stage, authorize_result, deny_post_invocation, pre_enforce, post_enforce,
}
use sapl_python.Enforce.Denial.{pre_enforce-denied, pre_enforce-unresolved}
use sapl_python.Enforce.Release.{Passed, pre_enforce-Passed}
use sapl_python.Enforce.Rollback.{pre_enforce-rolled_back, post_enforce-rolled_back}
use sapl_python.Enforce.CurrentPlan.{current_plan-pre_enforce}
use sapl_python.Samples.{
  Journal, providers, ruling, client, subscription, no_arguments, method, fresh, transaction, note,
}

program : Unit {0}
unfolding plan execute has_entries pre_enforce post_enforce before_call input_stage
    deny_pre_invocation guarded_call output_stage authorize_result deny_post_invocation claims_on
    admitted iter_constraints
program = tt

abbrev call_under :
    AuthorizationDecision
    → Env Journal (EnforcementPlan Journal)
    → Result Obj × Env Journal (EnforcementPlan Journal)
call_under d =
    pre_enforce (client d) method providers [] subscription no_arguments (some transaction)

abbrev env_with : List String → Env Journal (EnforcementPlan Journal)
env_with journal = record { world = journal; current_plan = none }

permitted_call : call_under (ruling permit ("audit" ∷ "redact" ∷ [])) fresh ≡ (
  ok (plain (str "***")),
  env_with ("decide" ∷ "audit" ∷ "begin" ∷ "method" ∷ "redact" ∷ "commit" ∷ []),
)
unfolding program
permitted_call = refl

-- A denial behind the write rolls back, and one before it leaves the method uncalled.
denied_calls : (call_under (ruling permit ("refuse" ∷ [])) fresh).1 ≡ env_with []
unfolding program
denied_calls = refl

pre_enforce-denied_example :
    let d = ruling deny ("audit" ∷ []) in
    call_under d fresh ≡ (raised (denied d "VERB_DENY"), env_with ("decide" ∷ "audit" ∷ []))
unfolding plan execute has_entries before_call input_stage claims_on admitted iter_constraints
pre_enforce-denied_example =
    pre_enforce-denied (client (ruling deny ("audit" ∷ []))) method providers [] subscription
      no_arguments (some transaction) fresh {d = ruling deny ("audit" ∷ [])} {w = "decide" ∷ []}
      refl refl

pre_enforce-unresolved_example :
    let d = ruling permit ("unknown" ∷ []) in
    call_under d fresh ≡ (
      raised (denied d "OBLIGATION_FAILURE"),
      env_with
          (before_call (plan providers d pre_enforce_supported) no_arguments ("decide" ∷ [])).1,
    )
unfolding claims_on admitted iter_constraints
pre_enforce-unresolved_example =
    pre_enforce-unresolved (client (ruling permit ("unknown" ∷ []))) method providers []
      subscription no_arguments (some transaction) fresh {d = ruling permit ("unknown" ∷ [])}
      {w = "decide" ∷ []} refl (str "unknown") (Memᴰ.head refl) refl

pre_enforce-Passed_example :
    let d = ruling permit ("audit" ∷ "redact" ∷ []) in
    (d' : AuthorizationDecision) × ((decide_awaited (client d) subscription []).0 ≡ ok d')
    × Passed method
        (some transaction)
        d'
        (plan providers d' pre_enforce_supported)
        no_arguments
        (env_with ("decide" ∷ []))
        (plain (str "***"))
pre_enforce-Passed_example =
    pre_enforce-Passed (client (ruling permit ("audit" ∷ "redact" ∷ []))) method providers []
      subscription no_arguments (some transaction) fresh (plain (str "***"))
      (env_with ("decide" ∷ "audit" ∷ "begin" ∷ "method" ∷ "redact" ∷ "commit" ∷ [])) permitted_call

-- The provider's mapper drops the balance, and the caller gets it.
dropped_call :
    let d = ruling permit ("withhold" ∷ []) in
    (pre_enforce (client d) method providers [] subscription no_arguments none fresh).0
    ≡ ok (plain (str "balance"))
unfolding program
dropped_call = refl

post_enforce-rolled_back_example :
    let d = ruling deny [] in
    post_enforce
      (client d)
      method
      providers
      (λ _. ok subscription)
      no_arguments
      (some transaction)
      fresh
    ≡ (raised (denied d "VERB_DENY"), env_with [])
unfolding plan execute iter_constraints
post_enforce-rolled_back_example =
    post_enforce-rolled_back (client (ruling deny [])) method providers (λ _. ok subscription)
      no_arguments transaction fresh ("begin" ∷ []) ("begin" ∷ "method" ∷ "decide" ∷ [])
      ("begin" ∷ "method" ∷ "decide" ∷ []) (record { value = absent; failure_state = false })
      (env_with ("begin" ∷ "method" ∷ [])) (plain (str "balance")) subscription (ruling deny [])
      refl refl refl refl refl refl

pre_enforce-rolled_back_example :
    let d = ruling permit ("refuse" ∷ []) in
    call_under d fresh ≡ (raised (denied d "OUTPUT_FAILURE"), env_with [])
unfolding plan execute has_entries before_call input_stage guarded_call claims_on admitted
    iter_constraints
pre_enforce-rolled_back_example =
    pre_enforce-rolled_back (client (ruling permit ("refuse" ∷ []))) method providers []
      subscription no_arguments no_arguments transaction fresh ("decide" ∷ []) ("decide" ∷ [])
      ("decide" ∷ "begin" ∷ []) (env_with ("decide" ∷ "begin" ∷ "method" ∷ []))
      (plain (str "balance")) (ruling permit ("refuse" ∷ []))
      (plan providers (ruling permit ("refuse" ∷ [])) pre_enforce_supported) refl refl refl refl
      refl refl refl

current_plan-pre_enforce_example :
    (call_under (ruling permit ("refuse" ∷ [])) fresh).1.current_plan ≡ fresh.current_plan
current_plan-pre_enforce_example =
    current_plan-pre_enforce (client (ruling permit ("refuse" ∷ []))) method providers []
      subscription no_arguments (some transaction) fresh

abbrev decide_once : AuthorizationSubscription → Action Journal AuthorizationDecision
decide_once _ journal = (ok (ruling permit ("audit" ∷ [])), note "decide" journal)
