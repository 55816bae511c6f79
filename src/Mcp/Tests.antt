-- ===== src/Mcp/Tests.antt =====
-- A server with one stealth tool, and the theorems at it.
use sapl_python.Prelude.{◌≡◌, refl, String, true, false, List, [], ◌∷◌, Option, none, some, Memᴰ}
use sapl_python.Python.Value.{null, str, nil, end}
use sapl_python.Python.Exception.{permit, AuthorizationDecision}
use sapl_python.Python.Action.{Action, ok, raised}
use sapl_python.Plan.{execute, has_entries}
use sapl_python.Planner.{plan, claims_on, admitted, iter_constraints}
use sapl_python.Enforce.{before_call, input_stage}
use sapl_python.Samples.{Journal, note, providers, ruling, client, fresh}
use sapl_python.Subscription.{Multi}
use sapl_python.Mcp.Subscription.{
  AccessToken, pre, SaplConfig, Component, unset, build_middleware_subscription,
}
use sapl_python.Mcp.Gate.{enforce_decision_gate}
use sapl_python.Mcp.Listing.{
  stealth_entries, included, hide_unauthorized_stealth_components, authorize_listing,
}
use sapl_python.Mcp.Listing.Visible.{Unhidden, ShowsGranted, authorize_listing-ok}
use sapl_python.Mcp.Access.{Server, CallNext, plain_result, not_found, authorize_component}
use sapl_python.Mcp.Access.Denied.{authorize_component-unresolved}

abbrev config : SaplConfig Journal
config = record {
  mode = pre;
  subject = unset;
  action = unset;
  resource = unset;
  environment = unset;
  secrets = unset;
  finalize = some (λ outcome ctx journal. (ok tt, note "finalize" journal));
  stealth = true;
}

abbrev tool : String → Option (SaplConfig Journal) → Component Journal
tool name c = record {
  described = record { kind = "tool"; name = some name; tags = nil };
  config = c;
}

abbrev tools : List (Component Journal)
tools = tool "a" (some config) ∷ tool "b" none ∷ tool "c" (some config) ∷ []

abbrev listing : Action Journal (List (Component Journal))
listing journal = (ok tools, journal)

abbrev anonymous : Action Journal (Option AccessToken)
anonymous journal = (ok none, journal)

abbrev rulings : Multi → Action Journal (List (String × AuthorizationDecision))
rulings subscriptions journal = (
  ok (("tool:a", ruling permit ("unknown" ∷ [])) ∷ ("tool:c", ruling permit ("audit" ∷ [])) ∷ []),
  journal,
)

-- Hides the tool whose obligation nobody claims.
listed :
    authorize_listing providers rulings false true anonymous listing "call" []
    ≡ (ok (tool "b" none ∷ tool "c" (some config) ∷ []), "audit" ∷ [])
unfolding authorize_listing hide_unauthorized_stealth_components stealth_entries
    build_middleware_subscription included enforce_decision_gate plan execute
listed = refl

authorize_listing-ok_example :
    (components : List (Component Journal)) × ((listing []).0 ≡ ok components)
    × (token : Option AccessToken) × ((anonymous []).0 ≡ ok token)
    × (visible : List (Component Journal)) × Unhidden components visible
    × ShowsGranted providers rulings components visible
        (stealth_entries token "call" components [])
        (tool "b" none ∷ tool "c" (some config) ∷ [])
        []
unfolding authorize_listing hide_unauthorized_stealth_components stealth_entries
    build_middleware_subscription included enforce_decision_gate plan execute
authorize_listing-ok_example =
    authorize_listing-ok providers rulings false true anonymous listing "call"
      (tool "b" none ∷ tool "c" (some config) ∷ []) [] ("audit" ∷ []) refl refl refl

abbrev server : Server Journal
server = record {
  pdp = client (ruling permit ("unknown" ∷ []));
  providers = providers;
  shims = [];
  get_access_token = anonymous;
  model_dump = λ wrapper. null;
  dumps = λ v. "";
  seen = λ x. null;
  is_same = λ x y. false;
  stored = λ journal. plain_result null;
  store = λ wrapper journal. journal;
}

abbrev answering : CallNext Journal
answering arguments env =
    (ok (plain_result (str "secret")), record env { world = note "tool" env.world })

authorize_component-unresolved_example :
    authorize_component server answering
      (some (tool "a" (some config)))
      "call"
      (some end)
      none
      fresh
    ≡ (raised not_found, record { world = "decide" ∷ "finalize" ∷ []; current_plan = none })
unfolding build_middleware_subscription plan execute before_call claims_on admitted iter_constraints
    input_stage has_entries
authorize_component-unresolved_example =
    authorize_component-unresolved server answering (tool "a" (some config)) "call" (some end) none
      fresh refl refl (str "unknown") refl refl refl (Memᴰ.head refl) refl
