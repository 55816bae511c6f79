-- ===== src/Mcp/Listing.antt =====
-- sapl_fastmcp/src/sapl_fastmcp/middleware.py: which components a listing shows.
pub mod Visible
use Prim.Native.String.{◌++◌ as ◌+++◌}
use sapl_python.Prelude.{
  String, Bool, true, false, List, [], ◌∷◌, ◌++◌, Option, none, some, str_eq, if◌then◌else◌, map,
  not, ◌||◌,
}
use sapl_python.Python.Value.{Fields, end, null}
use sapl_python.Python.Exception.{AuthorizationDecision}
use sapl_python.Python.Action.{Result, ok, raised, Action, pure, ◌>>=◌}
use sapl_python.Signal.{Provider}
use sapl_python.Subscription.{AuthorizationSubscription, Multi}
use sapl_python.Mcp.Subscription.{
  AccessToken, Described, SubscriptionContext, SaplConfig, Component, build_middleware_subscription,
}
use sapl_python.Mcp.Gate.{enforce_decision_gate}

abbrev pub or_unknown : Option String → String
or_unknown none = "?"
or_unknown (some name) = name

-- f"{_component_type(component)}:{name}"
abbrev pub component_id : {W : Type 0} → Component W → String
component_id c = c.described.kind +++ (":" +++ or_unknown c.described.name)

abbrev pub configured_stealth : {W : Type 0} → Option (SaplConfig W) → Bool
configured_stealth none = false
configured_stealth (some config) = config.stealth

abbrev pub is_stealth : {W : Type 0} → Component W → Bool
is_stealth c = configured_stealth c.config

-- What stands under a component's id in `subscriptions` and in `component_ids`.
abbrev pub Entry : Type 0 → Type 0
Entry W = AuthorizationSubscription × Component W

-- `decisions.get(id)`
abbrev pub decision_at :
    String → List (String × AuthorizationDecision) → Option AuthorizationDecision
decision_at key [] = none
decision_at key ((k, d) ∷ rest) = if str_eq k key then some d else decision_at key rest

module _ {W : Type 0} where
  abbrev pub always_visible : List (Component W) → List (Component W)
  always_visible [] = []
  always_visible (c ∷ cs) = if is_stealth c then always_visible cs else c ∷ always_visible cs

  -- The two assignments under a component's id: a dict keeps the place of a key.
  abbrev pub put : Entry W → List (Entry W) → List (Entry W)
  put (s, c) [] = (s, c) ∷ []
  put (s, c) ((s', c') ∷ rest) =
      let later = put (s, c) rest in
      if str_eq (component_id c') (component_id c) then (s, c) ∷ rest else (s', c') ∷ later

  abbrev listing_context : Option AccessToken → String → Component W → SubscriptionContext
  listing_context token operation c = record {
    token = token;
    component = c.described;
    operation = operation;
    arguments = end;
    uri = none;
    return_value = null;
  }

  -- A component whose subscription cannot be built is left out.
  abbrev pub put_built :
      Result AuthorizationSubscription → Component W → List (Entry W) → List (Entry W)
  put_built (raised e) c entries = entries
  put_built (ok s) c entries = put (s, c) entries

  abbrev pub built :
      Option AccessToken
      → String
      → Option (SaplConfig W)
      → Component W
      → List (Entry W)
      → List (Entry W)
  built token operation none c entries = entries
  built token operation (some config) c entries =
      if config.stealth
      then put_built (build_middleware_subscription (listing_context token operation c) config) c
          entries
      else entries

  -- The loop over the stealth components.
  unfoldable pub stealth_entries :
      Option AccessToken → String → List (Component W) → List (Entry W) → List (Entry W)
  unfolding build_middleware_subscription
  stealth_entries token operation [] entries = entries
  stealth_entries token operation (c ∷ cs) entries =
      stealth_entries token operation cs (built token operation c.config c entries)

  module _ (providers : List (Provider W)) where
    abbrev pub gated : Option AuthorizationDecision → W → Bool × W
    gated none w = (false, w)
    gated (some d) w = enforce_decision_gate providers d w

    -- The loop over `component_ids`.
    unfoldable pub included :
        List (String × AuthorizationDecision) → List (Entry W) → W → List (Component W) × W
    unfolding enforce_decision_gate
    included decisions [] w = ([], w)
    included decisions ((s, c) ∷ entries) w =
        let (opens, w') = gated (decision_at (component_id c) decisions) w in
        let (cs, w'') = included decisions entries w' in (if opens then c ∷ cs else cs, w'')

    -- `multi_decide_all_once` is the PDP client's.
    module _
        (multi_decide_all_once : Multi → Action W (List (String × AuthorizationDecision))) where
      abbrev pub with_entries : List (Component W) → List (Entry W) → Action W (List (Component W))
      with_entries visible [] w = (ok visible, w)
      with_entries visible (entry ∷ entries) w =
          (multi_decide_all_once (map (λ (s, c). (component_id c, s)) (entry ∷ entries))
              >>= λ decisions w'.
                  let (cs, w'') = included decisions (entry ∷ entries) w' in
                  (ok (visible ++ cs), w''))
            w

      -- `_hide_unauthorized_stealth_components`
      unfoldable pub hide_unauthorized_stealth_components :
          Option AccessToken → String → List (Component W) → Action W (List (Component W))
      unfolding stealth_entries included
      hide_unauthorized_stealth_components token operation components =
          with_entries (always_visible components) (stealth_entries token operation components [])

      -- `_authorize_listing`. `call_next` lists the components; `get_access_token` may raise.
      unfoldable pub authorize_listing :
          Bool
          → Bool
          → Action W (Option AccessToken)
          → Action W (List (Component W))
          → String
          → Action W (List (Component W))
      unfolding hide_unauthorized_stealth_components
      authorize_listing is_stdio enforce_listing get_access_token call_next operation =
          if is_stdio || not enforce_listing
          then call_next
          else call_next >>= λ components. get_access_token >>= λ token.
              hide_unauthorized_stealth_components token operation components
