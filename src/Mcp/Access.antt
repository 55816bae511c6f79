-- ===== src/Mcp/Access.antt =====
-- sapl_fastmcp/src/sapl_fastmcp/middleware.py: the access to a component. The two cells in which the
-- protected function leaves FastMCP's wrapper of its result, and that result, lie in the world.
pub mod Denied
use sapl_python.Prelude.{
  String, Bool, true, false, List, [], ◌∷◌, Option, none, some, str_eq, if◌then◌else◌,
}
use sapl_python.Python.Value.{Value, null, str, list, tuple, dict, nil, Fields, end, field}
use sapl_python.Python.Exception.{
  AuthorizationDecision, decision_of, permit, deny, Exc, access_denied, other, Obj, plain,
}
use sapl_python.Python.Action.{Result, ok, raised, Action, pure, raise, ◌>>=◌, on_ok}
use sapl_python.Python.Context.{Env, on_world}
use sapl_python.Signal.{SignalKind, Provider}
use sapl_python.Plan.{EnforcementPlan}
use sapl_python.Subscription.{AuthorizationSubscription}
use sapl_python.Enforce.{PdpClient, Method, pre_enforce, post_enforce}
use sapl_python.Mcp.Subscription.{
  AccessToken, Described, SubscriptionContext, Mode, pre, post, SaplConfig, Component,
  build_middleware_subscription,
}

-- FastMCP's results: of a tool with its content and its structured content, of a resource with its
-- meta data, of a prompt with its description and its meta data, or something else.
pub data Wrapped : Type 0 where
  no_result : Wrapped
  tool_result : Value → Option Value → Wrapped
  resource_result : Value → Value → Wrapped
  prompt_result : Value → Value → Value → Wrapped
  plain_result : Value → Wrapped

-- A dict with the one key `result`.
abbrev boxed : Value → Option Value
boxed (dict (field k v end)) = if str_eq k "result" then some v else none
boxed v = none

abbrev or_value : Option Value → Value → Value
or_value none v = v
or_value (some u) v = u

-- `_unwrap_result`; `model_dump` is the JSON of FastMCP's models.
unfoldable pub unwrap_result : (Wrapped → Value) → Wrapped → Value
unwrap_result model_dump no_result = null
unwrap_result model_dump (tool_result content none) = model_dump (tool_result content none)
unwrap_result model_dump (tool_result content (some v)) = or_value (boxed v) v
unwrap_result model_dump (resource_result content meta) = model_dump (resource_result content meta)
unwrap_result model_dump (prompt_result content description meta) =
    model_dump (prompt_result content description meta)
unwrap_result model_dump (plain_result v) = v

abbrev text_of : (Value → String) → Value → Value
text_of dumps (str s) = str s
text_of dumps v = str (dumps v)

abbrev only_dict : Value → Option Value
only_dict (dict fs) = some (dict fs)
only_dict v = none

abbrev rewrap_tool : Option Value → Value → Wrapped
rewrap_tool (some inner) v = tool_result v (some (dict (field "result" v end)))
rewrap_tool none v = tool_result v (only_dict v)

abbrev box_of : Option Value → Option Value
box_of none = none
box_of (some v) = boxed v

-- `_rewrap_result`; `dumps` is json.dumps. There are no bytes among the values.
unfoldable pub rewrap_result : (Value → String) → Wrapped → Value → Wrapped
rewrap_result dumps no_result v = plain_result v
rewrap_result dumps (tool_result content structured) v = rewrap_tool (box_of structured) v
rewrap_result dumps (resource_result content meta) v = resource_result (text_of dumps v) meta
rewrap_result dumps (prompt_result content description meta) v =
    prompt_result (text_of dumps v) description meta
rewrap_result dumps (plain_result u) v = plain_result v

abbrev pub not_found : Exc
not_found = other "NotFoundError"

-- What the caller sees of an exception.
abbrev pub masked : Bool → Exc → Exc
masked stealth (access_denied message decision reason) =
    if stealth then not_found else access_denied message decision reason
masked stealth e = e

module _ {W : Type 0} where
  -- `_invoke_finalize_safely`: what the callback raises is swallowed.
  abbrev pub finalized :
      Option (AuthorizationDecision → SubscriptionContext → Action W (Unit {0}))
      → AuthorizationDecision
      → SubscriptionContext
      → Env W (EnforcementPlan W)
      → Env W (EnforcementPlan W)
  finalized none outcome ctx env = env
  finalized (some finalize) outcome ctx env = record env {
    world = (finalize outcome ctx env.world).1;
  }

  -- The `except` clauses and the `finally` of `_enforce_component_access`
  abbrev pub concluded :
      SaplConfig W
      → SubscriptionContext
      → Result Obj × Env W (EnforcementPlan W)
      → Result Obj × Env W (EnforcementPlan W)
  concluded config ctx (ok result, env) =
      (ok result, finalized config.finalize (decision_of permit) ctx env)
  concluded config ctx (raised e, env) =
      (raised (masked config.stealth e), finalized config.finalize (decision_of deny) ctx env)

-- What the middleware and its server are made of: `seen` is an object as a value, `is_same` Python's
-- `is`, `stored` and `store` read and write the wrapper's cell.
pub record Server (W : Type 0) : Type 0 where
  pub pdp : PdpClient W
  pub providers : List (Provider W)
  pub shims : List SignalKind
  pub get_access_token : Action W (Option AccessToken)
  pub model_dump : Wrapped → Value
  pub dumps : Value → String
  pub seen : Obj → Value
  pub is_same : Obj → Obj → Bool
  pub stored : W → Wrapped
  pub store : Wrapped → W → W

-- `call_next`, with the arguments that a context's copy has, where there is one.
abbrev pub CallNext : Type 0 → Type 0
CallNext W = Option Value → Action (Env W (EnforcementPlan W)) Wrapped

abbrev pub or_no_arguments : Option Fields → Fields
or_no_arguments none = end
or_no_arguments (some kwargs) = kwargs

abbrev pub has_arguments : Option Fields → Bool
has_arguments none = false
has_arguments (some kwargs) = true

abbrev pub access_context :
    Option AccessToken → Described → String → Option Fields → Option String → SubscriptionContext
access_context token described operation kwargs uri = record {
  token = token;
  component = described;
  operation = operation;
  arguments = or_no_arguments kwargs;
  uri = uri;
  return_value = null;
}

module _ {W : Type 0} (server : Server W) where
  abbrev pub kept_wrapper : Wrapped → Action (Env W (EnforcementPlan W)) Obj
  kept_wrapper wrapper env = (
    ok (plain (unwrap_result server.model_dump wrapper)),
    record env { world = server.store wrapper env.world },
  )

  -- `protected(*args, **kwargs)`: it takes no positional arguments.
  abbrev pub called : CallNext W → Bool → Value → Value → Action (Env W (EnforcementPlan W)) Obj
  called call_next has_kwargs (tuple nil) (dict kwargs) =
      call_next (if has_kwargs then some (dict kwargs) else none) >>= kept_wrapper
  called call_next has_kwargs args kwargs = raise (other "TypeError")

  unfoldable pub protected : CallNext W → Bool → Method W
  unfolding unwrap_result
  protected call_next has_kwargs (args, kwargs) = called call_next has_kwargs args kwargs

  abbrev pub attempt :
      Mode
      → SaplConfig W
      → SubscriptionContext
      → Method W
      → Fields
      → Action (Env W (EnforcementPlan W)) Obj
  attempt pre config ctx method kwargs env =
      ((λ e. (build_middleware_subscription ctx config, e)) >>= λ subscription.
      pre_enforce server.pdp method server.providers server.shims subscription
        (tuple nil, dict kwargs) none)
        env
  attempt post config ctx method kwargs env =
      post_enforce server.pdp method server.providers
        (λ value.
          build_middleware_subscription (record ctx { return_value = server.seen value }) config)
        (tuple nil, dict kwargs) none env

  -- `_enforce_component_access`
  unfoldable pub enforce_component_access :
      SaplConfig W
      → SubscriptionContext
      → Method W
      → Fields
      → Action (Env W (EnforcementPlan W)) Obj
  enforce_component_access config ctx method kwargs env =
      concluded config ctx (attempt config.mode config ctx method kwargs env)

  -- The unmodified result comes in its own wrapper.
  abbrev pub rewrapped : Obj → Action (Env W (EnforcementPlan W)) Wrapped
  rewrapped value env =
      let wrapper = server.stored env.world in
      (
        ok (
            if server.is_same value (plain (unwrap_result server.model_dump wrapper))
            then wrapper
            else rewrap_result server.dumps wrapper (server.seen value)),
        env,
      )

  abbrev pub authorize_configured :
      CallNext W
      → Described
      → Option (SaplConfig W)
      → String
      → Option Fields
      → Option String
      → Action (Env W (EnforcementPlan W)) Wrapped
  authorize_configured call_next described none operation kwargs uri = call_next none
  authorize_configured call_next described (some config) operation kwargs uri =
      on_world server.get_access_token >>= λ token.
      enforce_component_access config (access_context token described operation kwargs uri)
        (protected call_next (has_arguments kwargs)) (or_no_arguments kwargs)
      >>= rewrapped

  -- `_authorize_component`
  unfoldable pub authorize_component :
      CallNext W
      → Option (Component W)
      → String
      → Option Fields
      → Option String
      → Action (Env W (EnforcementPlan W)) Wrapped
  unfolding enforce_component_access rewrap_result protected
  authorize_component call_next none operation kwargs uri = raise not_found
  authorize_component call_next (some c) operation kwargs uri =
      authorize_configured call_next c.described c.config operation kwargs uri

  -- `on_call_tool` and `on_get_prompt`: `lookup` is `_lookup_component` in the server's store.
  unfoldable pub on_named :
      Bool
      → CallNext W
      → (String → Action (Env W (EnforcementPlan W)) (Option (Component W)))
      → String
      → String
      → Fields
      → Action (Env W (EnforcementPlan W)) Wrapped
  unfolding authorize_component
  on_named is_stdio call_next lookup operation name arguments =
      if is_stdio
      then call_next none
      else lookup name >>= λ component.
          authorize_component call_next component operation (some arguments) none

  abbrev pub or_template :
      Option (Component W)
      → Action (Env W (EnforcementPlan W)) (Option (Component W))
      → Action (Env W (EnforcementPlan W)) (Option (Component W))
  or_template none lookup = lookup
  or_template (some c) lookup = pure (some c)

  -- `on_read_resource`
  unfoldable pub on_read_resource :
      Bool
      → CallNext W
      → (String → Action (Env W (EnforcementPlan W)) (Option (Component W)))
      → (String → Action (Env W (EnforcementPlan W)) (Option (Component W)))
      → String
      → Action (Env W (EnforcementPlan W)) Wrapped
  unfolding authorize_component
  on_read_resource is_stdio call_next get_resource get_resource_template uri =
      if is_stdio
      then call_next none
      else get_resource uri >>= λ resource.
          or_template resource (get_resource_template uri) >>= λ component.
          authorize_component call_next component "read" none (some uri)
