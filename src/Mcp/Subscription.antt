-- ===== src/Mcp/Subscription.antt =====
-- sapl_fastmcp/src/sapl_fastmcp: context.py, and subscription.py's subscriptions of the middleware.
use sapl_python.Prelude.{String, Bool, true, Option, none, some, str_eq, if◌then◌else◌, ◌||◌}
use sapl_python.Python.Value.{Value, null, str, list, dict, Items, nil, cons, Fields, end, field}
use sapl_python.Python.Exception.{AuthorizationDecision, other}
use sapl_python.Python.Action.{Result, ok, raised, Action, on_ok}
use sapl_python.Subscription.{AuthorizationSubscription}

pub data AccessToken : Type 0 where
  access_token : Fields → String → AccessToken

-- What kind of component it is, and its name and tags, where it has any.
pub record Described : Type 0 where
  pub kind : String
  pub name : Option String
  pub tags : Items

pub record SubscriptionContext : Type 0 where
  pub token : Option AccessToken
  pub component : Described
  pub operation : String
  pub arguments : Fields
  pub uri : Option String
  pub return_value : Value

-- A field of the configuration: None, a value, or a callable on the context.
pub data MiddlewareSaplField : Type 0 where
  unset : MiddlewareSaplField
  fixed : Value → MiddlewareSaplField
  computed : (SubscriptionContext → Result Value) → MiddlewareSaplField

pub data Mode : Type 0 where
  pre post : Mode

pub record SaplConfig (W : Type 0) : Type 0 where
  pub mode : Mode
  pub subject : MiddlewareSaplField
  pub action : MiddlewareSaplField
  pub resource : MiddlewareSaplField
  pub environment : MiddlewareSaplField
  pub secrets : MiddlewareSaplField
  pub finalize : Option (AuthorizationDecision → SubscriptionContext → Action W (Unit {0}))
  pub stealth : Bool

-- A component with the configuration on its function.
pub record Component (W : Type 0) : Type 0 where
  pub described : Described
  pub config : Option (SaplConfig W)

abbrev by_client : String → Value
by_client client_id = if str_eq client_id "" then str "anonymous" else str client_id

-- `_default_subject`
unfoldable pub default_subject : SubscriptionContext → Value
default_subject ctx = elim ctx.token [
  | none ↦ str "anonymous"
  | some (access_token end client_id) ↦ by_client client_id
  | some (access_token (field k v claims) client_id) ↦ dict (field k v claims)
]

abbrev with_name : Option String → Fields → Fields
with_name none rest = rest
with_name (some name) rest = field "name" (str name) rest

abbrev with_arguments : Bool → Fields → Fields → Fields
with_arguments true (field k v fs) rest = field "arguments" (dict (field k v fs)) rest
with_arguments _ _ rest = rest

abbrev with_uri : Bool → Option String → Fields → Fields
with_uri true (some uri) rest = if str_eq uri "" then rest else field "uri" (str uri) rest
with_uri _ _ rest = rest

abbrev with_tags : Items → Fields
with_tags nil = end
with_tags (cons v vs) = field "tags" (list (cons v vs)) end

abbrev or_mcp : Fields → Value
or_mcp end = str "mcp"
or_mcp (field k v fs) = dict (field k v fs)

-- `_default_middleware_resource`
unfoldable pub default_middleware_resource : SubscriptionContext → Value
default_middleware_resource ctx =
    let op = ctx.operation in
    or_mcp (
      with_name ctx.component.name (
        with_arguments (str_eq op "call" || str_eq op "get") ctx.arguments
          (with_uri (str_eq op "read") ctx.uri (with_tags ctx.component.tags))))

-- `_resolve`
abbrev pub resolve : MiddlewareSaplField → SubscriptionContext → Value → Result Value
resolve unset ctx default = ok default
resolve (fixed null) ctx default = ok default
resolve (fixed v) ctx default = ok v
resolve (computed f) ctx default = f ctx

-- `_validate_and_build`
abbrev pub validate_and_build :
    Value → Value → Value → Value → Value → Result AuthorizationSubscription
validate_and_build null action resource environment secrets = raised (other "ValueError")
validate_and_build subject null resource environment secrets = raised (other "ValueError")
validate_and_build subject action null environment secrets = raised (other "ValueError")
validate_and_build subject action resource environment secrets = ok (record {
  subject = subject;
  action = action;
  resource = resource;
  environment = environment;
  secrets = secrets;
})

-- `build_middleware_subscription`. Nothing is read of the configuration but the five fields.
unfoldable pub build_middleware_subscription :
    {W : Type 0} → SubscriptionContext → SaplConfig W → Result AuthorizationSubscription
unfolding default_subject default_middleware_resource
build_middleware_subscription ctx config =
    on_ok (resolve config.subject ctx (default_subject ctx)) λ subject.
      on_ok (resolve config.action ctx (str ctx.operation)) λ action.
        on_ok (resolve config.resource ctx (default_middleware_resource ctx)) λ resource.
          on_ok (resolve config.environment ctx null) λ environment.
            on_ok (resolve config.secrets ctx null)
              λ secrets. validate_and_build subject action resource environment secrets
