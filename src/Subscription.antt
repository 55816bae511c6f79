-- ===== src/Subscription.antt =====
-- sapl_base/src/sapl_base/types.py: what is sent to the PDP, and what may be logged of it.
pub mod Secrets
mod Tests
use sapl_python.Prelude.{
  String, List, [], ◌∷◌, ◌++◌, Option, none, some, str_eq, if◌then◌else◌, map,
}
use sapl_python.Python.Value.{Value, null}

-- `null` stands for None, also where a field was not given.
pub record AuthorizationSubscription : Type 0 where
  pub subject : Value
  pub action : Value
  pub resource : Value
  pub environment : Value
  pub secrets : Value

-- A dict with string keys, in insertion order.
abbrev pub Dict : Type 0
Dict = List (String × Value)

unfoldable pub get : String → Dict → Option Value
get key [] = none
get key ((k, v) ∷ rest) = if str_eq k key then some v else get key rest

-- `if value is not None: result[key] = value`
abbrev optional : String → Value → Dict
optional key null = []
optional key value = (key, value) ∷ []

unfoldable pub to_dict : AuthorizationSubscription → Dict
to_dict s =
    ("subject", s.subject)
    ∷ ("action", s.action)
    ∷ ("resource", s.resource)
    ∷ (optional "environment" s.environment ++ optional "secrets" s.secrets)

unfoldable pub to_loggable_dict : AuthorizationSubscription → Dict
to_loggable_dict s =
    ("subject", s.subject)
    ∷ ("action", s.action)
    ∷ ("resource", s.resource)
    ∷ optional "environment" s.environment

-- MultiAuthorizationSubscription: named subscriptions.
abbrev pub Multi : Type 0
Multi = List (String × AuthorizationSubscription)

unfoldable pub multi_to_dict : Multi → List (String × Dict)
unfolding to_dict
multi_to_dict subscriptions = map (λ (name, s). (name, to_dict s)) subscriptions

unfoldable pub multi_to_loggable_dict : Multi → List (String × Dict)
unfolding to_loggable_dict
multi_to_loggable_dict subscriptions = map (λ (name, s). (name, to_loggable_dict s)) subscriptions
