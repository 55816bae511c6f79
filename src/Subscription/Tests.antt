-- ===== src/Subscription/Tests.antt =====
-- A subscription with secrets.
use sapl_python.Prelude.{◌≡◌, none, str_eq, if◌then◌else◌}
use sapl_python.Subscription.{get, to_dict, to_loggable_dict}
use sapl_python.Subscription.Secrets.{given, get-to_loggable_dict}
use sapl_python.Samples.{subscription}

get-to_loggable_dict_example :
    (get "action" (to_loggable_dict subscription)
      ≡ (if str_eq "secrets" "action" then none else get "action" (to_dict subscription)))
    × (get "secrets" (to_dict subscription) ≡ given subscription.secrets)
get-to_loggable_dict_example = get-to_loggable_dict subscription "action"
