-- ===== src/HttpPdp/Validation.antt =====
-- http_pdp_client.py: from the JSON of a response to decisions. What is malformed becomes
-- INDETERMINATE or is left out.
pub mod Verbs
pub mod Multi
pub mod Keys
use sapl_python.Prelude.{
  String, Bool, true, false, List, [], ◌∷◌, ◌++◌, Option, none, some, str_eq, if◌then◌else◌, any,
}
use sapl_python.Python.Value.{Value, null, str, list, tuple, dict, nil, Fields, end, field, find}
use sapl_python.Python.Exception.{
  Decision, permit, deny, indeterminate, not_applicable, suspend, AuthorizationDecision,
  decision_of, other,
}
use sapl_python.Python.Action.{Result, ok, raised}

-- `Decision(verb)`
unfoldable pub verb_of : String → Option Decision
verb_of verb =
    if str_eq verb "PERMIT"
    then some permit
    else if str_eq verb "DENY"
    then some deny
    else if str_eq verb "INDETERMINATE"
    then some indeterminate
    else if str_eq verb "NOT_APPLICABLE"
    then some not_applicable
    else if str_eq verb "SUSPEND"
    then some suspend
    else none

-- A constraint array: anything but a JSON array counts as none at all.
abbrev pub constraints : Option Value → Value
constraints (some (list vs)) = tuple vs
constraints _ = tuple nil

abbrev pub parsed_verb : Option Value → Option Decision
parsed_verb (some (str verb)) = verb_of verb
parsed_verb _ = none

-- `_validate_decision`
unfoldable pub validate_decision : Value → AuthorizationDecision
validate_decision (dict raw) = elim (parsed_verb (find "decision" raw)) [
  | none ↦ decision_of indeterminate
  | some verb ↦ record {
    decision = verb;
    obligations = constraints (find "obligations" raw);
    advice = constraints (find "advice" raw);
    resource = find "resource" raw;
  }
]
validate_decision _ = decision_of indeterminate

-- IdentifiableAuthorizationDecision
pub record Identifiable : Type 0 where
  pub subscription_id : String
  pub decision : AuthorizationDecision

abbrev pub or_null : Option Value → Value
or_null none = null
or_null (some v) = v

abbrev identify : Option Value → AuthorizationDecision → Option Identifiable
identify (some (str id)) d =
    if str_eq id "" then none else some (record { subscription_id = id; decision = d })
identify _ d = none

-- `_validate_identifiable`
unfoldable pub validate_identifiable : Value → Option Identifiable
unfolding validate_decision
validate_identifiable (dict raw) =
    identify (find "subscriptionId" raw) (validate_decision (or_null (find "decision" raw)))
validate_identifiable _ = none

abbrev pub validate_fields : Fields → List (String × AuthorizationDecision)
validate_fields end = []
validate_fields (field id v rest) = (id, validate_decision v) ∷ validate_fields rest

-- `_validate_multi`
unfoldable pub validate_multi : Value → Option (List (String × AuthorizationDecision))
validate_multi (dict raw) = some (validate_fields raw)
validate_multi _ = none

-- `key in result`
abbrev pub has_key : String → List (String × Value) → Bool
has_key key result = any (λ (k, _). str_eq k key) result

unfoldable pub reject_from :
    List (String × Value) → List (String × Value) → Result (List (String × Value))
reject_from result [] = ok result
reject_from result ((key, value) ∷ pairs) =
    let rest = reject_from (result ++ (key, value) ∷ []) pairs in
    if has_key key result then raised (other "_DuplicateSubscriptionIdError") else rest

-- `_reject_duplicate_keys`
unfoldable pub reject_duplicate_keys : List (String × Value) → Result (List (String × Value))
unfolding reject_from
reject_duplicate_keys pairs = reject_from [] pairs
