-- ===== src/HttpPdp/Validation/Multi.antt =====
-- http_pdp_client.py, `_validate_multi`: the decisions of a response for several subscriptions.
use sapl_python.Prelude.{
  ◌≡◌, refl, String, List, [], ◌∷◌, Option, none, some, str_eq, if◌then◌else◌, arith,
}
use sapl_python.Python.Value.{Value, dict, Fields, end, field}
use sapl_python.Python.Exception.{AuthorizationDecision}
use sapl_python.Python.Value.{find}
use sapl_python.HttpPdp.Validation.{validate_decision, validate_fields, validate_multi}

abbrev pub decision_for :
    String → List (String × AuthorizationDecision) → Option AuthorizationDecision
decision_for id [] = none
decision_for id ((k, d) ∷ rest) = if str_eq k id then some d else decision_for id rest

abbrev pub validated : Option Value → Option AuthorizationDecision
validated none = none
validated (some raw) = some (validate_decision raw)

decision_for-validate_fields :
    (id : String) (raw : Fields) → decision_for id (validate_fields raw) ≡ validated (find id raw)
decision_for-validate_fields id end = refl
decision_for-validate_fields id (field k v rest) =
    ground (arith, decision_for-validate_fields id rest)

-- Whatever a response for several subscriptions holds, each subscription gets the decision validated
-- from its own entry, and one without an entry gets none: no malformed entry touches another.
decision_for-validate_multi :
    (raw : Fields) (id : String) (ds : List (String × AuthorizationDecision))
    → validate_multi (dict raw) ≡ some ds
    → decision_for id ds ≡ validated (find id raw)
unfolding validate_multi
decision_for-validate_multi raw id ds h = ground (arith, decision_for-validate_fields id raw)
