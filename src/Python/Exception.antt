-- ===== src/Python/Exception.antt =====
-- sapl_base/src/sapl_base/types.py: the decision verbs and the authorization decision;
-- pep/boundary_signals.py: AccessDeniedError; pep/plan.py: the sentinels DROP and ABSENT.
-- Exceptions are the subclasses of Python's `Exception`: an interrupt or a cancellation, which
-- passes through every handler of the program, is not modelled.
use sapl_python.Prelude.{String, Bool, true, false, Option, none, some}
use sapl_python.Python.Value.{Value, tuple, nil}

pub data Decision : Type 0 where
  permit deny indeterminate not_applicable suspend : Decision

abbrev pub value : Decision → String
value permit = "PERMIT"
value deny = "DENY"
value indeterminate = "INDETERMINATE"
value not_applicable = "NOT_APPLICABLE"
value suspend = "SUSPEND"

-- `obligations` and `advice` are typed as tuples and not checked: they may hold any value.
-- `resource` is `none` for RESOURCE_ABSENT, and `some null` for an explicit None.
pub record AuthorizationDecision : Type 0 where
  pub decision : Decision
  pub obligations : Value
  pub advice : Value
  pub resource : Option Value

abbrev pub decision_of : Decision → AuthorizationDecision
decision_of verb = record {
  decision = verb;
  obligations = tuple nil;
  advice = tuple nil;
  resource = none;
}

abbrev pub has_resource : AuthorizationDecision → Bool
has_resource d = elim d.resource [ none ↦ false | some _ ↦ true ]

-- `access_denied message decision reason` is AccessDeniedError; `synthetic_failure reason` is the
-- planner's _SyntheticFailureError; `other` is any other exception, by its class.
pub data Exc : Type 0 where
  access_denied : String → Option AuthorizationDecision → String → Exc
  synthetic_failure : String → Exc
  other : String → Exc

-- What a handler is given and may return.
pub data Obj : Type 0 where
  plain : Value → Obj
  exception : Exc → Obj
  drop absent : Obj
