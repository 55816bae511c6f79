-- ===== src/Samples.antt =====
-- Small inputs for the tests: a world that is a journal, handlers that write into it, providers,
-- and decisions.
use sapl_python.Prelude.{String, List, [], ◌∷◌, ◌++◌, none, str_eq, if◌then◌else◌}
use sapl_python.Python.Value.{pos, Value, str, tuple, dict, null, Items, nil, cons, end}
use sapl_python.Python.Exception.{Decision, AuthorizationDecision, other, Obj, plain, drop, absent}
use sapl_python.Python.Action.{ok, raised}
use sapl_python.Python.Context.{Env, Transaction}
use sapl_python.Signal.{
  HandlerShape, runner, mapper, Handler, ScopedHandler, Provider, SignalKind, decision_kind,
  output_kind,
}
use sapl_python.Plan.{EnforcementPlan}
use sapl_python.Subscription.{AuthorizationSubscription}
use sapl_python.Enforce.{PdpClient, asynchronous, Method}

abbrev pub Journal : Type 0
Journal = List String

abbrev pub note : String → Journal → Journal
note line journal = journal ++ line ∷ []

-- A handler that notes its name and returns a value.
abbrev pub returning : String → Obj → Handler Journal
returning name value args journal = (ok value, note name journal)

abbrev pub failing : String → Handler Journal
failing name args journal = (raised (other "ValueError"), note name journal)

abbrev pub at : SignalKind → HandlerShape → Handler Journal → ScopedHandler Journal
at signal shape handler = record {
  signal = signal;
  priority = pos 0;
  shape = shape;
  handler = handler;
}

abbrev named : String → Value → List (ScopedHandler Journal) → List (ScopedHandler Journal)
named name (str s) handlers = if str_eq name s then handlers else []
named name _ handlers = []

-- Claims the constraint that is the given text.
abbrev pub claiming : String → List (ScopedHandler Journal) → Provider Journal
claiming name handlers constraint = ok (named name constraint handlers)

abbrev pub audit : ScopedHandler Journal
audit = at decision_kind runner (returning "audit" absent)

abbrev pub redact : ScopedHandler Journal
redact = at output_kind mapper (returning "redact" (plain (str "***")))

abbrev pub withhold : ScopedHandler Journal
withhold = at output_kind mapper (returning "withhold" drop)

abbrev pub refuse : ScopedHandler Journal
refuse = at output_kind mapper (failing "refuse")

abbrev pub providers : List (Provider Journal)
providers =
    claiming "audit" (audit ∷ [])
    ∷ claiming "redact" (redact ∷ [])
    ∷ claiming "withhold" (withhold ∷ [])
    ∷ claiming "refuse" (refuse ∷ [])
    ∷ (λ constraint. raised (other "RuntimeError"))
    ∷ []

abbrev pub texts : List String → Items
texts [] = nil
texts (s ∷ ss) = cons (str s) (texts ss)

abbrev pub ruling : Decision → List String → AuthorizationDecision
ruling verb obligations = record {
  decision = verb;
  obligations = tuple (texts obligations);
  advice = null;
  resource = none;
}

abbrev pub client : AuthorizationDecision → PdpClient Journal
client decision = asynchronous (λ _ journal. (ok decision, note "decide" journal))

abbrev pub subscription : AuthorizationSubscription
subscription = record {
  subject = str "alice";
  action = str "read";
  resource = str "account";
  environment = null;
  secrets = str "token";
}

abbrev pub no_arguments : Value × Value
no_arguments = (tuple nil, dict end)

-- The protected method notes its call.
abbrev pub method : Method Journal
method call env = (ok (plain (str "balance")), record env { world = note "method" env.world })

abbrev pub fresh : Env Journal (EnforcementPlan Journal)
fresh = record { world = []; current_plan = none }

-- Commits by a note, and rolls back to the empty journal.
abbrev pub transaction : Transaction Journal
transaction = record {
  enter = λ journal. (ok tt, note "begin" journal);
  commit = λ journal. (ok tt, note "commit" journal);
  rollback = λ journal. [];
}
