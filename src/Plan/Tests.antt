-- ===== src/Plan/Tests.antt =====
-- A plan in which an advice fails, and the theorems on executions at it.
use sapl_python.Prelude.{◌≡◌, refl, true, false, [], ◌∷◌, map}
use sapl_python.Python.Value.{str, null}
use sapl_python.Python.Exception.{plain, drop, absent}
use sapl_python.Signal.{
  runner, mapper, consumer, ConstraintTag, obligation, advice, ScopedHandler, output_kind,
  decision_kind, output_signal,
}
use sapl_python.Plan.{PlanEntry, EnforcementPlan, entries_for, new, execute}
use sapl_python.Plan.Calls.{trace, summary, runners, execute-trace}
use sapl_python.Samples.{Journal, at, returning, failing}

abbrev entry : ConstraintTag → ScopedHandler Journal → PlanEntry Journal
entry tag h = record {
  signal = h.signal;
  priority = h.priority;
  shape = h.shape;
  tag = tag;
  constraint = null;
  handler = h.handler;
}

-- An obligation's mapper drops the value; the consumer behind it is skipped, the runner is not.
dropping : EnforcementPlan Journal
unfolding new
dropping = new (
    (
      output_kind,
      entry advice (at output_kind mapper (failing "first"))
          ∷ entry obligation (at output_kind mapper (returning "second" drop))
          ∷ entry obligation (at output_kind consumer (failing "third"))
          ∷ entry obligation (at output_kind runner (failing "fourth"))
          ∷ [],
    )
    ∷ (decision_kind, [])
    ∷ [])

execute-dropping :
    execute dropping (output_signal (plain (str "v"))) false []
    ≡ (record { value = absent; failure_state = true }, "first" ∷ "second" ∷ "fourth" ∷ [])
unfolding dropping execute
execute-dropping = refl

execute-trace_example :
    let es = entries_for dropping output_kind in
    let t = trace es (plain (str "v")) [] in
    (execute dropping (output_signal (plain (str "v"))) false [] ≡ summary false t)
    × (runners (map (λ c. c.entry) t.0) ≡ runners es)
execute-trace_example = execute-trace dropping (output_signal (plain (str "v"))) false []

advisory : EnforcementPlan Journal
unfolding new
advisory = new ((output_kind, entry advice (at output_kind consumer (failing "only")) ∷ []) ∷ [])
