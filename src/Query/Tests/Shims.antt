-- ===== src/Query/Tests/Shims.antt =====
-- The cut points under a plan with one mapper, and the theorems at them.
use sapl_python.Prelude.{◌≡◌, refl, true, false, [], ◌∷◌, none, some}
use sapl_python.Python.Value.{dict, str, null, end, pos}
use sapl_python.Python.Exception.{Obj, plain}
use sapl_python.Python.Action.{Action, ok}
use sapl_python.Python.Context.{Env}
use sapl_python.Signal.{mapper, obligation}
use sapl_python.Plan.{PlanEntry, EnforcementPlan, has_entries, execute}
use sapl_python.Samples.{Journal, note, returning}
use sapl_python.Query.Mongo.{mongo_query, mongo_query_signal, single}
use sapl_python.Query.Mongo.Proxy.{Operation, find, Call, operate}
use sapl_python.Query.Mongo.Proxy.Answers.{Rebound, operate-ok}
use sapl_python.Query.Sql.{sql_query}
use sapl_python.Query.Django.Hook.{
  ExecuteSql, Compiler, calls, IsHookedOnce, unhooked, calls-IsHookedOnce,
}

abbrev owned : Obj
owned = plain (single "owner" (str "ada"))

abbrev narrowing : PlanEntry Journal
narrowing = record {
  signal = mongo_query;
  priority = pos 30;
  shape = mapper;
  tag = obligation;
  constraint = null;
  handler = returning "narrow" owned;
}

abbrev plan : EnforcementPlan Journal
plan = record { entries = (mongo_query, narrowing ∷ []) ∷ [] }

abbrev env : Env Journal (EnforcementPlan Journal)
env = record { world = []; current_plan = some plan }

abbrev driver : Operation → Call → Action Journal Obj
driver operation (query ∷ [], []) journal = (ok query, note "driver" journal)
driver operation ([], (key, query) ∷ []) journal = (ok query, note "driver" journal)
driver operation call journal = (ok (plain null), note "driver" journal)

operate-ok_example :
    let given : Call = ([], ("filter", plain (dict end)) ∷ []) in
    ((execute plan (mongo_query_signal (plain (dict end))) false []).0.failure_state ≡ false)
    × (call' : Call) × Rebound "filter" owned given call'
    × ((driver find call' ("narrow" ∷ [])).0 ≡ ok owned)
unfolding operate execute has_entries
operate-ok_example =
    operate-ok driver find ([], ("filter", plain (dict end)) ∷ []) (plain (dict end)) owned plan env
      (record { world = "narrow" ∷ "driver" ∷ []; current_plan = some plan }) refl refl refl refl

abbrev run_query : ExecuteSql Journal
run_query query e = (ok query, e)

abbrev start : Compiler Journal
start = record { original_execute_sql = none; execute_sql = run_query; registry = sql_query ∷ [] }

calls-IsHookedOnce_example : IsHookedOnce run_query (calls (true ∷ true ∷ false ∷ true ∷ []) start)
calls-IsHookedOnce_example =
    calls-IsHookedOnce run_query (true ∷ true ∷ false ∷ true ∷ []) start (unhooked (sql_query ∷ []))
