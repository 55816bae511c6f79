-- ===== src/Query/Shim.antt =====
-- sapl_base/src/sapl_base/pep/shim_signals.py: the registry of the signals that shims discharge; and
-- what the shims do alike when a query is intercepted. The registry's lock makes each of its
-- functions one step.
pub mod Guard
use sapl_python.Prelude.{
  String, Bool, true, false, List, [], ◌∷◌, ◌++◌, Option, none, some, if◌then◌else◌,
}
use sapl_python.Python.Exception.{Obj, access_denied}
use sapl_python.Python.Action.{Result, ok, raised, Action}
use sapl_python.Python.Context.{Env}
use sapl_python.Signal.{SignalKind, kind_eq, supports, Signal}
use sapl_python.Plan.{PlanResult, EnforcementPlan, has_entries, execute, is_absent}

-- A set of signal kinds.
abbrev pub Registry : Type 0
Registry = List SignalKind

unfoldable pub register_shim_signal : SignalKind → Registry → Registry
register_shim_signal kind registry =
    if supports registry kind then registry else registry ++ kind ∷ []

unfoldable pub unregister_shim_signal : SignalKind → Registry → Registry
unregister_shim_signal kind [] = []
unregister_shim_signal kind (k ∷ registry) =
    let rest = unregister_shim_signal kind registry in if kind_eq kind k then rest else k ∷ rest

-- What is done with the result of the plan: the reasons are for a failed obligation, and for a
-- handler that returned DROP.
abbrev pub verdict : String → String → PlanResult → Result Obj
verdict failure invalid r =
    if r.failure_state
    then raised (access_denied "Access denied" none failure)
    else if is_absent r.value
    then raised (access_denied "Access denied" none invalid)
    else ok r.value

module _ {W : Type 0} where
  abbrev pub under_plan :
      String → String → Signal → Obj → EnforcementPlan W → Action (Env W (EnforcementPlan W)) Obj
  under_plan failure invalid signal query p env =
      let (r, w) = execute p signal false env.world in
      if has_entries p signal.kind
      then (verdict failure invalid r, record env { world = w })
      else (ok query, env)

  -- The query that goes on: the one that came, where no plan is current or nothing is scheduled at
  -- the signal.
  abbrev pub under_current :
      String
      → String
      → Signal
      → Obj
      → Option (EnforcementPlan W)
      → Action (Env W (EnforcementPlan W)) Obj
  under_current failure invalid signal query none env = (ok query, env)
  under_current failure invalid signal query (some p) env =
      under_plan failure invalid signal query p env

  unfoldable pub discharge : String → String → Signal → Obj → Action (Env W (EnforcementPlan W)) Obj
  discharge failure invalid signal query env =
      under_current failure invalid signal query env.current_plan env
