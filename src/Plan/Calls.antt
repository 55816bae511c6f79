-- ===== src/Plan/Calls.antt =====
-- plan.py: which handlers `execute` calls, described apart from the failure flag that it keeps.
use sapl_python.Prelude.{
  ◌≡◌, refl, Bool, true, false, ◌&&◌, ◌||◌, List, [], ◌∷◌, arith, any, if◌then◌else◌, map,
}
use sapl_python.Python.Exception.{Obj}
use sapl_python.Python.Action.{Result, ok, raised}
use sapl_python.Signal.{HandlerShape, runner, mapper, Signal}
use sapl_python.Plan.{
  PlanEntry, PlanResult, EnforcementPlan, is_obligation, is_absent, undrop, run_entry, run_entries,
  initial_value, entries_for, execute,
}

-- An entry that was called, and how the call ended.
pub record Call (W : Type 0) : Type 0 where
  pub entry : PlanEntry W
  pub outcome : Result Obj

abbrev pub is_runner : HandlerShape → Bool
is_runner runner = true
is_runner _ = false

abbrev has_raised : Result Obj → Bool
has_raised (ok _) = false
has_raised (raised _) = true

-- The value behind a call: a mapper that returns replaces it, and DROP takes it away.
abbrev value_after : HandlerShape → Obj → Result Obj → Obj
value_after mapper v (ok u) = undrop u
value_after _ v _ = v

abbrev arguments : HandlerShape → Obj → List Obj
arguments runner v = []
arguments _ v = v ∷ []

abbrev is_called : HandlerShape → Obj → Bool
is_called shape v = is_runner shape || (if is_absent v then false else true)

module _ {W : Type 0} where
  -- A call by which an obligation failed.
  abbrev pub failed_obligation : Call W → Bool
  failed_obligation c = is_obligation c.entry.tag && has_raised c.outcome

  -- An execution in full: its calls in order, the value and the world behind them. Every runner is
  -- called, and the others as long as there is a value.
  abbrev pub trace : List (PlanEntry W) → Obj → W → List (Call W) × Obj × W
  trace [] v w = ([], v, w)
  trace (e ∷ es) v w =
      let (outcome, w') = e.handler (arguments e.shape v) w in
      let called = trace es (value_after e.shape v outcome) w' in
      let skipped = trace es v w in
      if is_called e.shape v
      then (record { entry = e; outcome = outcome } ∷ called.0, called.1, called.2)
      else skipped

  run_entry-calls :
      (e : PlanEntry W) (r : PlanResult) (w : W)
      → let (outcome, w') = e.handler (arguments e.shape r.value) w in
        run_entry e r w ≡ (
          if is_called e.shape r.value
          then (
            record {
              value = value_after e.shape r.value outcome;
              failure_state =
                  r.failure_state || failed_obligation (record { entry = e; outcome = outcome });
            },
            w',
          )
          else (r, w))
  unfolding run_entry
  run_entry-calls e r w = ground arith

  -- What the loop returns, read off the trace.
  abbrev pub summary : Bool → List (Call W) × Obj × W → PlanResult × W
  summary prior (log, v, w) =
      (record { value = v; failure_state = prior || any failed_obligation log }, w)

  run_entries-trace :
      (es : List (PlanEntry W)) (r : PlanResult) (w : W)
      → run_entries es r w ≡ summary r.failure_state (trace es r.value w)
  unfolding run_entries
  run_entries-trace [] r w = ground arith
  run_entries-trace (e ∷ es) r w =
      ground
        (arith, run_entry-calls e r w, run_entries-trace es (run_entry e r w).0 (run_entry e r w).1)

  -- The entries of a list that are runners.
  abbrev pub runners : List (PlanEntry W) → List (PlanEntry W)
  runners [] = []
  runners (e ∷ es) = let rest = runners es in if is_runner e.shape then e ∷ rest else rest

  runners_called :
      (es : List (PlanEntry W)) (v : Obj) (w : W)
      → runners (map (λ c. c.entry) (trace es v w).0) ≡ runners es
  runners_called [] v w = refl
  runners_called (e ∷ es) v w =
      let (outcome, w') = e.handler (arguments e.shape v) w in
      ground (arith, runners_called es (value_after e.shape v outcome) w', runners_called es v w)

  -- `execute` makes the calls of the trace and no others; it ends with the trace's value and world,
  -- and with the failure flag set exactly if it was set before or if the handler of an obligation
  -- was called and raised. Every runner is called, in order, whatever the handlers before it did.
  pub execute-trace :
      (plan : EnforcementPlan W) (signal : Signal) (prior : Bool) (w : W)
      → let es = entries_for plan signal.kind in
        let t = trace es (initial_value signal) w in
        (execute plan signal prior w ≡ summary prior t)
        × (runners (map (λ c. c.entry) t.0) ≡ runners es)
  unfolding execute
  execute-trace plan signal prior w = (
    run_entries-trace (entries_for plan signal.kind) _ w,
    runners_called (entries_for plan signal.kind) (initial_value signal) w,
  )
