-- ===== src/Enforce/Stages.antt =====
-- enforce.py: the DECISION and INPUT stages in front of the protected method.
use sapl_python.Prelude.{
  ◌≡◌, Bool, true, false, arith, ap, ◌&&◌, ◌||◌, if◌then◌else◌, Bool-cases, inl, inr,
}
use sapl_python.Python.Value.{Value}
use sapl_python.Python.Action.{ok}
use sapl_python.Signal.{decision_signal, input_kind, input_signal}
use sapl_python.Plan.{PlanResult, EnforcementPlan, execute, has_entries}
use sapl_python.Plan.Discharge.{execute_sticky}
use sapl_python.Enforce.{transformed, input_stage, before_call}

-- The two stages of a plan on a call, each run with no failure before it.
module _ {W : Type 0} (p : EnforcementPlan W) (call : Value × Value) (w : W) where
  abbrev pub decision_stage : PlanResult × W
  decision_stage = execute p decision_signal false w

  abbrev pub arguments_stage : PlanResult × W
  arguments_stage = execute p (input_signal call.0 call.1) false decision_stage.1

  -- Whether an obligation of one of the two stages fails.
  abbrev pub has_failed : Bool
  has_failed =
      decision_stage.0.failure_state
      || (has_entries p input_kind && arguments_stage.0.failure_state)

  -- The arguments of the method, and the world in which it is called.
  abbrev pub mapped_call : Value × Value
  mapped_call = if has_entries p input_kind then transformed arguments_stage.0.value call else call

  abbrev pub world_behind : W
  world_behind = if has_entries p input_kind then arguments_stage.1 else decision_stage.1

module _ {W : Type 0} where
  pub input_stage_sticky :
      (p : EnforcementPlan W) (call : Value × Value) (w : W)
      → (input_stage p true call w).0.0 ≡ true
  unfolding input_stage
  input_stage_sticky p call w = elim (Bool-cases (has_entries p input_kind)) [
    | inl h ↦ rw h (execute_sticky p (input_signal call.0 call.1) w)
    | inr h ↦ rw h
  ]

  -- `before_call` reports a failure exactly if one of the two stages has one.
  pub before_call-has_failed :
      (p : EnforcementPlan W) (call : Value × Value) (w : W)
      → (call' : Value × Value) × (before_call p call w
          ≡ (ok (has_failed p call w, call'), (before_call p call w).1))
  unfolding before_call
  before_call-has_failed p call w =
      elim (Bool-cases (execute p decision_signal false w).0.failure_state) [
        | inl h ↦
            let x = (input_stage p true call (execute p decision_signal false w).1) in
            (
              x.0.1,
              rw h (
                  ap (λ b. (ok (b, x.0.1), x.1))
                    (input_stage_sticky p call (execute p decision_signal false w).1)),
            )
        | inr h ↦ (mapped_call p call w, rw h (unfold input_stage in ground arith))
      ]

  -- Without a failure the call goes on with the mapped arguments.
  pub before_call-passed :
      (p : EnforcementPlan W) (call : Value × Value) (w : W)
      → has_failed p call w ≡ false
      → before_call p call w ≡ (ok (false, mapped_call p call w), world_behind p call w)
  unfolding before_call input_stage
  before_call-passed p call w h = ground arith
