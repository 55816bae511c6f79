-- ===== src/Streaming/Pipeline/Delivery.antt =====
-- pipeline.py: which values a turn of the loop yields.
use sapl_python.Prelude.{◌≡◌, false, List, [], ◌∷◌, ◌||◌, arith, if◌then◌else◌}
use sapl_python.Python.Exception.{Obj}
use sapl_python.Signal.{output_signal}
use sapl_python.Plan.{EnforcementPlan, execute, is_absent}
use sapl_python.Streaming.Mealy.{State, permitting, rap_item, step}
use sapl_python.Streaming.Pipeline.{
  Item, queued, Turn, Output, yielded, Options, Driver, advance, take_turn,
}

-- The values among the outputs.
abbrev pub values : List Output → List Obj
values [] = []
values (yielded v ∷ os) = v ∷ values os
values (_ ∷ os) = values os

module _ {W : Type 0} where
  -- An item under a plan: its value behind the OUTPUT stage, if no obligation failed there and the
  -- value was not dropped.
  abbrev pub enforced_value : EnforcementPlan W → Obj → W → List Obj
  enforced_value p u w =
      let r = (execute p (output_signal u) false w).0 in
      if r.failure_state || is_absent r.value then [] else r.value ∷ []

  -- What may be delivered for an item: nothing, unless the subscription is permitted.
  abbrev pub deliverable : State (EnforcementPlan W) → Item W → W → List Obj
  deliverable (permitting p) (queued (rap_item u)) w = enforced_value p u w
  deliverable _ _ w = []

  -- A turn yields exactly the value of its item behind the OUTPUT stage of the plan in force, and
  -- no value where the subscription is not permitted, where an OUTPUT obligation failed or where the
  -- value was dropped.
  pub values-take_turn :
      (options : Options) (driver : Driver W) (turn : Turn W) (w : W)
      → values (take_turn options driver turn w).0.outputs ≡ deliverable driver.state turn.item w
  unfolding take_turn advance step
  values-take_turn options driver turn w = ground arith
