-- ===== src/Streaming/Pipeline/Lifecycle.antt =====
-- pipeline.py: the life of the protected stream's task.
use sapl_python.Prelude.{◌≡◌, Bool, true, false, List, [], ◌∷◌, arith, if◌then◌else◌, not, ◌&&◌}
use sapl_python.Plan.{EnforcementPlan}
use sapl_python.Streaming.Mealy.{State, pending, permitting, suspended, terminated, step}
use sapl_python.Streaming.Pipeline.{
  Item, pdp_end, Turn, Output, rap_started, rap_cancelled, Options, Driver, RapTask, no_task,
  running, settle_task, render, advance, take_turn, is_going, continue_loop, manage_rap,
}

-- Whether the protected stream is started among the outputs.
abbrev pub starts : List Output → Bool
starts [] = false
starts (rap_started ∷ _) = true
starts (_ ∷ os) = starts os

-- Whether it is cancelled among the outputs.
abbrev pub cancels : List Output → Bool
cancels [] = false
cancels (rap_cancelled ∷ _) = true
cancels (_ ∷ os) = cancels os

abbrev pub is_none : RapTask → Bool
is_none no_task = true
is_none _ = false

abbrev pub is_running : RapTask → Bool
is_running running = true
is_running _ = false

module _ {W : Type 0} where
  abbrev pub is_permitting : State (EnforcementPlan W) → Bool
  is_permitting (permitting _) = true
  is_permitting _ = false

  abbrev pub is_suspended : State (EnforcementPlan W) → Bool
  is_suspended suspended = true
  is_suspended _ = false

  abbrev pub is_pdp_end : Item W → Bool
  is_pdp_end pdp_end = true
  is_pdp_end _ = false

  -- A pending subscription has no task, a permitted one has one, and with the pause option a
  -- suspended one has none.
  abbrev pub is_managed : Options → Driver W → Bool
  is_managed options driver = elim driver.state [
    | pending ↦ is_none driver.rap_task
    | permitting _ ↦ not (is_none driver.rap_task)
    | suspended ↦ if options.pause_rap_during_suspend then is_none driver.rap_task else true
    | terminated ↦ false
  ]

  -- The task that a state wants behind a round that found the task `found`.
  abbrev pub wanted : Options → RapTask → State (EnforcementPlan W) → RapTask
  wanted options found pending = no_task
  wanted options found (permitting _) = running
  wanted options found suspended = if options.pause_rap_during_suspend then no_task else found
  wanted options found terminated = found

  abbrev pub found : Driver W → Turn W → RapTask
  found driver turn = settle_task turn.rap_done driver.rap_task

  -- A round that goes on, from a driver with the task that its state allows, leaves the task that
  -- the new state wants: none of a pending subscription, a running one of a permitted, and of a
  -- suspended none under the pause option, else the task as the round found it; the end of the
  -- PDP's stream leaves the task as found. It starts the protected stream exactly if it leaves the
  -- subscription permitted and found no running task, but for that end, and it cancels the stream
  -- exactly if it leaves the subscription suspended, with the pause option, and found a running task.
  pub take_turn-is_managed :
      (options : Options) (driver : Driver W) (turn : Turn W) (w : W)
      → is_managed options driver ≡ true
      → is_going (take_turn options driver turn w).0.ending ≡ true
      → let round = (take_turn options driver turn w).0 in
        let task = found driver turn in
        (is_managed options round.driver ≡ true)
        × (round.driver.rap_task
            ≡ (if is_pdp_end turn.item then task else wanted options task round.driver.state))
        × (starts round.outputs ≡ (
            is_permitting round.driver.state
            && (not (is_running task) && not (is_pdp_end turn.item))))
        × (cancels round.outputs ≡ (
            is_suspended round.driver.state
            && (options.pause_rap_during_suspend && is_running task)))
  unfolding take_turn advance step render continue_loop manage_rap
  take_turn-is_managed options driver turn w m g =
      (ground arith, ground arith, ground arith, ground arith)
