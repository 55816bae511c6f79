-- ===== src/Streaming/Pipeline/Tests.antt =====
-- Runs of the driver, and its theorems at them.
use sapl_python.Prelude.{◌≡◌, refl, true, false, List, [], ◌∷◌, Memᴰ}
use sapl_python.Python.Value.{str}
use sapl_python.Python.Exception.{Obj, plain, permit, suspend, decision_of}
use sapl_python.Signal.{decision_signal}
use sapl_python.Plan.{execute}
use sapl_python.Planner.{plan, claims_on, admitted, iter_constraints}
use sapl_python.Streaming.Mealy.{permitting, pdp_permit, pdp_suspend, pdp_deny, rap_item, step, run}
use sapl_python.Streaming.Pipeline.{
  Turn, Item, queued, rap_end, pdp_end, no_task, running, yielded, access_granted, access_suspended,
  rap_started, rap_cancelled, pdp_cancelled, Options, Driver, returned, stream_supported, classify,
  render, advance, event_of, enforce_per_item, take_item, take_turn, drive, run_pipeline, pump_pdp,
  pump_rap, continue_loop, manage_rap,
}
use sapl_python.Streaming.Pipeline.Classify.{classify-pdp_permit, classify-unresolved}
use sapl_python.Streaming.Pipeline.Delivery.{values, values-take_turn}
use sapl_python.Streaming.Pipeline.Refinement.{visible, events_fed, visible-drive}
use sapl_python.Streaming.Pipeline.Lifecycle.{starts, cancels, is_managed, take_turn-is_managed}
use sapl_python.Samples.{Journal, providers, ruling}

program : Unit {0}
unfolding plan execute claims_on admitted iter_constraints classify render advance event_of
    enforce_per_item take_item take_turn drive run_pipeline pump_pdp pump_rap step run continue_loop
    manage_rap
program = tt

abbrev balance : Obj
balance = plain (str "balance")

abbrev turn : Item Journal → Turn Journal
turn i = record { item = i; rap_done = false }

abbrev telling : Options
telling = record { signal_transitions = true; pause_rap_during_suspend = true }

abbrev granting : Item Journal
granting = queued (
    pdp_permit (ruling permit ("redact" ∷ []))
      (plan providers (ruling permit ("redact" ∷ [])) stream_supported))

abbrev session : List (Turn Journal)
session =
    turn (queued (rap_item balance))
    ∷ turn granting
    ∷ turn (queued (rap_item balance))
    ∷ turn (queued (pdp_suspend (decision_of suspend)))
    ∷ turn (queued (rap_item balance))
    ∷ turn pdp_end
    ∷ turn rap_end
    ∷ []

run-session : (run_pipeline telling session []).0 ≡ record {
  outputs =
      access_granted (ruling permit ("redact" ∷ []))
      ∷ rap_started
      ∷ yielded (plain (str "***"))
      ∷ access_suspended (decision_of suspend)
      ∷ rap_cancelled
      ∷ pdp_cancelled
      ∷ [];
  ending = returned;
}
unfolding program
run-session = refl

abbrev permitted : Driver Journal
permitted = record {
  state = permitting (plan providers (ruling permit ("redact" ∷ [])) stream_supported);
  rap_task = running;
}

values-take_turn_example :
    values (take_turn telling permitted (turn (queued (rap_item balance))) []).0.outputs
    ≡ plain (str "***") ∷ []
unfolding plan execute claims_on admitted iter_constraints
values-take_turn_example = values-take_turn telling permitted (turn (queued (rap_item balance))) []

classify-pdp_permit_example :
    let d = ruling permit ("audit" ∷ "redact" ∷ []) in
    let p = plan providers d stream_supported in
    (d.decision ≡ permit)
    × (d ≡ d)
    × (p ≡ p)
    × ((execute p decision_signal false []).0.failure_state ≡ false)
unfolding classify execute plan claims_on admitted iter_constraints
classify-pdp_permit_example =
    let d = ruling permit ("audit" ∷ "redact" ∷ []) in
    classify-pdp_permit providers d [] d (plan providers d stream_supported) refl

classify-unresolved_example :
    let d = ruling permit ("unknown" ∷ []) in
    (classify d providers []).0 ≡ pdp_deny d "OBLIGATION_FAILURE"
unfolding claims_on admitted iter_constraints
classify-unresolved_example =
    classify-unresolved providers (ruling permit ("unknown" ∷ [])) [] (str "unknown")
      (Memᴰ.head refl) refl

visible-drive_example :
    visible (drive telling permitted session []).0.outputs
    ≡ (render true (run permitted.state (events_fed permitted.state session [])).emissions).outputs
visible-drive_example = visible-drive telling permitted session []

-- A suspension stops the running task.
take_turn-is_managed_example :
    let after = turn (queued (pdp_suspend (decision_of suspend))) in
    let round = (take_turn telling permitted after []).0 in
    (is_managed telling round.driver ≡ true)
    × (round.driver.rap_task ≡ no_task)
    × (starts round.outputs ≡ false)
    × (cancels round.outputs ≡ true)
unfolding take_turn take_item advance event_of step render continue_loop manage_rap
take_turn-is_managed_example =
    take_turn-is_managed telling permitted (turn (queued (pdp_suspend (decision_of suspend)))) []
      refl refl
