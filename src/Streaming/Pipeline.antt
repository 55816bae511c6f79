-- ===== src/Streaming/Pipeline.antt =====
-- sapl_base/src/sapl_base/pep/streaming/pipeline.py: the driver of a subscription. Its queue is a
-- list of turns: an item, and whether the protected stream's task has ended by itself by the time
-- the driver manages it in that round. Handlers act on the world when a decision is classified and
-- when an item is enforced.
pub mod Classify
pub mod Delivery
pub mod Refinement
pub mod Lifecycle
mod Tests
use sapl_python.Prelude.{
  String, Bool, true, false, List, [], ◌∷◌, ◌++◌, Option, none, some, if◌then◌else◌, ◌&&◌, not,
}
use sapl_python.Python.Exception.{
  Decision, permit, deny, indeterminate, not_applicable, suspend, AuthorizationDecision,
  decision_of, Exc, Obj, absent,
}
use sapl_python.Signal.{
  SignalKind, Provider, decision_kind, output_kind, error_kind, decision_signal, output_signal,
}
use sapl_python.Plan.{PlanResult, EnforcementPlan, execute, is_absent}
use sapl_python.Planner.{plan}
use sapl_python.Enforce.{verb_reason}
use sapl_python.Streaming.Mealy.{
  State, pending, permitting, suspended, terminated, Event, pdp_permit, pdp_suspend, pdp_deny,
  rap_item, rap_epsilon, rap_obligation_failure, rap_complete, cancel, TransitionReason,
  granted_reason, suspended_reason, Emission, emit, emit_error, emit_transition, emit_complete,
  Step, step,
}

abbrev pub complete_kind : SignalKind
complete_kind = record { name = "complete"; data_carrying = false }

abbrev pub cancel_kind : SignalKind
cancel_kind = record { name = "cancel"; data_carrying = false }

abbrev pub termination_kind : SignalKind
termination_kind = record { name = "termination"; data_carrying = false }

abbrev pub stream_supported : List SignalKind
stream_supported =
    decision_kind ∷ output_kind ∷ error_kind ∷ complete_kind ∷ cancel_kind ∷ termination_kind ∷ []

-- What the pumps put into the queue.
pub data Item (W : Type 0) : Type 0 where
  queued : Event (EnforcementPlan W) → Item W
  pdp_end : Item W
  rap_end : Item W
  rap_error : Exc → Item W

pub record Turn (W : Type 0) : Type 0 where
  pub item : Item W
  pub rap_done : Bool

-- `rap_task`: None, a running task, or one that is done.
pub data RapTask : Type 0 where
  no_task running done : RapTask

-- What happens outside: a value or a boundary signal is yielded, the protected stream is started
-- or cancelled.
pub data Output : Type 0 where
  yielded : Obj → Output
  access_granted : AuthorizationDecision → Output
  access_suspended : AuthorizationDecision → Output
  rap_started rap_cancelled pdp_cancelled : Output

-- Whether the generator goes on, has returned or has raised.
pub data Ending : Type 0 where
  going returned : Ending
  raised : Exc → Ending

pub record Options : Type 0 where
  pub signal_transitions : Bool
  pub pause_rap_during_suspend : Bool

pub record Driver (W : Type 0) : Type 0 where
  pub state : State (EnforcementPlan W)
  pub rap_task : RapTask

-- The outputs of a part of the loop, and whether it ended the loop.
pub record Rendered : Type 0 where
  pub outputs : List Output
  pub ending : Ending

-- `_render_transition`
abbrev pub render_transition : TransitionReason → Output
render_transition (granted_reason d) = access_granted d
render_transition (suspended_reason d) = access_suspended d

-- The loop over the emissions of a step: an error or a completion leaves it at once.
unfoldable pub render : Bool → List Emission → Rendered
render signals [] = record { outputs = []; ending = going }
render signals (emit v ∷ es) =
    let rest = render signals es in record rest { outputs = yielded v ∷ rest.outputs }
render signals (emit_error e ∷ es) = record { outputs = []; ending = raised e }
render signals (emit_transition reason ∷ es) =
    let rest = render signals es in
    if signals then record rest { outputs = render_transition reason ∷ rest.outputs } else rest
render signals (emit_complete ∷ es) = record { outputs = []; ending = returned }

-- `_ensure_rap_started`
abbrev pub ensure_rap_started : RapTask → List Output × RapTask
ensure_rap_started running = ([], running)
ensure_rap_started no_task = (rap_started ∷ [], running)
ensure_rap_started done = (rap_started ∷ [], running)

-- `_stop_rap`
abbrev pub stop_rap : RapTask → List Output × RapTask
stop_rap running = (rap_cancelled ∷ [], no_task)
stop_rap no_task = ([], no_task)
stop_rap done = ([], no_task)

module _ {W : Type 0} where
  -- `_classify`
  unfoldable pub classify :
      AuthorizationDecision → List (Provider W) → W → Event (EnforcementPlan W) × W
  classify d providers w =
      let p = plan providers d stream_supported in
      let (r, w') = execute p decision_signal false w in
      (
        elim d.decision [
          | permit ↦ if r.failure_state then pdp_deny d "OBLIGATION_FAILURE" else pdp_permit d p
          | suspend ↦ pdp_suspend d
          | _ ↦ pdp_deny d (verb_reason d.decision)
        ],
        w',
      )

  -- The events for a result of the OUTPUT stage.
  abbrev enforced_event : PlanResult → Event (EnforcementPlan W)
  enforced_event r =
      if r.failure_state
      then rap_obligation_failure
      else if is_absent r.value
      then rap_epsilon
      else rap_item r.value

  -- `_enforce_per_item`
  unfoldable pub enforce_per_item :
      State (EnforcementPlan W) → Obj → W → Event (EnforcementPlan W) × W
  enforce_per_item (permitting p) value w =
      let (r, w') = execute p (output_signal value) false w in (enforced_event r, w')
  enforce_per_item _ value w = (rap_epsilon, w)

  -- The event of an item that is neither an end of the PDP's stream nor a stream error.
  unfoldable pub event_of :
      State (EnforcementPlan W) → Event (EnforcementPlan W) → W → Event (EnforcementPlan W) × W
  event_of state (rap_item value) w = enforce_per_item state value w
  event_of state event w = (event, w)

  -- `_manage_rap`
  unfoldable pub manage_rap :
      Bool → State (EnforcementPlan W) → State (EnforcementPlan W) → RapTask → List Output × RapTask
  manage_rap pause prior (permitting _) task = ensure_rap_started task
  manage_rap pause suspended suspended task = ([], task)
  manage_rap pause prior suspended task = if pause then stop_rap task else ([], task)
  manage_rap pause prior next task = ([], task)

-- The state of the driver behind a part of the loop, and what that part put out.
pub record Progress (W : Type 0) : Type 0 where
  pub driver : Driver W
  pub outputs : List Output
  pub ending : Ending

-- The task of the protected stream may have ended by itself.
abbrev pub settle_task : Bool → RapTask → RapTask
settle_task true running = done
settle_task _ task = task

-- The `finally` block.
abbrev pub clean_up : RapTask → List Output
clean_up task = pdp_cancelled ∷ (stop_rap task).0

abbrev pub is_going : Ending → Bool
is_going going = true
is_going _ = false

module _ {W : Type 0} where
  abbrev pub is_terminated : State (EnforcementPlan W) → Bool
  is_terminated terminated = true
  is_terminated _ = false

  -- Behind the rendering of a step that did not leave the loop.
  continue_loop : Options → Driver W → State (EnforcementPlan W) → List Output → Progress W
  unfolding manage_rap
  continue_loop options driver next outputs =
      let (changes, task) =
        manage_rap options.pause_rap_during_suspend driver.state next driver.rap_task in
      if is_terminated next
      then record { driver = record driver { state = next }; outputs = outputs; ending = returned }
      else record {
        driver = record { state = next; rap_task = task };
        outputs = outputs ++ changes;
        ending = going;
      }

  -- One event: step the machine, render its emissions, and manage the protected stream.
  unfoldable pub advance : Options → Driver W → Event (EnforcementPlan W) → Progress W
  unfolding continue_loop render
  advance options driver event =
      let s = step driver.state event in
      let r = render options.signal_transitions s.emissions in
      elim r.ending [
        | going ↦ continue_loop options driver s.state r.outputs
        | returned ↦ record {
          driver = record driver { state = s.state };
          outputs = r.outputs;
          ending = returned;
        }
        | raised e ↦ record {
          driver = record driver { state = s.state };
          outputs = r.outputs;
          ending = raised e;
        }
      ]

  unfoldable pub take_item : Options → Driver W → Item W → W → Progress W × W
  unfolding event_of enforce_per_item
  take_item options driver pdp_end w = (record { driver = driver; outputs = []; ending = going }, w)
  take_item options driver (rap_error e) w =
      (record { driver = driver; outputs = []; ending = raised e }, w)
  take_item options driver rap_end w = (advance options driver rap_complete, w)
  take_item options driver (queued event) w =
      let (e, w') = event_of driver.state event w in (advance options driver e, w')

  -- One round of the `while` loop.
  unfoldable pub take_turn : Options → Driver W → Turn W → W → Progress W × W
  unfolding take_item
  take_turn options driver turn w =
      take_item options (record driver { rap_task = settle_task turn.rap_done driver.rap_task })
        turn.item w

  abbrev pub finish : Progress W → List Output
  finish p = elim p.ending [ going ↦ [] | _ ↦ clean_up p.driver.rap_task ]

  -- A round and what follows it: another round, or the `finally` block.
  abbrev pub extend : Progress W → W → Rendered × W → Rendered × W
  extend p w rest =
      if is_going p.ending
      then (record { outputs = p.outputs ++ rest.0.outputs; ending = rest.0.ending }, rest.1)
      else (record { outputs = p.outputs ++ finish p; ending = p.ending }, w)

  -- The loop over the turns, as far as they are known. It ends by itself or waits for the queue.
  unfoldable pub drive : Options → Driver W → List (Turn W) → W → Rendered × W
  unfolding take_turn
  drive options driver [] w = (record { outputs = []; ending = going }, w)
  drive options driver (turn ∷ turns) w =
      let (p, w') = take_turn options driver turn w in
      let rest = drive options p.driver turns w' in extend p w' rest

  unfoldable pub run_pipeline : Options → List (Turn W) → W → Rendered × W
  unfolding drive
  run_pipeline options turns w =
      drive options (record { state = pending; rap_task = no_task }) turns w

  -- `_pump_pdp`: the decisions that arrived, and how their stream ended.
  unfoldable pub pump_pdp :
      List AuthorizationDecision → Option Exc → List (Provider W) → W → List (Item W) × W
  unfolding classify
  pump_pdp [] none providers w = (pdp_end ∷ [], w)
  pump_pdp [] (some e) providers w =
      (queued (pdp_deny (decision_of indeterminate) "PDP_PUMP_ERROR") ∷ [], w)
  pump_pdp (d ∷ ds) end providers w =
      let (event, w') = classify d providers w in
      let (rest, w'') = pump_pdp ds end providers w' in (queued event ∷ rest, w'')

  -- `_pump_rap`
  unfoldable pub pump_rap : List Obj → Option Exc → List (Item W)
  pump_rap [] none = rap_end ∷ []
  pump_rap [] (some e) = rap_error e ∷ []
  pump_rap (v ∷ vs) end = queued (rap_item v) ∷ pump_rap vs end
