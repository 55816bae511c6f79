-- ===== src/Streaming/Pipeline/Refinement.antt =====
-- pipeline.py against mealy.py: what the driver yields, and the events it feeds to the machine.
use sapl_python.Prelude.{◌≡◌, refl, ap, List, [], ◌∷◌, ◌++◌, arith}
use sapl_python.Plan.{EnforcementPlan}
use sapl_python.Streaming.Mealy.{State, Event, rap_complete, step, run}
use sapl_python.Streaming.Mealy.Gate.{run-silent}
use sapl_python.Streaming.Pipeline.{
  Item, queued, pdp_end, rap_end, rap_error, Turn, Output, yielded, access_granted,
  access_suspended, rap_started, rap_cancelled, pdp_cancelled, Options, Driver, render, advance,
  event_of, take_turn, take_item, drive, Rendered, settle_task, extend,
}

-- What the subscriber sees of the outputs.
abbrev pub visible : List Output → List Output
visible [] = []
visible (rap_started ∷ os) = visible os
visible (rap_cancelled ∷ os) = visible os
visible (pdp_cancelled ∷ os) = visible os
visible (o ∷ os) = o ∷ visible os

visible-append : (xs ys : List Output) → visible (xs ++ ys) ≡ visible xs ++ visible ys
visible-append [] ys = refl
visible-append (rap_started ∷ xs) ys = visible-append xs ys
visible-append (rap_cancelled ∷ xs) ys = visible-append xs ys
visible-append (pdp_cancelled ∷ xs) ys = visible-append xs ys
visible-append (yielded v ∷ xs) ys = ap (yielded v ∷◌) (visible-append xs ys)
visible-append (access_granted d ∷ xs) ys = ap (access_granted d ∷◌) (visible-append xs ys)
visible-append (access_suspended d ∷ xs) ys = ap (access_suspended d ∷◌) (visible-append xs ys)

module _ {W : Type 0} where
  -- The events of an item, and those of the turns behind it.
  abbrev pub feed :
      State (EnforcementPlan W)
      → Item W
      → W
      → (State (EnforcementPlan W) → W → List (Event (EnforcementPlan W)))
      → List (Event (EnforcementPlan W))
  feed state pdp_end w rest = rest state w
  feed state (rap_error _) w rest = []
  feed state rap_end w rest = rap_complete ∷ rest (step state rap_complete).state w
  feed state (queued event) w rest =
      let (e, w') = event_of state event w in e ∷ rest (step state e).state w'

  -- The events that the driver feeds to the machine.
  abbrev pub events_fed :
      State (EnforcementPlan W) → List (Turn W) → W → List (Event (EnforcementPlan W))
  events_fed state [] w = []
  events_fed state (turn ∷ turns) w = feed state turn.item w (λ next w'. events_fed next turns w')

  -- A round that handles an event, and what follows it.
  advance_then :
      (options : Options) (driver : Driver W) (e : Event (EnforcementPlan W))
      (es : List (Event (EnforcementPlan W))) (rest : Rendered × W) (w : W)
      → visible rest.0.outputs
        ≡ (render options.signal_transitions (run (step driver.state e).state es).emissions).outputs
      → visible (extend (advance options driver e) w rest).0.outputs
        ≡ (render options.signal_transitions (run driver.state (e ∷ es)).emissions).outputs
  unfolding advance render step run
  advance_then options driver e es rest w h =
      grind (arith, visible-append, run-silent {P = EnforcementPlan W} es)

  state-advance :
      (options : Options) (driver : Driver W) (e : Event (EnforcementPlan W))
      → (advance options driver e).driver.state ≡ (step driver.state e).state
  unfolding advance render step
  state-advance options driver e = ground arith

  visible_event :
      (options : Options) (driver : Driver W) (e : Event (EnforcementPlan W)) (w : W)
      (drive_on : Driver W → W → Rendered × W)
      (rest : State (EnforcementPlan W) → W → List (Event (EnforcementPlan W)))
      → ((next : Driver W) (w' : W)
          → visible (drive_on next w').0.outputs
            ≡ (render options.signal_transitions
                (run next.state (rest next.state w')).emissions).outputs)
      → visible (let p = advance options driver e in extend p w (drive_on p.driver w)).0.outputs
        ≡ (render options.signal_transitions
            (run driver.state (e ∷ rest (step driver.state e).state w)).emissions).outputs
  visible_event options driver e w drive_on rest ih =
      let known = ih (advance options driver e).driver w in
      let reached = state-advance options driver e in
      advance_then options driver e (rest (step driver.state e).state w)
        (drive_on (advance options driver e).driver w) w cc

  visible_item :
      (options : Options) (driver : Driver W) (item : Item W) (w : W)
      (drive_on : Driver W → W → Rendered × W)
      (rest : State (EnforcementPlan W) → W → List (Event (EnforcementPlan W)))
      → ((next : Driver W) (w' : W)
          → visible (drive_on next w').0.outputs
            ≡ (render options.signal_transitions
                (run next.state (rest next.state w')).emissions).outputs)
      → visible
          (let (p, w') = take_item options driver item w in
            extend p w' (drive_on p.driver w')).0.outputs
        ≡ (render options.signal_transitions
            (run driver.state (feed driver.state item w rest)).emissions).outputs
  unfolding take_item render run
  visible_item options driver pdp_end w drive_on rest ih = ih driver w
  visible_item options driver (rap_error e) w drive_on rest ih = ground arith
  visible_item options driver rap_end w drive_on rest ih =
      visible_event options driver rap_complete w drive_on rest ih
  visible_item options driver (queued event) w drive_on rest ih =
      let (e, w') = event_of driver.state event w in
      visible_event options driver e w' drive_on rest ih

  -- Whatever arrives and in whatever order, what a driver yields to the subscriber, values and
  -- boundary signals in their order, is the rendering of what the state machine emits on the events
  -- of the turns.
  pub visible-drive :
      (options : Options) (driver : Driver W) (turns : List (Turn W)) (w : W)
      → visible (drive options driver turns w).0.outputs
        ≡ (render options.signal_transitions
            (run driver.state (events_fed driver.state turns w)).emissions).outputs
  unfolding drive take_turn render run
  visible-drive options driver [] w = refl
  visible-drive options driver (turn ∷ turns) w =
      visible_item options (record driver { rap_task = settle_task turn.rap_done driver.rap_task })
        turn.item w (λ next w'. drive options next turns w') (λ next w'. events_fed next turns w')
        (λ next w'. visible-drive options next turns w')
