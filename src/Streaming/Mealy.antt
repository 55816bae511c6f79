-- ===== src/Streaming/Mealy.antt =====
-- sapl_base/src/sapl_base/pep/streaming/mealy.py: states, events, emissions and the total `step`.
-- A singleton class is a constructor, `isinstance` a match, and the plan of a PERMIT is a
-- parameter: the machine only stores it.
pub mod Invariants
pub mod Traces
pub mod Gate
mod Tests
use sapl_python.Prelude.{String, none, some, List, [], ◌∷◌, ◌++◌}
use sapl_python.Python.Exception.{AuthorizationDecision, Exc, access_denied, Obj}

pub data State (P : Type 0) : Type 0 where
  pending : State P
  permitting : P → State P
  suspended : State P
  terminated : State P

pub data Event (P : Type 0) : Type 0 where
  pdp_permit : AuthorizationDecision → P → Event P
  pdp_suspend : AuthorizationDecision → Event P
  pdp_deny : AuthorizationDecision → String → Event P
  rap_item : Obj → Event P
  rap_epsilon : Event P
  rap_obligation_failure : Event P
  rap_complete : Event P
  cancel : Event P

pub data TransitionReason : Type 0 where
  granted_reason : AuthorizationDecision → TransitionReason
  suspended_reason : AuthorizationDecision → TransitionReason

pub data Emission : Type 0 where
  emit : Obj → Emission
  emit_error : Exc → Emission
  emit_transition : TransitionReason → Emission
  emit_complete : Emission

pub record Step (P : Type 0) : Type 0 where
  pub state : State P
  pub emissions : List Emission

module _ {P : Type 0} where
  on_pdp_permit : State P → AuthorizationDecision → P → Step P
  on_pdp_permit (permitting _) decision plan = record { state = permitting plan; emissions = [] }
  on_pdp_permit _ decision plan = record {
    state = permitting plan;
    emissions = emit_transition (granted_reason decision) ∷ [];
  }

  on_pdp_suspend : State P → AuthorizationDecision → Step P
  on_pdp_suspend suspended decision = record { state = suspended; emissions = [] }
  on_pdp_suspend _ decision = record {
    state = suspended;
    emissions = emit_transition (suspended_reason decision) ∷ [];
  }

  on_pdp_deny : AuthorizationDecision → String → Step P
  on_pdp_deny decision reason = record {
    state = terminated;
    emissions = emit_error (access_denied "Access denied" (some decision) reason) ∷ [];
  }

  on_rap_item : State P → Obj → Step P
  on_rap_item (permitting plan) value = record {
    state = permitting plan;
    emissions = emit value ∷ [];
  }
  on_rap_item state value = record { state = state; emissions = [] }

  on_rap_obligation_failure : Step P
  on_rap_obligation_failure = record {
    state = terminated;
    emissions =
        emit_error (access_denied "Obligation discharge failed" none "OBLIGATION_FAILURE") ∷ [];
  }

  -- The first test of `step` is on the state, so that `terminated` absorbs every event.
  dispatch : State P → Event P → Step P
  unfolding on_pdp_permit on_pdp_suspend on_pdp_deny on_rap_item on_rap_obligation_failure
  dispatch state (pdp_permit decision plan) = on_pdp_permit state decision plan
  dispatch state (pdp_suspend decision) = on_pdp_suspend state decision
  dispatch state (pdp_deny decision reason) = on_pdp_deny decision reason
  dispatch state (rap_item value) = on_rap_item state value
  dispatch state rap_epsilon = record { state = state; emissions = [] }
  dispatch state rap_obligation_failure = on_rap_obligation_failure
  dispatch state rap_complete = record { state = terminated; emissions = emit_complete ∷ [] }
  dispatch state cancel = record { state = terminated; emissions = [] }

  unfoldable pub step : State P → Event P → Step P
  unfolding dispatch
  step terminated event = record { state = terminated; emissions = [] }
  step pending event = dispatch pending event
  step (permitting plan) event = dispatch (permitting plan) event
  step suspended event = dispatch suspended event

  -- A run over a sequence of events: the last state and everything that was emitted.
  unfoldable pub run : State P → List (Event P) → Step P
  run state [] = record { state = state; emissions = [] }
  run state (event ∷ events) =
      let s = step state event in
      let rest = run s.state events in
      record { state = rest.state; emissions = s.emissions ++ rest.emissions }
