-- ===== src/Streaming/Mealy/Tests.antt =====
-- Runs of the state machine, and its theorems at them.
use sapl_python.Prelude.{◌≡◌, ◌↔◌, refl, true, List, [], ◌∷◌, if◌then◌else◌, ℕ}
use sapl_python.Python.Value.{str}
use sapl_python.Python.Exception.{Obj, plain, permit, suspend, deny, decision_of}
use sapl_python.Streaming.Mealy.{
  pending, terminated, Event, pdp_permit, pdp_suspend, pdp_deny, rap_item, rap_complete, emit,
  emit_transition, emit_complete, granted_reason, suspended_reason, step, run,
}
use sapl_python.Streaming.Mealy.Invariants.{ends, farewell, step-terminated}
use sapl_python.Streaming.Mealy.Traces.{authorized, item_delivered_iff_authorized}
use sapl_python.Streaming.Mealy.Gate.{conforms, waiting, run-conforms}

abbrev item : Obj
item = plain (str "a")

-- The plan is a number here.
abbrev session : List (Event ℕ)
session =
    rap_item item
    ∷ pdp_permit (decision_of permit) 1
    ∷ rap_item item
    ∷ pdp_permit (decision_of permit) 2
    ∷ pdp_suspend (decision_of suspend)
    ∷ rap_item item
    ∷ rap_complete
    ∷ rap_item item
    ∷ []

run-session :
    (run pending session).emissions
    ≡ emit_transition (granted_reason (decision_of permit))
      ∷ emit item
      ∷ emit_transition (suspended_reason (decision_of suspend))
      ∷ emit_complete
      ∷ []
unfolding run step
run-session = refl

step-terminated_example :
    let e : Event ℕ = pdp_deny (decision_of deny) "VERB_DENY" in
    ((step pending e).state ≡ terminated ↔ (ends e ≡ true))
    × ((if ends e then (step pending e).emissions else []) ≡ farewell e)
step-terminated_example =
    step-terminated pending (pdp_deny (decision_of deny) "VERB_DENY") (λ p. cc)

item_delivered_example :
    (step (run pending session).state (rap_item item)).emissions
    ≡ (if authorized session then emit item ∷ [] else [])
item_delivered_example = item_delivered_iff_authorized session item

run-conforms_example : conforms waiting (run pending session).emissions ≡ true
run-conforms_example = run-conforms session
