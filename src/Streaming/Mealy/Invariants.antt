-- ===== src/Streaming/Mealy/Invariants.antt =====
-- mealy.py, one step: which events end a subscription, and what may reach the subscriber.
use sapl_python.Prelude.{
  ◌≡◌, ◌≢◌, ◌↔◌, refl, Bool, true, false, none, some, List, [], ◌∷◌, arith, if◌then◌else◌,
}
use sapl_python.Python.Exception.{access_denied}
use sapl_python.Streaming.Mealy.{
  State, terminated, Event, pdp_deny, rap_obligation_failure, rap_complete, cancel, Emission,
  emit_error, emit_complete, step,
}

-- The events that end a subscription.
abbrev pub ends : {P : Type 0} → Event P → Bool
ends (pdp_deny _ _) = true
ends rap_obligation_failure = true
ends rap_complete = true
ends cancel = true
ends _ = false

-- What a subscriber sees of such an event.
abbrev pub farewell : {P : Type 0} → Event P → List Emission
farewell (pdp_deny decision reason) =
    emit_error (access_denied "Access denied" (some decision) reason) ∷ []
farewell rap_obligation_failure =
    emit_error (access_denied "Obligation discharge failed" none "OBLIGATION_FAILURE") ∷ []
farewell rap_complete = emit_complete ∷ []
farewell _ = []

module _ {P : Type 0} where
  -- A live subscription ends exactly at a denial, an obligation failure, a completion or a
  -- cancellation, with the one emission that belongs to that event.
  pub step-terminated :
      (s : State P) (e : Event P)
      → s ≢ terminated
      → ((step s e).state ≡ terminated ↔ (ends e ≡ true))
        × ((if ends e then (step s e).emissions else []) ≡ farewell e)
  unfolding step
  step-terminated terminated e h = absurd (h refl)
  step-terminated s e h = ground arith
