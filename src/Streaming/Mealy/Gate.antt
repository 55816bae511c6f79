-- ===== src/Streaming/Mealy/Gate.antt =====
-- mealy.py as its subscriber sees it: a protocol over emissions, without states or events.
use sapl_python.Prelude.{◌≡◌, refl, ap, Bool, true, false, List, [], ◌∷◌, arith}
use sapl_python.Streaming.Mealy.{
  State, pending, permitting, suspended, terminated, Event, Emission, emit, emit_error,
  emit_transition, emit_complete, granted_reason, suspended_reason, step, run,
}

-- What the subscriber has been told so far.
pub data Phase : Type 0 where
  waiting granted halted over : Phase

-- Values come only while access is granted; a grant follows no grant and a suspension no
-- suspension; an error or a completion is the last emission.
abbrev pub conforms : Phase → List Emission → Bool
conforms phase [] = true
conforms granted (emit _ ∷ es) = conforms granted es
conforms waiting (emit_transition (granted_reason _) ∷ es) = conforms granted es
conforms halted (emit_transition (granted_reason _) ∷ es) = conforms granted es
conforms waiting (emit_transition (suspended_reason _) ∷ es) = conforms halted es
conforms granted (emit_transition (suspended_reason _) ∷ es) = conforms halted es
conforms waiting (emit_error _ ∷ es) = conforms over es
conforms granted (emit_error _ ∷ es) = conforms over es
conforms halted (emit_error _ ∷ es) = conforms over es
conforms waiting (emit_complete ∷ es) = conforms over es
conforms granted (emit_complete ∷ es) = conforms over es
conforms halted (emit_complete ∷ es) = conforms over es
conforms _ _ = false

module _ {P : Type 0} where
  abbrev phase_of : State P → Phase
  phase_of pending = waiting
  phase_of (permitting _) = granted
  phase_of suspended = halted
  phase_of terminated = over

  pub run-silent : (es : List (Event P)) → (run terminated es).emissions ≡ []
  unfolding run step
  run-silent [] = refl
  run-silent (e ∷ es) = run-silent es

  run_from-conforms :
      (s : State P) (es : List (Event P)) → conforms (phase_of s) (run s es).emissions ≡ true
  unfolding run step
  run_from-conforms s [] = refl
  run_from-conforms terminated (e ∷ es) = ap (conforms over) (run-silent es)
  run_from-conforms s (e ∷ es) =
      ground (arith, run_from-conforms (step s e).state es, run-silent es)

  -- Whatever the events, what a new subscription emits follows the protocol: no value before a
  -- grant or after a suspension, grants and suspensions in turn, and nothing after an error or a
  -- completion.
  pub run-conforms :
      (es : List (Event P)) → conforms waiting (run {P = P} pending es).emissions ≡ true
  run-conforms es = run_from-conforms pending es
