-- ===== src/Planner/Tests.antt =====
-- Plans for small decisions.
use sapl_python.Prelude.{
  ◌≡◌, refl, Bool, true, false, List, [], ◌∷◌, ◌++◌, arith, some, ◌⊎◌, All, Memᴰ,
}
use sapl_python.Python.Value.{str}
use sapl_python.Python.Exception.{permit}
use sapl_python.Signal.{ScopedHandler, obligation, decision_signal, output_kind}
use sapl_python.Plan.{entries_for, execute}
use sapl_python.Planner.{plan, claims_on, admitted, iter_constraints}
use sapl_python.Planner.Gathering.{entry_of}
use sapl_python.Planner.FailClosed.{plan-fails_closed}
use sapl_python.Planner.Contested.{plan-contested}
use sapl_python.Enforce.{post_enforce_supported}
use sapl_python.Samples.{Journal, providers, ruling}

program : Unit {0}
unfolding plan execute
program = tt

-- Two mappers of one priority do not commute: both are displaced, and two failures are scheduled.
not_commuting :
    let p =
      plan providers
        (ruling permit ("redact" ∷ "audit" ∷ "withhold" ∷ []))
        post_enforce_supported in
    (entries_for p output_kind ≡ []) × ((execute p decision_signal false []).0.failure_state ≡ true)
unfolding program
not_commuting = (refl, refl)

plan-fails_closed_example :
    let p = plan providers (ruling permit ("redact" ∷ "audit" ∷ [])) post_enforce_supported in
    ((prior : Bool) (w : Journal) → (execute p decision_signal prior w).0.failure_state ≡ true)
    ⊎ ((claim : List (ScopedHandler Journal)) × (admitted
            (claims_on providers (str "audit"))
            obligation
            post_enforce_supported
          ≡ some claim)
        × All (λ h. Memᴰ (entry_of (str "audit") obligation h) (entries_for p h.signal)) claim)
unfolding iter_constraints
plan-fails_closed_example =
    plan-fails_closed providers (ruling permit ("redact" ∷ "audit" ∷ [])) post_enforce_supported
      (str "audit") (Memᴰ.tail (Memᴰ.head refl))

plan-contested_example :
    (execute
      (plan
        (providers ++ providers)
        (ruling permit ("redact" ∷ "audit" ∷ []))
        post_enforce_supported)
      decision_signal
      false
      []).0.failure_state
    ≡ true
unfolding iter_constraints
plan-contested_example =
    plan-contested (providers ++ providers) (ruling permit ("redact" ∷ "audit" ∷ []))
      post_enforce_supported (str "audit") false [] (Memᴰ.tail (Memᴰ.head refl)) (omega arith)
