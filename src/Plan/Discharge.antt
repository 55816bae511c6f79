-- ===== src/Plan/Discharge.antt =====
-- plan.py: what an execution promises to the enforcement points that read its result.
use sapl_python.Prelude.{◌≡◌, refl, Bool, true, false, List, [], ◌∷◌, arith, any, Memᴰ}
use sapl_python.Python.Exception.{Exc}
use sapl_python.Python.Action.{raised}
use sapl_python.Signal.{runner, obligation, Signal, is_mapper}
use sapl_python.Plan.{
  PlanEntry, PlanResult, EnforcementPlan, is_obligation, run_entry, run_entries, initial_value,
  entries_for, execute,
}

module _ {W : Type 0} where
  -- A runner of an obligation that raises in every world.
  pub record AlwaysFails (e : PlanEntry W) : Type 0 where
    pub is_runner : e.shape ≡ runner
    pub binding : e.tag ≡ obligation
    pub exc : Exc
    pub next : W → W
    pub raises : (w : W) → e.handler [] w ≡ (raised exc, next w)

  run_entry-AlwaysFails :
      (e : PlanEntry W) (r : PlanResult) (w : W)
      → AlwaysFails e
      → (run_entry e r w).0.failure_state ≡ true
  unfolding run_entry
  run_entry-AlwaysFails e r w h = ground (arith, h.raises w)

  -- A failure is never taken back.
  run_entry_sticky :
      (e : PlanEntry W) (r : PlanResult) (w : W)
      → r.failure_state ≡ true
      → (run_entry e r w).0.failure_state ≡ true
  unfolding run_entry
  run_entry_sticky e r w h = ground arith

  run_entries_sticky :
      (es : List (PlanEntry W)) (r : PlanResult) (w : W)
      → r.failure_state ≡ true
      → (run_entries es r w).0.failure_state ≡ true
  unfolding run_entries
  run_entries_sticky [] r w h = h
  run_entries_sticky (e ∷ es) r w h =
      run_entries_sticky es (run_entry e r w).0 (run_entry e r w).1 (run_entry_sticky e r w h)

  run_entries-AlwaysFails :
      (es : List (PlanEntry W)) (e : PlanEntry W) (r : PlanResult) (w : W)
      → Memᴰ e es
      → AlwaysFails e
      → (run_entries es r w).0.failure_state ≡ true
  unfolding run_entries
  run_entries-AlwaysFails [] e r w m h = elim m [ ]
  run_entries-AlwaysFails (x ∷ es) e r w (Memᴰ.head p) h =
      run_entries_sticky es (run_entry x r w).0 (run_entry x r w).1
        (rw p at (run_entry-AlwaysFails e r w h))
  run_entries-AlwaysFails (x ∷ es) e r w (Memᴰ.tail m) h =
      run_entries-AlwaysFails es e (run_entry x r w).0 (run_entry x r w).1 m h

  -- One always failing obligation at a signal makes every execution of that signal fail, whatever
  -- else is scheduled there.
  pub execute-AlwaysFails :
      (plan : EnforcementPlan W) (signal : Signal) (prior : Bool) (w : W) (e : PlanEntry W)
      → Memᴰ e (entries_for plan signal.kind)
      → AlwaysFails e
      → (execute plan signal prior w).0.failure_state ≡ true
  unfolding execute
  execute-AlwaysFails plan signal prior w e m h =
      run_entries-AlwaysFails (entries_for plan signal.kind) e _ w m h

  run_entries-advice :
      (es : List (PlanEntry W)) (r : PlanResult) (w : W)
      → any (λ (e : PlanEntry W). is_obligation e.tag) es ≡ false
      → (run_entries es r w).0.failure_state ≡ r.failure_state
  unfolding run_entries run_entry
  run_entries-advice [] r w h = refl
  run_entries-advice (e ∷ es) r w h =
      ground (arith, run_entries-advice es (run_entry e r w).0 (run_entry e r w).1)

  run_entries-observers :
      (es : List (PlanEntry W)) (r : PlanResult) (w : W)
      → any (λ (e : PlanEntry W). is_mapper e.shape) es ≡ false
      → (run_entries es r w).0.value ≡ r.value
  unfolding run_entries run_entry
  run_entries-observers [] r w h = refl
  run_entries-observers (e ∷ es) r w h =
      ground (arith, run_entries-observers es (run_entry e r w).0 (run_entry e r w).1)

  -- A signal at which only advice is scheduled adds no failure.
  execute-advice :
      (plan : EnforcementPlan W) (signal : Signal) (prior : Bool) (w : W)
      → any (λ (e : PlanEntry W). is_obligation e.tag) (entries_for plan signal.kind) ≡ false
      → (execute plan signal prior w).0.failure_state ≡ prior
  unfolding execute
  execute-advice plan signal prior w h = run_entries-advice (entries_for plan signal.kind) _ w h

  -- A signal without mappers leaves the value as it was.
  execute-observers :
      (plan : EnforcementPlan W) (signal : Signal) (prior : Bool) (w : W)
      → any (λ (e : PlanEntry W). is_mapper e.shape) (entries_for plan signal.kind) ≡ false
      → (execute plan signal prior w).0.value ≡ initial_value signal
  unfolding execute
  execute-observers plan signal prior w h =
      run_entries-observers (entries_for plan signal.kind) _ w h

  -- A failure from before stays.
  pub execute_sticky :
      (plan : EnforcementPlan W) (signal : Signal) (w : W)
      → (execute plan signal true w).0.failure_state ≡ true
  unfolding execute
  execute_sticky plan signal w = run_entries_sticky (entries_for plan signal.kind) _ w refl
