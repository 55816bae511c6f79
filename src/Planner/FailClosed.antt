-- ===== src/Planner/FailClosed.antt =====
-- planner.py: obligations and the decision signal.
use sapl_python.Prelude.{
  ◌≡◌, Bool, true, List, [], ◌∷◌, Memᴰ, Bool-cases, ◌⊎◌, inl, inr, some, map, all_or_else, All,
  All-of_mem,
}
use sapl_python.Python.Value.{Value}
use sapl_python.Python.Exception.{AuthorizationDecision}
use sapl_python.Signal.{
  SignalKind, kind_eq, obligation, advice, ScopedHandler, Provider, decision_kind, decision_signal,
}
use sapl_python.Plan.{PlanEntry, PerSignal, EnforcementPlan, get, entries_for, execute}
use sapl_python.Plan.Lookup.{mem-entries_for-new}
use sapl_python.Plan.Discharge.{AlwaysFails, execute-AlwaysFails}
use sapl_python.Planner.{
  iter_constraints, sort, make_synthetic_entry, append_entry, put, claims_on, admitted,
  split_non_commuting_mappers, append_failures, arrange_kind, arrange, gather, plan,
}
use sapl_python.Planner.Store.{get-put, get-kind_eq}
use sapl_python.Planner.Sorting.{mem-sort}
use sapl_python.Planner.Mappers.{split-mem}
use sapl_python.Planner.Gathering.{
  entry_of, Doomed, Grows, Settled, synthetic-AlwaysFails, append_entry-Grows, append_entry-mem,
  resolve_all-Grows, Grows-Settled, resolve_all-Settled,
}

module _ {W : Type 0} where
  -- The last loop loses an entry only by binding the decision signal to fail.
  record Survives (a b : PerSignal W) : Type 0 where
    entries : (k : SignalKind) (e : PlanEntry W) → Memᴰ e (get k a) → Memᴰ e (get k b) ⊎ Doomed b
    failures : Doomed a → Doomed b

  append_failures-Grows :
      (es : List (PlanEntry W)) (per : PerSignal W) → Grows per (append_failures es per)
  unfolding append_failures
  append_failures-Grows [] per k e m = m
  append_failures-Grows (x ∷ es) per k e m =
      let y = make_synthetic_entry x.constraint obligation "NON_COMMUTING" in
      append_failures-Grows es (append_entry decision_kind y per) k e
        (append_entry-Grows decision_kind y per k e m)

  append_failures-Doomed :
      (e : PlanEntry W) (es : List (PlanEntry W)) (per : PerSignal W)
      → Memᴰ e es
      → Doomed (append_failures es per)
  unfolding append_failures
  append_failures-Doomed e [] per m = elim m [ ]
  append_failures-Doomed e (x ∷ es) per m =
      let y = make_synthetic_entry x.constraint obligation "NON_COMMUTING" in
      (
        y,
        append_failures-Grows es (append_entry decision_kind y per) decision_kind y
            (append_entry-mem decision_kind y per),
        synthetic-AlwaysFails x.constraint "NON_COMMUTING",
      )

  arrange_kind-entries :
      (kind : SignalKind) (per : PerSignal W) (k : SignalKind) (e : PlanEntry W)
      → Memᴰ e (get k per)
      → Memᴰ e (get k (arrange_kind kind per)) ⊎ Doomed (arrange_kind kind per)
  unfolding arrange_kind
  arrange_kind-entries kind per k e m =
      let s = split_non_commuting_mappers (sort (get kind per)) in
      let after = put kind s.kept per in
      elim (Bool-cases (kind_eq kind k)) [
        | inl p ↦
            let found = mem-sort (get kind per) (rw (get-kind_eq kind k per p) m) in
            elim (split-mem e (sort (get kind per)) found).0 [
              | inl kept ↦
                  inl (append_failures-Grows s.displaced after k e (rw get-put (rw p kept)))
              | inr gone ↦ inr (append_failures-Doomed e s.displaced after gone)
            ]
        | inr p ↦ inl (append_failures-Grows s.displaced after k e (rw get-put (rw p m)))
      ]

  arrange_kind-failures :
      (kind : SignalKind) (per : PerSignal W) → Doomed per → Doomed (arrange_kind kind per)
  unfolding arrange_kind
  arrange_kind-failures kind per (e, m, f) =
      let s = split_non_commuting_mappers (sort (get kind per)) in
      let after = put kind s.kept per in
      elim (Bool-cases (kind_eq kind decision_kind)) [
        | inl p ↦
            let found = mem-sort (get kind per) (rw (get-kind_eq kind decision_kind per p) m) in
            let kept = (split-mem e (sort (get kind per)) found).1 (rw f.is_runner) in
            (e, append_failures-Grows s.displaced after decision_kind e (rw get-put (rw p kept)), f)
        | inr p ↦
            (e, append_failures-Grows s.displaced after decision_kind e (rw get-put (rw p m)), f)
      ]

  arrange-Survives :
      (kinds : List SignalKind) (per : PerSignal W) → Survives per (arrange kinds per)
  unfolding arrange
  arrange-Survives [] per = record { entries = λ k e m. inl m; failures = λ d. d }
  arrange-Survives (kind ∷ kinds) per =
      let rest = arrange-Survives kinds (arrange_kind kind per) in
      record {
        entries = λ k e m. elim (arrange_kind-entries kind per k e m) [
          | inl n ↦ rest.entries k e n
          | inr d ↦ inr (rest.failures d)
        ];
        failures = λ d. rest.failures (arrange_kind-failures kind per d);
      }

  gather-Settled :
      (ps : List (Provider W)) (d : AuthorizationDecision) (supported : List SignalKind) (c : Value)
      → Memᴰ c (iter_constraints d.obligations)
      → Settled ps c supported (gather ps d supported)
  unfolding gather
  gather-Settled ps d supported c m =
      Grows-Settled ps c supported _ _
        (resolve_all-Grows ps (iter_constraints d.advice) advice supported _)
        (resolve_all-Settled ps c (iter_constraints d.obligations) supported _ m)

  fails_always :
      (p : EnforcementPlan W) (e : PlanEntry W)
      → Memᴰ e (entries_for p decision_kind)
      → AlwaysFails e
      → (prior : Bool) (w : W) → (execute p decision_signal prior w).0.failure_state ≡ true
  fails_always p e m f prior w = execute-AlwaysFails p decision_signal prior w e m f

  -- Every obligation of a decision, whatever the providers and the supported signals: either each
  -- execution of the decision signal fails, or exactly one provider claims the obligation with
  -- well-formed handlers, and each of these is scheduled at its signal as an obligation.
  pub plan-fails_closed :
      (providers : List (Provider W)) (decision : AuthorizationDecision)
      (supported : List SignalKind) (c : Value)
      → Memᴰ c (iter_constraints decision.obligations)
      → let p = plan providers decision supported in
        ((prior : Bool) (w : W) → (execute p decision_signal prior w).0.failure_state ≡ true)
        ⊎ ((claim : List (ScopedHandler W)) × (admitted (claims_on providers c) obligation supported
              ≡ some claim)
            × All (λ h. Memᴰ (entry_of c obligation h) (entries_for p h.signal)) claim)
  unfolding plan
  plan-fails_closed ps d supported c m =
      let start = gather ps d supported in
      let kinds = map (λ (kind, es). kind) start in
      let final = arrange kinds start in
      let kept = arrange-Survives kinds start in
      let fails = λ (bad : Doomed final).
        fails_always _ bad.0 (mem-entries_for-new decision_kind final bad.1) bad.2 in
      elim (gather-Settled ps d supported c m) [
        | inl bad ↦ inl (fails (kept.failures bad))
        | inr (claim, p, found) ↦
            elim (all_or_else (λ h. Memᴰ (entry_of c obligation h) (get h.signal final))
              (Doomed final) claim
              (λ h n. kept.entries h.signal (entry_of c obligation h) (found h n))) [
                | inl all_found ↦ inr (
                  claim,
                  p,
                  All-of_mem
                      (λ h.
                        Memᴰ (entry_of c obligation h) (entries_for (plan ps d supported) h.signal))
                      claim (λ h n. mem-entries_for-new h.signal final (all_found h n)),
                )
                | inr bad ↦ inl (fails bad)
              ]
      ]
