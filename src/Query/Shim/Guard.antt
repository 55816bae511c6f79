-- ===== src/Query/Shim/Guard.antt =====
-- sapl_base/src/sapl_base/pep/shim_signals.py and the shims: what the registry advertises, and what
-- gets through a cut point.
use sapl_python.Prelude.{
  ◌≡◌, refl, ap, sym, ◌∙◌, String, true, false, [], ◌∷◌, some, arith, ◌||◌, ◌&&◌, not, any,
  any-append, Bool-cases, inl, inr, str_eq, eq_iff,
}
use sapl_python.Python.Exception.{Obj}
use sapl_python.Python.Action.{ok}
use sapl_python.Python.Context.{Env}
use sapl_python.Signal.{SignalKind, kind_eq, supports, Signal}
use sapl_python.Plan.{PlanResult, EnforcementPlan, has_entries, execute, is_absent}
use sapl_python.Query.Shim.{
  Registry, register_shim_signal, unregister_shim_signal, verdict, discharge,
}

pub verdict-ok :
    (failure invalid : String) (r : PlanResult) (query : Obj)
    → verdict failure invalid r ≡ ok query
    → (r.failure_state ≡ false) × (r.value ≡ query)
verdict-ok failure invalid r query h = elim (Bool-cases r.failure_state) [
  | inl e ↦ ground arith
  | inr e ↦ elim (Bool-cases (is_absent r.value)) [
    | inl e' ↦ ground arith
    | inr e' ↦ (e, ground arith)
  ]
]

module _ {W : Type 0} where
  -- The discharge is the plan's execution at the signal.
  pub discharge-execute :
      (failure invalid : String) (signal : Signal) (query : Obj) (p : EnforcementPlan W)
      (env : Env W (EnforcementPlan W))
      → env.current_plan ≡ some p
      → has_entries p signal.kind ≡ true
      → discharge failure invalid signal query env ≡ (
        verdict failure invalid (execute p signal false env.world).0,
        record env { world = (execute p signal false env.world).1 },
      )
  unfolding discharge
  discharge-execute failure invalid signal query p env current entries =
      rw current (rw entries refl)

  -- At a signal for which the current plan has entries, a query gets through only as the value that
  -- these entries made of it, with no obligation failed.
  pub discharge-ok :
      (failure invalid : String) (signal : Signal) (query query' : Obj) (p : EnforcementPlan W)
      (env env' : Env W (EnforcementPlan W))
      → env.current_plan ≡ some p
      → has_entries p signal.kind ≡ true
      → discharge failure invalid signal query env ≡ (ok query', env')
      → let run = execute p signal false env.world in
        (run.0.failure_state ≡ false)
        × (run.0.value ≡ query')
        × (env' ≡ record env { world = run.1 })
  discharge-ok failure invalid signal query query' p env env' current entries h =
      let h' = sym (discharge-execute failure invalid signal query p env current entries) ∙ h in
      let (failed, value) =
        verdict-ok failure invalid (execute p signal false env.world).0 query' (ap (λ x. x.0) h') in
      (failed, value, sym (ap (λ x. x.1) h'))

str_eq_comm : (s t : String) → str_eq s t ≡ str_eq t s
str_eq_comm s t = grind (arith, eq_iff s t, eq_iff t s)

-- Kinds that are equal are looked up alike.
supports-kind_eq :
    (registry : Registry) (j kind : SignalKind)
    → kind_eq j kind ≡ true
    → supports registry j ≡ supports registry kind
supports-kind_eq registry j kind h =
    ap (λ s. any (λ (k : SignalKind). str_eq s k.name) registry) ((eq_iff j.name kind.name).0 h)

supports-register :
    (kind j : SignalKind) (registry : Registry)
    → supports (register_shim_signal kind registry) j ≡ (kind_eq j kind || supports registry j)
unfolding register_shim_signal
supports-register kind j registry = elim (Bool-cases (supports registry kind)) [
  | inl e ↦ elim (Bool-cases (kind_eq j kind)) [
    | inl same ↦ rw e (rw same (supports-kind_eq registry j kind same ∙ e))
    | inr other ↦ rw e (rw other refl)
  ]
  | inr e ↦ rw e (any-append (kind_eq j) registry (kind ∷ []) ∙ ground arith)
]

different : (kind j k : SignalKind) → kind_eq kind k ≡ true → kind_eq j k ≡ kind_eq j kind
different kind j k h = ap (str_eq j.name) (sym ((eq_iff kind.name k.name).0 h))

supports-unregister :
    (kind j : SignalKind) (registry : Registry)
    → supports (unregister_shim_signal kind registry) j
      ≡ (not (kind_eq j kind) && supports registry j)
unfolding unregister_shim_signal
supports-unregister kind j [] = ground arith
supports-unregister kind j (k ∷ registry) = elim (Bool-cases (kind_eq kind k)) [
  | inl e ↦
      let same = different kind j k e in
      let rest = supports-unregister kind j registry in rw e (rw same (rw rest (ground arith)))
  | inr e ↦
      let rest = supports-unregister kind j registry in
      elim (Bool-cases (kind_eq j kind)) [
        | inl same ↦
            let apart = ap (λ s. str_eq s k.name) ((eq_iff j.name kind.name).0 same) in
            rw e (rw rest (rw same (rw apart (rw e refl))))
        | inr other ↦ rw e (rw rest (rw other refl))
      ]
]

-- The registry behaves as a set of signals: registering adds a kind, withdrawing takes it out, and
-- neither touches another kind.
pub shim_signals_set :
    (kind j : SignalKind) (registry : Registry)
    → (supports (register_shim_signal kind registry) j ≡ (kind_eq j kind || supports registry j))
      × (supports (unregister_shim_signal kind registry) j
          ≡ (not (kind_eq j kind) && supports registry j))
shim_signals_set kind j registry =
    (supports-register kind j registry, supports-unregister kind j registry)
