-- ===== src/Planner/Gathering.antt =====
-- planner.py's first phase: where the handlers of an obligation go.
use mathlib.Core.List.Memᴰ
use text.Mathlib.TextPositions.{eq_refl}
use sapl_python.Prelude.{
  String, subst, ◌≡◌, refl, List, [], ◌∷◌, Memᴰ, Bool-cases, Option-cases, ◌⊎◌, inl, inr, some,
}
use sapl_python.Python.Value.{Value}
use sapl_python.Python.Exception.{synthetic_failure}
use sapl_python.Signal.{
  SignalKind, kind_eq, ConstraintTag, obligation, ScopedHandler, Provider, decision_kind,
}
use sapl_python.Plan.{PlanEntry, PerSignal, get}
use sapl_python.Plan.Discharge.{AlwaysFails}
use sapl_python.Planner.{
  make_synthetic_entry, append_entry, claims_on, schedule, admitted, classify_rejection,
  resolve_constraint, resolve_all,
}
use sapl_python.Planner.Store.{get-append_entry}

-- The entry that an admitted handler of a constraint becomes.
abbrev pub entry_of : {W : Type 0} → Value → ConstraintTag → ScopedHandler W → PlanEntry W
entry_of constraint tag h = record {
  signal = h.signal;
  priority = h.priority;
  shape = h.shape;
  tag = tag;
  constraint = constraint;
  handler = h.handler;
}

module _ {W : Type 0} where
  -- An always failing obligation stands at the decision signal.
  abbrev pub Doomed : PerSignal W → Type 0
  Doomed per = (e : PlanEntry W) × Memᴰ e (get decision_kind per) × AlwaysFails e

  -- No entry is lost.
  abbrev pub Grows : PerSignal W → PerSignal W → Type 0
  Grows a b = (k : SignalKind) (e : PlanEntry W) → Memᴰ e (get k a) → Memᴰ e (get k b)

  pub Grows-Doomed : (a b : PerSignal W) → Grows a b → Doomed a → Doomed b
  Grows-Doomed a b g (e, m, f) = (e, g decision_kind e m, f)

  pub synthetic-AlwaysFails :
      (c : Value) (reason : String) → AlwaysFails (make_synthetic_entry {W = W} c obligation reason)
  unfolding make_synthetic_entry
  synthetic-AlwaysFails c reason = record {
    is_runner = refl;
    binding = refl;
    exc = synthetic_failure reason;
    next = λ w. w;
    raises = λ w. refl;
  }

  pub append_entry-Grows :
      (k : SignalKind) (e : PlanEntry W) (per : PerSignal W) → Grows per (append_entry k e per)
  append_entry-Grows k e per j x m = rw get-append_entry (elim (Bool-cases (kind_eq k j)) [
    | inl p ↦ rw p (Memᴰ.append_left (e ∷ []) m)
    | inr p ↦ rw p m
  ])

  pub append_entry-mem :
      (k : SignalKind) (e : PlanEntry W) (per : PerSignal W) → Memᴰ e (get k (append_entry k e per))
  append_entry-mem k e per =
      rw get-append_entry (rw (eq_refl k.name) (Memᴰ.append_right (get k per) (Memᴰ.head refl)))

  schedule-Grows :
      (c : Value) (tag : ConstraintTag) (hs : List (ScopedHandler W)) (per : PerSignal W)
      → Grows per (schedule c tag hs per)
  unfolding schedule
  schedule-Grows c tag [] per k e m = m
  schedule-Grows c tag (h ∷ hs) per k e m =
      schedule-Grows c tag hs (append_entry h.signal (entry_of c tag h) per) k e
        (append_entry-Grows h.signal (entry_of c tag h) per k e m)

  schedule-mem :
      (c : Value) (tag : ConstraintTag) (h : ScopedHandler W) (hs : List (ScopedHandler W))
      (per : PerSignal W)
      → Memᴰ h hs
      → Memᴰ (entry_of c tag h) (get h.signal (schedule c tag hs per))
  unfolding schedule
  schedule-mem c tag h [] per m = elim m [ ]
  schedule-mem c tag h (x ∷ hs) per (Memᴰ.head p) =
      subst
        (λ y.
          Memᴰ (entry_of c tag h)
            (get h.signal (schedule c tag hs (append_entry y.signal (entry_of c tag y) per))))
        p
        (schedule-Grows c tag hs (append_entry h.signal (entry_of c tag h) per) h.signal
          (entry_of c tag h) (append_entry-mem h.signal (entry_of c tag h) per))
  schedule-mem c tag h (x ∷ hs) per (Memᴰ.tail m) =
      schedule-mem c tag h hs (append_entry x.signal (entry_of c tag x) per) m

  resolve-Grows :
      (ps : List (Provider W)) (c : Value) (tag : ConstraintTag) (supported : List SignalKind)
      (per : PerSignal W)
      → Grows per (resolve_constraint ps c tag supported per)
  unfolding resolve_constraint
  resolve-Grows ps c tag supported per =
      elim (Option-cases (admitted (claims_on ps c) tag supported)) [
        | inl p ↦
            rw (p, resolve_constraint)
              (append_entry-Grows decision_kind
                (make_synthetic_entry c tag (classify_rejection (claims_on ps c))) per)
        | inr (claim, p) ↦ rw (p, resolve_constraint) (schedule-Grows c tag claim per)
      ]

  pub resolve_all-Grows :
      (ps : List (Provider W)) (cs : List Value) (tag : ConstraintTag) (supported : List SignalKind)
      (per : PerSignal W)
      → Grows per (resolve_all ps cs tag supported per)
  unfolding resolve_all
  resolve_all-Grows ps [] tag supported per k e m = m
  resolve_all-Grows ps (c ∷ cs) tag supported per k e m =
      resolve_all-Grows ps cs tag supported (resolve_constraint ps c tag supported per) k e
        (resolve-Grows ps c tag supported per k e m)

  -- Either a failure is bound to come, or the constraint is scheduled in full.
  abbrev pub Settled : List (Provider W) → Value → List SignalKind → PerSignal W → Type 0
  Settled ps c supported per =
      Doomed per
      ⊎ ((claim : List (ScopedHandler W)) × (admitted (claims_on ps c) obligation supported
            ≡ some claim)
          × ((h : ScopedHandler W)
              → Memᴰ h claim
              → Memᴰ (entry_of c obligation h) (get h.signal per)))

  resolve-Settled :
      (ps : List (Provider W)) (c : Value) (supported : List SignalKind) (per : PerSignal W)
      → Settled ps c supported (resolve_constraint ps c obligation supported per)
  unfolding resolve_constraint
  resolve-Settled ps c supported per =
      elim (Option-cases (admitted (claims_on ps c) obligation supported)) [
        | inl p ↦
            let reason = classify_rejection (claims_on ps c) in
            inl (
              make_synthetic_entry c obligation reason,
              rw (p, resolve_constraint)
                  (append_entry-mem decision_kind (make_synthetic_entry c obligation reason) per),
              synthetic-AlwaysFails c reason,
            )
        | inr (claim, p) ↦
            inr (
              claim,
              p,
              λ h m. rw (p, resolve_constraint) (schedule-mem c obligation h claim per m),
            )
      ]

  pub Grows-Settled :
      (ps : List (Provider W)) (c : Value) (supported : List SignalKind) (a b : PerSignal W)
      → Grows a b
      → Settled ps c supported a
      → Settled ps c supported b
  Grows-Settled ps c supported a b g (inl d) = inl (Grows-Doomed a b g d)
  Grows-Settled ps c supported a b g (inr (claim, p, all)) =
      inr (claim, p, λ h m. g h.signal (entry_of c obligation h) (all h m))

  pub resolve_all-Settled :
      (ps : List (Provider W)) (c : Value) (cs : List Value) (supported : List SignalKind)
      (per : PerSignal W)
      → Memᴰ c cs
      → Settled ps c supported (resolve_all ps cs obligation supported per)
  unfolding resolve_all
  resolve_all-Settled ps c [] supported per m = elim m [ ]
  resolve_all-Settled ps c (x ∷ cs) supported per (Memᴰ.head p) =
      subst
        (λ y. Settled ps c supported (
          resolve_all ps cs obligation supported
            (resolve_constraint ps y obligation supported per)))
        p
        (Grows-Settled ps c supported _ _
          (resolve_all-Grows ps cs obligation supported
            (resolve_constraint ps c obligation supported per))
          (resolve-Settled ps c supported per))
  resolve_all-Settled ps c (x ∷ cs) supported per (Memᴰ.tail m) =
      resolve_all-Settled ps c cs supported (resolve_constraint ps x obligation supported per) m
