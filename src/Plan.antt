-- ===== src/Plan.antt =====
-- sapl_base/src/sapl_base/pep/plan.py: the plan of a decision, and its best-effort execution.
-- A handler's exception ends the handler, not the execution.
pub mod Lookup
pub mod Calls
pub mod Discharge
mod Tests
use sapl_python.Prelude.{
  ℕ, Bool, true, false, List, [], ◌∷◌, if◌then◌else◌, Option, none, some, not, ◌||◌,
}
use sapl_python.Python.Value.{ℤ, Value}
use sapl_python.Python.Exception.{Obj, drop, absent}
use sapl_python.Python.Action.{Result, ok, raised}
use sapl_python.Signal.{
  SignalKind, kind_eq, HandlerShape, runner, consumer, mapper, ConstraintTag, obligation, advice,
  Handler, Signal, signal_value,
}

pub record PlanEntry (W : Type 0) : Type 0 where
  pub signal : SignalKind
  pub priority : ℤ
  pub shape : HandlerShape
  pub tag : ConstraintTag
  pub constraint : Value
  pub handler : Handler W

pub record PlanResult : Type 0 where
  pub value : Obj
  pub failure_state : Bool

-- A dict from signal kinds to sequences, in insertion order.
abbrev pub PerSignal : Type 0 → Type 0
PerSignal W = List (SignalKind × List (PlanEntry W))

pub record EnforcementPlan (W : Type 0) : Type 0 where
  pub entries : PerSignal W

abbrev pub is_obligation : ConstraintTag → Bool
is_obligation obligation = true
is_obligation advice = false

abbrev pub is_absent : Obj → Bool
is_absent absent = true
is_absent _ = false

-- `ABSENT if result is DROP else result`
abbrev pub undrop : Obj → Obj
undrop drop = absent
undrop v = v

-- The value with which the loop starts: absent at a signal that carries none.
abbrev pub initial_value : Signal → Obj
initial_value signal = if signal.kind.data_carrying then signal_value signal else absent

module _ {W : Type 0} where
  -- `per_signal.get(kind, ())`
  unfoldable pub get : SignalKind → PerSignal W → List (PlanEntry W)
  get kind [] = []
  get kind ((k, es) ∷ rest) = if kind_eq k kind then es else get kind rest

  -- The constructor drops the kinds with an empty sequence.
  non_empty : PerSignal W → PerSignal W
  non_empty [] = []
  non_empty ((k, []) ∷ rest) = non_empty rest
  non_empty ((k, e ∷ es) ∷ rest) = (k, e ∷ es) ∷ non_empty rest

  unfoldable pub new : PerSignal W → EnforcementPlan W
  unfolding non_empty
  new entries = record { entries = non_empty entries }

  unfoldable pub entries_for : EnforcementPlan W → SignalKind → List (PlanEntry W)
  unfolding get
  entries_for plan signal = get signal plan.entries

  contains_kind : SignalKind → PerSignal W → Bool
  contains_kind kind [] = false
  contains_kind kind ((k, es) ∷ rest) = kind_eq k kind || contains_kind kind rest

  -- `signal in self._entries`
  unfoldable pub has_entries : EnforcementPlan W → SignalKind → Bool
  unfolding contains_kind
  has_entries plan signal = contains_kind signal plan.entries

  -- The end of the `try` block: `next` is the value after a normal end, and the `except` clause
  -- records the failure of an obligation.
  settle : PlanEntry W → PlanResult → (Obj → Obj) → Result Obj × W → PlanResult × W
  settle entry r next (ok result, w) = (record r { value = next result }, w)
  settle entry r next (raised e, w) =
      (record r { failure_state = if is_obligation entry.tag then true else r.failure_state }, w)

  -- One round of the loop, by the shape of the entry.
  dispatch : HandlerShape → PlanEntry W → PlanResult → W → PlanResult × W
  unfolding settle
  dispatch runner entry r w = settle entry r (λ _. r.value) (entry.handler [] w)
  dispatch mapper entry r w =
      if is_absent r.value then (r, w) else settle entry r undrop (entry.handler (r.value ∷ []) w)
  dispatch consumer entry r w =
      if is_absent r.value
      then (r, w)
      else settle entry r (λ _. r.value) (entry.handler (r.value ∷ []) w)

  pub run_entry : PlanEntry W → PlanResult → W → PlanResult × W
  unfolding dispatch
  run_entry entry r w = dispatch entry.shape entry r w

  pub run_entries : List (PlanEntry W) → PlanResult → W → PlanResult × W
  run_entries [] r w = (r, w)
  run_entries (entry ∷ rest) r w = let (r', w') = run_entry entry r w in run_entries rest r' w'

  unfoldable pub execute : EnforcementPlan W → Signal → Bool → W → PlanResult × W
  unfolding entries_for run_entries run_entry
  execute plan signal prior_failure w =
      run_entries (entries_for plan signal.kind)
        (record { value = initial_value signal; failure_state = prior_failure }) w
