-- ===== src/Planner.antt =====
-- sapl_base/src/sapl_base/pep/planner.py: from a decision to its plan. The set of supported signals
-- is a list in the order of iteration, and logging is left out.
mod Sorting
mod Mappers
mod Store
mod Gathering
pub mod FailClosed
pub mod Contested
mod Tests
use sapl_python.Prelude.{
  ℕ, String, Bool, true, false, ◌&&◌, ◌||◌, not, List, [], ◌∷◌, ◌++◌, map, Option, none, some, all,
  leb, ◌==◌, ltb, if◌then◌else◌,
}
use sapl_python.Python.Value.{ℤ, pos, negsuc, Value, list, tuple, items}
use sapl_python.Python.Exception.{AuthorizationDecision, synthetic_failure, absent}
use sapl_python.Python.Action.{Result, ok, raised, raise, pure}
use sapl_python.Signal.{
  SignalKind, kind_eq, supports, HandlerShape, runner, consumer, mapper, ConstraintTag, obligation,
  advice, Handler, ScopedHandler, Provider, decision_kind, is_mapper,
}
use sapl_python.Python.Compare.{leb_ℤ, eq_ℤ}
use sapl_python.Plan.{PlanEntry, PerSignal, EnforcementPlan, get, new}

-- `_SHAPE_ORDER`
abbrev pub shape_order : HandlerShape → ℕ
shape_order runner = 0
shape_order mapper = 1
shape_order consumer = 2

-- The fields of a decision that are no list or tuple hold no constraint.
unfoldable pub iter_constraints : Value → List Value
iter_constraints (list vs) = items vs
iter_constraints (tuple vs) = items vs
iter_constraints _ = []

-- `triple.shape != "mapper" or tag == "obligation"`
abbrev mapper_allowed : HandlerShape → ConstraintTag → Bool
mapper_allowed mapper advice = false
mapper_allowed _ _ = true

module _ {W : Type 0} where
  -- The order of the sort key `(priority, _SHAPE_ORDER[shape])`.
  abbrev pub entry_le : PlanEntry W → PlanEntry W → Bool
  entry_le a b =
      (leb_ℤ a.priority b.priority && not (leb_ℤ b.priority a.priority))
      || (eq_ℤ a.priority b.priority && leb (shape_order a.shape) (shape_order b.shape))

  -- `list.sort`, which is stable.
  pub insert_entry : PlanEntry W → List (PlanEntry W) → List (PlanEntry W)
  insert_entry e [] = e ∷ []
  insert_entry e (x ∷ xs) =
      let rest = insert_entry e xs in if entry_le e x then e ∷ x ∷ xs else x ∷ rest

  pub sort : List (PlanEntry W) → List (PlanEntry W)
  unfolding insert_entry
  sort [] = []
  sort (e ∷ es) = insert_entry e (sort es)

  is_admissible : ScopedHandler W → Bool
  is_admissible triple = elim triple.shape [ runner ↦ true | _ ↦ triple.signal.data_carrying ]

  pub all_well_formed : List (ScopedHandler W) → ConstraintTag → List SignalKind → Bool
  unfolding is_admissible
  all_well_formed triples tag supported =
      all
        (λ triple.
          is_admissible triple
          && supports supported triple.signal
          && mapper_allowed triple.shape tag)
        triples

  pub classify_rejection : List (List (ScopedHandler W)) → String
  classify_rejection [] = "UNRESOLVED"
  classify_rejection (_ ∷ []) = "INADMISSIBLE"
  classify_rejection (_ ∷ _ ∷ _) = "AMBIGUOUS"

  synthetic_handler : ConstraintTag → String → Handler W
  synthetic_handler obligation reason args w = raise (synthetic_failure reason) w
  synthetic_handler advice reason args w = pure absent w

  -- The runner raises for an obligation, and only logs for an advice.
  pub make_synthetic_entry : Value → ConstraintTag → String → PlanEntry W
  unfolding synthetic_handler
  make_synthetic_entry constraint tag reason = record {
    signal = decision_kind;
    priority = pos 0;
    shape = runner;
    tag = tag;
    constraint = constraint;
    handler = synthetic_handler tag reason;
  }

  -- `per_signal.setdefault(kind, []).append(entry)`
  pub append_entry : SignalKind → PlanEntry W → PerSignal W → PerSignal W
  append_entry kind entry [] = (kind, entry ∷ []) ∷ []
  append_entry kind entry ((k, es) ∷ rest) =
      if kind_eq k kind
      then (k, es ++ entry ∷ []) ∷ rest
      else (k, es) ∷ append_entry kind entry rest

  -- `per_signal.setdefault(kind, [])`
  pub set_default : SignalKind → PerSignal W → PerSignal W
  set_default kind [] = (kind, []) ∷ []
  set_default kind ((k, es) ∷ rest) =
      if kind_eq k kind then (k, es) ∷ rest else (k, es) ∷ set_default kind rest

  -- `per_signal[kind] = entries`
  pub put : SignalKind → List (PlanEntry W) → PerSignal W → PerSignal W
  put kind entries [] = (kind, entries) ∷ []
  put kind entries ((k, es) ∷ rest) =
      if kind_eq k kind then (k, entries) ∷ rest else (k, es) ∷ put kind entries rest

  -- The claims on a constraint: a provider that raises, or that offers no handler, makes none.
  abbrev pub claim_of : Result (List (ScopedHandler W)) → List (List (ScopedHandler W))
  claim_of (raised _) = []
  claim_of (ok []) = []
  claim_of (ok (h ∷ hs)) = (h ∷ hs) ∷ []

  unfoldable pub claims_on : List (Provider W) → Value → List (List (ScopedHandler W))
  claims_on [] constraint = []
  claims_on (provider ∷ rest) constraint =
      claim_of (provider constraint) ++ claims_on rest constraint

  pub schedule : Value → ConstraintTag → List (ScopedHandler W) → PerSignal W → PerSignal W
  unfolding append_entry
  schedule constraint tag [] per_signal = per_signal
  schedule constraint tag (h ∷ hs) per_signal = schedule constraint tag hs (
      append_entry h.signal
        (record {
          signal = h.signal;
          priority = h.priority;
          shape = h.shape;
          tag = tag;
          constraint = constraint;
          handler = h.handler;
        })
        per_signal)

  -- The unique claim, if all of its triples are well-formed.
  unfoldable pub admitted :
      List (List (ScopedHandler W))
      → ConstraintTag
      → List SignalKind
      → Option (List (ScopedHandler W))
  unfolding all_well_formed
  admitted (claim ∷ []) tag supported =
      if all_well_formed claim tag supported then some claim else none
  admitted _ tag supported = none

  pub resolve_constraint :
      List (Provider W) → Value → ConstraintTag → List SignalKind → PerSignal W → PerSignal W
  unfolding claims_on admitted classify_rejection make_synthetic_entry append_entry schedule
  resolve_constraint providers constraint tag supported per_signal =
      let claims = claims_on providers constraint in
      elim (admitted claims tag supported) [
        | none ↦
            append_entry decision_kind
              (make_synthetic_entry constraint tag (classify_rejection claims)) per_signal
        | some claim ↦ schedule constraint tag claim per_signal
      ]

-- The variables of `_split_non_commuting_mappers`.
pub record Split (W : Type 0) : Type 0 where
  pub kept : List (PlanEntry W)
  pub displaced : List (PlanEntry W)
  pub run : List (PlanEntry W)
  pub run_priority : Option ℤ

-- `entry.priority == run_priority`
abbrev pub in_run : ℤ → Option ℤ → Bool
in_run priority none = false
in_run priority (some p) = eq_ℤ priority p

module _ {W : Type 0} where
  flush_run : List (PlanEntry W) → Split W → Split W
  flush_run [] s = s
  flush_run (e ∷ []) s = record s { kept = s.kept ++ e ∷ []; run = [] }
  flush_run (e ∷ e' ∷ es) s = record s { displaced = s.displaced ++ e ∷ e' ∷ es; run = [] }

  pub flush : Split W → Split W
  unfolding flush_run
  flush s = flush_run s.run s

  -- One round of the loop over the entries.
  pub split_round : PlanEntry W → Split W → Split W
  unfolding flush
  split_round entry s =
      if is_mapper entry.shape && in_run entry.priority s.run_priority
      then record s { run = s.run ++ entry ∷ [] }
      else (let t = flush s in
          if is_mapper entry.shape
          then record t { run = t.run ++ entry ∷ []; run_priority = some entry.priority }
          else record t { run_priority = none; kept = t.kept ++ entry ∷ [] })

  pub split_rounds : List (PlanEntry W) → Split W → Split W
  unfolding split_round
  split_rounds [] s = flush s
  split_rounds (entry ∷ entries) s = split_rounds entries (split_round entry s)

  -- The pair `(kept, displaced)` is read off the last state.
  unfoldable pub split_non_commuting_mappers : List (PlanEntry W) → Split W
  unfolding split_rounds
  split_non_commuting_mappers entries =
      split_rounds entries (record { kept = []; displaced = []; run = []; run_priority = none })

  pub append_failures : List (PlanEntry W) → PerSignal W → PerSignal W
  unfolding append_entry make_synthetic_entry
  append_failures [] per_signal = per_signal
  append_failures (entry ∷ displaced) per_signal = append_failures displaced (
      append_entry decision_kind (make_synthetic_entry entry.constraint obligation "NON_COMMUTING")
        per_signal)

  -- One round of the last loop of `plan`: sort, split, and replace what was displaced.
  pub arrange_kind : SignalKind → PerSignal W → PerSignal W
  unfolding get put sort split_non_commuting_mappers append_failures
  arrange_kind kind per_signal =
      let s = split_non_commuting_mappers (sort (get kind per_signal)) in
      append_failures s.displaced (put kind s.kept per_signal)

  pub arrange : List SignalKind → PerSignal W → PerSignal W
  unfolding arrange_kind
  arrange [] per_signal = per_signal
  arrange (kind ∷ kinds) per_signal = arrange kinds (arrange_kind kind per_signal)

  pub resolve_all :
      List (Provider W) → List Value → ConstraintTag → List SignalKind → PerSignal W → PerSignal W
  unfolding resolve_constraint
  resolve_all providers [] tag supported per_signal = per_signal
  resolve_all providers (c ∷ cs) tag supported per_signal =
      resolve_all providers cs tag supported
        (resolve_constraint providers c tag supported per_signal)

  -- `{kind: [] for kind in supported_signals}`
  pub empty_lists : List SignalKind → PerSignal W → PerSignal W
  unfolding put
  empty_lists [] per_signal = per_signal
  empty_lists (kind ∷ kinds) per_signal = empty_lists kinds (put kind [] per_signal)

  -- The handlers of a decision by their signals, before the last loop.
  pub gather : List (Provider W) → AuthorizationDecision → List SignalKind → PerSignal W
  unfolding resolve_all iter_constraints set_default empty_lists
  gather providers decision supported =
      let empty = set_default decision_kind (empty_lists supported []) in
      let bound =
        resolve_all providers (iter_constraints decision.obligations) obligation supported empty in
      resolve_all providers (iter_constraints decision.advice) advice supported bound

  unfoldable pub plan :
      List (Provider W) → AuthorizationDecision → List SignalKind → EnforcementPlan W
  unfolding gather arrange new
  plan providers decision supported =
      let per_signal = gather providers decision supported in
      new (arrange (map (λ (kind, es). kind) per_signal) per_signal)
