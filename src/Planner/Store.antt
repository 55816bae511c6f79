-- ===== src/Planner/Store.antt =====
-- planner.py's dict from signal kinds to entries: what each write does to each look-up.
use sapl_python.Prelude.{◌≡◌, refl, true, List, [], ◌∷◌, ◌++◌, arith, eq_iff, if◌then◌else◌}
use sapl_python.Signal.{SignalKind, kind_eq}
use sapl_python.Plan.{PlanEntry, PerSignal, get}
use sapl_python.Planner.{append_entry, set_default, put}

module _ {W : Type 0} where
  pub get-append_entry :
      (j k : SignalKind) (e : PlanEntry W) (per : PerSignal W)
      → get j (append_entry k e per) ≡ (if kind_eq k j then get j per ++ e ∷ [] else get j per)
  unfolding get append_entry
  get-append_entry j k e [] = ground arith
  get-append_entry j k e ((i, es) ∷ rest) = ground (
    arith,
    get-append_entry j k e rest,
    eq_iff k.name j.name,
    eq_iff i.name k.name,
    eq_iff i.name j.name,
  )

  pub get-put :
      (j k : SignalKind) (es : List (PlanEntry W)) (per : PerSignal W)
      → get j (put k es per) ≡ (if kind_eq k j then es else get j per)
  unfolding get put
  get-put j k es [] = ground arith
  get-put j k es ((i, xs) ∷ rest) =
      ground (
        arith,
        get-put j k es rest,
        eq_iff k.name j.name,
        eq_iff i.name k.name,
        eq_iff i.name j.name,
      )

  pub get-set_default :
      (j k : SignalKind) (per : PerSignal W) → get j (set_default k per) ≡ get j per
  unfolding get set_default
  get-set_default j k [] = ground arith
  get-set_default j k ((i, xs) ∷ rest) = ground (arith, get-set_default j k rest)

  pub get-kind_eq :
      (j k : SignalKind) (per : PerSignal W) → kind_eq j k ≡ true → get j per ≡ get k per
  unfolding get
  get-kind_eq j k [] h = refl
  get-kind_eq j k ((i, xs) ∷ rest) h = ground (arith, get-kind_eq j k rest, eq_iff j.name k.name)
