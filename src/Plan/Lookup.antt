-- ===== src/Plan/Lookup.antt =====
-- plan.py: the constructor and the entries it is given.
use sapl_python.Prelude.{[], ◌∷◌, Memᴰ, Bool-cases, inl, inr}
use sapl_python.Signal.{SignalKind, kind_eq}
use sapl_python.Plan.{PlanEntry, PerSignal, get, non_empty, new, entries_for}

module _ {W : Type 0} {e : PlanEntry W} (j : SignalKind) where
  mem-get-non_empty : (per : PerSignal W) → Memᴰ e (get j per) → Memᴰ e (get j (non_empty per))
  unfolding get non_empty
  mem-get-non_empty [] m = m
  mem-get-non_empty ((i, []) ∷ rest) m = elim (Bool-cases (kind_eq i j)) [
    | inl p ↦ elim (rw p at m) [ ]
    | inr p ↦ mem-get-non_empty rest (rw p at m)
  ]
  mem-get-non_empty ((i, x ∷ xs) ∷ rest) m = elim (Bool-cases (kind_eq i j)) [
    | inl p ↦ rw p (rw p at m)
    | inr p ↦ rw p (mem-get-non_empty rest (rw p at m))
  ]

  -- An entry that the dict holds for a kind is scheduled at that kind.
  pub mem-entries_for-new :
      (per : PerSignal W) → Memᴰ e (get j per) → Memᴰ e (entries_for (new per) j)
  unfolding new entries_for
  mem-entries_for-new per m = mem-get-non_empty per m
