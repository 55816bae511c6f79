-- ===== src/Planner/Sorting.antt =====
-- planner.py's sort and the entries it is given.
use mathlib.Core.List.Memᴰ
use sapl_python.Prelude.{refl, List, [], ◌∷◌, Memᴰ, Bool-cases, inl, inr}
use sapl_python.Plan.{PlanEntry}
use sapl_python.Planner.{entry_le, insert_entry, sort}

module _ {W : Type 0} where
  mem-insert_self : (e : PlanEntry W) (es : List (PlanEntry W)) → Memᴰ e (insert_entry e es)
  unfolding insert_entry
  mem-insert_self e [] = Memᴰ.head refl
  mem-insert_self e (x ∷ xs) = elim (Bool-cases (entry_le e x)) [
    | inl p ↦ rw p (Memᴰ.head refl)
    | inr p ↦ rw p (Memᴰ.tail (mem-insert_self e xs))
  ]

  mem-insert :
      {e : PlanEntry W} (x : PlanEntry W) (es : List (PlanEntry W))
      → Memᴰ e es
      → Memᴰ e (insert_entry x es)
  unfolding insert_entry
  mem-insert x [] m = Memᴰ.tail m
  mem-insert x (y ∷ ys) m = elim (Bool-cases (entry_le x y)) [
    | inl p ↦ rw p (Memᴰ.tail m)
    | inr p ↦
        rw p
          (elim (Memᴰ.cases_cons m) [ inl q ↦ Memᴰ.head q | inr n ↦ Memᴰ.tail (mem-insert x ys n) ])
  ]

  pub mem-sort : {e : PlanEntry W} (es : List (PlanEntry W)) → Memᴰ e es → Memᴰ e (sort es)
  unfolding sort
  mem-sort [] m = elim m [ ]
  mem-sort (x ∷ xs) (Memᴰ.head p) = rw p (mem-insert_self x (sort xs))
  mem-sort (x ∷ xs) (Memᴰ.tail m) = mem-insert x (sort xs) (mem-sort xs m)
