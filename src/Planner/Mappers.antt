-- ===== src/Planner/Mappers.antt =====
-- planner.py's split of a sorted sequence, and the entries it is given.
use mathlib.Core.List.Memᴰ
use sapl_python.Prelude.{◌≡◌, refl, false, ◌&&◌, List, [], ◌∷◌, Memᴰ, Bool-cases, ◌⊎◌, inl, inr}
use sapl_python.Signal.{is_mapper}
use sapl_python.Plan.{PlanEntry}
use sapl_python.Planner.{
  Split, in_run, flush_run, flush, split_round, split_rounds, split_non_commuting_mappers,
}

module _ {W : Type 0} where
  -- The places where the loop may hold an entry.
  abbrev Held : PlanEntry W → Split W → Type 0
  Held e s = Memᴰ e s.kept ⊎ Memᴰ e s.displaced ⊎ Memᴰ e s.run

  abbrev SortedOut : PlanEntry W → Split W → Type 0
  SortedOut e s = Memᴰ e s.kept ⊎ Memᴰ e s.displaced

  flush_run-kept :
      {e : PlanEntry W} (run : List (PlanEntry W)) (s : Split W)
      → Memᴰ e s.kept
      → Memᴰ e (flush_run run s).kept
  unfolding flush_run
  flush_run-kept [] s m = m
  flush_run-kept (x ∷ []) s m = Memᴰ.append_left (x ∷ []) m
  flush_run-kept (x ∷ y ∷ ys) s m = m

  flush_run-displaced :
      {e : PlanEntry W} (run : List (PlanEntry W)) (s : Split W)
      → Memᴰ e s.displaced
      → Memᴰ e (flush_run run s).displaced
  unfolding flush_run
  flush_run-displaced [] s m = m
  flush_run-displaced (x ∷ []) s m = m
  flush_run-displaced (x ∷ y ∷ ys) s m = Memᴰ.append_left (x ∷ y ∷ ys) m

  flush_run-run :
      {e : PlanEntry W} (run : List (PlanEntry W)) (s : Split W)
      → Memᴰ e run
      → SortedOut e (flush_run run s)
  unfolding flush_run
  flush_run-run [] s m = elim m [ ]
  flush_run-run (x ∷ []) s m = inl (Memᴰ.append_right s.kept m)
  flush_run-run (x ∷ y ∷ ys) s m = inr (Memᴰ.append_right s.displaced m)

  flush-Held : {e : PlanEntry W} (s : Split W) → Held e s → SortedOut e (flush s)
  unfolding flush
  flush-Held s (inl m) = inl (flush_run-kept s.run s m)
  flush-Held s (inr (inl m)) = inr (flush_run-displaced s.run s m)
  flush-Held s (inr (inr m)) = flush_run-run s.run s m

  split_round-kept :
      {e : PlanEntry W} (x : PlanEntry W) (s : Split W)
      → Memᴰ e s.kept
      → Memᴰ e (split_round x s).kept
  unfolding split_round
  split_round-kept x s m =
      elim (Bool-cases (is_mapper x.shape && in_run x.priority s.run_priority)) [
        | inl p ↦ rw p m
        | inr p ↦ rw p (elim (Bool-cases (is_mapper x.shape)) [
          | inl q ↦ rw q (flush_run-kept s.run s m)
          | inr q ↦ rw q (Memᴰ.append_left (x ∷ []) (flush_run-kept s.run s m))
        ])
      ]

  split_round-Held :
      {e : PlanEntry W} (x : PlanEntry W) (s : Split W) → Held e s → Held e (split_round x s)
  unfolding split_round
  split_round-Held x s h =
      elim (Bool-cases (is_mapper x.shape && in_run x.priority s.run_priority)) [
        | inl p ↦ rw p (elim h [
          | inl m ↦ inl m
          | inr (inl m) ↦ inr (inl m)
          | inr (inr m) ↦ inr (inr (Memᴰ.append_left (x ∷ []) m))
        ])
        | inr p ↦ rw p (elim (Bool-cases (is_mapper x.shape)) [
          | inl q ↦ rw q (elim (flush-Held s h) [ inl m ↦ inl m | inr m ↦ inr (inl m) ])
          | inr q ↦ rw q (elim (flush-Held s h) [
            | inl m ↦ inl (Memᴰ.append_left (x ∷ []) m)
            | inr m ↦ inr (inl m)
          ])
        ])
      ]

  split_round_self : (x : PlanEntry W) (s : Split W) → Held x (split_round x s)
  unfolding split_round
  split_round_self x s = elim (Bool-cases (is_mapper x.shape && in_run x.priority s.run_priority)) [
    | inl p ↦ rw p (inr (inr (Memᴰ.append_right s.run (Memᴰ.head refl))))
    | inr p ↦ rw p (elim (Bool-cases (is_mapper x.shape)) [
      | inl q ↦ rw q (inr (inr (Memᴰ.append_right (flush s).run (Memᴰ.head refl))))
      | inr q ↦ rw q (inl (Memᴰ.append_right (flush s).kept (Memᴰ.head refl)))
    ])
  ]

  split_round-plain :
      (x : PlanEntry W) (s : Split W) → is_mapper x.shape ≡ false → Memᴰ x (split_round x s).kept
  unfolding split_round
  split_round-plain x s q = rw q (Memᴰ.append_right (flush s).kept (Memᴰ.head refl))

  rounds-Held :
      {e : PlanEntry W} (es : List (PlanEntry W)) (s : Split W)
      → Held e s
      → SortedOut e (split_rounds es s)
  unfolding split_rounds
  rounds-Held [] s h = flush-Held s h
  rounds-Held (x ∷ es) s h = rounds-Held es (split_round x s) (split_round-Held x s h)

  rounds-kept :
      {e : PlanEntry W} (es : List (PlanEntry W)) (s : Split W)
      → Memᴰ e s.kept
      → Memᴰ e (split_rounds es s).kept
  unfolding split_rounds flush
  rounds-kept [] s m = flush_run-kept s.run s m
  rounds-kept (x ∷ es) s m = rounds-kept es (split_round x s) (split_round-kept x s m)

  rounds-mem :
      {e : PlanEntry W} (es : List (PlanEntry W)) (s : Split W)
      → Memᴰ e es
      → SortedOut e (split_rounds es s)
  unfolding split_rounds
  rounds-mem [] s m = elim m [ ]
  rounds-mem (x ∷ es) s (Memᴰ.head p) =
      rw p (rounds-Held es (split_round x s) (split_round_self x s))
  rounds-mem (x ∷ es) s (Memᴰ.tail m) = rounds-mem es (split_round x s) m

  rounds-plain :
      (e : PlanEntry W) (es : List (PlanEntry W)) (s : Split W)
      → is_mapper e.shape ≡ false
      → Memᴰ e es
      → Memᴰ e (split_rounds es s).kept
  unfolding split_rounds
  rounds-plain e [] s q m = elim m [ ]
  rounds-plain e (x ∷ es) s q (Memᴰ.head p) =
      rounds-kept es (split_round x s) (rw p (split_round-plain x s (rw p at q)))
  rounds-plain e (x ∷ es) s q (Memᴰ.tail m) = rounds-plain e es (split_round x s) q m

  -- Every entry is kept or displaced, and what is no mapper is kept.
  pub split-mem :
      (e : PlanEntry W) (es : List (PlanEntry W))
      → Memᴰ e es
      → let s = split_non_commuting_mappers es in
        (Memᴰ e s.kept ⊎ Memᴰ e s.displaced) × (is_mapper e.shape ≡ false → Memᴰ e s.kept)
  unfolding split_non_commuting_mappers
  split-mem e es m = (rounds-mem es _ m, λ q. rounds-plain e es _ q m)
