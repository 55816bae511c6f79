-- ===== src/Streaming/Transitions.antt =====
-- sapl_base/src/sapl_base/pep/streaming/transition_signals.py: the helpers of a subscriber. A consumer
-- and a substitute act on the subscriber's world and may raise, which ends the iteration; the source is
-- the list of its items up to its normal end, and the result what was yielded, and how the iteration ended.
use sapl_python.Prelude.{◌≡◌, refl, ap, List, [], ◌∷◌, Option, none, some}
use sapl_python.Python.Action.{Result, ok, raised, Action, ◌>>◌}

-- What a subscription yields: data items and the two boundary signals.
pub data Yielded (A S G : Type 0) : Type 0 where
  item : A → Yielded A S G
  suspended : S → Yielded A S G
  granted : G → Yielded A S G

-- The items that were yielded, the end, and the world.
abbrev pub Iteration : Type 0 → Type 0 → Type 0
Iteration W B = List B × (Result (Unit {0}) × W)

abbrev yielding : {W B : Type 0} → B → Iteration W B → Iteration W B
yielding b (bs, rest) = (b ∷ bs, rest)

abbrev skipped : {W B : Type 0} → Result (Unit {0}) × W → (W → Iteration W B) → Iteration W B
skipped (ok _, w) next = next w
skipped (raised e, w) next = ([], (raised e, w))

abbrev substituted : {W B : Type 0} → Result B × W → (W → Iteration W B) → Iteration W B
substituted (ok b, w) next = yielding b (next w)
substituted (raised e, w) next = ([], (raised e, w))

module _ {A S G : Type 0} where
  -- The data items of a sequence.
  abbrev pub data_items : List (Yielded A S G) → List A
  data_items [] = []
  data_items (item a ∷ source) = a ∷ data_items source
  data_items (_ ∷ source) = data_items source

  abbrev pub as_items : List A → List (Yielded A S G)
  as_items [] = []
  as_items (a ∷ rest) = item a ∷ as_items rest

module _ {W A S G : Type 0} where
  -- A signal behind its consumer: it is left out, or its substitute is yielded.
  abbrev pub consumed :
      {X : Type 0}
      → (X → Action W (Unit {0}))
      → Option (X → Action W (Yielded A S G))
      → X
      → W
      → (W → Iteration W (Yielded A S G))
      → Iteration W (Yielded A S G)
  consumed consumer none x w next = skipped (consumer x w) next
  consumed consumer (some substitute) x w next = substituted ((consumer x >> substitute x) w) next

  unfoldable pub on_suspend :
      (S → Action W (Unit {0}))
      → Option (S → Action W (Yielded A S G))
      → List (Yielded A S G)
      → W
      → Iteration W (Yielded A S G)
  on_suspend consumer substitute [] w = ([], (ok tt, w))
  on_suspend consumer substitute (suspended s ∷ source) w =
      consumed consumer substitute s w (λ w'. on_suspend consumer substitute source w')
  on_suspend consumer substitute (item a ∷ source) w =
      yielding (item a) (on_suspend consumer substitute source w)
  on_suspend consumer substitute (granted g ∷ source) w =
      yielding (granted g) (on_suspend consumer substitute source w)

  unfoldable pub on_granted :
      (G → Action W (Unit {0}))
      → Option (G → Action W (Yielded A S G))
      → List (Yielded A S G)
      → W
      → Iteration W (Yielded A S G)
  on_granted consumer substitute [] w = ([], (ok tt, w))
  on_granted consumer substitute (granted g ∷ source) w =
      consumed consumer substitute g w (λ w'. on_granted consumer substitute source w')
  on_granted consumer substitute (item a ∷ source) w =
      yielding (item a) (on_granted consumer substitute source w)
  on_granted consumer substitute (suspended s ∷ source) w =
      yielding (suspended s) (on_granted consumer substitute source w)

  unfoldable pub on_transitions :
      (S → Action W (Unit {0}))
      → (G → Action W (Unit {0}))
      → List (Yielded A S G)
      → W
      → Iteration W (Yielded A S G)
  on_transitions suspend_consumer grant_consumer [] w = ([], (ok tt, w))
  on_transitions suspend_consumer grant_consumer (suspended s ∷ source) w =
      consumed suspend_consumer none s w
        (λ w'. on_transitions suspend_consumer grant_consumer source w')
  on_transitions suspend_consumer grant_consumer (granted g ∷ source) w =
      consumed grant_consumer none g w
        (λ w'. on_transitions suspend_consumer grant_consumer source w')
  on_transitions suspend_consumer grant_consumer (item a ∷ source) w =
      yielding (item a) (on_transitions suspend_consumer grant_consumer source w)

  -- Consumers that raise nothing let exactly the data items through, in their order.
  pub on_transitions-items :
      (suspend_consumer : S → Action W (Unit {0})) (grant_consumer : G → Action W (Unit {0}))
      (source : List (Yielded A S G)) (w : W)
      → ((s : S) (v : W) → (suspend_consumer s v).0 ≡ ok tt)
      → ((g : G) (v : W) → (grant_consumer g v).0 ≡ ok tt)
      → ((on_transitions suspend_consumer grant_consumer source w).0 ≡ as_items (data_items source))
        × ((on_transitions suspend_consumer grant_consumer source w).1.0 ≡ ok tt)
  unfolding on_transitions
  on_transitions-items f g [] w hf hg = (refl, refl)
  on_transitions-items f g (item a ∷ source) w hf hg =
      let (yielded, ended) = on_transitions-items f g source w hf hg in
      (ap (item a ∷◌) yielded, ended)
  on_transitions-items f g (suspended s ∷ source) w hf hg =
      rw (hf s w) (on_transitions-items f g source (f s w).1 hf hg)
  on_transitions-items f g (granted x ∷ source) w hf hg =
      rw (hg x w) (on_transitions-items f g source (g x w).1 hf hg)
