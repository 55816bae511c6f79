-- ===== src/Runtime/Planning.antt =====
-- sapl_base/src/sapl_base/pep/runtime.py: which providers the planner of a runtime plans with.
use sapl_python.Prelude.{◌≡◌, refl, false, List, [], ◌∷◌, ◌++◌, Option, none, some, ◌⊎◌, inl, inr}
use sapl_python.Python.Action.{Action}
use sapl_python.Runtime.{
  PepRuntime, opened, new_runtime, configure, register_provider, set_transaction_provider,
  is_configured, close, reset_for_tests,
}

-- A call of a method.
pub data Operation (O C P T : Type 0) : Type 0 where
  configuring : O → Operation O C P T
  registering : P → Operation O C P T
  setting : Option T → Operation O C P T
  closing_client : Operation O C P T
  resetting : Operation O C P T

module _ {O C P T W : Type 0} (defaults : List P) (new_client : O → C)
    (close_client : C → Action W (Unit {0})) where
  -- The runtime behind a call.
  abbrev pub after : Operation O C P T → PepRuntime C P T → W → PepRuntime C P T × W
  after (configuring options) r w = (configure defaults new_client options r, w)
  after (registering provider) r w = (register_provider defaults provider r, w)
  after (setting provider) r w = (set_transaction_provider provider r, w)
  after closing_client r w = let ((done, r'), w') = close close_client r w in (r', w')
  after resetting r w = (reset_for_tests r, w)

  abbrev pub after_all : List (Operation O C P T) → PepRuntime C P T → W → PepRuntime C P T × W
  after_all [] r w = (r, w)
  after_all (o ∷ os) r w = let (r', w') = after o r w in after_all os r' w'

  -- A planner plans with the default providers and with all that are registered; and where there is a
  -- client there is a planner.
  abbrev pub IsPlanned : PepRuntime C P T → Type 0
  IsPlanned r =
      ((r.planner ≡ none) × (is_configured r ≡ false))
      ⊎ (r.planner ≡ some (defaults ++ r.providers))

  after-IsPlanned :
      (o : Operation O C P T) (r : PepRuntime C P T) (w : W)
      → IsPlanned r
      → IsPlanned (after o r w).0
  unfolding configure register_provider set_transaction_provider close reset_for_tests
  after-IsPlanned (configuring options) r w h = inr refl
  after-IsPlanned (registering provider) r w (inl (missing, closed)) = inl (rw missing refl, closed)
  after-IsPlanned (registering provider) r w (inr planned) = inr (rw planned refl)
  after-IsPlanned (setting provider) r w h = h
  after-IsPlanned closing_client r w (inl (missing, closed)) = inl (missing, refl)
  after-IsPlanned closing_client r w (inr planned) = inr planned
  after-IsPlanned resetting r w h = inl (refl, refl)

  after_all-IsPlanned :
      (os : List (Operation O C P T)) (r : PepRuntime C P T) (w : W)
      → IsPlanned r
      → IsPlanned (after_all os r w).0
  after_all-IsPlanned [] r w h = h
  after_all-IsPlanned (o ∷ os) r w h =
      after_all-IsPlanned os (after o r w).0 (after o r w).1 (after-IsPlanned o r w h)

  -- Whatever is called of a new runtime, in any order: its planner plans with the default providers
  -- and with exactly the registered ones, in the order of registration, or there is none and no
  -- client either.
  pub new_runtime-IsPlanned :
      (options : Option O) (providers : List P) (os : List (Operation O C P T)) (w : W)
      → IsPlanned (after_all os (new_runtime defaults new_client options providers) w).0
  unfolding new_runtime
  new_runtime-IsPlanned none providers os w =
      after_all-IsPlanned os (opened defaults new_client none providers) w (inl (refl, refl))
  new_runtime-IsPlanned (some options) providers os w =
      after_all-IsPlanned os (opened defaults new_client (some options) providers) w (inr refl)
