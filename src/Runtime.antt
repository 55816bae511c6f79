-- ===== src/Runtime.antt =====
-- sapl_base/src/sapl_base/pep/runtime.py: the singleton that a framework's package holds. Its lock makes
-- each method one step. `new_client` makes a client of options, `close_client` closes one; a planner is
-- its tuple of providers.
pub mod Planning
use sapl_python.Prelude.{Bool, true, false, List, [], ◌∷◌, ◌++◌, Option, none, some}
use sapl_python.Python.Exception.{other}
use sapl_python.Python.Action.{Result, ok, raised, Action}

-- A client, a provider and a transaction provider are of the types C, P and T.
pub record PepRuntime (C P T : Type 0) : Type 0 where
  pub pdp_client : Option C
  pub planner : Option (List P)
  pub providers : List P
  pub transaction_provider : Option T

-- `_build_planner_unlocked`
abbrev pub build_planner : {P : Type 0} → List P → List P → Option (List P)
build_planner defaults providers = some (defaults ++ providers)

abbrev pub rebuilt : {P : Type 0} → List P → Option (List P) → List P → Option (List P)
rebuilt defaults none providers = none
rebuilt defaults (some _) providers = build_planner defaults providers

-- `defaults` are the two content filter providers.
module _ {O C P T : Type 0} (defaults : List P) (new_client : O → C) where
  abbrev pub opened : Option O → List P → PepRuntime C P T
  opened none providers = record {
    pdp_client = none;
    planner = none;
    providers = providers;
    transaction_provider = none;
  }
  opened (some options) providers = record {
    pdp_client = some (new_client options);
    planner = build_planner defaults providers;
    providers = providers;
    transaction_provider = none;
  }

  -- `__init__`
  unfoldable pub new_runtime : Option O → List P → PepRuntime C P T
  new_runtime options providers = opened options providers

  unfoldable pub configure : O → PepRuntime C P T → PepRuntime C P T
  configure options r = record r {
    pdp_client = some (new_client options);
    planner = build_planner defaults r.providers;
  }

module _ {C P T : Type 0} (defaults : List P) where
  unfoldable pub register_provider : P → PepRuntime C P T → PepRuntime C P T
  register_provider provider r =
      let registered = r.providers ++ provider ∷ [] in
      record r { providers = registered; planner = rebuilt defaults r.planner registered }

abbrev is_some : {A : Type 0} → Option A → Bool
is_some none = false
is_some (some _) = true

abbrev required : {A : Type 0} → Option A → Result A
required none = raised (other "RuntimeError")
required (some a) = ok a

abbrev pub closing : {C W : Type 0} → (C → Action W (Unit {0})) → Option C → Action W (Unit {0})
closing close_client none w = (ok tt, w)
closing close_client (some client) w = close_client client w

module _ {C P T : Type 0} where
  unfoldable pub set_transaction_provider : Option T → PepRuntime C P T → PepRuntime C P T
  set_transaction_provider provider r = record r { transaction_provider = provider }

  abbrev pub is_configured : PepRuntime C P T → Bool
  is_configured r = is_some r.pdp_client

  -- The properties `pdp_client` and `planner`
  abbrev pub get_pdp_client : PepRuntime C P T → Result C
  get_pdp_client r = required r.pdp_client

  abbrev pub get_planner : PepRuntime C P T → Result (List P)
  get_planner r = required r.planner

  -- `close`: the client is given up before it is closed.
  unfoldable pub close :
      {W : Type 0}
      → (C → Action W (Unit {0}))
      → PepRuntime C P T
      → W
      → (Result (Unit {0}) × PepRuntime C P T) × W
  close close_client r w =
      let (done, w') = closing close_client r.pdp_client w in
      ((done, record r { pdp_client = none }), w')

  -- `_reset_for_tests`
  unfoldable pub reset_for_tests : PepRuntime C P T → PepRuntime C P T
  reset_for_tests r = record {
    pdp_client = none;
    planner = none;
    providers = [];
    transaction_provider = none;
  }
