-- ===== src/Python/Context.antt =====
-- What an enforcement point acts on: the world, and sapl_base/src/sapl_base/pep/request_context.py's
-- context variable. sapl_base/src/sapl_base/pep/transaction.py: the transaction scope.
use sapl_python.Prelude.{Option, none, some}
use sapl_python.Python.Action.{Action, Result, ok, raised, ◌>>=◌, continue}

-- `P` is the type of plans.
pub record Env (W P : Type 0) : Type 0 where
  pub world : W
  pub current_plan : Option P

-- A transaction provider makes a context manager: it commits on a clean exit, which may raise, and
-- rolls back when an exception propagates, which goes on. All three are the application's.
pub record Transaction (W : Type 0) : Type 0 where
  pub enter : Action W (Unit {0})
  pub commit : Action W (Unit {0})
  pub rollback : W → W

module _ {W P : Type 0} where
  -- An action on the world alone.
  abbrev pub on_world : {A : Type 0} → Action W A → Action (Env W P) A
  on_world m env = let (r, w) = m env.world in (r, record env { world = w })

  -- `token = _current_plan.set(plan)`, the body, and `_current_plan.reset(token)` in a `finally`.
  abbrev pub with_plan : {A : Type 0} → P → Action (Env W P) A → Action (Env W P) A
  with_plan plan body env =
      let token = env.current_plan in
      let (r, env') = body (record env { current_plan = some plan }) in
      (r, record env' { current_plan = token })

  -- The exit of the context manager.
  abbrev pub leave : {A : Type 0} → Transaction W → Result A × Env W P → Result A × Env W P
  leave t (ok a, env) =
      let (r, w) = t.commit env.world in
      continue r (λ _ env'. (ok a, env')) (record env { world = w })
  leave t (raised e, env) = (raised e, record env { world = t.rollback env.world })

  -- `transaction_scope(provider)` around a body. With no provider it is the null scope.
  abbrev pub transaction_scope :
      {A : Type 0} → Option (Transaction W) → Action (Env W P) A → Action (Env W P) A
  transaction_scope none body = body
  transaction_scope (some t) body = on_world t.enter >>= λ _ env. leave t (body env)
