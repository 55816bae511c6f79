-- ===== src/Query/Django/Hook.antt =====
-- sapl_django/src/sapl_django/orm_shim.py: the hook on SQLCompiler.execute_sql.
use sapl_python.Prelude.{Bool, true, false, List, [], ◌∷◌, Option, none, some}
use sapl_python.Python.Exception.{Obj}
use sapl_python.Python.Action.{Action, ◌>>=◌}
use sapl_python.Python.Context.{Env}
use sapl_python.Plan.{EnforcementPlan}
use sapl_python.Query.Shim.{Registry, register_shim_signal, unregister_shim_signal, discharge}
use sapl_python.Query.Django.{django_query, django_query_signal}

-- `execute_sql`, by the query of its compiler.
abbrev pub ExecuteSql : Type 0 → Type 0
ExecuteSql W = Obj → Action (Env W (EnforcementPlan W)) Obj

module _ {W : Type 0} where
  -- `_sapl_execute_sql`
  unfoldable pub sapl_execute_sql : ExecuteSql W → ExecuteSql W
  unfolding discharge
  sapl_execute_sql original query =
      discharge "DJANGO_QUERY_OBLIGATION_FAILURE" "DJANGO_QUERY_INVALID_RETURN"
        (django_query_signal query) query
      >>= original

-- The module's global, the class attribute, and the registry of signals.
pub record Compiler (W : Type 0) : Type 0 where
  pub original_execute_sql : Option (ExecuteSql W)
  pub execute_sql : ExecuteSql W
  pub registry : Registry

module _ {W : Type 0} where
  abbrev pub install : Option (ExecuteSql W) → Compiler W → Compiler W
  install (some _) c = c
  install none c = record c {
    original_execute_sql = some c.execute_sql;
    execute_sql = sapl_execute_sql c.execute_sql;
  }

  -- `register_orm_listener`
  unfoldable pub register_orm_listener : Compiler W → Compiler W
  register_orm_listener c =
      install c.original_execute_sql
        (record c { registry = register_shim_signal django_query c.registry })

  abbrev pub restore : Option (ExecuteSql W) → Compiler W → Compiler W
  restore none c = c
  restore (some original) c = record c { original_execute_sql = none; execute_sql = original }

  -- `unregister_orm_listener`
  unfoldable pub unregister_orm_listener : Compiler W → Compiler W
  unregister_orm_listener c =
      restore c.original_execute_sql
        (record c { registry = unregister_shim_signal django_query c.registry })

  -- A sequence of calls: `true` registers, `false` withdraws.
  abbrev pub calls : List Bool → Compiler W → Compiler W
  calls [] c = c
  calls (true ∷ rest) c = calls rest (register_orm_listener c)
  calls (false ∷ rest) c = calls rest (unregister_orm_listener c)

  -- Not hooked, or hooked once.
  pub data IsHookedOnce (base : ExecuteSql W) : Compiler W → Type 0 where
    unhooked :
        (registry : Registry)
        → IsHookedOnce base
            (record { original_execute_sql = none; execute_sql = base; registry = registry })
    hooked :
        (registry : Registry)
        → IsHookedOnce base (record {
          original_execute_sql = some base;
          execute_sql = sapl_execute_sql base;
          registry = registry;
        })

  register-IsHookedOnce :
      (base : ExecuteSql W) (c : Compiler W)
      → IsHookedOnce base c
      → IsHookedOnce base (register_orm_listener c)
  unfolding register_orm_listener
  register-IsHookedOnce base c (unhooked registry) =
      hooked (register_shim_signal django_query registry)
  register-IsHookedOnce base c (hooked registry) =
      hooked (register_shim_signal django_query registry)

  unregister-IsHookedOnce :
      (base : ExecuteSql W) (c : Compiler W)
      → IsHookedOnce base c
      → IsHookedOnce base (unregister_orm_listener c)
  unfolding unregister_orm_listener
  unregister-IsHookedOnce base c (unhooked registry) =
      unhooked (unregister_shim_signal django_query registry)
  unregister-IsHookedOnce base c (hooked registry) =
      unhooked (unregister_shim_signal django_query registry)

  -- Whatever the calls that register and withdraw the listener, starting from a compiler that is not
  -- hooked, or hooked once: behind them, its `execute_sql` is the original one, or that one under a
  -- single hook with the original kept.
  pub calls-IsHookedOnce :
      (base : ExecuteSql W) (bs : List Bool) (c : Compiler W)
      → IsHookedOnce base c
      → IsHookedOnce base (calls bs c)
  calls-IsHookedOnce base [] c h = h
  calls-IsHookedOnce base (true ∷ bs) c h =
      calls-IsHookedOnce base bs (register_orm_listener c) (register-IsHookedOnce base c h)
  calls-IsHookedOnce base (false ∷ bs) c h =
      calls-IsHookedOnce base bs (unregister_orm_listener c) (unregister-IsHookedOnce base c h)
