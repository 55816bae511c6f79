-- ===== src/Query/Mongo/Proxy/Answers.antt =====
-- sapl_pymongo/src/sapl_pymongo/shim.py: the calls of the driver behind which a caller gets an answer.
use sapl_python.Prelude.{
  ◌≡◌, refl, ap, String, true, false, List, [], ◌∷◌, Option, none, some, str_eq, if◌then◌else◌,
  arith, Bool-cases, Option-cases, inl, inr,
}
use sapl_python.Python.Exception.{Obj}
use sapl_python.Python.Action.{Result, ok, raised, Action, continue}
use sapl_python.Python.Context.{Env, on_world}
use sapl_python.Plan.{EnforcementPlan, has_entries, execute}
use sapl_python.Query.Mongo.{mongo_query, mongo_query_signal}
use sapl_python.Query.Shim.{verdict}
use sapl_python.Query.Shim.Guard.{discharge-execute, verdict-ok}
use sapl_python.Query.Mongo.Proxy.{
  obligation_failure, invalid_return, Call, keyword, with_keyword, place, queried, requery,
  Operation, key_of, default_of, operate,
}

-- The argument under a key as a method binds it: the keyword argument, else the first positional
-- one, else the default.
abbrev pub bound : String → Option Obj → Call → Option Obj
bound key default (args, kwargs) = elim (keyword key kwargs) [
  | some v ↦ some v
  | none ↦ elim args [ [] ↦ default | v ∷ _ ↦ some v ]
]

-- The positional arguments behind the first.
abbrev pub behind_first : List Obj → List Obj
behind_first [] = []
behind_first (_ ∷ args) = args

-- The keyword arguments under other keys.
abbrev pub without : String → List (String × Obj) → List (String × Obj)
without key [] = []
without key ((k, v) ∷ kwargs) =
    let rest = without key kwargs in if str_eq k key then rest else (k, v) ∷ rest

keyword-with_keyword :
    (key : String) (v u : Obj) (kwargs : List (String × Obj))
    → keyword key kwargs ≡ some u
    → keyword key (with_keyword key v kwargs) ≡ some v
keyword-with_keyword key v u [] h = cc
keyword-with_keyword key v u ((k, x) ∷ kwargs) h = elim (Bool-cases (str_eq k key)) [
  | inl e ↦ rw e (rw e refl)
  | inr e ↦ rw e (rw e (keyword-with_keyword key v u kwargs (rw e at h)))
]

without-with_keyword :
    (key : String) (v u : Obj) (kwargs : List (String × Obj))
    → keyword key kwargs ≡ some u
    → without key (with_keyword key v kwargs) ≡ without key kwargs
without-with_keyword key v u [] h = cc
without-with_keyword key v u ((k, x) ∷ kwargs) h = elim (Bool-cases (str_eq k key)) [
  | inl e ↦ rw e (rw e refl)
  | inr e ↦ rw e (rw e (ap ((k, x) ∷◌) (without-with_keyword key v u kwargs (rw e at h))))
]

-- The proxy finds the query where the method would bind it.
queried-place :
    (key : String) (call : Call) (default : Option Obj)
    → queried (place key call default) ≡ bound key default call
queried-place key (args, kwargs) default = ground arith

-- A call with another value bound to the key, and all else as it was.
abbrev pub Rebound : String → Obj → Call → Call → Type 0
Rebound key v call call' =
    (bound key none call' ≡ some v)
    × (behind_first call'.0 ≡ behind_first call.0)
    × (without key call'.1 ≡ without key call.1)

positional-Rebound :
    (key : String) (args : List Obj) (kwargs : List (String × Obj)) (default : Option Obj)
    (query v : Obj)
    → keyword key kwargs ≡ none
    → bound key default (args, kwargs) ≡ some query
    → Rebound key v (args, kwargs) (requery key (place key (args, kwargs) default) v (args, kwargs))
positional-Rebound key [] kwargs none query v e h = ground arith
positional-Rebound key [] kwargs (some u) query v e h = rw e (rw (e, bound) (refl, refl, refl))
positional-Rebound key (u ∷ args) kwargs default query v e h =
    rw e (rw (e, bound) (refl, refl, refl))

requery-Rebound :
    (key : String) (call : Call) (default : Option Obj) (query v : Obj)
    → bound key default call ≡ some query
    → Rebound key v call (requery key (place key call default) v call)
requery-Rebound key (args, kwargs) default query v h = elim (Option-cases (keyword key kwargs)) [
  | inl e ↦ positional-Rebound key args kwargs default query v e h
  | inr (u, e) ↦ rw e (
      rw (keyword-with_keyword key v u kwargs e, bound)
        (refl, refl, without-with_keyword key v u kwargs e))
]

module _ {W : Type 0} (driver : Operation → Call → Action W Obj) where
  went_on :
      (operation : Operation) (f : Obj → Call) (r : Result Obj) (answer : Obj)
      (env env' : Env W (EnforcementPlan W))
      → continue
          (continue r (λ query e. (ok (f query), e)) env).0
          (λ call. on_world (driver operation call))
          (continue r (λ query e. (ok (f query), e)) env).1
        ≡ (ok answer, env')
      → (query : Obj) × (r ≡ ok query) × ((driver operation (f query) env.world).0 ≡ ok answer)
  went_on operation f (ok query) answer env env' h = (query, refl, ap (λ x. x.0) h)
  went_on operation f (raised e) answer env env' h = cc

  -- Where the current plan has entries at the query signal, a call with a query, its own or the
  -- default of the operation, is answered only if no obligation failed on this query, and then with
  -- the driver's answer to a call that binds what the plan made of the query, whether it came by
  -- keyword, in the first place or by default; the other arguments are those of the call.
  pub operate-ok :
      (operation : Operation) (call : Call) (query answer : Obj) (p : EnforcementPlan W)
      (env env' : Env W (EnforcementPlan W))
      → env.current_plan ≡ some p
      → has_entries p mongo_query ≡ true
      → bound (key_of operation) (default_of operation) call ≡ some query
      → operate driver operation call env ≡ (ok answer, env')
      → let (r, w) = execute p (mongo_query_signal query) false env.world in
        (r.failure_state ≡ false)
        × (call' : Call) × Rebound (key_of operation) r.value call call'
        × ((driver operation call' w).0 ≡ ok answer)
  unfolding operate
  operate-ok operation call query answer p env env' current entries has h =
      let key = key_of operation in
      let at = place key call (default_of operation) in
      let found : queried at ≡ some query =
        rw (queried-place key call (default_of operation)) has in
      let passed =
        discharge-execute obligation_failure invalid_return (mongo_query_signal query) query p env
          current entries in
      let r = (execute p (mongo_query_signal query) false env.world).0 in
      let (query', got, answered) =
        went_on operation (λ query'. requery key at query' call)
          (verdict obligation_failure invalid_return r) answer
          (record env { world = (execute p (mongo_query_signal query) false env.world).1 }) env'
          (rw passed at (rw found at h)) in
      let (failed, value) = verdict-ok obligation_failure invalid_return r query' got in
      (
        failed,
        requery key at r.value call,
        requery-Rebound key call (default_of operation) query r.value has,
        rw value answered,
      )
