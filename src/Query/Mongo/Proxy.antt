-- ===== src/Query/Mongo/Proxy.antt =====
-- sapl_pymongo/src/sapl_pymongo/shim.py: the proxies of a collection. `driver` calls a method of the
-- collection; for the asynchronous proxy it is the awaited call.
pub mod Answers
use sapl_python.Prelude.{
  ◌≡◌, refl, ap, String, true, false, List, [], ◌∷◌, Option, none, some, str_eq, if◌then◌else◌,
}
use sapl_python.Python.Value.{dict, end}
use sapl_python.Python.Exception.{Obj, plain}
use sapl_python.Python.Action.{Result, ok, raised, Action, ◌>>=◌, continue}
use sapl_python.Python.Context.{Env, on_world}
use sapl_python.Plan.{EnforcementPlan, has_entries, execute}
use sapl_python.Query.Mongo.{mongo_query, mongo_query_signal}
use sapl_python.Query.Shim.{
  Registry, register_shim_signal, unregister_shim_signal, discharge, verdict,
}

abbrev pub obligation_failure : String
obligation_failure = "MONGO_QUERY_OBLIGATION_FAILURE"

abbrev pub invalid_return : String
invalid_return = "MONGO_QUERY_INVALID_RETURN"

abbrev pub register_mongo_shim : Registry → Registry
register_mongo_shim = register_shim_signal mongo_query

abbrev pub unregister_mongo_shim : Registry → Registry
unregister_mongo_shim = unregister_shim_signal mongo_query

-- The positional and the keyword arguments of a call.
abbrev pub Call : Type 0
Call = List Obj × List (String × Obj)

abbrev pub keyword : String → List (String × Obj) → Option Obj
keyword key [] = none
keyword key ((k, v) ∷ kwargs) = if str_eq k key then some v else keyword key kwargs

-- `{**kwargs, key: v}`, where the key is there
abbrev pub with_keyword : String → Obj → List (String × Obj) → List (String × Obj)
with_keyword key v [] = (key, v) ∷ []
with_keyword key v ((k, u) ∷ kwargs) =
    let rest = with_keyword key v kwargs in if str_eq k key then (k, v) ∷ kwargs else (k, u) ∷ rest

-- Where a call has its query: under the keyword, in the first place, or nowhere.
pub data Place : Type 0 where
  by_keyword : Obj → Place
  first : Obj → Place
  default : Obj → Place
  nowhere : Place

abbrev positional : List Obj → Option Obj → Place
positional (query ∷ _) _ = first query
positional [] none = nowhere
positional [] (some query) = default query

abbrev by_name : Option Obj → List Obj → Option Obj → Place
by_name (some query) args query' = by_keyword query
by_name none args query' = positional args query'

abbrev pub place : String → Call → Option Obj → Place
place key (args, kwargs) query = by_name (keyword key kwargs) args query

abbrev pub queried : Place → Option Obj
queried (by_keyword query) = some query
queried (first query) = some query
queried (default query) = some query
queried nowhere = none

abbrev first_argument : Obj → List Obj → List Obj
first_argument query [] = query ∷ []
first_argument query (_ ∷ args) = query ∷ args

-- The call with another query in its place.
abbrev pub requery : String → Place → Obj → Call → Call
requery key (by_keyword _) query (args, kwargs) = (args, with_keyword key query kwargs)
requery key (first _) query (args, kwargs) = (first_argument query args, kwargs)
requery key (default _) query (args, kwargs) = (query ∷ [], kwargs)
requery key nowhere query call = call

pub data Operation : Type 0 where
  find find_one aggregate count_documents update_one update_many delete_one delete_many : Operation

abbrev pub key_of : Operation → String
key_of aggregate = "pipeline"
key_of _ = "filter"

-- The query of a call that has none.
abbrev pub default_of : Operation → Option Obj
default_of find = some (plain (dict end))
default_of find_one = some (plain (dict end))
default_of count_documents = some (plain (dict end))
default_of _ = none

module _ {W : Type 0} where
  -- `_discharge`
  unfoldable pub discharge_mongo : Obj → Action (Env W (EnforcementPlan W)) Obj
  unfolding discharge
  discharge_mongo query =
      discharge obligation_failure invalid_return (mongo_query_signal query) query

  abbrev pub intercept_at :
      String → Place → Call → Option Obj → Action (Env W (EnforcementPlan W)) Call
  intercept_at key where_ call none env = (ok call, env)
  intercept_at key where_ call (some query) env =
      (discharge_mongo query >>= λ query' env'. (ok (requery key where_ query' call), env')) env

  -- `_intercept`
  unfoldable pub intercept : String → Call → Option Obj → Action (Env W (EnforcementPlan W)) Call
  unfolding discharge_mongo
  intercept key call query env =
      let p = place key call query in intercept_at key p call (queried p) env

  -- The methods of the two proxies.
  module _ (driver : Operation → Call → Action W Obj) where
    unfoldable pub operate : Operation → Call → Action (Env W (EnforcementPlan W)) Obj
    unfolding intercept
    operate operation call = intercept (key_of operation) call (default_of operation) >>= λ call'.
        on_world (driver operation call')
