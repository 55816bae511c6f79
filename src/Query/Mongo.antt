-- ===== src/Query/Mongo.antt =====
-- sapl_pymongo/src/sapl_pymongo: providers.py, which makes filter fragments of an obligation and
-- merges them into a filter, and signal.py. `loads` is bson's json_util.loads.
pub mod Database
pub mod Narrowing
pub mod Proxy
use sapl_python.Prelude.{
  String, Bool, true, false, List, [], ◌∷◌, ◌++◌, Option, none, some, str_eq, if◌then◌else◌, ◌&&◌,
}
use sapl_python.Python.Value.{
  Value, null, str, list, dict, opaque, Items, nil, cons, Fields, end, field, find, items, ℤ, pos,
}
use sapl_python.Python.Compare.{truthy}
use sapl_python.Python.Exception.{Obj, plain, other, absent}
use sapl_python.Python.Action.{Result, ok, raised, on_ok}
use sapl_python.Signal.{SignalKind, Signal, result, Handler, ScopedHandler, Provider, mapper}
use sapl_python.Query.Criteria.{
  Junction, disjunction, conjunction, texts, array_of, is_empty, is_type, render, render_all,
}

abbrev pub mongo_query : SignalKind
mongo_query = record { name = "pymongo_mongo_query"; data_carrying = true }

-- The executor does not look at the operation of a MongoQuerySignal.
abbrev pub mongo_query_signal : Obj → Signal
mongo_query_signal query = record { kind = mongo_query; payload = result query }

abbrev pub single : String → Value → Value
single key v = dict (field key v end)

abbrev pub item_list : List Value → Items
item_list [] = nil
item_list (v ∷ vs) = cons v (item_list vs)

-- The end of `_build_group`
abbrev pub build_group : Junction → Value → List Value → Value
build_group disjunction part parts = single "$or" (list (item_list (part ∷ parts)))
build_group conjunction part parts = single "$and" (list (item_list (part ∷ parts)))

abbrev pub only_list : String → Value → Option Value
only_list column (list vs) = some (single column (single "$in" (list vs)))
only_list column v = none

-- `_apply_binary_op`
unfoldable pub apply_binary_op : String → String → Value → Option Value
apply_binary_op column op v =
    if str_eq op "="
    then some (single column v)
    else if str_eq op "!="
    then some (single column (single "$ne" v))
    else if str_eq op ">"
    then some (single column (single "$gt" v))
    else if str_eq op ">="
    then some (single column (single "$gte" v))
    else if str_eq op "<"
    then some (single column (single "$lt" v))
    else if str_eq op "<="
    then some (single column (single "$lte" v))
    else if str_eq op "in"
    then only_list column v
    else none

abbrev pub with_value : String → String → Option Value → Option Value
with_value column op none = none
with_value column op (some v) = apply_binary_op column op v

abbrev pub leaf_of : Option Value → Option Value → Option Value → Option Value
leaf_of (some (str column)) (some (str op)) value =
    if str_eq op "isNull"
    then some (single column null)
    else if str_eq op "isNotNull"
    then some (single column (single "$ne" null))
    else with_value column op value
leaf_of column op value = none

-- `_build_leaf`
unfoldable pub build_leaf : Fields → Result (Option Value)
unfolding apply_binary_op
build_leaf leaf = ok (leaf_of (find "column" leaf) (find "op" leaf) (find "value" leaf))

-- `_build_node`
unfoldable pub build_node : Value → Result (Option Value)
unfolding render build_leaf
build_node entry = render build_group build_leaf entry

-- `_extract_criteria`, on the value under the key
unfoldable pub extract_criteria : Option Value → Result (List Value)
unfolding render build_leaf
extract_criteria criteria = render_all build_group build_leaf (array_of criteria)

-- `_extract_conditions`
abbrev pub extract_conditions : Option Value → List String
extract_conditions conditions = texts (items (array_of conditions))

abbrev pub added : Value → List Value → List Value
added (dict (field k v fs)) fragments = dict (field k v fs) ∷ fragments
added parsed fragments = fragments

-- `_merge`
unfoldable pub merge : Value → Value → List Value → Value
merge query fragment [] =
    if truthy query then single "$and" (list (cons query (cons fragment nil))) else fragment
merge query fragment (next ∷ fragments) =
    let parts = item_list (fragment ∷ next ∷ fragments) in
    single "$and" (list (if truthy query then cons query parts else parts))

abbrev pub merged : Value → List Value → Value
merged query [] = query
merged query (fragment ∷ fragments) = merge query fragment fragments

-- What is not a value is one object among others to the mapper.
module _ (identity : Obj → Value) where
  abbrev pub seen : List Obj → Value
  seen [] = null
  seen (plain v ∷ _) = v
  seen (x ∷ _) = identity x

module _ (loads : String → Result Value) where
  -- `_parse_conditions`
  unfoldable pub parse_conditions : List String → Result (List Value)
  parse_conditions [] = ok []
  parse_conditions (condition ∷ conditions) =
      on_ok (loads condition)
        λ parsed. on_ok (parse_conditions conditions) λ fragments. ok (added parsed fragments)

  -- `_mapper`
  unfoldable pub narrow : List Value → List String → Value → Result Value
  unfolding parse_conditions merge
  narrow criteria conditions (list pipeline) = raised (other "ValueError")
  narrow criteria conditions query =
      on_ok (parse_conditions conditions) (λ parsed. ok (merged query (criteria ++ parsed)))

  module _ (identity : Obj → Value) {W : Type 0} where
    unfoldable pub narrow_handler : List Value → List String → Handler W
    unfolding narrow
    narrow_handler criteria conditions args w =
        (on_ok (narrow criteria conditions (seen identity args)) (λ query. ok (plain query)), w)

    abbrev pub scheduled : List Value → List String → List (ScopedHandler W)
    scheduled [] [] = []
    scheduled criteria conditions =
        record {
          signal = mongo_query;
          priority = pos 30;
          shape = mapper;
          handler = narrow_handler criteria conditions;
        }
        ∷ []

    abbrev pub responsible : Fields → Result (List (ScopedHandler W))
    responsible c =
        on_ok (extract_criteria (find "criteria" c))
          λ criteria. ok (scheduled criteria (extract_conditions (find "conditions" c)))

    -- MongoDbQueryRewritingProvider
    unfoldable pub mongo_db_query_rewriting : Provider W
    unfolding narrow_handler extract_criteria
    mongo_db_query_rewriting (dict c) =
        if is_type "mongo:queryRewriting" (find "type" c) then responsible c else ok []
    mongo_db_query_rewriting constraint = ok []
