-- ===== src/Query/Django.antt =====
-- sapl_django/src/sapl_django: orm_providers.py, which lowers an obligation to a Q object and puts it
-- into a query, with its selection of the queries that it is about; orm_signal.py; orm_shim.py. Django
-- itself is the record that stands first. The messages of errors are left out.
pub mod Database
pub mod Narrowing
pub mod Hook
use sapl_python.Prelude.{
  String, Bool, true, false, List, [], ◌∷◌, ◌++◌, Option, none, some, str_eq, if◌then◌else◌, ◌&&◌,
  ◌||◌, not, map, any, all,
}
use Prim.Native.String.{◌++◌ as ◌+++◌}
use sapl_python.Python.Value.{
  Value, null, bool, int, float, str, list, dict, Items, nil, cons, Fields, find, items, pos,
}
use sapl_python.Python.Exception.{Obj, plain, absent}
use sapl_python.Python.Action.{Result, ok, raised, Action, on_ok}
use sapl_python.Signal.{SignalKind, Signal, result, Handler, ScopedHandler, Provider, mapper}
use sapl_python.Query.Criteria.{
  Junction, disjunction, conjunction, texts, array_of, is_empty, no_items, is_type, render,
  render_all,
}
use sapl_python.Query.Sql.{value_error, check_scalar, check_scalars, is_binary_op}

-- What the provider calls of Django. `lookup key value` is Q(**{key: value}); a query that a call
-- changes in place is given back. `combinator` is whether a query is a set operation,
-- `accepts_projection` whether it neither updates nor deletes, nor selects values.
pub record Django (Q Model : Type 0) : Type 0 where
  pub lookup : String → Value → Q
  pub and_ : Q → Q → Q
  pub or_ : Q → Q → Q
  pub not_ : Q → Q
  pub model : Obj → Option Model
  pub has_field : Model → String → Bool
  pub combinator : Obj → Bool
  pub clone : Obj → Obj
  pub add_q : Q → Obj → Obj
  pub add_extra : List String → Obj → Obj
  pub add_immediate_loading : List String → Obj → Obj
  pub accepts_projection : Obj → Bool

abbrev pub django_query : SignalKind
django_query = record { name = "django_orm_query"; data_carrying = true }

abbrev pub django_query_signal : Obj → Signal
django_query_signal query = record { kind = django_query; payload = result query }

-- The columns that criteria name.
abbrev pub columns_together : Junction → List String → List (List String) → List String
columns_together j cs [] = cs
columns_together j cs (ds ∷ rest) = cs ++ columns_together j ds rest

abbrev pub column_of : Option Value → List String
column_of (some (str column)) = column ∷ []
column_of _ = []

abbrev pub column_leaf : Fields → Result (Option (List String))
column_leaf leaf = ok (some (column_of (find "column" leaf)))

abbrev pub all_columns : Result (List (List String)) → List String
all_columns (ok []) = []
all_columns (ok (cs ∷ rest)) = columns_together conjunction cs rest
all_columns (raised e) = []

-- `_criteria_columns`, as a list. Nothing is raised on the way.
unfoldable pub criteria_columns : Items → List String
unfolding render
criteria_columns criteria = all_columns (render_all columns_together column_leaf criteria)

-- `_criteria_columns(criteria) or set(columns)`
abbrev pub either_columns : List String → List String → List String
either_columns [] columns = columns
either_columns (c ∷ cs) columns = c ∷ cs

module _ {Q Model : Type 0} (django : Django Q Model) where
  -- The loop of `_combine`, and of `_build_predicate` for a conjunction
  abbrev pub combine : Junction → Q → List Q → Q
  combine j q [] = q
  combine disjunction q (q' ∷ qs) = combine disjunction (django.or_ q q') qs
  combine conjunction q (q' ∷ qs) = combine conjunction (django.and_ q q') qs

  abbrev in_list : String → Value → Result Q
  in_list column (list vs) =
      on_ok (check_scalars (items vs)) (λ _. ok (django.lookup (column +++ "__in") (list vs)))
  in_list column v = value_error

  abbrev like_text : String → Value → Result Q
  like_text column (str pattern) = ok (django.lookup (column +++ "__sapllike") (str pattern))
  like_text column v = value_error

  -- The scalar operators, behind `_check_scalar`
  unfoldable pub scalar : String → String → Value → Q
  scalar column op v =
      if str_eq op "="
      then django.lookup column v
      else if str_eq op "!="
      then django.not_ (django.lookup column v)
      else if str_eq op ">"
      then django.lookup (column +++ "__gt") v
      else if str_eq op ">="
      then django.lookup (column +++ "__gte") v
      else if str_eq op "<"
      then django.lookup (column +++ "__lt") v
      else django.lookup (column +++ "__lte") v

  -- `_render_binary`
  unfoldable pub render_binary : String → String → Value → Result Q
  unfolding scalar
  render_binary column op v =
      if str_eq op "in"
      then in_list column v
      else if str_eq op "like"
      then like_text column v
      else if str_eq op "notLike"
      then on_ok (like_text column v) (λ q. ok (django.not_ q))
      else on_ok (check_scalar v) (λ v'. ok (scalar column op v'))

  abbrev pub with_value : String → String → Option Value → Result Q
  with_value column op none = value_error
  with_value column op (some null) = value_error
  with_value column op (some v) = render_binary column op v

  abbrev pub leaf_of : Option Value → Option Value → Option Value → Result Q
  leaf_of (some (str column)) (some (str op)) value =
      if str_eq op "isNull"
      then ok (django.lookup (column +++ "__isnull") (bool true))
      else if str_eq op "isNotNull"
      then ok (django.lookup (column +++ "__isnull") (bool false))
      else if is_binary_op op
      then with_value column op value
      else value_error
  leaf_of column op value = value_error

  -- `_render_leaf`
  unfoldable pub render_leaf : Fields → Result (Option Q)
  unfolding render_binary
  render_leaf node =
      on_ok (leaf_of (find "column" node) (find "op" node) (find "value" node)) (λ q. ok (some q))

  -- `_render_node`
  unfoldable pub render_node : Value → Result (Option Q)
  unfolding render render_leaf
  render_node node = render combine render_leaf node

  abbrev pub combined : List Q → Option Q
  combined [] = none
  combined (q ∷ qs) = some (combine conjunction q qs)

  -- `_build_predicate`
  unfoldable pub build_predicate : Items → Result (Option Q)
  unfolding render render_leaf
  build_predicate criteria =
      on_ok (render_all combine render_leaf criteria) (λ qs. ok (combined qs))

  abbrev pub with_predicate : Option Q → Obj → Obj
  with_predicate none query = query
  with_predicate (some q) query = django.add_q q query

  abbrev pub with_extra : List String → Obj → Obj
  with_extra [] query = query
  with_extra conditions query = django.add_extra conditions query

  abbrev pub kept : Model → List String → List String
  kept model [] = []
  kept model (c ∷ cs) = if django.has_field model c then c ∷ kept model cs else kept model cs

  abbrev pub loaded : List String → Obj → Obj
  loaded [] query = query
  loaded valid query = django.add_immediate_loading valid query

  abbrev pub with_projection : Model → List String → Obj → Obj
  with_projection model columns query =
      if django.accepts_projection query then loaded (kept model columns) query else query

  -- `_rewrite` from the clone on
  unfoldable pub rewrite_target : Model → Obj → Items → List String → List String → Result Obj
  unfolding build_predicate
  rewrite_target model query criteria conditions columns =
      on_ok (build_predicate criteria) λ predicate. ok (
        with_projection model columns
          (with_extra conditions (with_predicate predicate (django.clone query))))

  -- `_model_has_all`
  abbrev pub model_has_all : Model → List String → Bool
  model_has_all model columns = all (django.has_field model) columns

  abbrev pub rewrite_model :
      Option Model → Obj → Items → List String → List String → List String → Result Obj
  rewrite_model none query criteria conditions columns target_columns = ok query
  rewrite_model (some model) query criteria conditions columns target_columns =
      if model_has_all model target_columns
      then (if (not (no_items criteria) || not (is_empty conditions)) && django.combinator query
          then value_error
          else rewrite_target model query criteria conditions columns)
      else ok query

  -- `_rewrite`. Every model has all of no columns.
  unfoldable pub rewrite : Obj → Items → List String → List String → List String → Result Obj
  unfolding rewrite_target
  rewrite query criteria conditions columns target_columns =
      rewrite_model (django.model query) query criteria conditions columns target_columns

  abbrev argument : List Obj → Obj
  argument [] = absent
  argument (x ∷ _) = x

  module _ {W : Type 0} where
    unfoldable pub rewrite_handler : Items → List String → List String → Handler W
    unfolding rewrite criteria_columns
    rewrite_handler criteria conditions columns args w = (
      rewrite (argument args) criteria conditions columns
          (either_columns (criteria_columns criteria) columns),
      w,
    )

    abbrev pub scheduled : Items → List String → List String → List (ScopedHandler W)
    scheduled criteria conditions columns =
        if no_items criteria && is_empty conditions && is_empty columns
        then []
        else record {
          signal = django_query;
          priority = pos 30;
          shape = mapper;
          handler = rewrite_handler criteria conditions columns;
        }
          ∷ []

    -- DjangoQueryRewritingProvider
    unfoldable pub django_query_rewriting : Provider W
    unfolding rewrite_handler
    django_query_rewriting (dict c) =
        let kind = find "type" c in
        ok (
          if is_type "sql:queryRewriting" kind || is_type "relational:queryRewriting" kind
          then scheduled (array_of (find "criteria" c))
              (texts (items (array_of (find "conditions" c))))
              (texts (items (array_of (find "columns" c))))
          else [])
    django_query_rewriting constraint = ok []
