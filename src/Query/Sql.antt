-- ===== src/Query/Sql.antt =====
-- sapl_sqlalchemy/src/sapl_sqlalchemy: providers.py, which lowers an obligation to an expression and
-- puts it into a statement; signal.py; shim.py's listener. SQLAlchemy itself is the record that
-- stands first. The messages of errors are left out.
pub mod Database
pub mod Narrowing
pub mod Guards
use sapl_python.Prelude.{
  String, Bool, true, false, List, [], ◌∷◌, ◌++◌, Option, none, some, str_eq, if◌then◌else◌, ◌&&◌,
  ◌||◌, not, map, any,
}
use sapl_python.Python.Value.{
  Value, null, bool, int, float, str, list, dict, Items, nil, cons, Fields, find, items, pos,
}
use sapl_python.Python.Exception.{Obj, plain, other, absent}
use sapl_python.Python.Action.{Result, ok, raised, Action, on_ok}
use sapl_python.Python.Context.{Env}
use sapl_python.Signal.{SignalKind, Signal, result, Handler, ScopedHandler, Provider, mapper}
use sapl_python.Plan.{EnforcementPlan}
use sapl_python.Query.Criteria.{
  Junction, disjunction, conjunction, texts, array_of, is_empty, no_items, is_type, render,
  render_all,
}
use sapl_python.Query.Shim.{discharge}

-- The classes of statements that the provider tells apart.
pub data StatementKind : Type 0 where
  text_clause compound select update delete insert other_statement : StatementKind

-- What the provider calls of SQLAlchemy: columns by their names, and literals.
pub record Sqlalchemy (Expr Column : Type 0) : Type 0 where
  pub is_none : String → Expr
  pub is_not_none : String → Expr
  pub equal : String → Value → Expr
  pub unequal : String → Value → Expr
  pub greater : String → Value → Expr
  pub greater_equal : String → Value → Expr
  pub less : String → Value → Expr
  pub less_equal : String → Value → Expr
  pub in_ : String → List Value → Expr
  pub like : String → String → Expr
  pub not_ : Expr → Expr
  pub and_ : List Expr → Expr
  pub or_ : List Expr → Expr
  pub text : String → Expr
  pub kind : Obj → StatementKind
  pub where_ : Expr → Obj → Obj
  pub selected_columns : Obj → List Column
  pub key : Column → String
  pub with_only_columns : List Column → Obj → Obj
  -- For each column description, whether it has an entity.
  pub entities : Obj → List Bool

abbrev pub sql_query : SignalKind
sql_query = record { name = "sqlalchemy_sql_query"; data_carrying = true }

abbrev pub sql_query_signal : Obj → Signal
sql_query_signal statement = record { kind = sql_query; payload = result statement }

-- ValueError
abbrev pub value_error : {A : Type 0} → Result A
value_error = raised (other "ValueError")

-- `_check_scalar`
abbrev pub check_scalar : Value → Result Value
check_scalar null = ok null
check_scalar (bool b) = ok (bool b)
check_scalar (int z) = ok (int z)
check_scalar (float z k) = ok (float z k)
check_scalar (str s) = ok (str s)
check_scalar v = value_error

abbrev pub check_scalars : List Value → Result (List Value)
check_scalars [] = ok []
check_scalars (v ∷ vs) = on_ok (check_scalar v) λ v'. on_ok (check_scalars vs) λ vs'. ok (v' ∷ vs')

-- `_supports_where`
abbrev pub supports_where : StatementKind → Bool
supports_where select = true
supports_where update = true
supports_where delete = true
supports_where _ = false

abbrev pub is_binary_op : String → Bool
is_binary_op op =
    any (str_eq op) ("=" ∷ "!=" ∷ ">" ∷ ">=" ∷ "<" ∷ "<=" ∷ "in" ∷ "like" ∷ "notLike" ∷ [])

-- The guards of `_rewrite`, by the class of the statement.
abbrev pub is_admitted : StatementKind → Bool → Bool
is_admitted text_clause has_predicates = false
is_admitted kind has_predicates = not has_predicates || supports_where kind

module _ {Expr Column : Type 0} (sql : Sqlalchemy Expr Column) where
  abbrev pub join : Junction → Expr → List Expr → Expr
  join disjunction e es = sql.or_ (e ∷ es)
  join conjunction e es = sql.and_ (e ∷ es)

  abbrev in_list : String → Value → Result Expr
  in_list column (list vs) = on_ok (check_scalars (items vs)) (λ vs'. ok (sql.in_ column vs'))
  in_list column v = value_error

  abbrev like_text : String → Value → Result Expr
  like_text column (str pattern) = ok (sql.like column pattern)
  like_text column v = value_error

  -- `_BINARY_DISPATCH`
  unfoldable pub dispatch : String → String → Value → Expr
  dispatch op column v =
      if str_eq op "="
      then sql.equal column v
      else if str_eq op "!="
      then sql.unequal column v
      else if str_eq op ">"
      then sql.greater column v
      else if str_eq op ">="
      then sql.greater_equal column v
      else if str_eq op "<"
      then sql.less column v
      else sql.less_equal column v

  -- `_render_binary`
  unfoldable pub render_binary : String → String → Value → Result Expr
  unfolding dispatch
  render_binary column op v =
      if str_eq op "in"
      then in_list column v
      else if str_eq op "like"
      then like_text column v
      else if str_eq op "notLike"
      then on_ok (like_text column v) (λ e. ok (sql.not_ e))
      else on_ok (check_scalar v) (λ v'. ok (dispatch op column v'))

  abbrev pub with_value : String → String → Option Value → Result Expr
  with_value column op none = value_error
  with_value column op (some null) = value_error
  with_value column op (some v) = render_binary column op v

  abbrev pub leaf_of : Option Value → Option Value → Option Value → Result Expr
  leaf_of (some (str column)) (some (str op)) value =
      if str_eq op "isNull"
      then ok (sql.is_none column)
      else if str_eq op "isNotNull"
      then ok (sql.is_not_none column)
      else if is_binary_op op
      then with_value column op value
      else value_error
  leaf_of column op value = value_error

  -- `_render_leaf`
  unfoldable pub render_leaf : Fields → Result (Option Expr)
  unfolding render_binary
  render_leaf node =
      on_ok (leaf_of (find "column" node) (find "op" node) (find "value" node)) (λ e. ok (some e))

  -- `_render_criterion`
  unfoldable pub render_criterion : Value → Result (Option Expr)
  unfolding render render_leaf
  render_criterion node = render join render_leaf node

  abbrev pub conjoined : List Expr → Option Expr
  conjoined [] = none
  conjoined (e ∷ []) = some e
  conjoined (e ∷ e' ∷ es) = some (sql.and_ (e ∷ e' ∷ es))

  -- `_build_predicate`
  unfoldable pub build_predicate : Items → List String → Result (Option Expr)
  unfolding render render_leaf
  build_predicate criteria conditions =
      on_ok (render_all join render_leaf criteria)
        (λ fragments. ok (conjoined (fragments ++ map sql.text conditions)))

  -- `_is_entity_typed_select`
  abbrev pub is_entity_typed_select : Obj → Bool
  is_entity_typed_select statement = any (λ entity. entity) (sql.entities statement)

  abbrev pub intersected : List String → List Column → List Column
  intersected columns [] = []
  intersected columns (c ∷ cs) =
      if any (str_eq (sql.key c)) columns
      then c ∷ intersected columns cs
      else intersected columns cs

  abbrev pub narrowed_select : StatementKind → Obj → List String → Result Obj
  narrowed_select select statement columns =
      if is_entity_typed_select statement
      then value_error
      else ok
          (sql.with_only_columns (intersected columns (sql.selected_columns statement)) statement)
  narrowed_select _ statement columns = ok statement

  -- `_apply_columns`
  unfoldable pub apply_columns : Obj → List String → Result Obj
  apply_columns statement columns = narrowed_select (sql.kind statement) statement columns

  abbrev pub inject : Option Expr → Obj → Obj
  inject none statement = statement
  inject (some e) statement = sql.where_ e statement

  abbrev pub projected : Obj → List String → Result Obj
  projected statement [] = ok statement
  projected statement columns = apply_columns statement columns

  -- `_rewrite` from the predicate on
  unfoldable pub rewrite_with : Obj → Items → List String → List String → Result Obj
  unfolding build_predicate apply_columns
  rewrite_with statement criteria conditions columns =
      on_ok (build_predicate criteria conditions)
        (λ predicate. projected (inject predicate statement) columns)

  -- `_rewrite`
  unfoldable pub rewrite : Obj → Items → List String → List String → Result Obj
  unfolding rewrite_with
  rewrite statement criteria conditions columns =
      if is_admitted (sql.kind statement) (not (no_items criteria) || not (is_empty conditions))
      then rewrite_with statement criteria conditions columns
      else value_error

  abbrev argument : List Obj → Obj
  argument [] = absent
  argument (x ∷ _) = x

  module _ {W : Type 0} where
    unfoldable pub rewrite_handler : Items → List String → List String → Handler W
    unfolding rewrite
    rewrite_handler criteria conditions columns args w =
        (rewrite (argument args) criteria conditions columns, w)

    abbrev pub scheduled : Items → List String → List String → List (ScopedHandler W)
    scheduled criteria conditions columns =
        if no_items criteria && is_empty conditions && is_empty columns
        then []
        else record {
          signal = sql_query;
          priority = pos 30;
          shape = mapper;
          handler = rewrite_handler criteria conditions columns;
        }
          ∷ []

    -- SqlQueryRewritingProvider
    unfoldable pub sql_query_rewriting : Provider W
    unfolding rewrite_handler
    sql_query_rewriting (dict c) =
        let kind = find "type" c in
        ok (
          if is_type "sql:queryRewriting" kind || is_type "relational:queryRewriting" kind
          then scheduled (array_of (find "criteria" c))
              (texts (items (array_of (find "conditions" c))))
              (texts (items (array_of (find "columns" c))))
          else [])
    sql_query_rewriting constraint = ok []

module _ {W : Type 0} where
  -- `_sapl_listener`: the statement that is executed.
  unfoldable pub sapl_listener : Obj → Action (Env W (EnforcementPlan W)) Obj
  unfolding discharge
  sapl_listener statement =
      discharge "SQL_QUERY_OBLIGATION_FAILURE" "SQL_QUERY_INVALID_RETURN"
        (sql_query_signal statement) statement
