-- ===== src/Query/Sql/Database.antt =====
-- sapl_sqlalchemy/src/sapl_sqlalchemy/providers.py: what a database makes of SQLAlchemy's expressions
-- and statements, and the expressions of single comparisons.
use sapl_python.Prelude.{
  ◌≡◌, refl, String, Bool, true, false, List, [], ◌∷◌, some, arith, ◌&&◌, all, any,
}
use sapl_python.Python.Value.{Value, null, bool, int, float, str, list, Items, items}
use sapl_python.Python.Exception.{Obj}
use sapl_python.Python.Action.{ok}
use sapl_python.Query.Criteria.Meaning.{
  Operator, eq, ne, gt, ge, lt, le, within, like, not_like, is_null, is_not_null, leaf_fields,
}
use sapl_python.Query.Sql.{Sqlalchemy, check_scalar, check_scalars, render_leaf}

abbrev is_scalar : Value → Bool
is_scalar (bool _) = true
is_scalar (int _) = true
is_scalar (float _ _) = true
is_scalar (str _) = true
is_scalar _ = false

abbrev is_literal : Value → Bool
is_literal null = true
is_literal v = is_scalar v

abbrev are_literals : Value → Bool
are_literals (list vs) = all is_literal (items vs)
are_literals _ = false

abbrev is_text : Value → Bool
is_text (str _) = true
is_text _ = false

-- A comparison with a scalar, of `in` with a list of scalars or nulls, of `like` with a text.
abbrev pub fits : String → Operator → Value → Bool
fits k within v = are_literals v
fits k like v = is_text v
fits k not_like v = is_text v
fits k is_null v = true
fits k is_not_null v = true
fits k _ v = is_scalar v

module _ {Expr Column : Type 0} (sql : Sqlalchemy Expr Column) where
  -- The expression of a comparison.
  abbrev pub compiled : String → Operator → Value → Expr
  compiled k eq v = sql.equal k v
  compiled k ne v = sql.unequal k v
  compiled k gt v = sql.greater k v
  compiled k ge v = sql.greater_equal k v
  compiled k lt v = sql.less k v
  compiled k le v = sql.less_equal k v
  compiled k within (list vs) = sql.in_ k (items vs)
  compiled k within v = sql.is_none k
  compiled k like (str p) = sql.like k p
  compiled k like v = sql.is_none k
  compiled k not_like (str p) = sql.not_ (sql.like k p)
  compiled k not_like v = sql.is_none k
  compiled k is_null v = sql.is_none k
  compiled k is_not_null v = sql.is_not_none k

-- How a database reads expressions and statements over rows of a type R. `is_operand` holds of the
-- expressions that keep their meaning as an operand of AND and OR: SQLAlchemy puts into parentheses
-- what it renders itself, but never a `text`, so of a text it holds only if this has no operator that
-- binds less than AND. `is_plain` holds of the statements without LIMIT, OFFSET, DISTINCT and GROUP BY
-- whose WHERE, if there is one, is such an operand.
pub record Execution {Expr Column R : Type 0} (sql : Sqlalchemy Expr Column)
    (means : Expr → R → Bool) (is_operand : Expr → Bool) (is_plain : Obj → Bool)
    (selects : Obj → R → Bool) (holds : String → Operator → Value → R → Bool) : Type 0 where
  pub compiled_operand :
      (k : String) (op : Operator) (v : Value) → is_operand (compiled sql k op v) ≡ true
  pub and_operand : (es : List Expr) → all is_operand es ≡ true → is_operand (sql.and_ es) ≡ true
  pub or_operand : (es : List Expr) → all is_operand es ≡ true → is_operand (sql.or_ es) ≡ true
  pub and_means :
      (es : List Expr) (r : R)
      → all is_operand es ≡ true
      → means (sql.and_ es) r ≡ all (λ e. means e r) es
  pub or_means :
      (es : List Expr) (r : R)
      → all is_operand es ≡ true
      → means (sql.or_ es) r ≡ any (λ e. means e r) es
  pub eq_means : (k : String) (v : Value) (r : R) → means (sql.equal k v) r ≡ holds k eq v r
  pub ne_means : (k : String) (v : Value) (r : R) → means (sql.unequal k v) r ≡ holds k ne v r
  pub gt_means : (k : String) (v : Value) (r : R) → means (sql.greater k v) r ≡ holds k gt v r
  pub ge_means : (k : String) (v : Value) (r : R) → means (sql.greater_equal k v) r ≡ holds k ge v r
  pub lt_means : (k : String) (v : Value) (r : R) → means (sql.less k v) r ≡ holds k lt v r
  pub le_means : (k : String) (v : Value) (r : R) → means (sql.less_equal k v) r ≡ holds k le v r
  pub in_means :
      (k : String) (vs : Items) (r : R)
      → means (sql.in_ k (items vs)) r ≡ holds k within (list vs) r
  pub like_means : (k p : String) (r : R) → means (sql.like k p) r ≡ holds k like (str p) r
  pub not_like_means :
      (k p : String) (r : R) → means (sql.not_ (sql.like k p)) r ≡ holds k not_like (str p) r
  pub is_null_means :
      (k : String) (v : Value) (r : R) → means (sql.is_none k) r ≡ holds k is_null v r
  pub is_not_null_means :
      (k : String) (v : Value) (r : R) → means (sql.is_not_none k) r ≡ holds k is_not_null v r
  pub where_selects :
      (e : Expr) (s : Obj) (r : R)
      → is_plain s ≡ true
      → is_operand e ≡ true
      → selects (sql.where_ e s) r ≡ (selects s r && means e r)

check_scalar-ok : (v : Value) → is_literal v ≡ true → check_scalar v ≡ ok v
check_scalar-ok null h = refl
check_scalar-ok (bool b) h = refl
check_scalar-ok (int z) h = refl
check_scalar-ok (float z k) h = refl
check_scalar-ok (str s) h = refl
check_scalar-ok v h = ground arith

pub check_scalars-ok : (vs : List Value) → all is_literal vs ≡ true → check_scalars vs ≡ ok vs
check_scalars-ok [] h = refl
check_scalars-ok (v ∷ vs) h =
    rw (check_scalar-ok v (ground arith)) (rw (check_scalars-ok vs (ground arith)) refl)

module _ {Expr Column : Type 0} (sql : Sqlalchemy Expr Column) where
  pub render_leaf-fits :
      (k : String) (op : Operator) (v : Value)
      → fits k op v ≡ true
      → render_leaf sql (leaf_fields k op v) ≡ ok (some (compiled sql k op v))
  unfolding render_leaf
  render_leaf-fits k eq v h = ground arith
  render_leaf-fits k ne v h = ground arith
  render_leaf-fits k gt v h = ground arith
  render_leaf-fits k ge v h = ground arith
  render_leaf-fits k lt v h = ground arith
  render_leaf-fits k le v h = ground arith
  render_leaf-fits k within (list vs) h = rw (check_scalars-ok (items vs) h) refl
  render_leaf-fits k within v h = ground arith
  render_leaf-fits k like (str p) h = refl
  render_leaf-fits k like v h = ground arith
  render_leaf-fits k not_like (str p) h = refl
  render_leaf-fits k not_like v h = ground arith
  render_leaf-fits k is_null v h = refl
  render_leaf-fits k is_not_null v h = refl
