-- ===== src/Query/Sql/Guards.antt =====
-- sapl_sqlalchemy/src/sapl_sqlalchemy/providers.py: the statements and the criteria that `_rewrite`
-- refuses, and those that leave a statement as it is.
use sapl_python.Prelude.{
  ◌≡◌, refl, String, Bool, true, false, List, [], ◌++◌, Option, none, arith, ◌&&◌, ◌||◌, not,
  Bool-cases, inl, inr, str_eq, map,
}
use sapl_python.Python.Value.{
  Value, null, bool, int, float, str, list, tuple, dict, object, opaque, Items, nil, cons, end,
  field,
}
use sapl_python.Python.Exception.{Obj}
use sapl_python.Python.Action.{Result, ok, raised, on_ok}
use sapl_python.Query.Criteria.{is_empty, no_items, render, render_all}
use sapl_python.Query.Sql.{
  Sqlalchemy, StatementKind, text_clause, supports_where, join, render_leaf, conjoined,
  build_predicate, projected, inject, is_admitted, rewrite,
}

abbrev pub is_text_clause : StatementKind → Bool
is_text_clause text_clause = true
is_text_clause _ = false

-- What is no criterion: something else than an object, or a group without parts.
abbrev pub is_vacuous : Value → Bool
is_vacuous (dict (field k (list nil) end)) = str_eq k "or" || str_eq k "and"
is_vacuous (dict fs) = false
is_vacuous v = true

abbrev pub all_vacuous : Items → Bool
all_vacuous nil = true
all_vacuous (cons v vs) = is_vacuous v && all_vacuous vs

is_admitted-cases :
    (kind : StatementKind) (b : Bool)
    → is_admitted kind b ≡ true
    → (is_text_clause kind ≡ false) × ((not b || supports_where kind) ≡ true)
is_admitted-cases kind b h = ground arith

module _ {Expr Column : Type 0} (sql : Sqlalchemy Expr Column) where
  rendered :
      (x : Result (List Expr)) (f : List Expr → Result Obj) (s : Obj)
      → on_ok x f ≡ ok s
      → (es : List Expr) × (x ≡ ok es)
  rendered (ok es) f s h = (es, refl)
  rendered (raised e) f s h = cc

  on_ok-on_ok :
      (x : Result (List Expr)) (f : List Expr → Option Expr) (g : Option Expr → Result Obj)
      → on_ok (on_ok x (λ es. ok (f es))) g ≡ on_ok x (λ es. g (f es))
  on_ok-on_ok (ok es) f g = refl
  on_ok-on_ok (raised e) f g = refl

  -- A statement is rewritten only if it is no raw text, takes a WHERE if there is a criterion or a
  -- condition, and every criterion of the obligation could be rendered.
  pub rewrite-ok :
      (s s' : Obj) (criteria : Items) (conditions columns : List String)
      → rewrite sql s criteria conditions columns ≡ ok s'
      → (is_text_clause (sql.kind s) ≡ false)
        × (((no_items criteria && is_empty conditions) || supports_where (sql.kind s)) ≡ true)
        × ((es : List Expr) × (render_all (join sql) (render_leaf sql) criteria ≡ ok es))
  unfolding rewrite build_predicate
  rewrite-ok s s' criteria conditions columns h =
      let predicates = not (no_items criteria) || not (is_empty conditions) in
      elim (Bool-cases (is_admitted (sql.kind s) predicates)) [
        | inr e ↦ let absurd = rw e at h in cc
        | inl e ↦
            let (no_text, where_) = is_admitted-cases (sql.kind s) predicates e in
            let all_rendered = render_all (join sql) (render_leaf sql) criteria in
            let returned = rw e at h in
            (
              no_text,
              ground arith,
              rendered all_rendered
                  (λ fragments.
                    projected sql
                      (inject sql (conjoined sql (fragments ++ map sql.text conditions)) s) columns)
                  s'
                  (rw
                    (on_ok-on_ok all_rendered
                      (λ fragments. conjoined sql (fragments ++ map sql.text conditions))
                      (λ predicate. projected sql (inject sql predicate s) columns))
                    at returned),
            )
      ]

  render-vacuous :
      (v : Value) → is_vacuous v ≡ true → render (join sql) (render_leaf sql) v ≡ ok none
  unfolding render
  render-vacuous (dict (field k (list nil) end)) h = elim (Bool-cases (str_eq k "or")) [
    | inl e ↦ rw e refl
    | inr e ↦ let e' : str_eq k "and" ≡ true = ground arith in rw e (rw e' refl)
  ]
  render-vacuous (dict fs) h = ground arith
  render-vacuous null h = refl
  render-vacuous (bool b) h = refl
  render-vacuous (int z) h = refl
  render-vacuous (float z k) h = refl
  render-vacuous (str s) h = refl
  render-vacuous (list vs) h = refl
  render-vacuous (tuple vs) h = refl
  render-vacuous (object fs) h = refl
  render-vacuous (opaque n) h = refl

  render_all-vacuous :
      (vs : Items) → all_vacuous vs ≡ true → render_all (join sql) (render_leaf sql) vs ≡ ok []
  unfolding render
  render_all-vacuous nil h = refl
  render_all-vacuous (cons v vs) h =
      rw (render-vacuous v (ground arith)) (rw (render_all-vacuous vs (ground arith)) refl)

  -- Criteria of which none is an object other than a group without parts leave a statement that takes
  -- a WHERE as it is, and nothing is raised.
  pub rewrite-vacuous :
      (s : Obj) (criteria : Items)
      → all_vacuous criteria ≡ true
      → supports_where (sql.kind s) ≡ true
      → rewrite sql s criteria [] [] ≡ ok s
  unfolding rewrite build_predicate
  rewrite-vacuous s criteria vacuous supported =
      let none_rendered = render_all-vacuous criteria vacuous in ground arith
