-- ===== src/Query/Sql/Narrowing.antt =====
-- sapl_sqlalchemy/src/sapl_sqlalchemy/providers.py: the rows that a rewritten statement selects.
use sapl_python.Prelude.{
  all-append, and_shift, ◌≡◌, refl, ap, ◌∙◌, String, Bool, true, false, List, [], ◌∷◌, ◌++◌, some,
  arith, ◌&&◌, all, map,
}
use sapl_python.Python.Value.{Value, str, list, dict, Items, end, field, items, pos}
use sapl_python.Python.Exception.{Obj}
use sapl_python.Python.Action.{ok}
use sapl_python.Signal.{ScopedHandler, mapper}
use sapl_python.Query.Criteria.{Junction, disjunction, conjunction, texts, no_items}
use sapl_python.Query.Criteria.Meaning.{
  Operator, eq, ne, gt, ge, lt, le, within, like, not_like, is_null, is_not_null, Criteria, only,
  also, encode_all, admits_all, all_well_formed, Reading, render_all-encode_all,
}
use sapl_python.Query.Sql.{
  Sqlalchemy, StatementKind, sql_query, supports_where, join, render_leaf, conjoined,
  build_predicate, is_admitted, rewrite, rewrite_handler, sql_query_rewriting,
}
use sapl_python.Query.Sql.Database.{compiled, render_leaf-fits, fits, Execution}

abbrev pub obligation : Criteria → Items → Items → Value
obligation cs conditions columns = dict (
    field "type" (str "sql:queryRewriting") (
      field "criteria" (list (encode_all cs))
        (field "conditions" (list conditions) (field "columns" (list columns) end))))

pub some_item : (cs : Criteria) → no_items (encode_all cs) ≡ false
unfolding encode_all
some_item (only c) = refl
some_item (also c cs) = refl

is_admitted-supports :
    (kind : StatementKind) (b : Bool) → supports_where kind ≡ true → is_admitted kind b ≡ true
is_admitted-supports kind b h = ground arith

module _ {Expr Column R : Type 0} {sql : Sqlalchemy Expr Column} {means : Expr → R → Bool}
    {is_operand : Expr → Bool} {is_plain : Obj → Bool} {selects : Obj → R → Bool}
    {holds : String → Operator → Value → R → Bool}
    (execution : Execution sql means is_operand is_plain selects holds) where
  means-compiled :
      (k : String) (op : Operator) (v : Value) (r : R)
      → fits k op v ≡ true
      → means (compiled sql k op v) r ≡ holds k op v r
  means-compiled k eq v r h = execution.eq_means k v r
  means-compiled k ne v r h = execution.ne_means k v r
  means-compiled k gt v r h = execution.gt_means k v r
  means-compiled k ge v r h = execution.ge_means k v r
  means-compiled k lt v r h = execution.lt_means k v r
  means-compiled k le v r h = execution.le_means k v r
  means-compiled k within (list vs) r h = execution.in_means k vs r
  means-compiled k within v r h = ground arith
  means-compiled k like (str p) r h = execution.like_means k p r
  means-compiled k like v r h = ground arith
  means-compiled k not_like (str p) r h = execution.not_like_means k p r
  means-compiled k not_like v r h = ground arith
  means-compiled k is_null v r h = execution.is_null_means k v r
  means-compiled k is_not_null v r h = execution.is_not_null_means k v r

  is_operand-join :
      (junction : Junction) (e : Expr) (es : List Expr)
      → is_operand e ≡ true
      → all is_operand es ≡ true
      → is_operand (join sql junction e es) ≡ true
  is_operand-join disjunction e es h hs = execution.or_operand (e ∷ es) (rw h hs)
  is_operand-join conjunction e es h hs = execution.and_operand (e ∷ es) (rw h hs)

  reading : Reading (join sql) (render_leaf sql) fits means holds
  reading = record {
    compiled = compiled sql;
    leaf-fits = render_leaf-fits sql;
    means-compiled = means-compiled;
    is_part = is_operand;
    is_part-compiled = λ k op v h. execution.compiled_operand k op v;
    is_part-join = is_operand-join;
    means-any = λ f fs r part parts. execution.or_means (f ∷ fs) r (rw part parts);
    means-all = λ f fs r part parts. execution.and_means (f ∷ fs) r (rw part parts);
  }

  and_true : (b : Bool) → b ≡ (b && true)
  and_true b = ground arith

  means-conjoined :
      (e : Expr) (es : List Expr)
      → is_operand e ≡ true
      → all is_operand es ≡ true
      → (p : Expr) × (conjoined sql (e ∷ es) ≡ some p)
        × (is_operand p ≡ true)
        × ((r : R) → means p r ≡ (means e r && all (λ g. means g r) es))
  means-conjoined e [] h hs = (e, refl, h, λ r. and_true (means e r))
  means-conjoined e (e' ∷ es) h hs =
      let operands : all is_operand (e ∷ e' ∷ es) ≡ true = rw h hs in
      (
        sql.and_ (e ∷ e' ∷ es),
        refl,
        execution.and_operand (e ∷ e' ∷ es) operands,
        λ r. execution.and_means (e ∷ e' ∷ es) r operands,
      )

  -- An obligation with criteria of well-formed comparisons and no columns is claimed by one mapper on
  -- the query signal. Of a SELECT, UPDATE or DELETE that is plain, it makes one that selects exactly
  -- the rows that the statement selects and that meet every criterion and every condition text, as
  -- far as each of these texts is an operand of AND by itself. `execution` is the documented reading
  -- of SQLAlchemy's expressions by a database.
  pub sql_query_rewriting-narrows :
      {W : Type 0} (cs : Criteria) (conditions columns : Items) (s : Obj)
      → all_well_formed fits cs ≡ true
      → all is_operand (map sql.text (texts (items conditions))) ≡ true
      → texts (items columns) ≡ []
      → supports_where (sql.kind s) ≡ true
      → is_plain s ≡ true
      → (handler : ScopedHandler W) × (sql_query_rewriting sql (obligation cs conditions columns)
          ≡ ok (handler ∷ []))
        × (s' : Obj) × ((w : W) → handler.handler (s ∷ []) w ≡ (ok s', w))
        × ((r : R)
            → selects s' r ≡ (
                selects s r
                && (admits_all holds cs r
                    && all (λ e. means e r) (map sql.text (texts (items conditions))))))
  unfolding sql_query_rewriting rewrite build_predicate reading
  sql_query_rewriting-narrows cs conditions columns s fit operands no_columns supported plain =
      let (f, fs, rendered, part, parts, some_holds, each_holds) =
        render_all-encode_all reading cs fit in
      let raw = map sql.text (texts (items conditions)) in
      let (p, predicate, operand, means_p) =
        means-conjoined f (fs ++ raw) part (all-append is_operand fs raw ∙ rw parts operands) in
      (
        record {
          signal = sql_query;
          priority = pos 30;
          shape = mapper;
          handler =
              rewrite_handler sql (encode_all cs) (texts (items conditions))
                (texts (items columns));
        },
        rw (some_item cs) refl,
        sql.where_ p s,
        λ w. rw (some_item cs) (
            rw (is_admitted-supports (sql.kind s) true supported)
              (rw rendered (rw predicate (rw no_columns refl)))),
        λ r.
            execution.where_selects p s r plain operand
            ∙ ap (selects s r &&◌) (
                means_p r
                ∙ ap (means f r &&◌) (all-append (λ e. means e r) fs raw)
                ∙ and_shift (means f r) (all (λ e. means e r) fs) (all (λ e. means e r) raw)
                ∙ ap (◌&& all (λ e. means e r) raw) (each_holds r)),
      )
