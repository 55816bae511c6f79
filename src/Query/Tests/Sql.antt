-- ===== src/Query/Tests/Sql.antt =====
-- An SQLAlchemy over rows that say which lookups they meet, and the theorems at it.
use Prim.Native.String.{◌++◌ as ◌+++◌}
use sapl_python.Prelude.{◌≡◌, refl, ap, String, true, false, [], ◌∷◌, ◌&&◌}
use sapl_python.Python.Value.{
  Value, null, bool, str, list, dict, object, Items, nil, cons, end, field,
}
use sapl_python.Python.Exception.{Obj, plain}
use sapl_python.Python.Action.{ok}
use sapl_python.Signal.{ScopedHandler}
use sapl_python.Query.Criteria.Meaning.{admits_all, all_well_formed}
use sapl_python.Query.Mongo.{item_list}
use sapl_python.Query.Sql.{Sqlalchemy, select, sql_query_rewriting, rewrite}
use sapl_python.Query.Sql.Database.{Execution}
use sapl_python.Query.Sql.Narrowing.{obligation, sql_query_rewriting-narrows}
use sapl_python.Query.Sql.Guards.{rewrite-vacuous}
use sapl_python.Query.Tests.Mongo.{tenant}
use sapl_python.Query.Tests.Lookups.{
  Row, lookup, alternatives, means, holds, selects, narrowed, selects-narrowed, means_all-item_list,
  means_any-alternatives, item_list-items,
}

abbrev pub sql : Sqlalchemy Value String
sql = record {
  is_none = λ k. lookup (k +++ "__isnull") (bool true);
  is_not_none = λ k. lookup (k +++ "__isnull") (bool false);
  equal = λ k v. lookup k v;
  unequal = λ k v. object (field "" (lookup k v) end);
  greater = λ k v. lookup (k +++ "__gt") v;
  greater_equal = λ k v. lookup (k +++ "__gte") v;
  less = λ k v. lookup (k +++ "__lt") v;
  less_equal = λ k v. lookup (k +++ "__lte") v;
  in_ = λ k vs. lookup (k +++ "__in") (list (item_list vs));
  like = λ k p. lookup (k +++ "__sapllike") (str p);
  not_ = λ e. object (field "" e end);
  and_ = λ es. list (item_list es);
  or_ = λ es. dict (alternatives es);
  text = λ t. lookup t null;
  kind = λ s. select;
  where_ = narrowed;
  selected_columns = λ s. "tenant" ∷ "price" ∷ [];
  key = λ c. c;
  with_only_columns = λ columns s. s;
  entities = λ s. false ∷ false ∷ [];
}

execution : Execution sql means (λ e. true) (λ s. true) selects holds
unfolding means
execution = record {
  compiled_operand = λ k op v. refl;
  and_operand = λ es h. refl;
  or_operand = λ es h. refl;
  and_means = λ es r h. means_all-item_list es r;
  or_means = λ es r h. means_any-alternatives es r;
  eq_means = λ k v r. refl;
  ne_means = λ k v r. refl;
  gt_means = λ k v r. refl;
  ge_means = λ k v r. refl;
  lt_means = λ k v r. refl;
  le_means = λ k v r. refl;
  in_means = λ k vs r. ap (λ us. r (k +++ "__in") (list us)) (item_list-items vs);
  like_means = λ k p r. refl;
  not_like_means = λ k p r. refl;
  is_null_means = λ k v r. refl;
  is_not_null_means = λ k v r. refl;
  where_selects = λ e s r plain operand. selects-narrowed e s r;
}

abbrev pub everything : Obj
everything = plain (list nil)

abbrev pub in_stock : Items
in_stock = cons (str "stock > 0") nil

sql_query_rewriting-narrows_example :
    (handler : ScopedHandler Unit) × (sql_query_rewriting sql (obligation tenant in_stock nil)
      ≡ ok (handler ∷ []))
    × (s' : Obj) × ((w : Unit) → handler.handler (everything ∷ []) w ≡ (ok s', w))
    × ((r : Row)
        → selects s' r
          ≡ (selects everything r && (admits_all holds tenant r && (r "stock > 0" null && true))))
unfolding all_well_formed means
sql_query_rewriting-narrows_example =
    sql_query_rewriting-narrows execution tenant in_stock nil everything refl refl refl refl refl

abbrev empty_group : Items
empty_group = cons (dict (field "or" (list nil) end)) (cons (str "tenant = 'a'") nil)

rewrite-vacuous_example : rewrite sql everything empty_group [] [] ≡ ok everything
rewrite-vacuous_example = rewrite-vacuous sql everything empty_group refl refl
