-- ===== src/Query/Tests/Django.antt =====
-- A Django over rows that say which lookups they meet, and the theorems at it.

use sapl_python.Prelude.{
  ◌≡◌, refl, ap, ◌∙◌, String, Bool, true, false, List, [], ◌∷◌, some, str_eq, ◌&&◌, ◌||◌, all, map,
  arith,
}
use sapl_python.Python.Value.{Value, null, list, dict, object, nil, cons, end, field}
use sapl_python.Python.Exception.{Obj}
use sapl_python.Python.Action.{ok}
use sapl_python.Signal.{ScopedHandler}
use sapl_python.Query.Criteria.Meaning.{admits_all, all_well_formed, encode_all}
use sapl_python.Query.Mongo.{item_list}
use sapl_python.Query.Sql.Narrowing.{obligation}
use sapl_python.Query.Django.{Django, criteria_columns, django_query_rewriting}
use sapl_python.Query.Django.Database.{Execution}
use sapl_python.Query.Django.Narrowing.{django_query_rewriting-narrows}
use sapl_python.Query.Tests.Mongo.{tenant}
use sapl_python.Query.Tests.Sql.{everything, in_stock}
use sapl_python.Query.Tests.Lookups.{Row, lookup, means, holds, selects, narrowed, selects-narrowed}

abbrev raw : String → Row → Bool
raw t r = r t null

abbrev conditions : List String → Value
conditions ts = list (item_list (map (λ t. lookup t null) ts))

means-conditions : (ts : List String) (r : Row) → means (conditions ts) r ≡ all (λ t. raw t r) ts
unfolding means
means-conditions [] r = refl
means-conditions (t ∷ ts) r = ap (raw t r &&◌) (means-conditions ts r)

-- One model, with two fields.
abbrev django : Django Value Unit
django = record {
  lookup = lookup;
  and_ = λ p q. list (cons p (cons q nil));
  or_ = λ p q. dict (field "" p (field "" q end));
  not_ = λ q. object (field "" q end);
  model = λ s. some tt;
  has_field = λ m c. str_eq c "tenant" || (str_eq c "public" || str_eq c "price");
  combinator = λ s. false;
  clone = λ s. s;
  add_q = narrowed;
  add_extra = λ ts s. narrowed (conditions ts) s;
  add_immediate_loading = λ columns s. s;
  accepts_projection = λ s. true;
}

and_true : (a : Bool) → (a && true) ≡ a
and_true a = ground arith

or_false : (a : Bool) → (a || false) ≡ a
or_false a = ground arith

execution : Execution django means raw (λ k. true) (λ q. true) (λ s. true) selects holds
unfolding means
execution = record {
  compiled_flat = λ k op v h. refl;
  and_flat = λ p q h k. refl;
  or_flat = λ p q h k. refl;
  and_means = λ p q r h k. ap (means p r &&◌) (and_true (means q r));
  or_means = λ p q r h k. ap (means p r ||◌) (or_false (means q r));
  eq_means = λ k v r. refl;
  ne_means = λ k v r. refl;
  gt_means = λ k v r. refl;
  ge_means = λ k v r. refl;
  lt_means = λ k v r. refl;
  le_means = λ k v r. refl;
  in_means = λ k v r. refl;
  like_means = λ k v r. refl;
  not_like_means = λ k v r. refl;
  is_null_means = λ k v r. refl;
  is_not_null_means = λ k v r. refl;
  clone_plain = λ s h. refl;
  add_q_plain = λ q s h. refl;
  add_extra_plain = λ ts s h. refl;
  clone_selects = λ s r. refl;
  add_q_selects = λ q s r h k. selects-narrowed q s r;
  add_extra_selects = λ ts s r h.
      selects-narrowed (conditions ts) s r ∙ ap (selects s r &&◌) (means-conditions ts r);
  loading_selects = λ columns s r h. refl;
}

django_query_rewriting-narrows_example :
    (handler : ScopedHandler Unit) × (django_query_rewriting django (obligation tenant in_stock nil)
      ≡ ok (handler ∷ []))
    × (query' : Obj) × ((w : Unit) → handler.handler (everything ∷ []) w ≡ (ok query', w))
    × ((r : Row)
        → selects query' r
          ≡ (selects everything r && (admits_all holds tenant r && (raw "stock > 0" r && true))))
unfolding all_well_formed admits_all criteria_columns encode_all
django_query_rewriting-narrows_example =
    django_query_rewriting-narrows execution tenant in_stock nil everything refl refl refl
