-- ===== src/Query/Tests/Mongo.antt =====
-- A MongoDB of flat documents, and the theorems on the PyMongo package at it.
use sapl_python.Prelude.{
  ◌≡◌, refl, ap, String, Bool, true, false, List, [], ◌∷◌, Option, none, some, str_eq,
  if◌then◌else◌, ◌&&◌, ◌||◌, not, all, any, arith,
}
use sapl_python.Python.Value.{
  Value, null, bool, int, float, str, list, dict, Items, nil, cons, Fields, end, field, find, pos,
}
use sapl_python.Python.Compare.{py_eq, Comparison, rich_compare}
use sapl_python.Python.Exception.{Obj, plain, other}
use sapl_python.Python.Action.{Result, ok, raised}
use sapl_python.Signal.{ScopedHandler}
use sapl_python.Query.Criteria.Meaning.{
  Operator, eq, ne, gt, ge, lt, le, within, like, not_like, is_null, is_not_null, compare, any_of,
  Criteria, only, also, admits_all, all_well_formed,
}
use sapl_python.Query.Mongo.{mongo_db_query_rewriting, single, item_list, parse_conditions}
use sapl_python.Query.Mongo.Database.{Matching, is_scalar}
use sapl_python.Query.Mongo.Narrowing.{obligation, mongo_db_query_rewriting-narrows}

-- A missing field is null.
abbrev same : Option Value → Value → Bool
same none null = true
same none v = false
same (some u) v = py_eq u v

abbrev or_false : Option Bool → Bool
or_false none = false
or_false (some b) = b

abbrev ordered : Comparison → Option Value → Value → Bool
ordered op none v = false
ordered op (some u) v = or_false (rich_compare op u v)

abbrev one_of : Option Value → Items → Bool
one_of o nil = false
one_of o (cons v vs) = same o v || one_of o vs

abbrev listed_in : Option Value → Value → Bool
listed_in o (list vs) = one_of o vs
listed_in o v = false

-- What a comparison says of the value of a field.
abbrev pub test : Operator → Option Value → Value → Bool
test eq o v = same o v
test ne o v = not (same o v)
test gt o v = ordered Comparison.gt o v
test ge o v = ordered Comparison.ge o v
test lt o v = ordered Comparison.lt o v
test le o v = ordered Comparison.le o v
test within o v = listed_in o v
test like o v = same o v
test not_like o v = not (same o v)
test is_null o v = same o null
test is_not_null o v = not (same o null)

abbrev pub holds : String → Operator → Value → Fields → Bool
holds k op v r = test op (find k r) v

abbrev operator_of : String → Operator
operator_of o =
    if str_eq o "$ne"
    then ne
    else if str_eq o "$gt"
    then gt
    else if str_eq o "$gte"
    then ge
    else if str_eq o "$lt"
    then lt
    else if str_eq o "$lte"
    then le
    else within

mutual
  matches : Value → Fields → Bool
  matches (dict (field k (list vs) end)) r =
      let every = matches_all vs r in
      let one = matches_any vs r in if str_eq k "$and" then every else one
  matches (dict (field k (dict (field o v end)) end)) r = holds k (operator_of o) v r
  matches (dict (field k v end)) r = holds k eq v r
  matches v r = true

  matches_all : Items → Fields → Bool
  matches_all nil r = true
  matches_all (cons v vs) r = matches v r && matches_all vs r

  matches_any : Items → Fields → Bool
  matches_any nil r = false
  matches_any (cons v vs) r = matches v r || matches_any vs r

matches_all-item_list :
    (vs : List Value) (r : Fields) → matches_all (item_list vs) r ≡ all (λ v. matches v r) vs
unfolding matches
matches_all-item_list [] r = refl
matches_all-item_list (v ∷ vs) r = ap (matches v r &&◌) (matches_all-item_list vs r)

matches_any-item_list :
    (vs : List Value) (r : Fields) → matches_any (item_list vs) r ≡ any (λ v. matches v r) vs
unfolding matches
matches_any-item_list [] r = refl
matches_any-item_list (v ∷ vs) r = ap (matches v r ||◌) (matches_any-item_list vs r)

scalar-matches :
    (k : String) (v : Value) (r : Fields)
    → is_scalar v ≡ true
    → matches (single k v) r ≡ holds k eq v r
unfolding matches
scalar-matches k (bool b) r h = refl
scalar-matches k (int z) r h = refl
scalar-matches k (float z n) r h = refl
scalar-matches k (str s) r h = refl
scalar-matches k v r h = ground arith

matching : Matching matches holds
unfolding matches
matching = record {
  and_matches = λ v vs r. matches_all-item_list (v ∷ vs) r;
  or_matches = λ v vs r. matches_any-item_list (v ∷ vs) r;
  null_matches = λ r. refl;
  empty_matches = λ r. refl;
  eq_matches = λ k v r h s. scalar-matches k v r s;
  ne_matches = λ k v r h. refl;
  gt_matches = λ k v r h. refl;
  ge_matches = λ k v r h. refl;
  lt_matches = λ k v r h. refl;
  le_matches = λ k v r h. refl;
  in_matches = λ k vs r h. refl;
  is_null_matches = λ k v r h. refl;
  is_not_null_matches = λ k v r h. refl;
}

-- Rows of the tenant `a` that are public or cheap.
abbrev pub tenant : Criteria
tenant = also (compare "tenant" eq (str "a")) (
    only
      (any_of (also (compare "public" eq (bool true)) (only (compare "price" le (int (pos 10)))))))

abbrev no_texts : String → Result Value
no_texts text = raised (other "ValueError")

abbrev no_value : Obj → Value
no_value x = null

abbrev asked : Value
asked = dict (field "kind" (str "book") end)

mongo_db_query_rewriting-narrows_example :
    (handler : ScopedHandler Unit) × (mongo_db_query_rewriting no_texts no_value
        (obligation tenant nil)
      ≡ ok (handler ∷ []))
    × (query' : Value) × ((w : Unit)
        → handler.handler (plain asked ∷ []) w ≡ (ok (plain query'), w))
    × ((r : Fields) → matches query' r ≡ (matches asked r && (admits_all holds tenant r && true)))
unfolding parse_conditions all_well_formed
mongo_db_query_rewriting-narrows_example =
    mongo_db_query_rewriting-narrows matching no_texts no_value tenant nil [] asked refl refl refl
