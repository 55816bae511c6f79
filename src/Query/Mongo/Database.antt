-- ===== src/Query/Mongo/Database.antt =====
-- sapl_pymongo/src/sapl_pymongo/providers.py: what MongoDB makes of filters, and the filters of single
-- comparisons.
use Prim.Native.Char.{code}
use sapl_python.Prelude.{
  ◌≡◌, refl, String, Bool, true, false, List, ◌∷◌, some, arith, ◌&&◌, ◌||◌, all, any, not, ◌==◌,
}
use sapl_python.Python.Value.{Value, null, bool, int, float, str, list, dict, Items, end}
use sapl_python.Python.Action.{ok}
use sapl_python.Query.Criteria.Meaning.{
  Operator, eq, ne, gt, ge, lt, le, within, like, not_like, is_null, is_not_null, leaf_fields,
}
use sapl_python.Query.Mongo.{single, item_list, build_leaf}

abbrev pub is_scalar : Value → Bool
is_scalar (bool _) = true
is_scalar (int _) = true
is_scalar (float _ _) = true
is_scalar (str _) = true
is_scalar _ = false

abbrev is_list : Value → Bool
is_list (list _) = true
is_list _ = false

-- The name of a field, not of an operator.
abbrev pub is_field : String → Bool
is_field String.[] = true
is_field (String.◌∷◌ c s) = not (code c == b'$')

-- The comparisons that the provider knows, of a field with a scalar, or of `in` with a list.
abbrev pub fits : String → Operator → Value → Bool
fits k within v = is_field k && is_list v
fits k like v = false
fits k not_like v = false
fits k is_null v = is_field k
fits k is_not_null v = is_field k
fits k _ v = is_field k && is_scalar v

-- How MongoDB matches documents of a collection, of type R.
pub record Matching {R : Type 0} (matches : Value → R → Bool)
    (holds : String → Operator → Value → R → Bool) : Type 0 where
  pub and_matches :
      (v : Value) (vs : List Value) (r : R)
      → matches (single "$and" (list (item_list (v ∷ vs)))) r
        ≡ (matches v r && all (λ u. matches u r) vs)
  pub or_matches :
      (v : Value) (vs : List Value) (r : R)
      → matches (single "$or" (list (item_list (v ∷ vs)))) r
        ≡ (matches v r || any (λ u. matches u r) vs)
  pub null_matches : (r : R) → matches null r ≡ true
  pub empty_matches : (r : R) → matches (dict end) r ≡ true
  pub eq_matches :
      (k : String) (v : Value) (r : R)
      → is_field k ≡ true
      → is_scalar v ≡ true
      → matches (single k v) r ≡ holds k eq v r
  pub ne_matches :
      (k : String) (v : Value) (r : R)
      → is_field k ≡ true
      → matches (single k (single "$ne" v)) r ≡ holds k ne v r
  pub gt_matches :
      (k : String) (v : Value) (r : R)
      → is_field k ≡ true
      → matches (single k (single "$gt" v)) r ≡ holds k gt v r
  pub ge_matches :
      (k : String) (v : Value) (r : R)
      → is_field k ≡ true
      → matches (single k (single "$gte" v)) r ≡ holds k ge v r
  pub lt_matches :
      (k : String) (v : Value) (r : R)
      → is_field k ≡ true
      → matches (single k (single "$lt" v)) r ≡ holds k lt v r
  pub le_matches :
      (k : String) (v : Value) (r : R)
      → is_field k ≡ true
      → matches (single k (single "$lte" v)) r ≡ holds k le v r
  pub in_matches :
      (k : String) (vs : Items) (r : R)
      → is_field k ≡ true
      → matches (single k (single "$in" (list vs))) r ≡ holds k within (list vs) r
  pub is_null_matches :
      (k : String) (v : Value) (r : R)
      → is_field k ≡ true
      → matches (single k null) r ≡ holds k is_null v r
  pub is_not_null_matches :
      (k : String) (v : Value) (r : R)
      → is_field k ≡ true
      → matches (single k (single "$ne" null)) r ≡ holds k is_not_null v r

-- The filter of a comparison.
abbrev pub compiled : String → Operator → Value → Value
compiled k eq v = single k v
compiled k ne v = single k (single "$ne" v)
compiled k gt v = single k (single "$gt" v)
compiled k ge v = single k (single "$gte" v)
compiled k lt v = single k (single "$lt" v)
compiled k le v = single k (single "$lte" v)
compiled k within v = single k (single "$in" v)
compiled k like v = null
compiled k not_like v = null
compiled k is_null v = single k null
compiled k is_not_null v = single k (single "$ne" null)

pub build_leaf-fits :
    (k : String) (op : Operator) (v : Value)
    → fits k op v ≡ true
    → build_leaf (leaf_fields k op v) ≡ ok (some (compiled k op v))
unfolding build_leaf
build_leaf-fits k eq v h = refl
build_leaf-fits k ne v h = refl
build_leaf-fits k gt v h = refl
build_leaf-fits k ge v h = refl
build_leaf-fits k lt v h = refl
build_leaf-fits k le v h = refl
build_leaf-fits k within (list vs) h = refl
build_leaf-fits k within v h = ground arith
build_leaf-fits k like v h = ground arith
build_leaf-fits k not_like v h = ground arith
build_leaf-fits k is_null v h = refl
build_leaf-fits k is_not_null v h = refl
