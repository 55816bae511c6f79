-- ===== src/Query/Django/Database.antt =====
-- sapl_django/src/sapl_django/orm_providers.py: what a database makes of Django's lookups and queries,
-- and the lookups of single comparisons.
use Prim.Native.String.{◌++◌ as ◌+++◌}
use sapl_python.Prelude.{◌≡◌, refl, String, Bool, true, false, List, some, arith, ◌&&◌, ◌||◌, all}
use sapl_python.Python.Value.{Value, bool, str, list, items}
use sapl_python.Python.Exception.{Obj}
use sapl_python.Python.Action.{ok}
use sapl_python.Query.Criteria.Meaning.{
  Operator, eq, ne, gt, ge, lt, le, within, like, not_like, is_null, is_not_null, leaf_fields,
}
use sapl_python.Query.Sql.Database.{fits, check_scalars-ok}
use sapl_python.Query.Django.{Django, render_leaf}

module _ {Q Model : Type 0} (django : Django Q Model) where
  -- The Q object of a comparison.
  abbrev pub compiled : String → Operator → Value → Q
  compiled k eq v = django.lookup k v
  compiled k ne v = django.not_ (django.lookup k v)
  compiled k gt v = django.lookup (k +++ "__gt") v
  compiled k ge v = django.lookup (k +++ "__gte") v
  compiled k lt v = django.lookup (k +++ "__lt") v
  compiled k le v = django.lookup (k +++ "__lte") v
  compiled k within v = django.lookup (k +++ "__in") v
  compiled k like v = django.lookup (k +++ "__sapllike") v
  compiled k not_like v = django.not_ (django.lookup (k +++ "__sapllike") v)
  compiled k is_null v = django.lookup (k +++ "__isnull") (bool true)
  compiled k is_not_null v = django.lookup (k +++ "__isnull") (bool false)

-- How a database reads lookups and queries over rows of a type R. `is_single` holds of the columns
-- that have one value in a row, not of relations to many rows, and `is_flat` of the Q objects of
-- lookups on such columns only. `is_plain` holds of the queries without slice, DISTINCT and
-- aggregation.
pub record Execution {Q Model R : Type 0} (django : Django Q Model) (means : Q → R → Bool)
    (raw : String → R → Bool) (is_single : String → Bool) (is_flat : Q → Bool)
    (is_plain : Obj → Bool) (selects : Obj → R → Bool)
    (holds : String → Operator → Value → R → Bool) : Type 0 where
  pub compiled_flat :
      (k : String) (op : Operator) (v : Value)
      → is_single k ≡ true
      → is_flat (compiled django k op v) ≡ true
  pub and_flat : (p q : Q) → is_flat p ≡ true → is_flat q ≡ true → is_flat (django.and_ p q) ≡ true
  pub or_flat : (p q : Q) → is_flat p ≡ true → is_flat q ≡ true → is_flat (django.or_ p q) ≡ true
  pub and_means :
      (p q : Q) (r : R)
      → is_flat p ≡ true
      → is_flat q ≡ true
      → means (django.and_ p q) r ≡ (means p r && means q r)
  pub or_means :
      (p q : Q) (r : R)
      → is_flat p ≡ true
      → is_flat q ≡ true
      → means (django.or_ p q) r ≡ (means p r || means q r)
  pub eq_means : (k : String) (v : Value) (r : R) → means (django.lookup k v) r ≡ holds k eq v r
  pub ne_means :
      (k : String) (v : Value) (r : R) → means (django.not_ (django.lookup k v)) r ≡ holds k ne v r
  pub gt_means :
      (k : String) (v : Value) (r : R) → means (django.lookup (k +++ "__gt") v) r ≡ holds k gt v r
  pub ge_means :
      (k : String) (v : Value) (r : R) → means (django.lookup (k +++ "__gte") v) r ≡ holds k ge v r
  pub lt_means :
      (k : String) (v : Value) (r : R) → means (django.lookup (k +++ "__lt") v) r ≡ holds k lt v r
  pub le_means :
      (k : String) (v : Value) (r : R) → means (django.lookup (k +++ "__lte") v) r ≡ holds k le v r
  pub in_means :
      (k : String) (v : Value) (r : R)
      → means (django.lookup (k +++ "__in") v) r ≡ holds k within v r
  pub like_means :
      (k : String) (v : Value) (r : R)
      → means (django.lookup (k +++ "__sapllike") v) r ≡ holds k like v r
  pub not_like_means :
      (k : String) (v : Value) (r : R)
      → means (django.not_ (django.lookup (k +++ "__sapllike") v)) r ≡ holds k not_like v r
  pub is_null_means :
      (k : String) (v : Value) (r : R)
      → means (django.lookup (k +++ "__isnull") (bool true)) r ≡ holds k is_null v r
  pub is_not_null_means :
      (k : String) (v : Value) (r : R)
      → means (django.lookup (k +++ "__isnull") (bool false)) r ≡ holds k is_not_null v r
  pub clone_plain : (s : Obj) → is_plain s ≡ true → is_plain (django.clone s) ≡ true
  pub add_q_plain : (q : Q) (s : Obj) → is_plain s ≡ true → is_plain (django.add_q q s) ≡ true
  pub add_extra_plain :
      (ts : List String) (s : Obj) → is_plain s ≡ true → is_plain (django.add_extra ts s) ≡ true
  pub clone_selects : (s : Obj) (r : R) → selects (django.clone s) r ≡ selects s r
  pub add_q_selects :
      (q : Q) (s : Obj) (r : R)
      → is_plain s ≡ true
      → is_flat q ≡ true
      → selects (django.add_q q s) r ≡ (selects s r && means q r)
  pub add_extra_selects :
      (ts : List String) (s : Obj) (r : R)
      → is_plain s ≡ true
      → selects (django.add_extra ts s) r ≡ (selects s r && all (λ t. raw t r) ts)
  pub loading_selects :
      (columns : List String) (s : Obj) (r : R)
      → is_plain s ≡ true
      → selects (django.add_immediate_loading columns s) r ≡ selects s r

module _ {Q Model : Type 0} (django : Django Q Model) where
  pub render_leaf-fits :
      (k : String) (op : Operator) (v : Value)
      → fits k op v ≡ true
      → render_leaf django (leaf_fields k op v) ≡ ok (some (compiled django k op v))
  unfolding render_leaf
  render_leaf-fits k eq v h = ground arith
  render_leaf-fits k ne v h = ground arith
  render_leaf-fits k gt v h = ground arith
  render_leaf-fits k ge v h = ground arith
  render_leaf-fits k lt v h = ground arith
  render_leaf-fits k le v h = ground arith
  render_leaf-fits k within (list vs) h = rw (check_scalars-ok (items vs) h) refl
  render_leaf-fits k within v h = ground arith
  render_leaf-fits k like (str p) h = refl
  render_leaf-fits k like v h = ground arith
  render_leaf-fits k not_like (str p) h = refl
  render_leaf-fits k not_like v h = ground arith
  render_leaf-fits k is_null v h = refl
  render_leaf-fits k is_not_null v h = refl
