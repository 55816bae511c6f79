-- ===== src/Query/Tests/Lookups.antt =====
-- Rows that say which lookups they meet, and fragments over them, which are values: a tuple is a
-- lookup, a list a conjunction, a dict a disjunction, an object a negation. A query is the list of
-- its conditions.
use Prim.Native.String.{◌++◌ as ◌+++◌}
use sapl_python.Prelude.{
  ◌≡◌, refl, ap, String, Bool, true, false, List, [], ◌∷◌, ◌&&◌, ◌||◌, not, all, any, arith,
}
use sapl_python.Python.Value.{
  Value, bool, str, list, tuple, dict, object, Items, nil, cons, Fields, end, field, items,
}
use sapl_python.Python.Exception.{Obj, plain}
use sapl_python.Query.Criteria.Meaning.{
  Operator, eq, ne, gt, ge, lt, le, within, like, not_like, is_null, is_not_null,
}
use sapl_python.Query.Mongo.{item_list}

abbrev pub Row : Type 0
Row = String → Value → Bool

abbrev pub lookup : String → Value → Value
lookup key v = tuple (cons (str key) (cons v nil))

abbrev pub alternatives : List Value → Fields
alternatives [] = end
alternatives (v ∷ vs) = field "" v (alternatives vs)

unfoldable mutual
  pub means : Value → Row → Bool
  means (tuple (cons (str key) (cons v nil))) r = r key v
  means (list vs) r = means_all vs r
  means (dict fs) r = means_any fs r
  means (object (field k v end)) r = not (means v r)
  means v r = true

  pub means_all : Items → Row → Bool
  means_all nil r = true
  means_all (cons v vs) r = means v r && means_all vs r

  pub means_any : Fields → Row → Bool
  means_any end r = false
  means_any (field k v fs) r = means v r || means_any fs r

abbrev pub holds : String → Operator → Value → Row → Bool
holds k eq v r = r k v
holds k ne v r = not (r k v)
holds k gt v r = r (k +++ "__gt") v
holds k ge v r = r (k +++ "__gte") v
holds k lt v r = r (k +++ "__lt") v
holds k le v r = r (k +++ "__lte") v
holds k within v r = r (k +++ "__in") v
holds k like v r = r (k +++ "__sapllike") v
holds k not_like v r = not (r (k +++ "__sapllike") v)
holds k is_null v r = r (k +++ "__isnull") (bool true)
holds k is_not_null v r = r (k +++ "__isnull") (bool false)

abbrev pub conjuncts : Obj → Items
conjuncts (plain (list vs)) = vs
conjuncts _ = nil

unfoldable pub selects : Obj → Row → Bool
unfolding means
selects s r = means_all (conjuncts s) r

abbrev pub narrowed : Value → Obj → Obj
narrowed e s = plain (list (cons e (conjuncts s)))

and_comm : (a b : Bool) → (a && b) ≡ (b && a)
and_comm a b = ground arith

pub selects-narrowed :
    (e : Value) (s : Obj) (r : Row) → selects (narrowed e s) r ≡ (selects s r && means e r)
unfolding selects means
selects-narrowed e s r = and_comm (means e r) (means_all (conjuncts s) r)

pub means_all-item_list :
    (vs : List Value) (r : Row) → means_all (item_list vs) r ≡ all (λ v. means v r) vs
unfolding means
means_all-item_list [] r = refl
means_all-item_list (v ∷ vs) r = ap (means v r &&◌) (means_all-item_list vs r)

pub means_any-alternatives :
    (vs : List Value) (r : Row) → means_any (alternatives vs) r ≡ any (λ v. means v r) vs
unfolding means
means_any-alternatives [] r = refl
means_any-alternatives (v ∷ vs) r = ap (means v r ||◌) (means_any-alternatives vs r)

pub item_list-items : (vs : Items) → item_list (items vs) ≡ vs
item_list-items nil = refl
item_list-items (cons v vs) = ap (cons v) (item_list-items vs)
