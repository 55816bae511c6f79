-- ===== src/ContentFilter/Tree/Labels.antt =====
-- content_filter.py: labelled containers against the values they stand for.
use sapl_python.Prelude.{ℕ, suc, ◌≡◌, refl, ap}
use sapl_python.Python.Value.{
  Value, null, bool, int, float, str, list, tuple, dict, object, opaque, Items, nil, cons, Fields,
  end, field,
}
use sapl_python.ContentFilter.Tree.{
  label, label_items, label_fields, unlabel, unlabel_trees, unlabel_branches,
}

mutual
  unfolding label unlabel

  unlabel_of_label : (n : ℕ) (v : Value) → unlabel (label n v).0 ≡ v
  unlabel_of_label n null = refl
  unlabel_of_label n (bool b) = refl
  unlabel_of_label n (int z) = refl
  unlabel_of_label n (float z k) = refl
  unlabel_of_label n (str s) = refl
  unlabel_of_label n (tuple vs) = refl
  unlabel_of_label n (object fs) = refl
  unlabel_of_label n (opaque m) = refl
  unlabel_of_label n (list vs) = ap list (unlabel_of_items (suc n) vs)
  unlabel_of_label n (dict fs) = ap dict (unlabel_of_fields (suc n) fs)

  unlabel_of_items : (n : ℕ) (vs : Items) → unlabel_trees (label_items n vs).0 ≡ vs
  unlabel_of_items n nil = refl
  unlabel_of_items n (cons v vs) = cc (unlabel_of_label n v, unlabel_of_items (label n v).1 vs)

  unlabel_of_fields : (n : ℕ) (fs : Fields) → unlabel_branches (label_fields n fs).0 ≡ fs
  unlabel_of_fields n end = refl
  unlabel_of_fields n (field k v fs) = cc (unlabel_of_label n v, unlabel_of_fields (label n v).1 fs)

pub unlabel-label : (n : ℕ) (v : Value) → unlabel (label n v).0 ≡ v
unlabel-label n v = unlabel_of_label n v

pub unlabel-label_items : (n : ℕ) (vs : Items) → unlabel_trees (label_items n vs).0 ≡ vs
unlabel-label_items n vs = unlabel_of_items n vs
