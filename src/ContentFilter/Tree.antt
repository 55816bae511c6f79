-- ===== src/ContentFilter/Tree.antt =====
-- content_filter.py: the JSON containers that `_to_native` builds, which an action changes in place.
-- A container carries a label, by which a slot refers to it even when it has been moved or cut off.
-- What an action puts in is not labelled, as no slot refers to it.
pub mod Labels
use sapl_python.Prelude.{
  ℕ, zero, suc, ◌+◌, ◌-◌, String, Bool, true, false, List, [], ◌∷◌, ◌++◌, Option, none, some,
  str_eq, ltb, leb, ◌==◌, if◌then◌else◌,
}
use sapl_python.Python.Value.{
  ℤ, pos, negsuc, Value, null, bool, int, float, str, list, tuple, dict, object, opaque, Items, nil,
  cons, Fields, end, field,
}

-- `_to_native`. An instance stands for its attributes.
unfoldable mutual
  pub to_native : Value → Value
  to_native (dict fs) = dict (native_fields fs)
  to_native (list vs) = list (native_items vs)
  to_native (tuple vs) = list (native_items vs)
  to_native (object fs) = dict (native_fields fs)
  to_native null = null
  to_native (bool b) = bool b
  to_native (int z) = int z
  to_native (float z k) = float z k
  to_native (str s) = str s
  to_native (opaque n) = opaque n

  pub native_items : Items → Items
  native_items nil = nil
  native_items (cons v vs) = cons (to_native v) (native_items vs)

  pub native_fields : Fields → Fields
  native_fields end = end
  native_fields (field k v fs) = field k (to_native v) (native_fields fs)

mutual
  pub data Tree : Type 0 where
    leaf : Value → Tree
    array : ℕ → Trees → Tree
    mapping : ℕ → Branches → Tree

  pub data Trees : Type 0 where
    no_tree : Trees
    tree : Tree → Trees → Trees

  pub data Branches : Type 0 where
    no_branch : Branches
    branch : String → Tree → Branches → Branches

-- A value with its containers labelled from a number on, and the next number.
unfoldable mutual
  pub label : ℕ → Value → Tree × ℕ
  label n (list vs) = let (ts, n') = label_items (suc n) vs in (array n ts, n')
  label n (dict fs) = let (bs, n') = label_fields (suc n) fs in (mapping n bs, n')
  label n null = (leaf null, n)
  label n (bool b) = (leaf (bool b), n)
  label n (int z) = (leaf (int z), n)
  label n (float z k) = (leaf (float z k), n)
  label n (str s) = (leaf (str s), n)
  label n (tuple vs) = (leaf (tuple vs), n)
  label n (object fs) = (leaf (object fs), n)
  label n (opaque m) = (leaf (opaque m), n)

  pub label_items : ℕ → Items → Trees × ℕ
  label_items n nil = (no_tree, n)
  label_items n (cons v vs) =
      let (t, n') = label n v in let (ts, n'') = label_items n' vs in (tree t ts, n'')

  pub label_fields : ℕ → Fields → Branches × ℕ
  label_fields n end = (no_branch, n)
  label_fields n (field k v fs) =
      let (t, n') = label n v in let (bs, n'') = label_fields n' fs in (branch k t bs, n'')

unfoldable mutual
  pub unlabel : Tree → Value
  unlabel (leaf v) = v
  unlabel (array _ ts) = list (unlabel_trees ts)
  unlabel (mapping _ bs) = dict (unlabel_branches bs)

  pub unlabel_trees : Trees → Items
  unlabel_trees no_tree = nil
  unlabel_trees (tree t ts) = cons (unlabel t) (unlabel_trees ts)

  pub unlabel_branches : Branches → Fields
  unlabel_branches no_branch = end
  unlabel_branches (branch k t bs) = field k (unlabel t) (unlabel_branches bs)

pub data Key : Type 0 where
  name : String → Key
  position : ℤ → Key

abbrev pub count_trees : Trees → ℕ
count_trees no_tree = 0
count_trees (tree t ts) = suc (count_trees ts)

-- A list index, if it is in range: a negative one counts from the end.
abbrev pub in_range : ℤ → ℕ → Option ℕ
in_range (pos n) size = if ltb n size then some n else none
in_range (negsuc n) size = if ltb n size then some (size - (n + 1)) else none

abbrev pub nth : ℕ → Trees → Option Tree
nth n no_tree = none
nth zero (tree t ts) = some t
nth (suc n) (tree t ts) = nth n ts

abbrev pub named : String → Branches → Option Tree
named k no_branch = none
named k (branch j t bs) = if str_eq j k then some t else named k bs

abbrev pub at_position : Option ℕ → Trees → Option Tree
at_position none ts = none
at_position (some n) ts = nth n ts

-- `container[key]`
abbrev pub cell : Key → Tree → Option Tree
cell (position i) (array _ ts) = at_position (in_range i (count_trees ts)) ts
cell (name k) (mapping _ bs) = named k bs
cell _ _ = none

abbrev pub set_nth : ℕ → Tree → Trees → Trees
set_nth n new no_tree = no_tree
set_nth zero new (tree t ts) = tree new ts
set_nth (suc n) new (tree t ts) = tree t (set_nth n new ts)

abbrev pub set_named : String → Tree → Branches → Branches
set_named k new no_branch = branch k new no_branch
set_named k new (branch j t bs) =
    if str_eq j k then branch j new bs else branch j t (set_named k new bs)

abbrev pub set_position : Option ℕ → Tree → Trees → Trees
set_position none new ts = ts
set_position (some n) new ts = set_nth n new ts

-- `container[key] = new`
abbrev pub set_cell : Key → Tree → Tree → Tree
set_cell (position i) new (array l ts) = array l (set_position (in_range i (count_trees ts)) new ts)
set_cell (name k) new (mapping l bs) = mapping l (set_named k new bs)
set_cell _ new t = t

abbrev pub remove_nth : ℕ → Trees → Trees
remove_nth n no_tree = no_tree
remove_nth zero (tree t ts) = ts
remove_nth (suc n) (tree t ts) = tree t (remove_nth n ts)

abbrev pub remove_named : String → Branches → Branches
remove_named k no_branch = no_branch
remove_named k (branch j t bs) = if str_eq j k then bs else branch j t (remove_named k bs)

abbrev pub remove_position : Option ℕ → Trees → Trees
remove_position none ts = ts
remove_position (some n) ts = remove_nth n ts

-- `_delete_slot`
abbrev pub delete_cell : Key → Tree → Tree
delete_cell (position i) (array l ts) = array l (remove_position (in_range i (count_trees ts)) ts)
delete_cell (name k) (mapping l bs) = mapping l (remove_named k bs)
delete_cell _ t = t
