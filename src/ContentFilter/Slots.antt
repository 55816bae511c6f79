-- ===== src/ContentFilter/Slots.antt =====
-- content_filter.py, `_resolve_slots` and `_walk_descendant`: the cells that a path reaches.
pub mod Definite
use sapl_python.Prelude.{
  ℕ, suc, String, Bool, true, false, List, [], ◌∷◌, ◌++◌, Option, none, some, str_eq, if◌then◌else◌,
}
use sapl_python.Python.Value.{ℤ, pos}
use sapl_python.ContentFilter.Path.{Segment, child, descendant, index, wildcard}
use sapl_python.ContentFilter.Tree.{
  Tree, leaf, array, mapping, Trees, no_tree, tree, Branches, no_branch, branch, Key, name,
  position, named, in_range, at_position, count_trees,
}

-- `(container, key)`
abbrev pub Slot : Type 0
Slot = ℕ × Key

-- What is done with a cell that a segment reaches: its container, its key and what it holds.
abbrev pub Reached : Type 0
Reached = ℕ → Key → Tree → List Slot

abbrev pub reached : Reached → ℕ → Key → Option Tree → List Slot
reached found l key none = []
reached found l key (some t) = found l key t

abbrev pub each_tree : Reached → ℕ → ℕ → Trees → List Slot
each_tree found l n no_tree = []
each_tree found l n (tree t ts) = found l (position (pos n)) t ++ each_tree found l (suc n) ts

abbrev pub each_branch : Reached → ℕ → Branches → List Slot
each_branch found l no_branch = []
each_branch found l (branch k t bs) = found l (name k) t ++ each_branch found l bs

-- `_walk_descendant`
unfoldable mutual
  pub descend : String → Reached → Tree → List Slot
  descend key found (leaf _) = []
  descend key found (array _ ts) = descend_trees key found ts
  descend key found (mapping l bs) = descend_branches key found l bs

  pub descend_trees : String → Reached → Trees → List Slot
  descend_trees key found no_tree = []
  descend_trees key found (tree t ts) = descend key found t ++ descend_trees key found ts

  pub descend_branches : String → Reached → ℕ → Branches → List Slot
  descend_branches key found l no_branch = []
  descend_branches key found l (branch k t bs) =
      (if str_eq k key then found l (name k) t else [])
      ++ (descend key found t ++ descend_branches key found l bs)

-- The cells that one segment reaches from a node.
unfoldable pub step_into : Segment → Reached → Tree → List Slot
unfolding descend
step_into (child key) found (mapping l bs) = reached found l (name key) (named key bs)
step_into (index i) found (array l ts) =
    reached found l (position i) (at_position (in_range i (count_trees ts)) ts)
step_into wildcard found (array l ts) = each_tree found l 0 ts
step_into wildcard found (mapping l bs) = each_branch found l bs
step_into (descendant key) found t = descend key found t
step_into _ found t = []

abbrev pub last_cell : Reached
last_cell l key t = (l, key) ∷ []

-- `_resolve_slots`: the last segment's cells are the slots, and the others are gone into.
unfoldable pub resolve_slots : List Segment → Tree → List Slot
unfolding step_into
resolve_slots [] node = []
resolve_slots (segment ∷ []) node = step_into segment last_cell node
resolve_slots (segment ∷ next ∷ segments) node =
    step_into segment (λ l key t. resolve_slots (next ∷ segments) t) node
