-- ===== src/ContentFilter/Actions/Deletes.antt =====
-- content_filter.py: the `delete` action at the elements of a list.
use sapl_python.Prelude.{
  ℕ, zero, suc, ◌+◌, ◌≤◌, ◌≡◌, refl, ap, ◌∙◌, List, [], ◌∷◌, ◌++◌, map, false, some, arith,
}
use sapl_python.Python.Value.{Value, str, list, dict, Items, nil, cons, Fields, find, pos}
use sapl_python.Python.Action.{ok}
use sapl_python.ContentFilter.Path.{wildcard, parse_path}
use sapl_python.ContentFilter.Tree.{
  Tree, array, Trees, no_tree, tree, position, count_trees, remove_nth, remove_position, in_range,
  at_position, delete_cell, label, label_items, unlabel, unlabel_trees,
}
use sapl_python.ContentFilter.Tree.Labels.{unlabel-label_items}
use sapl_python.ContentFilter.Slots.{Slot, last_cell, each_tree, resolve_slots}
use sapl_python.ContentFilter.Actions.{
  Forest, delete_slots, change_slot, change, cut_off, act, apply_path, apply_action, document,
}

-- Every second element, from the second on.
abbrev pub every_second : Items → Items
every_second nil = nil
every_second (cons v nil) = nil
every_second (cons v (cons w vs)) = cons w (every_second vs)

abbrev second_trees : Trees → Trees
second_trees no_tree = no_tree
second_trees (tree t no_tree) = no_tree
second_trees (tree t (tree u ts)) = tree u (second_trees ts)

abbrev joined : Trees → Trees → Trees
joined no_tree ts = ts
joined (tree u us) ts = tree u (joined us ts)

-- The deletions of `m` positions from `k` on, one after the other.
abbrev deletions : ℕ → ℕ → Trees → Trees
deletions k zero ts = ts
deletions k (suc m) ts =
    deletions (suc k) m (remove_position (in_range (pos k) (count_trees ts)) ts)

count-joined : (us ts : Trees) → count_trees (joined us ts) ≡ count_trees us + count_trees ts
count-joined no_tree ts = omega arith
count-joined (tree u us) ts = omega (arith, count-joined us ts)

remove_nth-joined :
    (kept : Trees) (t : Tree) (ts : Trees)
    → remove_nth (count_trees kept) (joined kept (tree t ts)) ≡ joined kept ts
remove_nth-joined no_tree t ts = refl
remove_nth-joined (tree u us) t ts = ap (tree u) (remove_nth-joined us t ts)

remove-joined :
    (kept : Trees) (t : Tree) (ts : Trees)
    → remove_position
        (in_range (pos (count_trees kept)) (count_trees (joined kept (tree t ts))))
        (joined kept (tree t ts))
      ≡ joined kept ts
remove-joined kept t ts = ground (arith, count-joined kept (tree t ts), remove_nth-joined kept t ts)

-- Positions beyond the end are skipped.
deletions-beyond : (k m : ℕ) (ts : Trees) → count_trees ts ≤ k → deletions k m ts ≡ ts
deletions-beyond k zero ts h = refl
deletions-beyond k (suc m) ts h = ground (arith, deletions-beyond (suc k) m ts)

joined-joined :
    (us : Trees) (t : Tree) (ts : Trees)
    → joined us (tree t ts) ≡ joined (joined us (tree t no_tree)) ts
joined-joined no_tree t ts = refl
joined-joined (tree u us) t ts = ap (tree u) (joined-joined us t ts)

-- Each deletion moves the next element under the position that has just been passed.
deletions-second :
    (m : ℕ) (kept ts : Trees)
    → count_trees ts ≤ m
    → deletions (count_trees kept) m (joined kept ts) ≡ joined kept (second_trees ts)
deletions-second m kept no_tree h =
    deletions-beyond (count_trees kept) m (joined kept no_tree)
      (omega (arith, count-joined kept no_tree))
deletions-second zero kept (tree t ts) h = ground arith
deletions-second (suc m) kept (tree t no_tree) h =
    let removed = remove-joined kept t no_tree in
    let over = count-joined kept no_tree in
    ground (arith, deletions-beyond (suc (count_trees kept)) m (joined kept no_tree))
deletions-second (suc m) kept (tree t (tree u ts)) h =
    let removed = remove-joined kept t (tree u ts) in
    let kept' = joined kept (tree u no_tree) in
    ground (
      arith,
      count-joined kept (tree u no_tree),
      joined-joined kept u ts,
      joined-joined kept u (second_trees ts),
      deletions-second m kept' ts,
    )

abbrev slots_from : ℕ → ℕ → List Slot
slots_from k zero = []
slots_from k (suc m) = (0, position (pos k)) ∷ slots_from (suc k) m

each_tree-slots : (k : ℕ) (ts : Trees) → each_tree last_cell 0 k ts ≡ slots_from k (count_trees ts)
each_tree-slots k no_tree = refl
each_tree-slots k (tree t ts) = ap ((0, position (pos k)) ∷◌) (each_tree-slots (suc k) ts)

document-delete_slots :
    (root : Value) (k m : ℕ) (ts : Trees) (cut : Forest)
    → document root (delete_slots (slots_from k m) (array 0 ts ∷ cut))
      ≡ list (unlabel_trees (deletions k m ts))
unfolding delete_slots change_slot change unlabel
document-delete_slots root k zero ts cut = refl
document-delete_slots root k (suc m) ts cut =
    document-delete_slots root (suc k) m (remove_position (in_range (pos k) (count_trees ts)) ts) (
      map (change 0 (delete_cell (position (pos k)))) cut
      ++ cut_off (at_position (in_range (pos k) (count_trees ts)) ts))

unlabel-second : (ts : Trees) → unlabel_trees (second_trees ts) ≡ every_second (unlabel_trees ts)
unfolding unlabel
unlabel-second no_tree = refl
unlabel-second (tree t no_tree) = refl
unlabel-second (tree t (tree u ts)) = ap (cons (unlabel u)) (unlabel-second ts)

apply_path-delete :
    (vs : Items) (action : Fields)
    → apply_path (list vs) (wildcard ∷ [], false) "delete" action ≡ ok (list (every_second vs))
unfolding apply_path act resolve_slots label
apply_path-delete vs action =
    let ts = (label_items 1 vs).0 in
    ap (λ slots. ok (document (list vs) (delete_slots slots (array 0 ts ∷ []))))
      (each_tree-slots 0 ts)
    ∙ ap ok (document-delete_slots (list vs) 0 (count_trees ts) ts [])
    ∙ ap (λ us. ok (list (unlabel_trees us)))
        (deletions-second (count_trees ts) no_tree ts (omega arith))
    ∙ ap (λ us. ok (list us)) (unlabel-second ts)
    ∙ ap (λ us. ok (list (every_second us))) (unlabel-label_items 1 vs)

-- A `delete` action at every element of a list leaves every second element in place.
pub apply_action-delete_elements :
    (vs : Items) (action : Fields)
    → find "path" action ≡ some (str "$[*]")
    → find "type" action ≡ some (str "delete")
    → apply_action (list vs) (dict action) ≡ ok (list (every_second vs))
unfolding apply_action parse_path
apply_action-delete_elements vs action path kind = rw path (rw kind (apply_path-delete vs action))
