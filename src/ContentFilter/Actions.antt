-- ===== src/ContentFilter/Actions.antt =====
-- content_filter.py, `_apply_action`: what an action does to the cells that its path reaches. The
-- containers are kept as a list: first the document, then what has been cut off it.
pub mod Deletes
use Prim.Native.Char.{Char, code}
use sapl_python.Prelude.{
  ℕ, ◌+◌, ◌||◌, String, Bool, true, false, List, [], ◌∷◌, ◌++◌, Option, none, some, str_eq, ◌==◌,
  leb, ◌&&◌, not, if◌then◌else◌, map,
}
use sapl_python.Python.Text.{strip}
use sapl_python.Python.Value.{Value, str, dict, Fields, find}
use sapl_python.Python.Exception.{Exc, other}
use sapl_python.Python.Action.{Result, ok, raised, on_ok}
use sapl_python.ContentFilter.Path.{Segment, denial, parse_path}
use sapl_python.ContentFilter.Tree.{
  Tree, leaf, array, mapping, Trees, no_tree, tree, Branches, no_branch, branch, Key, cell,
  set_cell, delete_cell, label, unlabel,
}
use sapl_python.ContentFilter.Slots.{Slot, resolve_slots}
use sapl_python.ContentFilter.Blacken.{blacken_value}

abbrev either : Option Tree → Option Tree → Option Tree
either (some t) _ = some t
either none o = o

-- The container with a label.
unfoldable mutual
  pub container : ℕ → Tree → Option Tree
  container l (leaf _) = none
  container l (array k ts) =
      let inside = container_in l ts in if k == l then some (array k ts) else inside
  container l (mapping k bs) =
      let inside = container_under l bs in if k == l then some (mapping k bs) else inside

  pub container_in : ℕ → Trees → Option Tree
  container_in l no_tree = none
  container_in l (tree t ts) = either (container l t) (container_in l ts)

  pub container_under : ℕ → Branches → Option Tree
  container_under l no_branch = none
  container_under l (branch k t bs) = either (container l t) (container_under l bs)

-- A change of the container with a label.
unfoldable mutual
  pub change : ℕ → (Tree → Tree) → Tree → Tree
  change l f (leaf v) = leaf v
  change l f (array k ts) =
      let inside = array k (change_in l f ts) in if k == l then f (array k ts) else inside
  change l f (mapping k bs) =
      let inside = mapping k (change_under l f bs) in if k == l then f (mapping k bs) else inside

  pub change_in : ℕ → (Tree → Tree) → Trees → Trees
  change_in l f no_tree = no_tree
  change_in l f (tree t ts) = tree (change l f t) (change_in l f ts)

  pub change_under : ℕ → (Tree → Tree) → Branches → Branches
  change_under l f no_branch = no_branch
  change_under l f (branch k t bs) = branch k (change l f t) (change_under l f bs)

abbrev pub Forest : Type 0
Forest = List Tree

unfoldable pub container_of : ℕ → Forest → Option Tree
unfolding container
container_of l [] = none
container_of l (t ∷ ts) = either (container l t) (container_of l ts)

abbrev pub cell_of : Key → Option Tree → Option Tree
cell_of key none = none
cell_of key (some t) = cell key t

-- `parent[key]`
unfoldable pub read_slot : Slot → Forest → Option Tree
unfolding container_of
read_slot (l, key) forest = cell_of key (container_of l forest)

abbrev pub cut_off : Option Tree → Forest
cut_off none = []
cut_off (some t) = t ∷ []

-- A change of the slot's container, which cuts off what the cell held.
unfoldable pub change_slot : (Key → Tree → Tree) → Slot → Forest → Forest
unfolding read_slot change
change_slot f (l, key) forest = map (change l (f key)) forest ++ cut_off (read_slot (l, key) forest)

unfoldable pub delete_slots : List Slot → Forest → Forest
unfolding change_slot
delete_slots [] forest = forest
delete_slots (slot ∷ slots) forest = delete_slots slots (change_slot delete_cell slot forest)

unfoldable pub write_slot : Slot → Value → Forest → Forest
unfolding change_slot
write_slot slot new forest = change_slot (λ key t. set_cell key (leaf new) t) slot forest

-- `copy.deepcopy` of the replacement into each slot.
unfoldable pub replace_slots : List Slot → Value → Forest → Forest
unfolding write_slot
replace_slots [] new forest = forest
replace_slots (slot ∷ slots) new forest = replace_slots slots new (write_slot slot new forest)

abbrev pub blackened : Option Tree → Fields → Result String
blackened none action = raised (other "LookupError")
blackened (some t) action = blacken_value (unlabel t) action

unfoldable pub blacken_slots : List Slot → Fields → Forest → Result Forest
unfolding read_slot write_slot
blacken_slots [] action forest = ok forest
blacken_slots (slot ∷ slots) action forest =
    on_ok (blackened (read_slot slot forest) action)
      (λ text. blacken_slots slots action (write_slot slot (str text) forest))

-- Whether a character's lower case is a letter of the action types: the Kelvin sign's is `k`.
abbrev lowers_to_char : Char → Char → Bool
lowers_to_char c w =
    code c == code w
    || (leb b'A' (code c) && leb (code c) b'Z' && (code c + 32) == code w)
    || (code c == 8490 && code w == b'k')

-- `s.lower() == word`, for a word of lower-case ASCII letters.
abbrev pub lowers_to : String → String → Bool
lowers_to String.[] String.[] = true
lowers_to (String.◌∷◌ c s) (String.◌∷◌ w word) = lowers_to_char c w && lowers_to s word
lowers_to _ _ = false

abbrev pub replace_all : Option Value → List Slot → Forest → Result Forest
replace_all none slots forest =
    raised (denial "The 'replace' action does not specify a 'replacement'.")
replace_all (some new) slots forest = ok (replace_slots slots new forest)

-- The action by its normalised type. The message on an unknown type is given without the type.
unfoldable pub act : String → List Slot → Fields → Forest → Result Forest
unfolding delete_slots replace_slots blacken_slots
act kind slots action forest =
    if lowers_to kind "delete"
    then ok (delete_slots slots forest)
    else if lowers_to kind "blacken"
    then blacken_slots slots action forest
    else if lowers_to kind "replace"
    then replace_all (find "replacement" action) slots forest
    else raised (denial "Unknown action type.")

-- The document of a forest.
abbrev pub document : Value → Forest → Value
document root [] = root
document root (t ∷ _) = unlabel t

abbrev pub is_empty : List Slot → Bool
is_empty [] = true
is_empty _ = false

unfoldable pub apply_path : Value → List Segment × Bool → String → Fields → Result Value
unfolding act
apply_path root (segments, definite) kind action =
    let t = (label 0 root).0 in
    let slots = resolve_slots segments t in
    if definite && is_empty slots
    then raised (denial "The path defined in the constraint is not present in the data.")
    else on_ok (act (strip kind) slots action (t ∷ [])) (λ forest. ok (document root forest))

abbrev pub with_type : Value → Option Value → Option Value → Fields → Result Value
with_type root (some (str path)) (some (str kind)) action =
    on_ok (parse_path (some (str path))) (λ parsed. apply_path root parsed kind action)
with_type root (some (str path)) kind action = raised (denial "An action's 'type' is not textual.")
with_type root path kind action = raised (denial "The 'path' of an action is not textual.")

-- `_apply_action`, with the document behind it
unfoldable pub apply_action : Value → Value → Result Value
unfolding apply_path
apply_action root (dict action) = with_type root (find "path" action) (find "type" action) action
apply_action root action = raised (denial "An action in 'actions' is not an object.")
