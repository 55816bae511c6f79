-- ===== src/ContentFilter/Conditions.antt =====
-- content_filter.py, `_conditions_match`: the conditions of a filter. `re_search` is re.search with a
-- pattern and a text: whether there is a match, or `none` for re.error.
use Prim.Native.String.{count}
use sapl_python.Prelude.{
  String, Bool, true, false, List, [], ◌∷◌, Option, none, some, str_eq, ltb, not, if◌then◌else◌,
}
use sapl_python.Python.Value.{Value, null, str, list, dict, find, items}
use sapl_python.Python.Compare.{py_eq, Comparison, lt, le, ge, gt, rich_compare}
use sapl_python.Python.Action.{Result, ok, raised, on_ok}
use sapl_python.ContentFilter.Path.{Segment, denial, parse_path}
use sapl_python.ContentFilter.Tree.{Tree, label, unlabel}
use sapl_python.ContentFilter.Slots.{Slot, resolve_slots}
use sapl_python.ContentFilter.Actions.{read_slot}

abbrev read_value : Option Tree → Result Value
read_value none = raised (denial "The path defined in the constraint is not present in the data.")
read_value (some t) = ok (unlabel t)

abbrev first_value : Tree → List Slot → Result Value
first_value root [] = read_value none
first_value root (slot ∷ _) = read_value (read_slot slot (root ∷ []))

-- `_value_at_path`
unfoldable pub value_at_path : Value → List Segment → Result Value
unfolding read_slot
value_at_path element segments =
    let t = (label 0 element).0 in first_value t (resolve_slots segments t)

-- `_compare`: a TypeError counts as false.
abbrev or_false : Option Bool → Bool
or_false none = false
or_false (some b) = b

unfoldable pub py_compare : Comparison → Value → Value → Bool
unfolding rich_compare
py_compare op actual expected = or_false (rich_compare op actual expected)

-- _REDOS_PATTERNS
abbrev pub redos_pattern : String
redos_pattern = "\\([^)]*[+*][^)]*\\)[+*?]|(\\([^)]*\\|[^)]*\\)){3,}"

module _ (re_search : String → String → Option Bool) where
  -- `_is_safe_regex`, on a text
  unfoldable pub is_safe_regex : String → Bool
  is_safe_regex pattern =
      if ltb 200 (count pattern) then false else not (or_false (re_search redos_pattern pattern))

  -- `_regex_match`
  unfoldable pub regex_match : Value → Value → Bool
  unfolding is_safe_regex
  regex_match (str actual) (str expected) =
      if is_safe_regex expected then or_false (re_search expected actual) else false
  regex_match _ _ = false

  -- The operators of a condition; any other is false.
  unfoldable pub holds : String → Value → Value → Bool
  unfolding py_eq py_compare regex_match
  holds operator actual expected =
      if str_eq operator "=="
      then py_eq actual expected
      else if str_eq operator "!="
      then not (py_eq actual expected)
      else if str_eq operator ">="
      then py_compare ge actual expected
      else if str_eq operator "<="
      then py_compare le actual expected
      else if str_eq operator ">"
      then py_compare gt actual expected
      else if str_eq operator "<"
      then py_compare lt actual expected
      else if str_eq operator "=~"
      then regex_match actual expected
      else false

  abbrev pub with_operator : Value → Option Value → Option Value → Option Value → Result Bool
  with_operator element path (some (str operator)) (some expected) =
      on_ok (parse_path path) λ (segments, _).
        on_ok (value_at_path element segments) λ actual. ok (holds operator actual expected)
  with_operator element path operator expected = raised (denial "Not a valid predicate condition.")

  -- `_evaluate_condition`
  unfoldable pub evaluate_condition : Value → Value → Result Bool
  unfolding value_at_path holds
  evaluate_condition element (dict condition) =
      with_operator element (find "path" condition) (find "operator" condition)
        (find "value" condition)
  evaluate_condition element condition = raised (denial "Not a valid predicate condition.")

  -- `all` stops at the first condition that is false.
  unfoldable pub all_hold : Value → List Value → Result Bool
  unfolding evaluate_condition
  all_hold element [] = ok true
  all_hold element (condition ∷ conditions) =
      on_ok (evaluate_condition element condition)
        λ b. let rest = all_hold element conditions in if b then rest else ok false

  -- `_conditions_match`, with `none` for a missing key
  unfoldable pub conditions_match : Value → Option Value → Result Bool
  unfolding all_hold
  conditions_match element none = ok true
  conditions_match element (some null) = ok true
  conditions_match element (some (list conditions)) = all_hold element (items conditions)
  conditions_match element (some conditions) = raised (denial "'conditions' is not an array.")
