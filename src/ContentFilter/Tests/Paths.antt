-- ===== src/ContentFilter/Tests/Paths.antt =====
-- Paths, what they reach, and the actions and conditions at them, with the theorems at these.

use sapl_python.Prelude.{◌≡◌, refl, all, String, Bool, true, false, List, [], ◌∷◌, Option, some}
use sapl_python.Python.Value.{
  Value, Fields, end, field, str, int, list, dict, Items, nil, cons, pos, negsuc, ℤ,
}
use sapl_python.Python.Action.{ok, raised}
use sapl_python.ContentFilter.Path.{
  denial, unsupported, parse_segments, parse_path, child, descendant, index, wildcard, span,
}
use sapl_python.ContentFilter.Path.Loop.{Loops, parse_segments-Loops}
use sapl_python.ContentFilter.Path.Grammar.{
  Written, dotted, deep, star, at, quoted, meanings, parse_path-write,
}
use sapl_python.ContentFilter.Slots.{resolve_slots}
use sapl_python.ContentFilter.Tree.{label, unlabel, to_native}
use sapl_python.ContentFilter.Blacken.{blacken_value}
use sapl_python.ContentFilter.Slots.Definite.{named_key, is_harmless, is_single, parse_path-ok}
use sapl_python.ContentFilter.Actions.{apply_action}
use sapl_python.ContentFilter.Actions.Deletes.{apply_action-delete_elements}
use sapl_python.ContentFilter.Conditions.{conditions_match}
use sapl_python.ContentFilter.Providers.{keep_value}
use sapl_python.ContentFilter.Providers.Release.{Kept, keep_value-list}

abbrev written_path : List Written
written_path = deep "items" ∷ at true "1" ∷ star ∷ quoted true "a b" ∷ []

parsed :
    (parse_path (some (str "$.a[0]..b['c']"))
      ≡ ok (child "a" ∷ index (pos 0) ∷ descendant "b" ∷ child "c" ∷ [], false))
    × (parse_path (some (str "$.a.__class__"))
        ≡ raised (denial "Path segment matches a forbidden key."))
    × (parse_path (some (str "$")) ≡ raised unsupported)
    × (parse_path (some (str "$.a b")) ≡ raised unsupported)
unfolding parse_path span
parsed = (refl, refl, refl, refl)

parse_path-write_example :
    parse_path (some (str "$.order..items[-1][*]['a b']"))
    ≡ ok (child "order" ∷ meanings written_path, false)
parse_path-write_example = parse_path-write (dotted "order") written_path refl

parse_segments-Loops_example : Loops ".a[0]" (ok (child "a" ∷ index (pos 0) ∷ [], true))
unfolding parse_segments span
parse_segments-Loops_example = parse_segments-Loops ".a[0]"

parse_path-ok_example :
    let segments = child "a" ∷ wildcard ∷ [] in
    (all (λ s. is_harmless (named_key s)) segments ≡ true) × (false ≡ all is_single segments)
unfolding parse_path span
parse_path-ok_example = parse_path-ok (some (str "$.a[*]")) (child "a" ∷ wildcard ∷ []) false refl

abbrev patient : Value
patient = dict (
    field "name" (str "Ada") (
      field "visits"
        (list
          (cons (dict (field "note" (str "x") end)) (cons (dict (field "note" (str "y") end)) nil)))
        end))

abbrev action : String → String → Fields
action path kind =
    field "path" (str path) (field "type" (str kind) (field "replacement" (str "*") end))

acted :
    (apply_action patient (dict (action "$..note" "replace"))
      ≡ ok (
          dict (
            field "name" (str "Ada") (
              field "visits"
                (list (
                  cons
                    (dict (field "note" (str "*") end))
                    (cons (dict (field "note" (str "*") end)) nil)))
                end))))
    × (apply_action patient (dict (action "$.visits[-1]" " Delete"))
        ≡ ok (
            dict (
              field "name"
                (str "Ada")
                (field "visits" (list (cons (dict (field "note" (str "x") end)) nil)) end))))
    × (apply_action patient (dict (action "$.name" "blacken"))
        ≡ ok (
            dict (
              field "name" (str "***") (
                field "visits"
                  (list (
                    cons
                      (dict (field "note" (str "x") end))
                      (cons (dict (field "note" (str "y") end)) nil)))
                  end))))
    × (apply_action patient (dict (action "$.age" "delete"))
        ≡ raised (denial "The path defined in the constraint is not present in the data."))
unfolding apply_action parse_path span resolve_slots label unlabel blacken_value
acted = (refl, refl, refl, refl)

abbrev numbers : Items
numbers = cons (int (pos 1)) (cons (int (pos 2)) (cons (int (pos 3)) nil))

apply_action-delete_elements_example :
    apply_action (list numbers) (dict (action "$[*]" "delete")) ≡ ok (list (cons (int (pos 2)) nil))
apply_action-delete_elements_example =
    apply_action-delete_elements numbers (action "$[*]" "delete") refl refl

abbrev person : ℤ → Value
person age = dict (field "age" (int age) end)

abbrev adults : Option Value
adults = some (
    list (
      cons
        (dict (
          field "path" (str "$.age")
            (field "operator" (str ">=") (field "value" (int (pos 18)) end))))
        nil))

abbrev no_match : String → String → Option Bool
no_match pattern text = some false

matched :
    (conditions_match no_match (person (pos 18)) adults ≡ ok true)
    × (conditions_match no_match (person (negsuc 3)) adults ≡ ok false)
    × (conditions_match no_match patient adults
        ≡ raised (denial "The path defined in the constraint is not present in the data."))
unfolding conditions_match parse_path span label resolve_slots unlabel
matched = (refl, refl, refl)

abbrev people : Items
people = cons (person (pos 20)) (cons (person (pos 3)) (cons (person (pos 18)) nil))

keep_value-list_example :
    let result = list (cons (person (pos 20)) (cons (person (pos 18)) nil)) in
    (kept : Items) × (some result ≡ some (list kept)) × Kept no_match adults people kept
unfolding keep_value to_native conditions_match parse_path span label resolve_slots unlabel
keep_value-list_example =
    keep_value-list no_match adults people
      (some (list (cons (person (pos 20)) (cons (person (pos 18)) nil)))) refl
