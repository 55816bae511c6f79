-- ===== src/ContentFilter/Providers.antt =====
-- content_filter.py: the two providers and their handlers.
pub mod Release
use sapl_python.Prelude.{
  ℕ, String, Bool, true, false, List, [], ◌∷◌, Option, none, some, str_eq, if◌then◌else◌,
}
use sapl_python.Python.Value.{
  Value, null, str, list, dict, Items, nil, cons, Fields, find, items, pos,
}
use sapl_python.Python.Exception.{Obj, plain, exception, drop, absent}
use sapl_python.Python.Action.{Result, ok, raised, Action, on_ok}
use sapl_python.Signal.{Handler, ScopedHandler, Provider, mapper, output_kind}
use sapl_python.ContentFilter.Tree.{to_native}
use sapl_python.ContentFilter.Actions.{apply_action}
use sapl_python.ContentFilter.Conditions.{conditions_match}

unfoldable pub apply_actions : Value → List Value → Result Value
unfolding apply_action
apply_actions element [] = ok element
apply_actions element (action ∷ actions) =
    on_ok (apply_action element action) (λ next. apply_actions next actions)

abbrev is_named : String → Option Value → Bool
is_named name (some (str s)) = str_eq s name
is_named name _ = false

-- The argument of a mapper.
abbrev argument : List Obj → Obj
argument [] = absent
argument (x ∷ _) = x

abbrev value_of : (Obj → Value) → Obj → Value
value_of attributes (plain v) = v
value_of attributes x = attributes x

abbrev or_drop : Option Value → Obj
or_drop none = drop
or_drop (some v) = plain v

module _ (re_search : String → String → Option Bool) where
  -- `_filter_single`
  unfoldable pub filter_single : List Value → Option Value → Value → Result Value
  unfolding to_native conditions_match apply_actions
  filter_single actions conditions element =
      let native = to_native element in
      on_ok (conditions_match re_search native conditions)
        λ matching. if matching then apply_actions native actions else ok native

  unfoldable pub filter_items : List Value → Option Value → Items → Result Items
  unfolding filter_single
  filter_items actions conditions nil = ok nil
  filter_items actions conditions (cons v vs) =
      on_ok (filter_single actions conditions v)
        λ v'. on_ok (filter_items actions conditions vs) λ vs'. ok (cons v' vs')

  -- `_make_filter_handler`, on a value
  unfoldable pub filter_value : List Value → Option Value → Value → Result Value
  unfolding filter_items
  filter_value actions conditions (list vs) =
      on_ok (filter_items actions conditions vs) λ vs'. ok (list vs')
  filter_value actions conditions value = filter_single actions conditions value

  -- The elements that match, as they are.
  unfoldable pub keep_items : Option Value → Items → Result Items
  unfolding to_native conditions_match
  keep_items conditions nil = ok nil
  keep_items conditions (cons v vs) =
      on_ok (conditions_match re_search (to_native v) conditions) λ matching.
        on_ok (keep_items conditions vs) λ vs'. ok (if matching then cons v vs' else vs')

  -- `_make_predicate_handler`, on a value; `none` stands for DROP
  unfoldable pub keep_value : Option Value → Value → Result (Option Value)
  unfolding keep_items
  keep_value conditions (list vs) = on_ok (keep_items conditions vs) λ vs'. ok (some (list vs'))
  keep_value conditions value =
      on_ok (conditions_match re_search (to_native value) conditions)
        λ matching. ok (if matching then some value else none)

  -- `attributes` is what the handlers see of an exception or a sentinel: its attributes as a dict.
  module _ (attributes : Obj → Value) {W : Type 0} where
    unfoldable pub filter_handler : List Value → Option Value → Handler W
    unfolding filter_value
    filter_handler actions conditions args w = (
      on_ok (filter_value actions conditions (value_of attributes (argument args)))
          (λ v. ok (plain v)),
      w,
    )

    unfoldable pub predicate_handler : Option Value → Handler W
    unfolding keep_value
    predicate_handler conditions args w = (
      on_ok (keep_value conditions (value_of attributes (argument args))) (λ v. ok (or_drop v)),
      w,
    )

    abbrev at_output : ℕ → Handler W → List (ScopedHandler W)
    at_output priority handler =
        record { signal = output_kind; priority = pos priority; shape = mapper; handler = handler }
        ∷ []

    abbrev with_actions : Option Value → Option Value → List (ScopedHandler W)
    with_actions none conditions = at_output 0 (filter_handler [] conditions)
    with_actions (some (list actions)) conditions =
        at_output 0 (filter_handler (items actions) conditions)
    with_actions (some _) conditions = []

    -- ContentFilteringProvider
    unfoldable pub content_filtering : Provider W
    unfolding filter_handler
    content_filtering (dict c) = ok (
        if is_named "filterJsonContent" (find "type" c)
        then with_actions (find "actions" c) (find "conditions" c)
        else [])
    content_filtering constraint = ok []

    -- ContentFilterPredicateProvider
    unfoldable pub content_filter_predicate : Provider W
    unfolding predicate_handler
    content_filter_predicate (dict c) = ok (
        if is_named "jsonContentFilterPredicate" (find "type" c)
        then at_output 100 (predicate_handler (find "conditions" c))
        else [])
    content_filter_predicate constraint = ok []
