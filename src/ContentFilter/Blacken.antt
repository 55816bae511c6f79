-- ===== src/ContentFilter/Blacken.antt =====
-- content_filter.py, `_blacken_value`: all but the ends of a text is replaced. Numbers of an action
-- are finite.
pub mod Hiding
use Prim.Native.String.{String, ◌++◌, count}
use sapl_python.Prelude.{
  ℕ, ◌+◌, ◌-◌, ◌*◌, ◌/◌, ◌%◌, ◌^◌, Option, none, some, ltb, leb, ◌==◌, if◌then◌else◌,
}
use sapl_python.Python.Value.{Value, null, int, float, str, Fields, pos, negsuc}
use sapl_python.Python.Exception.{Exc, access_denied}
use sapl_python.Python.Action.{Result, ok, raised, on_ok}
use sapl_python.Python.Value.{find}
use sapl_python.ContentFilter.Path.{denial}
use sapl_python.Python.Text.{take, skip, repeat}

abbrev pub max_blacken : ℕ
max_blacken = 1000000

-- `_replacement_string`, on what the action has for `replacement`
abbrev pub replacement_string : Option Value → Result String
replacement_string none = ok "█"
replacement_string (some null) = ok "█"
replacement_string (some (str s)) = ok s
replacement_string _ = raised (denial "'replacement' of 'blacken' action is not textual.")

-- `_disclose_count`, on what the action has for the key
abbrev pub disclose_count : Option Value → Result ℕ
disclose_count none = ok 0
disclose_count (some null) = ok 0
disclose_count (some (int (pos n))) = ok n
disclose_count (some (int (negsuc n))) =
    raised (denial "An action's disclose count must not be negative.")
disclose_count (some (float (pos m) k)) =
    if (m % 2 ^ k) == 0
    then ok (m / 2 ^ k)
    else raised (denial "An action's disclose count is not an integer.")
disclose_count (some (float (negsuc m) k)) =
    if ((m + 1) % 2 ^ k) == 0
    then raised (denial "An action's disclose count must not be negative.")
    else raised (denial "An action's disclose count is not an integer.")
disclose_count _ = raised (denial "An action's disclose count is not an integer.")

abbrev too_large : Exc
too_large = denial "'blacken' action exceeds the maximum permitted blacken length."

-- `_blacken_length`, on what the action has for `length`; `none` is _BLACKEN_LENGTH_UNSET
abbrev pub blacken_length : Option Value → Result (Option ℕ)
blacken_length none = ok none
blacken_length (some null) = ok none
blacken_length (some (int (pos n))) = if ltb max_blacken n then raised too_large else ok (some n)
blacken_length (some (float (pos m) k)) =
    if ltb (max_blacken * 2 ^ k) m then raised too_large else ok (some (m / 2 ^ k))
blacken_length _ = raised (denial "'length' of 'blacken' action is not a non-negative number.")

abbrev final_length : Option ℕ → ℕ → ℕ
final_length none replaced_chars = replaced_chars
final_length (some n) replaced_chars = n

-- The text behind the checks of the action.
unfoldable pub blacken_text : String → String → ℕ → ℕ → Option ℕ → Result String
blacken_text value replacement disclose_left disclose_right length =
    let replaced_chars = count value - disclose_left - disclose_right in
    let middle = final_length length replaced_chars in
    if leb (count value) (disclose_left + disclose_right)
    then ok value
    else if ltb max_blacken (count replacement * middle)
    then raised too_large
    else ok (
        (if ltb 0 disclose_left then take disclose_left value else "")
        ++ (repeat middle replacement
            ++ (if ltb 0 disclose_right then skip (disclose_left + replaced_chars) value else "")))

-- `_blacken_value`
unfoldable pub blacken_value : Value → Fields → Result String
unfolding blacken_text
blacken_value (str value) action =
    on_ok (replacement_string (find "replacement" action)) λ replacement.
      on_ok (disclose_count (find "discloseLeft" action)) λ left.
        on_ok (disclose_count (find "discloseRight" action)) λ right.
          on_ok (blacken_length (find "length" action))
            λ length. blacken_text value replacement left right length
blacken_value _ action = raised (denial "The node identified by the path is not a text node.")
