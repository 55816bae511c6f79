-- ===== src/ContentFilter/Path.antt =====
-- content_filter.py, `_parse_path`: the JSONPath subset. The regular expressions of the tokens are
-- functions on what stands behind the position: the token's step and what follows it. Digits are
-- those of ASCII.
pub mod Tokens
pub mod Loop
pub mod Grammar
use Prim.Native.Char.{Char, code}
use Prim.Native.String.{String, [], ◌∷◌, count}
use sapl_python.Prelude.{
  ℕ, zero, suc, ◌+◌, ◌-◌, ◌*◌, Bool, true, false, Option, none, some, leb, ◌==◌, ◌&&◌, ◌||◌, not,
  str_eq, if◌then◌else◌,
}
use mathlib.Core.List.{List, [] as []ᴸ, ◌∷◌ as ◌∷ᴸ◌}
use sapl_python.Python.Value.{Value, str, ℤ, pos, negsuc}
use sapl_python.Python.Exception.{Exc, access_denied}
use sapl_python.Python.Action.{Result, ok, raised}

abbrev pub denial : String → Exc
denial message = access_denied message none "DENIED"

-- The navigation steps.
pub data Segment : Type 0 where
  child : String → Segment
  descendant : String → Segment
  index : ℤ → Segment
  wildcard : Segment

abbrev pub is_char : ℕ → Char → Bool
is_char n c = code c == n

abbrev pub is_letter : Char → Bool
is_letter c =
    let n = code c in (leb b'A' n && leb n b'Z') || (leb b'a' n && leb n b'z') || n == b'_'

abbrev pub is_digit : Char → Bool
is_digit c = leb b'0' (code c) && leb (code c) b'9'

abbrev pub is_word : Char → Bool
is_word c = is_letter c || is_digit c

abbrev pub consed : Char → String × String → String × String
consed c (name, rest) = (c ∷ name, rest)

-- The longest prefix of characters that pass the test, and what follows.
unfoldable pub span : (Char → Bool) → String → String × String
span p [] = ("", "")
span p (c ∷ s) = let more = consed c (span p s) in if p c then more else ("", c ∷ s)

-- `[A-Za-z_][A-Za-z0-9_]*`
unfoldable pub identifier : String → Option (String × String)
identifier [] = none
identifier (c ∷ s) = if is_letter c then some (consed c (span is_word s)) else none

abbrev pub named : (String → Segment) → Option (String × String) → Option (Segment × String)
named f none = none
named f (some (name, rest)) = some (f name, rest)

-- _PATH_CHILD
unfoldable pub match_child : String → Option (Segment × String)
unfolding identifier
match_child [] = none
match_child (c ∷ s) = if is_char b'.' c then named child (identifier s) else none

-- _PATH_DESCENDANT
unfoldable pub match_descendant : String → Option (Segment × String)
unfolding identifier
match_descendant (c ∷ d ∷ s) =
    if is_char b'.' c && is_char b'.' d then named descendant (identifier s) else none
match_descendant _ = none

-- _PATH_WILDCARD
unfoldable pub match_wildcard : String → Option (Segment × String)
match_wildcard (c ∷ d ∷ e ∷ s) =
    if is_char b'[' c && is_char b'*' d && is_char b']' e then some (wildcard, s) else none
match_wildcard _ = none

-- The number that digits stand for.
abbrev pub decimal : ℕ → String → ℕ
decimal acc [] = acc
decimal acc (c ∷ s) = decimal (acc * 10 + (code c - b'0')) s

abbrev pub negated : ℕ → ℤ
negated zero = pos zero
negated (suc n) = negsuc n

abbrev pub closed : (String → ℤ) → String × String → Option (Segment × String)
closed number (digits, []) = none
closed number ([], c ∷ s) = none
closed number (d ∷ ds, c ∷ s) = if is_char b']' c then some (index (number (d ∷ ds)), s) else none

abbrev pub after_bracket : String → Option (Segment × String)
after_bracket [] = none
after_bracket (c ∷ s) =
    if is_char b'-' c
    then closed (λ digits. negated (decimal 0 digits)) (span is_digit s)
    else closed (λ digits. pos (decimal 0 digits)) (span is_digit (c ∷ s))

-- _PATH_INDEX
unfoldable pub match_index : String → Option (Segment × String)
match_index [] = none
match_index (c ∷ s) = if is_char b'[' c then after_bracket s else none

abbrev pub more : Char → Option (String × String) → Option (String × String)
more c none = none
more c (some (name, rest)) = some (c ∷ name, rest)

-- `(.*?)\1\]` behind the quote: up to the first quote with a bracket behind it, on one line.
unfoldable pub until_close : Char → String → Option (String × String)
until_close q [] = none
until_close q (c ∷ []) = none
until_close q (c ∷ d ∷ s) =
    let later = more c (until_close q (d ∷ s)) in
    if code c == code q && is_char b']' d
    then some ("", s)
    else if is_char 10 c
    then none
    else later

-- _PATH_BRACKET
unfoldable pub match_bracket : String → Option (Segment × String)
unfolding until_close
match_bracket (c ∷ q ∷ s) =
    if is_char b'[' c && (is_char 39 q || is_char 34 q) then named child (until_close q s) else none
match_bracket _ = none

abbrev pub or_else :
    Option (Segment × String) → Option (Segment × String) → Option (Segment × String)
or_else (some m) _ = some m
or_else none m = m

-- The first of the five tokens that matches.
unfoldable pub next_segment : String → Option (Segment × String)
unfolding match_descendant match_child match_wildcard match_index match_bracket
next_segment s = or_else (match_descendant s) (
    or_else (match_child s)
      (or_else (match_wildcard s) (or_else (match_index s) (match_bracket s))))

-- _FORBIDDEN_KEYS
abbrev pub is_forbidden : String → Bool
is_forbidden key =
    str_eq key "__proto__"
    || str_eq key "__class__"
    || str_eq key "__dict__"
    || str_eq key "__globals__"
    || str_eq key "__builtins__"
    || str_eq key "__subclasses__"

-- `_reject_forbidden`, where the token has a name
abbrev pub is_rejected : Segment → Bool
is_rejected (child name) = is_forbidden name
is_rejected (descendant name) = is_forbidden name
is_rejected _ = false

abbrev pub is_definite : Segment → Bool
is_definite (child _) = true
is_definite (index _) = true
is_definite _ = false

abbrev pub unsupported : Exc
unsupported = denial "Invalid or unsupported path syntax."

abbrev pub Parsed : Type 0
Parsed = Result (List Segment × Bool)

abbrev pub in_front : Segment → Parsed → Parsed
in_front segment (ok (segments, definite)) =
    ok (segment ∷ᴸ segments, is_definite segment && definite)
in_front segment (raised e) = raised e

abbrev pub go_on : Option (Segment × String) → (String → Parsed) → Parsed
go_on none next = raised unsupported
go_on (some (segment, rest)) next =
    if is_rejected segment
    then raised (denial "Path segment matches a forbidden key.")
    else in_front segment (next rest)

-- The loop over the positions, on fuel.
unfoldable pub parse_segments : ℕ → String → Parsed
unfolding next_segment
parse_segments n [] = ok ([]ᴸ, true)
parse_segments zero (c ∷ s) = raised unsupported
parse_segments (suc n) (c ∷ s) = go_on (next_segment (c ∷ s)) (λ rest. parse_segments n rest)

abbrev pub some_segment : Parsed → Parsed
some_segment (ok ([]ᴸ, definite)) = raised unsupported
some_segment parsed = parsed

-- `_parse_path`. A token takes at least one character, so the length of the text is fuel enough.
unfoldable pub parse_path : Option Value → Parsed
unfolding parse_segments
parse_path (some (str (c ∷ s))) =
    if is_char b'$' c then some_segment (parse_segments (count s) s) else raised unsupported
parse_path _ = raised unsupported
