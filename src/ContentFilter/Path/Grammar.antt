-- ===== src/ContentFilter/Path/Grammar.antt =====
-- content_filter.py, `_parse_path` against the grammar of paths: how a path is written, and what
-- its segments mean.
use Prim.Native.Char.{Char, code}
use Prim.Native.String.{String, [], ◌∷◌, count}
use sapl_python.Prelude.{
  ℕ, zero, suc, ◌≤◌, ◌≡◌, refl, Bool, true, false, none, some, arith, ap, ◌∙◌, ◌==◌, ◌&&◌, ◌||◌,
  not,
}
use mathlib.Core.List.{List, [] as []ᴸ, ◌∷◌ as ◌∷ᴸ◌}
use sapl_python.Python.Value.{str, pos}
use sapl_python.Python.Action.{ok}
use sapl_python.ContentFilter.Path.Tokens.{segment-shorter, parse_segments-next}
use sapl_python.ContentFilter.Path.{
  Segment, child, descendant, index, wildcard, is_char, is_letter, is_word, is_digit, span,
  identifier, match_child, match_descendant, match_wildcard, match_index, match_bracket,
  until_close, next_segment, parse_segments, parse_path, is_rejected, is_definite, negated, decimal,
  is_forbidden, in_front,
}

-- A segment as it is written: `.name`, `..name`, `[*]`, an index with or without a sign, and a name
-- in single or double quotes.
pub data Written : Type 0 where
  dotted : String → Written
  deep : String → Written
  star : Written
  at : Bool → String → Written
  quoted : Bool → String → Written

abbrev prepend : String → String → String
prepend [] rest = rest
prepend (c ∷ s) rest = c ∷ prepend s rest

abbrev quote : Bool → Char
quote true = "'"
quote false = "\""

abbrev sign : Bool → String → String
sign true rest = "-" ∷ rest
sign false rest = rest

abbrev pub write : Written → String → String
write (dotted name) rest = "." ∷ prepend name rest
write (deep name) rest = "." ∷ "." ∷ prepend name rest
write star rest = "[" ∷ "*" ∷ "]" ∷ rest
write (at negative digits) rest = "[" ∷ sign negative (prepend digits ("]" ∷ rest))
write (quoted single name) rest = "[" ∷ quote single ∷ prepend name (quote single ∷ "]" ∷ rest)

abbrev pub write_all : List Written → String
write_all []ᴸ = []
write_all (w ∷ᴸ ws) = write w (write_all ws)

abbrev pub meaning : Written → Segment
meaning (dotted name) = child name
meaning (deep name) = descendant name
meaning star = wildcard
meaning (at true digits) = index (negated (decimal 0 digits))
meaning (at false digits) = index (pos (decimal 0 digits))
meaning (quoted _ name) = child name

abbrev every : (Char → Bool) → String → Bool
every p [] = true
every p (c ∷ s) = p c && every p s

abbrev is_identifier : String → Bool
is_identifier [] = false
is_identifier (c ∷ s) = is_letter c && every is_word s

abbrev is_number : String → Bool
is_number [] = false
is_number (c ∷ s) = is_digit c && every is_digit s

-- A well-formed segment that names no forbidden key.
abbrev pub is_written : Written → Bool
is_written (dotted name) = is_identifier name && not (is_forbidden name)
is_written (deep name) = is_identifier name && not (is_forbidden name)
is_written star = true
is_written (at _ digits) = is_number digits
is_written (quoted single name) =
    every (λ c. not (code c == code (quote single)) && not (is_char 10 c)) name
    && not (is_forbidden name)

abbrev ends : (Char → Bool) → String → Bool
ends p [] = true
ends p (c ∷ s) = not (p c)

span-prepend :
    (p : Char → Bool) (name rest : String)
    → every p name ≡ true
    → ends p rest ≡ true
    → span p (prepend name rest) ≡ (name, rest)
unfolding span
span-prepend p [] [] h k = refl
span-prepend p [] (c ∷ rest) h k = ground arith
span-prepend p (c ∷ name) rest h k = ground (arith, span-prepend p name rest)

until_close-prepend :
    (single : Bool) (name rest : String)
    → every (λ c. not (code c == code (quote single)) && not (is_char 10 c)) name ≡ true
    → until_close (quote single) (prepend name (quote single ∷ "]" ∷ rest)) ≡ some (name, rest)
unfolding until_close
until_close-prepend true [] rest h = refl
until_close-prepend false [] rest h = refl
until_close-prepend true (c ∷ []) rest h = ground arith
until_close-prepend false (c ∷ []) rest h = ground arith
until_close-prepend single (c ∷ d ∷ name) rest h =
    ground (arith, until_close-prepend single (d ∷ name) rest)

-- What stands behind a segment: the end of the path, or a dot or a bracket.
abbrev is_break : String → Bool
is_break [] = true
is_break (c ∷ s) = is_char b'.' c || is_char b'[' c

ends_of_break : (rest : String) → is_break rest ≡ true → ends is_word rest ≡ true
ends_of_break [] h = refl
ends_of_break (c ∷ s) h = ground arith

not_sign : (c : Char) → is_digit c ≡ true → is_char b'-' c ≡ false
not_sign c h = ground arith

index_unsigned :
    (c : Char) (digits rest : String)
    → is_number (c ∷ digits) ≡ true
    → match_index ("[" ∷ c ∷ prepend digits ("]" ∷ rest))
      ≡ some (index (pos (decimal 0 (c ∷ digits))), rest)
unfolding match_index
index_unsigned c digits rest h =
    let digit : is_digit c ≡ true = ground arith in
    rw (not_sign c digit) (rw (span-prepend is_digit (c ∷ digits) ("]" ∷ rest) h refl) refl)

not_wildcard :
    (c : Char) (rest : String) → is_digit c ≡ true → match_wildcard ("[" ∷ c ∷ rest) ≡ none
unfolding match_wildcard
not_wildcard c [] h = refl
not_wildcard c (d ∷ rest) h = ground arith

no_wildcard : (single : Bool) (rest : String) → match_wildcard ("[" ∷ quote single ∷ rest) ≡ none
unfolding match_wildcard
no_wildcard true [] = refl
no_wildcard true (d ∷ rest) = refl
no_wildcard false [] = refl
no_wildcard false (d ∷ rest) = refl

no_index : (single : Bool) (rest : String) → match_index ("[" ∷ quote single ∷ rest) ≡ none
unfolding match_index span
no_index true rest = refl
no_index false rest = refl

next_segment-write :
    (w : Written) (rest : String)
    → is_written w ≡ true
    → is_break rest ≡ true
    → next_segment (write w rest) ≡ some (meaning w, rest)
unfolding next_segment match_child match_descendant match_wildcard match_index match_bracket
    identifier
next_segment-write (dotted []) rest h k = ground arith
next_segment-write (dotted (c ∷ name)) rest h k =
    ground (arith, span-prepend is_word name rest, ends_of_break rest)
next_segment-write (deep []) rest h k = ground arith
next_segment-write (deep (c ∷ name)) rest h k =
    ground (arith, span-prepend is_word name rest, ends_of_break rest)
next_segment-write star rest h k = refl
next_segment-write (at negative []) rest h k = ground arith
next_segment-write (at true (c ∷ digits)) rest h k =
    ground (arith, span-prepend is_digit (c ∷ digits) ("]" ∷ rest))
next_segment-write (at false (c ∷ digits)) rest h k =
    let digit : is_digit c ≡ true = ground arith in
    rw (not_wildcard c (prepend digits ("]" ∷ rest)) digit)
      (rw (index_unsigned c digits rest h) refl)
next_segment-write (quoted true name) rest h k =
    let text = prepend name (quote true ∷ "]" ∷ rest) in
    let named = until_close-prepend true name rest (ground arith) in
    ground (arith, no_wildcard true text, no_index true text)
next_segment-write (quoted false name) rest h k =
    let text = prepend name (quote false ∷ "]" ∷ rest) in
    let named = until_close-prepend false name rest (ground arith) in
    ground (arith, no_wildcard false text, no_index false text)

write_all-break : (ws : List Written) → is_break (write_all ws) ≡ true
write_all-break []ᴸ = refl
write_all-break (dotted name ∷ᴸ ws) = refl
write_all-break (deep name ∷ᴸ ws) = refl
write_all-break (star ∷ᴸ ws) = refl
write_all-break (at negative digits ∷ᴸ ws) = refl
write_all-break (quoted single name ∷ᴸ ws) = refl

abbrev pub meanings : List Written → List Segment
meanings []ᴸ = []ᴸ
meanings (w ∷ᴸ ws) = meaning w ∷ᴸ meanings ws

abbrev pub all_definite : List Segment → Bool
all_definite []ᴸ = true
all_definite (segment ∷ᴸ segments) = is_definite segment && all_definite segments

abbrev pub all_written : List Written → Bool
all_written []ᴸ = true
all_written (w ∷ᴸ ws) = is_written w && all_written ws

not_rejected : (w : Written) → is_written w ≡ true → is_rejected (meaning w) ≡ false
not_rejected (dotted name) h = ground arith
not_rejected (deep name) h = ground arith
not_rejected star h = refl
not_rejected (at true digits) h = refl
not_rejected (at false digits) h = refl
not_rejected (quoted single name) h = ground arith

parse_segments-write_all :
    (n : ℕ) (ws : List Written)
    → count (write_all ws) ≤ n
    → all_written ws ≡ true
    → parse_segments n (write_all ws) ≡ ok (meanings ws, all_definite (meanings ws))
unfolding parse_segments
parse_segments-write_all zero []ᴸ h k = refl
parse_segments-write_all (suc n) []ᴸ h k = refl
parse_segments-write_all n (w ∷ᴸ ws) h k =
    let written : is_written w ≡ true = ground arith in
    let token = next_segment-write w (write_all ws) written (write_all-break ws) in
    let shorter = segment-shorter (write w (write_all ws)) (write_all ws) (meaning w) token in
    parse_segments-next n (write w (write_all ws)) (write_all ws) (meaning w) h token
      (not_rejected w written)
    ∙ ap (in_front (meaning w)) (parse_segments-write_all n ws (omega arith) (ground arith))

-- Writing a path and parsing it gives its segments back, and whether it is definite: for every
-- sequence of at least one well-formed segment that names no forbidden key.
pub parse_path-write :
    (w : Written) (ws : List Written)
    → all_written (w ∷ᴸ ws) ≡ true
    → parse_path (some (str ("$" ∷ write_all (w ∷ᴸ ws))))
      ≡ ok (meanings (w ∷ᴸ ws), all_definite (meanings (w ∷ᴸ ws)))
unfolding parse_path
parse_path-write w ws h =
    ground (arith, parse_segments-write_all (count (write_all (w ∷ᴸ ws))) (w ∷ᴸ ws))
