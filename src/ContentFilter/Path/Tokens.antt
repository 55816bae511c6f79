-- ===== src/ContentFilter/Path/Tokens.antt =====
-- content_filter.py: the tokens of a path, and the loop over them.
use Prim.Native.Char.{Char}
use Prim.Native.String.{String, [], ◌∷◌, count}
use text.Mathlib.TextLemmas.{length-cons}
use sapl_python.Prelude.{
  ℕ, zero, suc, ◌≤◌, ◌<◌, ◌≡◌, refl, Bool, false, Option, none, some, arith, Option-cases, inl, inr,
}
use sapl_python.Python.Value.{ℤ, pos}
use sapl_python.ContentFilter.Path.{
  negated, decimal, Segment, child, descendant, is_word, is_digit, span, identifier, named,
  match_child, match_descendant, match_wildcard, match_index, match_bracket, closed, after_bracket,
  until_close, next_segment, in_front, parse_segments, is_rejected,
}

abbrev pub remainder : {A : Type 0} → Option (A × String) → ℕ
remainder none = 0
remainder (some (_, rest)) = count rest

count-span : (p : Char → Bool) (s : String) → count (span p s).1 ≤ count s
unfolding span
count-span p [] = omega arith
count-span p (c ∷ s) = ground (arith, count-span p s, length-cons c s)

count-identifier : (s : String) → remainder (identifier s) ≤ count s
unfolding identifier
count-identifier [] = omega arith
count-identifier (c ∷ s) = ground (arith, count-span is_word s, length-cons c s)

count-until_close : (q : Char) (s : String) → remainder (until_close q s) ≤ count s
unfolding until_close
count-until_close q [] = omega arith
count-until_close q (c ∷ []) = omega arith
count-until_close q (c ∷ d ∷ s) =
    ground (arith, count-until_close q (d ∷ s), length-cons c (d ∷ s), length-cons d s)

remainder-named :
    (f : String → Segment) (m : Option (String × String)) → remainder (named f m) ≡ remainder m
remainder-named f m = ground arith

remainder-closed :
    (number : String → ℤ) (m : String × String) → remainder (closed number m) ≤ count m.1
remainder-closed number (digits, []) = omega arith
remainder-closed number ([], c ∷ s) = omega arith
remainder-closed number (d ∷ ds, c ∷ s) = ground (arith, length-cons c s)

child-shorter : (c : Char) (s : String) → remainder (match_child (c ∷ s)) < count (c ∷ s)
unfolding match_child
child-shorter c s =
    ground (arith, remainder-named child (identifier s), count-identifier s, length-cons c s)

descendant-shorter : (c : Char) (s : String) → remainder (match_descendant (c ∷ s)) < count (c ∷ s)
unfolding match_descendant
descendant-shorter c [] = ground (arith, length-cons c [])
descendant-shorter c (d ∷ s) = ground (
  arith,
  remainder-named descendant (identifier s),
  count-identifier s,
  length-cons c (d ∷ s),
  length-cons d s,
)

wildcard-shorter : (c : Char) (s : String) → remainder (match_wildcard (c ∷ s)) < count (c ∷ s)
unfolding match_wildcard
wildcard-shorter c [] = ground (arith, length-cons c [])
wildcard-shorter c (d ∷ []) = ground (arith, length-cons c (d ∷ []))
wildcard-shorter c (d ∷ e ∷ s) =
    ground (arith, length-cons c (d ∷ e ∷ s), length-cons d (e ∷ s), length-cons e s)

after_bracket-le : (s : String) → remainder (after_bracket s) ≤ count s
after_bracket-le [] = omega arith
after_bracket-le (c ∷ s) = ground (
  arith,
  length-cons c s,
  remainder-closed (λ digits. negated (decimal 0 digits)) (span is_digit s),
  remainder-closed (λ digits. pos (decimal 0 digits)) (span is_digit (c ∷ s)),
  count-span is_digit s,
  count-span is_digit (c ∷ s),
)

index-shorter : (c : Char) (s : String) → remainder (match_index (c ∷ s)) < count (c ∷ s)
unfolding match_index
index-shorter c s = ground (arith, after_bracket-le s, length-cons c s)

bracket-shorter : (c : Char) (s : String) → remainder (match_bracket (c ∷ s)) < count (c ∷ s)
unfolding match_bracket
bracket-shorter c [] = ground (arith, length-cons c [])
bracket-shorter c (q ∷ s) = ground (
  arith,
  remainder-named child (until_close q s),
  count-until_close q s,
  length-cons c (q ∷ s),
  length-cons q s,
)

-- A token takes at least one character.
pub next_segment-shorter :
    (c : Char) (s : String) → remainder (next_segment (c ∷ s)) < count (c ∷ s)
unfolding next_segment
next_segment-shorter c s = ground (
  arith,
  child-shorter c s,
  descendant-shorter c s,
  wildcard-shorter c s,
  index-shorter c s,
  bracket-shorter c s,
)

pub segment-shorter :
    (s rest : String) (segment : Segment)
    → next_segment s ≡ some (segment, rest)
    → count rest < count s
unfolding next_segment match_child match_descendant match_wildcard match_index match_bracket
segment-shorter [] rest segment e = ground arith
segment-shorter (c ∷ s) rest segment e = let shorter = next_segment-shorter c s in ground arith

-- The loop does not depend on the fuel, once this is at least the length of the text.
pub parse_segments_fuel :
    (n m : ℕ) (s : String) → count s ≤ n → count s ≤ m → parse_segments n s ≡ parse_segments m s
unfolding parse_segments
parse_segments_fuel zero zero [] h k = refl
parse_segments_fuel zero (suc m) [] h k = refl
parse_segments_fuel (suc n) zero [] h k = refl
parse_segments_fuel (suc n) (suc m) [] h k = refl
parse_segments_fuel zero m (c ∷ s) h k = ground (arith, length-cons c s)
parse_segments_fuel n zero (c ∷ s) h k = ground (arith, length-cons c s)
parse_segments_fuel (suc n) (suc m) (c ∷ s) h k = elim (Option-cases (next_segment (c ∷ s))) [
  | inl e ↦ rw e
  | inr ((segment, rest), e) ↦
      let shorter = next_segment-shorter c s in ground (arith, parse_segments_fuel n m rest)
]

-- A token that names no forbidden key stands in front of what is parsed behind it.
pub parse_segments-next :
    (n : ℕ) (s rest : String) (segment : Segment)
    → count s ≤ n
    → next_segment s ≡ some (segment, rest)
    → is_rejected segment ≡ false
    → parse_segments n s ≡ in_front segment (parse_segments n rest)
unfolding parse_segments next_segment match_child match_descendant match_wildcard match_index
    match_bracket identifier
parse_segments-next n [] rest segment h e k = ground arith
parse_segments-next zero (c ∷ s) rest segment h e k = ground (arith, length-cons c s)
parse_segments-next (suc n) (c ∷ s) rest segment h e k =
    let shorter = next_segment-shorter c s in ground (arith, parse_segments_fuel n (suc n) rest)
