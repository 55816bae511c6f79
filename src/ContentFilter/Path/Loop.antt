-- ===== src/ContentFilter/Path/Loop.antt =====
-- content_filter.py, `_parse_path`: the loop over the tokens, as a relation without a bound.
use Prim.Native.String.{String, [], ◌∷◌, count}
use sapl_python.Prelude.{
  ℕ, zero, suc, ◌≤◌, ◌≡◌, true, false, none, some, arith, Option-cases, Bool-cases, inl, inr,
}
use text.Mathlib.TextLemmas.{length-cons}
use mathlib.Core.List.{[] as []ᴸ}
use sapl_python.Python.Action.{ok, raised}
use sapl_python.ContentFilter.Path.{
  Segment, denial, unsupported, is_rejected, Parsed, in_front, go_on, next_segment, parse_segments,
}
use sapl_python.ContentFilter.Path.Tokens.{next_segment-shorter}

-- The rounds of the loop from a text on, up to its result: the text is at its end, it starts with no
-- token, its token names a forbidden key, or the loop goes on behind the token.
pub data Loops : String → Parsed → Type 0 where
  at_end : Loops "" (ok ([]ᴸ, true))
  no_token : {s : String} → next_segment s ≡ none → Loops s (raised unsupported)
  rejected :
      {s rest : String} {segment : Segment}
      → next_segment s ≡ some (segment, rest)
      → is_rejected segment ≡ true
      → Loops s (raised (denial "Path segment matches a forbidden key."))
  goes_on :
      {s rest : String} {segment : Segment} {parsed : Parsed}
      → next_segment s ≡ some (segment, rest)
      → is_rejected segment ≡ false
      → Loops rest parsed
      → Loops s (in_front segment parsed)

behind_token :
    (s rest : String) (segment : Segment) (parsed : Parsed)
    → next_segment s ≡ some (segment, rest)
    → Loops rest parsed
    → Loops s (go_on (some (segment, rest)) (λ _. parsed))
behind_token s rest segment parsed e loops = elim (Bool-cases (is_rejected segment)) [
  | inl b ↦ rw b (rejected e b)
  | inr b ↦ rw b (goes_on e b loops)
]

enough : (n : ℕ) (s : String) → count s ≤ n → Loops s (parse_segments n s)
unfolding parse_segments
enough zero [] h = at_end
enough (suc n) [] h = at_end
enough zero (c ∷ s) h = ground (arith, length-cons c s)
enough (suc n) (c ∷ s) h = elim (Option-cases (next_segment (c ∷ s))) [
  | inl e ↦ rw e (no_token e)
  | inr ((segment, rest), e) ↦
      let shorter = next_segment-shorter c s in
      rw e
        (behind_token (c ∷ s) rest segment (parse_segments n rest) e (enough n rest (ground arith)))
]

-- The loop of the parser ends on every text, after finitely many rounds of which each takes a token
-- off the text, and the parser's result is the one with which it ends.
pub parse_segments-Loops : (s : String) → Loops s (parse_segments (count s) s)
parse_segments-Loops s = enough (count s) s (omega arith)
