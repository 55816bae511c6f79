-- ===== src/ContentFilter/Slots/Definite.antt =====
-- content_filter.py: the paths that the parser accepts, and definite paths.
use Prim.Native.String.{String, [], ◌∷◌, count}
use sapl_python.Prelude.{
  ℕ, zero, suc, ◌≤◌, ◌≡◌, refl, Bool, true, false, Option, none, some, arith, length, subst,
  Option-cases, inl, inr, not, Bool-cases, all, any, str_eq,
}
use mathlib.Core.List.{List, [] as []ᴸ, ◌∷◌ as ◌∷ᴸ◌}
use sapl_python.Python.Value.{Value, str}
use sapl_python.Python.Action.{ok, raised}
use sapl_python.ContentFilter.Path.{
  Segment, is_char, child, descendant, index, wildcard, is_definite, is_rejected, Parsed, go_on,
  in_front, next_segment, parse_segments, some_segment, parse_path,
}
use sapl_python.ContentFilter.Path.Grammar.{all_definite}
use sapl_python.ContentFilter.Tree.{
  Tree, array, mapping, Key, name, position, named, at_position, in_range, count_trees,
}
use sapl_python.ContentFilter.Slots.{Reached, step_into, last_cell, resolve_slots}

-- The keys into which no path may go, and the key that a segment names.
abbrev pub forbidden_keys : List String
forbidden_keys =
    "__proto__" ∷ᴸ "__class__" ∷ᴸ "__dict__" ∷ᴸ "__globals__" ∷ᴸ "__builtins__" ∷ᴸ "__subclasses__"
    ∷ᴸ []ᴸ

abbrev pub named_key : Segment → Option String
named_key (child key) = some key
named_key (descendant key) = some key
named_key (index i) = none
named_key wildcard = none

-- Whether a segment reaches one place at most.
abbrev pub is_single : Segment → Bool
is_single (child key) = true
is_single (descendant key) = false
is_single (index i) = true
is_single wildcard = false

-- Whether a segment names none of the forbidden keys.
abbrev pub is_harmless : Option String → Bool
is_harmless none = true
is_harmless (some key) = not (any (str_eq key) forbidden_keys)

not_rejected :
    (segment : Segment) → is_rejected segment ≡ false → is_harmless (named_key segment) ≡ true
not_rejected (child key) h = ground arith
not_rejected (descendant key) h = ground arith
not_rejected (index i) h = refl
not_rejected wildcard h = refl

single : (segment : Segment) → is_definite segment ≡ is_single segment
single (child key) = refl
single (descendant key) = refl
single (index i) = refl
single wildcard = refl

abbrev IsSound : Parsed → Type 0
IsSound (raised e) = Unit {0}
IsSound (ok (segments, definite)) =
    (all (λ s. is_harmless (named_key s)) segments ≡ true) × (definite ≡ all is_single segments)

in_front-IsSound :
    (segment : Segment) (parsed : Parsed)
    → is_rejected segment ≡ false
    → IsSound parsed
    → IsSound (in_front segment parsed)
in_front-IsSound segment (raised e) h s = tt
in_front-IsSound segment (ok (segments, definite)) h (s, d) =
    (rw (not_rejected segment h) s, rw (single segment) (ground arith))

go_on-IsSound :
    (m : Option (Segment × String)) (next : String → Parsed)
    → ((rest : String) → IsSound (next rest))
    → IsSound (go_on m next)
go_on-IsSound none next sound = tt
go_on-IsSound (some (segment, rest)) next sound = elim (Bool-cases (is_rejected segment)) [
  | inl e ↦ rw e tt
  | inr e ↦ rw e (in_front-IsSound segment (next rest) e (sound rest))
]

parse_segments-IsSound : (n : ℕ) (s : String) → IsSound (parse_segments n s)
unfolding parse_segments
parse_segments-IsSound zero [] = (refl, refl)
parse_segments-IsSound (suc n) [] = (refl, refl)
parse_segments-IsSound zero (c ∷ s) = tt
parse_segments-IsSound (suc n) (c ∷ s) =
    go_on-IsSound (next_segment (c ∷ s)) (λ rest. parse_segments n rest)
      (λ rest. parse_segments-IsSound n rest)

some_segment-IsSound : (parsed : Parsed) → IsSound parsed → IsSound (some_segment parsed)
some_segment-IsSound (raised e) s = tt
some_segment-IsSound (ok ([]ᴸ, definite)) s = tt
some_segment-IsSound (ok (segment ∷ᴸ segments, definite)) s = s

parse_path-IsSound : (path : Option Value) → IsSound (parse_path path)
unfolding parse_path
parse_path-IsSound (some (str (c ∷ s))) = elim (Bool-cases (is_char b'$' c)) [
  | inl e ↦
      rw e (some_segment-IsSound (parse_segments (count s) s) (parse_segments-IsSound (count s) s))
  | inr e ↦ rw e tt
]
parse_path-IsSound path = tt

-- A path that parses names no forbidden key, neither as a child nor by recursive descent, and it
-- counts as definite exactly if it consists of children and indices.
pub parse_path-ok :
    (path : Option Value) (segments : List Segment) (definite : Bool)
    → parse_path path ≡ ok (segments, definite)
    → (all (λ s. is_harmless (named_key s)) segments ≡ true) × (definite ≡ all is_single segments)
parse_path-ok path segments definite h = subst IsSound h (parse_path-IsSound path)

step_into_definite :
    (segment : Segment) (found : Reached) (t : Tree)
    → is_definite segment ≡ true
    → ((l : ℕ) (key : Key) (next : Tree) → length (found l key next) ≤ 1)
    → length (step_into segment found t) ≤ 1
unfolding step_into
step_into_definite (child key) found (mapping l bs) h few = elim (Option-cases (named key bs)) [
  | inl e ↦ rw e (omega arith)
  | inr (next, e) ↦ rw e (few l (name key) next)
]
step_into_definite (child key) found t h few = omega arith
step_into_definite (index i) found (array l ts) h few =
    elim (Option-cases (at_position (in_range i (count_trees ts)) ts)) [
      | inl e ↦ rw e (omega arith)
      | inr (next, e) ↦ rw e (few l (position i) next)
    ]
step_into_definite (index i) found t h few = omega arith
step_into_definite (descendant key) found t h few = ground arith
step_into_definite wildcard found t h few = ground arith

-- A definite path reaches at most one cell.
pub resolve_slots_definite :
    (segments : List Segment) (t : Tree)
    → all_definite segments ≡ true
    → length (resolve_slots segments t) ≤ 1
unfolding resolve_slots
resolve_slots_definite []ᴸ t h = omega arith
resolve_slots_definite (segment ∷ᴸ []ᴸ) t h =
    step_into_definite segment last_cell t (ground arith) (λ l key next. omega arith)
resolve_slots_definite (segment ∷ᴸ next ∷ᴸ segments) t h =
    step_into_definite segment (λ l key t'. resolve_slots (next ∷ᴸ segments) t') t (ground arith)
      (λ l key t'. resolve_slots_definite (next ∷ᴸ segments) t' (ground arith))
