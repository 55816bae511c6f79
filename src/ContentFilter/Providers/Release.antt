-- ===== src/ContentFilter/Providers/Release.antt =====
-- content_filter.py: what the predicate handler lets through.
use sapl_python.Prelude.{
  ◌≡◌, refl, String, Bool, true, false, List, [], ◌∷◌, Option, none, some, if◌then◌else◌, ◌⊎◌, inl,
  inr,
}
use sapl_python.Python.Value.{Value, null, list, Items, nil, cons, items}
use sapl_python.Python.Action.{Result, ok, raised, on_ok}
use sapl_python.ContentFilter.Tree.{to_native}
use sapl_python.ContentFilter.Conditions.{evaluate_condition, all_hold, conditions_match}
use sapl_python.ContentFilter.Providers.{keep_items, keep_value}

module _ (re_search : String → String → Option Bool) where
  -- Every condition evaluates to true.
  abbrev pub AllTrue : Value → List Value → Type 0
  AllTrue element [] = Unit {0}
  AllTrue element (c ∷ cs) = (evaluate_condition re_search element c ≡ ok true) × AllTrue element cs

  -- A condition evaluates to false, and those before it to true.
  abbrev pub OneFalse : Value → List Value → Type 0
  OneFalse element [] = ⊥
  OneFalse element (c ∷ cs) =
      (evaluate_condition re_search element c ≡ ok false)
      ⊎ ((evaluate_condition re_search element c ≡ ok true) × OneFalse element cs)

  -- What it is for an element to meet the conditions of a constraint, or to fail them: without
  -- conditions, or with null, every element meets them, and what is no array is neither met nor
  -- failed.
  abbrev pub Meets : Option Value → Value → Type 0
  Meets none element = Unit {0}
  Meets (some null) element = Unit {0}
  Meets (some (list cs)) element = AllTrue element (items cs)
  Meets (some _) element = ⊥

  abbrev pub Fails : Option Value → Value → Type 0
  Fails (some (list cs)) element = OneFalse element (items cs)
  Fails _ element = ⊥

  abbrev Verdict : Option Value → Value → Bool → Type 0
  Verdict conditions element true = Meets conditions element
  Verdict conditions element false = Fails conditions element

  abbrev Held : Value → List Value → Bool → Type 0
  Held element cs true = AllTrue element cs
  Held element cs false = OneFalse element cs

  first-Held :
      (element c : Value) (cs : List Value) (b : Bool) (m rest : Result Bool)
      → evaluate_condition re_search element c ≡ m
      → ((b' : Bool) → rest ≡ ok b' → Held element cs b')
      → on_ok m (λ t. if t then rest else ok false) ≡ ok b
      → Held element (c ∷ cs) b
  first-Held element c cs b (raised e) rest is later h = cc
  first-Held element c cs true (ok false) rest is later h = cc
  first-Held element c cs false (ok false) rest is later h = inl is
  first-Held element c cs true (ok true) rest is later h = (is, later true h)
  first-Held element c cs false (ok true) rest is later h = inr (is, later false h)

  all_hold-Held :
      (element : Value) (cs : List Value) (b : Bool)
      → all_hold re_search element cs ≡ ok b
      → Held element cs b
  unfolding all_hold
  all_hold-Held element [] true h = tt
  all_hold-Held element [] false h = cc
  all_hold-Held element (c ∷ cs) b h =
      first-Held element c cs b (evaluate_condition re_search element c)
        (all_hold re_search element cs) refl (λ b' e. all_hold-Held element cs b' e) h

  as-Verdict :
      (element : Value) (cs : Items) (b : Bool)
      → Held element (items cs) b
      → Verdict (some (list cs)) element b
  as-Verdict element cs true h = h
  as-Verdict element cs false h = h

  conditions_match-Verdict :
      (element : Value) (conditions : Option Value) (b : Bool)
      → conditions_match re_search element conditions ≡ ok b
      → Verdict conditions element b
  unfolding conditions_match
  conditions_match-Verdict element none true h = tt
  conditions_match-Verdict element none false h = cc
  conditions_match-Verdict element (some null) true h = tt
  conditions_match-Verdict element (some null) false h = cc
  conditions_match-Verdict element (some (list cs)) b h =
      as-Verdict element cs b (all_hold-Held element (items cs) b h)
  conditions_match-Verdict element (some v) b h = cc

  module _ (conditions : Option Value) where
    -- `kept` has the elements that meet the conditions, as they are and in their order, and every
    -- other element fails them.
    abbrev pub Kept : Items → Items → Type 0
    Kept nil kept = kept ≡ nil
    Kept (cons v vs) kept =
        (Meets conditions (to_native v) × (rest : Items) × (kept ≡ cons v rest) × Kept vs rest)
        ⊎ (Fails conditions (to_native v) × Kept vs kept)

    kept_first :
        (v : Value) (vs kept : Items) (m : Result Bool) (r : Result Items)
        → conditions_match re_search (to_native v) conditions ≡ m
        → ((rest : Items) → r ≡ ok rest → Kept vs rest)
        → on_ok m (λ b. on_ok r (λ us. ok (if b then cons v us else us))) ≡ ok kept
        → Kept (cons v vs) kept
    kept_first v vs kept (raised e) r is later h = cc
    kept_first v vs kept (ok b) (raised e) is later h = cc
    kept_first v vs kept (ok true) (ok rest) is later h =
        inl (conditions_match-Verdict (to_native v) conditions true is, rest, cc, later rest refl)
    kept_first v vs kept (ok false) (ok rest) is later h =
        inr (conditions_match-Verdict (to_native v) conditions false is, later kept h)

    keep_items-Kept :
        (vs kept : Items) → keep_items re_search conditions vs ≡ ok kept → Kept vs kept
    unfolding keep_items
    keep_items-Kept nil kept h = cc
    keep_items-Kept (cons v vs) kept h =
        kept_first v vs kept (conditions_match re_search (to_native v) conditions)
          (keep_items re_search conditions vs) refl (λ rest e. keep_items-Kept vs rest e) h

    listed :
        (r : Result Items) (vs : Items) (result : Option Value)
        → keep_items re_search conditions vs ≡ r
        → on_ok r (λ kept. ok (some (list kept))) ≡ ok result
        → (kept : Items) × (result ≡ some (list kept)) × Kept vs kept
    listed (raised e) vs result is h = cc
    listed (ok kept) vs result is h = (kept, cc, keep_items-Kept vs kept is)

    -- Where the predicate handler returns of a list, it returns the list of the elements that meet
    -- the conditions, as they are and in their order: each of these meets every condition, and for
    -- each of the others a condition evaluates to false. Conditions that are no array are met by no
    -- element and failed by none, so the handler returns under them only of an empty list.
    pub keep_value-list :
        (vs : Items) (result : Option Value)
        → keep_value re_search conditions (list vs) ≡ ok result
        → (kept : Items) × (result ≡ some (list kept)) × Kept vs kept
    unfolding keep_value
    keep_value-list vs result h = listed (keep_items re_search conditions vs) vs result refl h
