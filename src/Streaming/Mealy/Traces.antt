-- ===== src/Streaming/Mealy/Traces.antt =====
-- mealy.py over whole sequences of events: which items reach the subscriber, and when it
-- ends. The lemmas carry the state from which a run starts.
use sapl_python.Prelude.{
  ◌≡◌, refl, sym, ◌∙◌, ap, Bool, true, false, ◌&&◌, ◌||◌, not, List, [], ◌∷◌, ◌++◌, any, arith,
  if◌then◌else◌,
}
use mathlib.Core.List.{append_assoc}
use sapl_python.Python.Exception.{Obj}
use sapl_python.Streaming.Mealy.{
  State, pending, permitting, terminated, Event, pdp_permit, pdp_suspend, rap_item, emit, step, run,
}
use sapl_python.Streaming.Mealy.Invariants.{ends}

module _ {P : Type 0} where
  -- Whether the latest verb among the events is PERMIT, starting from `b`.
  abbrev pub latest_permits : Bool → List (Event P) → Bool
  latest_permits b [] = b
  latest_permits b (pdp_permit _ _ ∷ es) = latest_permits true es
  latest_permits b (pdp_suspend _ ∷ es) = latest_permits false es
  latest_permits b (_ ∷ es) = latest_permits b es

  -- The history authorizes a value: the latest verb is PERMIT, and nothing ended the subscription.
  abbrev pub authorized : List (Event P) → Bool
  authorized es = not (any ends es) && latest_permits false es

  abbrev is_permitting : State P → Bool
  is_permitting (permitting _) = true
  is_permitting _ = false

  abbrev is_terminated : State P → Bool
  is_terminated terminated = true
  is_terminated _ = false

  pub run-terminated : (es : List (Event P)) → (run terminated es).state ≡ terminated
  unfolding run step
  run-terminated [] = refl
  run-terminated (e ∷ es) = run-terminated es

  run-is_terminated :
      (s : State P) (es : List (Event P))
      → is_terminated (run s es).state ≡ (is_terminated s || any ends es)
  unfolding run step
  run-is_terminated s [] = ground arith
  run-is_terminated s (e ∷ es) = ground (arith, run-is_terminated (step s e).state es)

  run-is_permitting :
      (s : State P) (es : List (Event P))
      → is_permitting (run s es).state
        ≡ (not (is_terminated s || any ends es) && latest_permits (is_permitting s) es)
  unfolding run step
  run-is_permitting s [] = ground arith
  run-is_permitting s (e ∷ es) = ground (arith, run-is_permitting (step s e).state es)

  pub run-append :
      (s : State P) (xs ys : List (Event P))
      → ((run s (xs ++ ys)).state ≡ (run (run s xs).state ys).state)
        × ((run s (xs ++ ys)).emissions
            ≡ (run s xs).emissions ++ (run (run s xs).state ys).emissions)
  unfolding run
  run-append s [] ys = (refl, refl)
  run-append s (e ∷ xs) ys =
      let (same, emitted) = run-append (step s e).state xs ys in
      (
        same,
        ap (λ t. (step s e).emissions ++ t) emitted ∙ sym (append_assoc (step s e).emissions _ _),
      )

  item_of_state :
      (s : State P) (v : Obj)
      → (step s (rap_item v)).emissions ≡ (if is_permitting s then emit v ∷ [] else [])
  unfolding step
  item_of_state s v = ground arith

  -- An item that arrives after `before` is delivered exactly if that history authorizes it, and it
  -- changes nothing else: nothing but the item itself is emitted for it.
  pub item_delivered_iff_authorized :
      (before : List (Event P)) (v : Obj)
      → (step (run pending before).state (rap_item v)).emissions
        ≡ (if authorized before then emit v ∷ [] else [])
  item_delivered_iff_authorized before v =
      ground (arith, item_of_state (run pending before).state v, run-is_permitting pending before)
