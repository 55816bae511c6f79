-- ===== src/ContentFilter/Blacken/Hiding.antt =====
-- content_filter.py, `_blacken_value`: what a blackened text tells.
use Prim.Native.String.{String, ◌++◌, count}
use text.Mathlib.TextLemmas.{length-append, append_assoc, length-eq-zero_iff}
use sapl_python.Prelude.{
  ℕ, ◌≡◌, ◌∙◌, refl, sym, ap, ◌+◌, ◌-◌, ◌*◌, ◌<◌, Option, some, ltb, if◌then◌else◌, arith,
}
use sapl_python.Python.Value.{str, Fields}
use sapl_python.Python.Action.{Result, ok, raised, on_ok}
use sapl_python.Python.Value.{find}
use sapl_python.Python.Text.{take, skip, repeat, take-append, skip-append}
use sapl_python.ContentFilter.Blacken.{
  blacken_text, blacken_value, replacement_string, disclose_count, blacken_length, max_blacken,
  too_large, final_length,
}

-- What is made of a text whose middle is hidden: the middle counts only by its length.
abbrev pub redacted : String → String → ℕ → String → Option ℕ → Result String
redacted left right hidden replacement length =
    let middle = final_length length hidden in
    if ltb max_blacken (count replacement * middle)
    then raised too_large
    else ok (left ++ (repeat middle replacement ++ right))

counted :
    (left hidden right : String)
    → count (left ++ (hidden ++ right)) ≡ count left + (count hidden + count right)
counted left hidden right =
    length-append left (hidden ++ right) ∙ ap (λ n. count left + n) (length-append hidden right)

replaced :
    (left hidden right : String)
    → count (left ++ (hidden ++ right)) - count left - count right ≡ count hidden
replaced left hidden right = omega (arith, counted left hidden right)

left_part :
    (left rest : String)
    → (if ltb 0 (count left) then take (count left) (left ++ rest) else "") ≡ left
left_part left rest = ground (arith, take-append left rest, length-eq-zero_iff {l = left})

right_part :
    (left hidden right : String)
    → (if ltb 0 (count right)
        then skip (count left + count hidden) (left ++ (hidden ++ right))
        else "")
      ≡ right
right_part left hidden right = ground (
  arith,
  skip-append (left ++ hidden) right,
  append_assoc left hidden right,
  length-append left hidden,
  length-eq-zero_iff {l = right},
)

blacken_text-redacted :
    (left hidden right replacement : String) (length : Option ℕ)
    → 0 < count hidden
    → blacken_text (left ++ (hidden ++ right)) replacement (count left) (count right) length
      ≡ redacted left right (count hidden) replacement length
unfolding blacken_text
blacken_text-redacted left hidden right replacement length h =
    let total = counted left hidden right in
    let middle = replaced left hidden right in
    let front = left_part left (hidden ++ right) in
    let back = right_part left hidden right in ground arith

-- An action as its checked parts, applied to a text.
abbrev by_parts : Result String → Result ℕ → Result ℕ → Result (Option ℕ) → String → Result String
by_parts replacement left right length value =
    on_ok replacement
      λ s. on_ok left λ l. on_ok right λ r. on_ok length λ n. blacken_text value s l r n

-- Where the numbers of disclosed characters are as they are, only the texts differ.
by_parts-eq :
    (replacement : Result String) (left right : Result ℕ) (length : Result (Option ℕ)) (l r : ℕ)
    (value value' : String)
    → left ≡ ok l
    → right ≡ ok r
    → ((s : String) (n : Option ℕ)
        → length ≡ ok n
        → blacken_text value s l r n ≡ blacken_text value' s l r n)
    → by_parts replacement left right length value ≡ by_parts replacement left right length value'
by_parts-eq (raised e) left right length l r value value' is_left is_right agree = refl
by_parts-eq (ok s) left right (raised e) l r value value' is_left is_right agree = ground arith
by_parts-eq (ok s) left right (ok n) l r value value' is_left is_right agree =
    let agreed = agree s n refl in ground arith

same_outcome :
    (action : Fields) (left right hidden hidden' : String)
    → disclose_count (find "discloseLeft" action) ≡ ok (count left)
    → disclose_count (find "discloseRight" action) ≡ ok (count right)
    → ((s : String) (n : Option ℕ)
        → blacken_length (find "length" action) ≡ ok n
        → blacken_text (left ++ (hidden ++ right)) s (count left) (count right) n
          ≡ blacken_text (left ++ (hidden' ++ right)) s (count left) (count right) n)
    → blacken_value (str (left ++ (hidden ++ right))) action
      ≡ blacken_value (str (left ++ (hidden' ++ right))) action
unfolding blacken_value
same_outcome action left right hidden hidden' from_left from_right agree =
    by_parts-eq (replacement_string (find "replacement" action))
      (disclose_count (find "discloseLeft" action)) (disclose_count (find "discloseRight" action))
      (blacken_length (find "length" action)) (count left) (count right) (left ++ (hidden ++ right))
      (left ++ (hidden' ++ right)) from_left from_right agree

-- A blackened text tells nothing of what it hides but its length: with the numbers of disclosed
-- characters that the action gives, two texts that agree on these at both ends and hide the same
-- number of characters give the same result, an error included.
pub blacken_value-hides :
    (action : Fields) (left right hidden hidden' : String)
    → disclose_count (find "discloseLeft" action) ≡ ok (count left)
    → disclose_count (find "discloseRight" action) ≡ ok (count right)
    → 0 < count hidden
    → count hidden ≡ count hidden'
    → blacken_value (str (left ++ (hidden ++ right))) action
      ≡ blacken_value (str (left ++ (hidden' ++ right))) action
blacken_value-hides action left right hidden hidden' from_left from_right some_hidden same =
    same_outcome action left right hidden hidden' from_left from_right (λ s n is.
      blacken_text-redacted left hidden right s n some_hidden
      ∙ ap (λ k. redacted left right k s n) same
      ∙ sym (blacken_text-redacted left hidden' right s n (omega arith)))

-- With a length in the action, not even the number of the hidden characters can be told.
blacken_value-hides_length :
    (action : Fields) (n : ℕ) (left right hidden hidden' : String)
    → disclose_count (find "discloseLeft" action) ≡ ok (count left)
    → disclose_count (find "discloseRight" action) ≡ ok (count right)
    → blacken_length (find "length" action) ≡ ok (some n)
    → 0 < count hidden
    → 0 < count hidden'
    → blacken_value (str (left ++ (hidden ++ right))) action
      ≡ blacken_value (str (left ++ (hidden' ++ right))) action
blacken_value-hides_length action n left right hidden hidden' from_left from_right given h h' =
    same_outcome action left right hidden hidden' from_left from_right (λ s m is.
      let fixed : m ≡ some n = ground arith in
      blacken_text-redacted left hidden right s m h
      ∙ ap (λ l. redacted left right (count hidden) s l) fixed
      ∙ ap (λ l. redacted left right (count hidden') s l) (sym fixed)
      ∙ sym (blacken_text-redacted left hidden' right s m h'))
