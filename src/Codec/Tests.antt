-- ===== src/Codec/Tests.antt =====
-- Texts of numbers in the unary system, and the round trip of a value with them.
use Prim.Native.Char.{code}
use Prim.Native.String.{count}
use text.Mathlib.TextLemmas.{length-cons}
use sapl_python.Prelude.{
  ◌≡◌, refl, ap, ◌∙◌, ℕ, zero, suc, ◌==◌, ◌%◌, ◌&&◌, leb, Bool, String, true, false, Option, none,
  some, if◌then◌else◌,
}
use sapl_python.Python.Value.{
  ℤ, pos, negsuc, Value, null, bool, int, str, list, tuple, dict, nil, cons, end, field,
}
use sapl_python.Python.Exception.{other}
use sapl_python.Python.Action.{ok, raised}
use sapl_python.Codec.{Texts, is_real, python_to_value, value_to_python, number_value}
use sapl_python.Codec.RoundTrip.{Readable, is_carried, arrived, value_to_python-python_to_value}

abbrev ones : ℕ → String
ones zero = ""
ones (suc n) = String.◌∷◌ "1" (ones n)

abbrev ones_and : ℕ → ℕ → String
ones_and zero k = String.◌∷◌ "," (ones k)
ones_and (suc n) k = String.◌∷◌ "1" (ones_and n k)

abbrev str_int : ℤ → String
str_int (pos n) = String.◌∷◌ "+" (ones n)
str_int (negsuc n) = String.◌∷◌ "-" (ones n)

abbrev repr_float : ℤ → ℕ → String
repr_float (pos n) k = String.◌∷◌ "." (String.◌∷◌ "+" (ones_and n k))
repr_float (negsuc n) k = String.◌∷◌ "." (String.◌∷◌ "-" (ones_and n k))

abbrev parse_int : String → Option ℤ
parse_int String.[] = none
parse_int (String.◌∷◌ c s) =
    if code c == b'+'
    then some (pos (count s))
    else if code c == b'-'
    then some (negsuc (count s))
    else none

abbrev parts : String → ℕ × ℕ
parts String.[] = (0, 0)
parts (String.◌∷◌ c s) = let (n, k) = parts s in if code c == b',' then (0, count s) else (suc n, k)

abbrev parse_float : String → Option (ℤ × ℕ)
parse_float (String.◌∷◌ c (String.◌∷◌ d s)) =
    let (n, k) = parts s in if code d == b'+' then some (pos n, k) else some (negsuc n, k)
parse_float _ = none

count-ones : (n : ℕ) → count (ones n) ≡ n
count-ones zero = refl
count-ones (suc n) = length-cons "1" (ones n) ∙ ap suc (count-ones n)

parts-ones_and : (n k : ℕ) → parts (ones_and n k) ≡ (n, k)
parts-ones_and zero k = ap (λ m. (0, m)) (count-ones k)
parts-ones_and (suc n) k = ap (λ (m, j). (suc m, j)) (parts-ones_and n k)

is_real-ones : (n : ℕ) → is_real (ones n) ≡ false
is_real-ones zero = refl
is_real-ones (suc n) = is_real-ones n

int_text : (z : ℤ) → is_real (str_int z) ≡ false
int_text (pos n) = is_real-ones n
int_text (negsuc n) = is_real-ones n

int_read : (z : ℤ) → parse_int (str_int z) ≡ some z
int_read (pos n) = ap (λ m. some (pos m)) (count-ones n)
int_read (negsuc n) = ap (λ m. some (negsuc m)) (count-ones n)

float_text : (z : ℤ) (k : ℕ) → is_real (repr_float z k) ≡ true
float_text (pos n) k = refl
float_text (negsuc n) k = refl

float_read : (z : ℤ) (k : ℕ) → parse_float (repr_float z k) ≡ some (z, k)
float_read (pos n) k = ap (λ (m, j). some (pos m, j)) (parts-ones_and n k)
float_read (negsuc n) k = ap (λ (m, j). some (negsuc m, j)) (parts-ones_and n k)

abbrev unary : Texts
unary = record {
  str_int = str_int;
  repr_float = repr_float;
  parse_int = parse_int;
  parse_float = parse_float;
  is_decimal = λ n. false;
  str_object = λ v. "<object>";
}

abbrev is_short : ℤ → Bool
is_short (pos n) = leb n 4299
is_short (negsuc n) = leb n 4298

-- An odd numerator stands for lowest terms.
abbrev is_odd : ℤ → Bool
is_odd (pos n) = n % 2 == 1
is_odd (negsuc n) = n % 2 == 0

abbrev is_double : ℤ → ℕ → Bool
is_double z k = leb k 52 && is_odd z

readable : Readable unary is_short is_double
readable = record {
  int_text = λ z h. int_text z;
  int_read = λ z h. int_read z;
  float_text = λ z k h. float_text z k;
  float_read = λ z k h. float_read z k;
}

abbrev resource : Value
resource = dict (
    field "id" (int (negsuc 4))
      (field "tags" (list nil) (field "pair" (tuple (cons (bool true) (cons (str "x") nil))) end)))

value_to_python-python_to_value_example :
    value_to_python unary (python_to_value unary resource)
    ≡ ok (
        dict (
          field "id"
            (int (negsuc 4))
            (field "tags" null (field "pair" (list (cons (bool true) (cons (str "x") nil))) end))))
unfolding value_to_python arrived is_carried
value_to_python-python_to_value_example =
    value_to_python-python_to_value unary readable resource refl

-- A number that is none makes the decoder raise.
unreadable : value_to_python unary (number_value ".") ≡ raised (other "ValueError")
unfolding value_to_python
unreadable = refl
