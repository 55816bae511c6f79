-- ===== src/Codec/RoundTrip.antt =====
-- sapl_proto_codec.py: what becomes of a value on its way over the wire.
use sapl_python.Prelude.{◌≡◌, refl, ℕ, Bool, true, false, some, not, ◌&&◌, arith}
use sapl_python.Python.Value.{
  ℤ, Value, null, bool, int, float, str, list, tuple, dict, object, opaque, Items, nil, cons,
  Fields, end, field,
}
use sapl_python.Python.Action.{ok}
use sapl_python.Codec.{
  Texts, is_real, python_to_value, to_elements, to_entries, value_to_python, from_elements,
  from_entries,
}

-- Python's texts of numbers, on the integers that `is_short` holds of, whose texts keep to Python's
-- limit on digits, and on the floats that `is_double` holds of, which are floating point numbers in
-- lowest terms: `int` reads what `str` wrote, and an integer's text has neither a point nor an
-- exponent, while a float's `repr` has one of them, and `float` reads it.
pub record Readable (texts : Texts) (is_short : ℤ → Bool) (is_double : ℤ → ℕ → Bool) : Type 0 where
  pub int_text : (z : ℤ) → is_short z ≡ true → is_real (texts.str_int z) ≡ false
  pub int_read : (z : ℤ) → is_short z ≡ true → texts.parse_int (texts.str_int z) ≡ some z
  pub float_text : (z : ℤ) (k : ℕ) → is_double z k ≡ true → is_real (texts.repr_float z k) ≡ true
  pub float_read :
      (z : ℤ) (k : ℕ)
      → is_double z k ≡ true
      → texts.parse_float (texts.repr_float z k) ≡ some (z, k)

-- Whether every number in a value is one of these, and no object in it is a Decimal.
module _ (texts : Texts) (is_short : ℤ → Bool) (is_double : ℤ → ℕ → Bool) where
  unfoldable mutual
    pub is_carried : Value → Bool
    is_carried null = true
    is_carried (bool b) = true
    is_carried (int z) = is_short z
    is_carried (float z k) = is_double z k
    is_carried (str s) = true
    is_carried (list vs) = are_carried vs
    is_carried (tuple vs) = are_carried vs
    is_carried (dict fs) = fields_carried fs
    is_carried (object fs) = true
    is_carried (opaque n) = not (texts.is_decimal n)

    pub are_carried : Items → Bool
    are_carried nil = true
    are_carried (cons v vs) = is_carried v && are_carried vs

    pub fields_carried : Fields → Bool
    fields_carried end = true
    fields_carried (field k v fs) = is_carried v && fields_carried fs

abbrev listed : Items → Value
listed nil = null
listed (cons v vs) = list (cons v vs)

abbrev mapped : Fields → Value
mapped end = null
mapped (field k v fs) = dict (field k v fs)

-- A value as it arrives: an empty container as None, a tuple as a list, and an object of no JSON type
-- as its text.
module _ (texts : Texts) where
  unfoldable mutual
    pub arrived : Value → Value
    arrived null = null
    arrived (bool b) = bool b
    arrived (int z) = int z
    arrived (float z k) = float z k
    arrived (str s) = str s
    arrived (list vs) = listed (arrived_items vs)
    arrived (tuple vs) = listed (arrived_items vs)
    arrived (dict fs) = mapped (arrived_fields fs)
    arrived (object fs) = str (texts.str_object (object fs))
    arrived (opaque n) = str (texts.str_object (opaque n))

    pub arrived_items : Items → Items
    arrived_items nil = nil
    arrived_items (cons v vs) = cons (arrived v) (arrived_items vs)

    pub arrived_fields : Fields → Fields
    arrived_fields end = end
    arrived_fields (field k v fs) = field k (arrived v) (arrived_fields fs)

and_left : (a b : Bool) → (a && b) ≡ true → a ≡ true
and_left a b h = ground arith

and_right : (a b : Bool) → (a && b) ≡ true → b ≡ true
and_right a b h = ground arith

module _ (texts : Texts) {is_short : ℤ → Bool} {is_double : ℤ → ℕ → Bool}
    (readable : Readable texts is_short is_double) where
  abbrev carried : Value → Bool
  carried = is_carried texts is_short is_double

  abbrev items_carried : Items → Bool
  items_carried = are_carried texts is_short is_double

  abbrev entries_carried : Fields → Bool
  entries_carried = fields_carried texts is_short is_double

  mutual
    unfolding python_to_value value_to_python arrived is_carried

    round_trip :
        (v : Value)
        → is_carried texts is_short is_double v ≡ true
        → value_to_python texts (python_to_value texts v) ≡ ok (arrived texts v)
    round_trip null h = refl
    round_trip (bool b) h = refl
    round_trip (int z) h = rw (readable.int_text z h) (rw (readable.int_read z h) refl)
    round_trip (float z k) h = rw (readable.float_text z k h) (rw (readable.float_read z k h) refl)
    round_trip (str s) h = refl
    round_trip (list nil) h = refl
    round_trip (list (cons v vs)) h =
        rw (round_trip v (and_left (carried v) (items_carried vs) h))
          (rw (round_trip_items vs (and_right (carried v) (items_carried vs) h)) refl)
    round_trip (tuple nil) h = refl
    round_trip (tuple (cons v vs)) h =
        rw (round_trip v (and_left (carried v) (items_carried vs) h))
          (rw (round_trip_items vs (and_right (carried v) (items_carried vs) h)) refl)
    round_trip (dict end) h = refl
    round_trip (dict (field k v fs)) h =
        rw (round_trip v (and_left (carried v) (entries_carried fs) h))
          (rw (round_trip_fields fs (and_right (carried v) (entries_carried fs) h)) refl)
    round_trip (object fs) h = refl
    round_trip (opaque n) h = let plain : texts.is_decimal n ≡ false = ground arith in rw plain refl

    round_trip_items :
        (vs : Items)
        → are_carried texts is_short is_double vs ≡ true
        → from_elements texts (to_elements texts vs) ≡ ok (arrived_items texts vs)
    round_trip_items nil h = refl
    round_trip_items (cons v vs) h =
        rw (round_trip v (and_left (carried v) (items_carried vs) h))
          (rw (round_trip_items vs (and_right (carried v) (items_carried vs) h)) refl)

    round_trip_fields :
        (fs : Fields)
        → fields_carried texts is_short is_double fs ≡ true
        → from_entries texts (to_entries texts fs) ≡ ok (arrived_fields texts fs)
    round_trip_fields end h = refl
    round_trip_fields (field k v fs) h =
        rw (round_trip v (and_left (carried v) (entries_carried fs) h))
          (rw (round_trip_fields fs (and_right (carried v) (entries_carried fs) h)) refl)

  -- A value without Decimals, of integers and floats whose texts Python writes and reads, that is
  -- put into a message and read out of it again raises nothing. It comes back as it was, but that
  -- its tuples are lists, that every empty container is None, and that an object of no JSON type is
  -- its text. `readable` is Python's documented behaviour on the texts of numbers.
  pub value_to_python-python_to_value :
      (v : Value)
      → is_carried texts is_short is_double v ≡ true
      → value_to_python texts (python_to_value texts v) ≡ ok (arrived texts v)
  value_to_python-python_to_value v h = round_trip v h
