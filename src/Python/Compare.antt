-- ===== src/Python/Compare.antt =====
-- Python's `==` and rich comparisons on values, and `bool(value)`.
use Prim.Native.Nat.{Ordering}
use Prim.Native.String.{compare}
use sapl_python.Prelude.{
  ℕ, suc, ◌+◌, ◌-◌, ◌*◌, ◌^◌, String, Bool, true, false, Option, none, some, str_eq, leb, ◌==◌,
  ◌&&◌, not, if◌then◌else◌,
}
use sapl_python.Python.Value.{
  ℤ, pos, negsuc, Value, null, bool, int, float, str, list, tuple, dict, object, opaque, Items, nil,
  cons, Fields, end, field, find,
}

abbrev pub leb_ℤ : ℤ → ℤ → Bool
leb_ℤ (pos a) (pos b) = leb a b
leb_ℤ (pos a) (negsuc b) = false
leb_ℤ (negsuc a) (pos b) = true
leb_ℤ (negsuc a) (negsuc b) = leb b a

abbrev pub eq_ℤ : ℤ → ℤ → Bool
eq_ℤ a b = leb_ℤ a b && leb_ℤ b a

-- z * 2 ^ k
abbrev scaled : ℤ → ℕ → ℤ
scaled (pos n) k = pos (n * 2 ^ k)
scaled (negsuc n) k = negsuc ((n + 1) * 2 ^ k - 1)

-- The number that a value is, as z / 2 ^ k: a bool is one too.
abbrev pub number : Value → Option (ℤ × ℕ)
number (bool true) = some (pos 1, 0)
number (bool false) = some (pos 0, 0)
number (int z) = some (z, 0)
number (float z k) = some (z, k)
number _ = none

abbrev eq_numbers : ℤ × ℕ → ℤ × ℕ → Bool
eq_numbers (a, k) (b, j) = eq_ℤ (scaled a j) (scaled b k)

abbrev pub same_number : Option (ℤ × ℕ) → Option (ℤ × ℕ) → Bool
same_number (some a) (some b) = eq_numbers a b
same_number _ _ = false

abbrev is_null : Value → Bool
is_null null = true
is_null _ = false

abbrev is_str : String → Value → Bool
is_str s (str t) = str_eq s t
is_str s _ = false

abbrev is_opaque : ℕ → Value → Bool
is_opaque n (opaque m) = n == m
is_opaque n _ = false

abbrev list_of : Value → Option Items
list_of (list ws) = some ws
list_of _ = none

abbrev tuple_of : Value → Option Items
tuple_of (tuple ws) = some ws
tuple_of _ = none

abbrev dict_of : Value → Option Fields
dict_of (dict gs) = some gs
dict_of _ = none

abbrev size : Fields → ℕ
size end = 0
size (field k v rest) = suc (size rest)

abbrev on_items : (Items → Bool) → Option Items → Bool
on_items test none = false
on_items test (some ws) = test ws

abbrev on_fields : (Fields → Bool) → Option Fields → Bool
on_fields test none = false
on_fields test (some gs) = test gs

abbrev on_value : (Value → Bool) → Option Value → Bool
on_value test none = false
on_value test (some w) = test w

-- `v == w`. Two instances with attributes are equal only if they are one object, which no two
-- values here are.
unfoldable mutual
  pub py_eq : Value → Value → Bool
  py_eq null w = is_null w
  py_eq (bool b) w = same_number (number (bool b)) (number w)
  py_eq (int z) w = same_number (number (int z)) (number w)
  py_eq (float z k) w = same_number (number (float z k)) (number w)
  py_eq (str s) w = is_str s w
  py_eq (list vs) w = on_items (λ ws. eq_items vs ws) (list_of w)
  py_eq (tuple vs) w = on_items (λ ws. eq_items vs ws) (tuple_of w)
  py_eq (dict fs) w = on_fields (λ gs. (size fs == size gs) && eq_fields fs gs) (dict_of w)
  py_eq (object fs) w = false
  py_eq (opaque n) w = is_opaque n w

  pub eq_items : Items → Items → Bool
  eq_items nil nil = true
  eq_items (cons v vs) (cons w ws) = py_eq v w && eq_items vs ws
  eq_items nil (cons w ws) = false
  eq_items (cons v vs) nil = false

  pub eq_fields : Fields → Fields → Bool
  eq_fields end gs = true
  eq_fields (field k v fs) gs = on_value (λ w. py_eq v w) (find k gs) && eq_fields fs gs

pub data Comparison : Type 0 where
  lt le ge gt : Comparison

abbrev by_order : Comparison → Ordering → Bool
by_order lt Ordering.lt = true
by_order le Ordering.lt = true
by_order le Ordering.eq = true
by_order ge Ordering.eq = true
by_order ge Ordering.gt = true
by_order gt Ordering.gt = true
by_order _ _ = false

abbrev order_ℤ : ℤ → ℤ → Ordering
order_ℤ a b = if leb_ℤ a b then if leb_ℤ b a then Ordering.eq else Ordering.lt else Ordering.gt

abbrev order_numbers : ℤ × ℕ → ℤ × ℕ → Ordering
order_numbers (a, k) (b, j) = order_ℤ (scaled a j) (scaled b k)

abbrev compare_numbers : Comparison → Option (ℤ × ℕ) → Option (ℤ × ℕ) → Option Bool
compare_numbers op (some a) (some b) = some (by_order op (order_numbers a b))
compare_numbers op _ _ = none

abbrev compare_strs : Comparison → String → Value → Option Bool
compare_strs op s (str t) = some (by_order op (compare s t))
compare_strs op s _ = none

abbrev with_items : (Items → Option Bool) → Option Items → Option Bool
with_items test none = none
with_items test (some ws) = test ws

-- `v < w`, `v <= w`, `v >= w` and `v > w`, with `none` for TypeError. Lists and tuples compare at
-- their first items that differ, and else by their lengths.
unfoldable mutual
  unfolding py_eq

  pub rich_compare : Comparison → Value → Value → Option Bool
  rich_compare op (bool b) w = compare_numbers op (number (bool b)) (number w)
  rich_compare op (int z) w = compare_numbers op (number (int z)) (number w)
  rich_compare op (float z k) w = compare_numbers op (number (float z k)) (number w)
  rich_compare op (str s) w = compare_strs op s w
  rich_compare op (list vs) w = with_items (λ ws. compare_items op vs ws) (list_of w)
  rich_compare op (tuple vs) w = with_items (λ ws. compare_items op vs ws) (tuple_of w)
  rich_compare op _ w = none

  pub compare_items : Comparison → Items → Items → Option Bool
  compare_items op nil nil = some (by_order op Ordering.eq)
  compare_items op nil (cons w ws) = some (by_order op Ordering.lt)
  compare_items op (cons v vs) nil = some (by_order op Ordering.gt)
  compare_items op (cons v vs) (cons w ws) =
      let later = compare_items op vs ws in
      let here = rich_compare op v w in if py_eq v w then later else here

-- `bool(value)`
abbrev pub truthy : Value → Bool
truthy null = false
truthy (bool b) = b
truthy (int z) = not (eq_ℤ z (pos 0))
truthy (float z k) = not (eq_ℤ z (pos 0))
truthy (str s) = not (str_eq s "")
truthy (list nil) = false
truthy (tuple nil) = false
truthy (dict end) = false
truthy _ = true
