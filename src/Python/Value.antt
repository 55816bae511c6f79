-- ===== src/Python/Value.antt =====
-- The Python values that pass through the program,
-- as far as it looks into them.
use sapl_python.Prelude.{ℕ, String, Bool, List, [], ◌∷◌, Option, none, some, str_eq, if◌then◌else◌}

-- `negsuc n` is -(n + 1).
pub data ℤ : Type 0 where
  pos : ℕ → ℤ
  negsuc : ℕ → ℤ

-- `float m k` is the finite float m / 2 ^ k. `object` is an instance with attributes, `opaque` one
-- without. A `dict` holds its keys in insertion order.
mutual
  pub data Value : Type 0 where
    null : Value
    bool : Bool → Value
    int : ℤ → Value
    float : ℤ → ℕ → Value
    str : String → Value
    list : Items → Value
    tuple : Items → Value
    dict : Fields → Value
    object : Fields → Value
    opaque : ℕ → Value

  pub data Items : Type 0 where
    nil : Items
    cons : Value → Items → Items

  pub data Fields : Type 0 where
    end : Fields
    field : String → Value → Fields → Fields

abbrev pub items : Items → List Value
items nil = []
items (cons v vs) = v ∷ items vs

-- `raw.get(key)`, with `none` for a missing key.
abbrev pub find : String → Fields → Option Value
find key end = none
find key (field k v rest) = if str_eq k key then some v else find key rest
