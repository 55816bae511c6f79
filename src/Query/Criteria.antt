-- ===== src/Query/Criteria.antt =====
-- The criteria of a query-rewriting obligation, which the packages for PyMongo, SQLAlchemy and Django
-- walk alike: groups of `or` and `and` over leaves with a column, an operator and a value.
pub mod Meaning
use sapl_python.Prelude.{
  String, Bool, true, false, List, [], ◌∷◌, Option, none, some, str_eq, if◌then◌else◌,
}
use sapl_python.Python.Value.{
  Value, null, bool, int, float, str, list, tuple, dict, object, opaque, Items, nil, cons, Fields,
  end, field, find, items,
}
use sapl_python.Python.Action.{Result, ok, raised, on_ok}

pub data Junction : Type 0 where
  disjunction conjunction : Junction

abbrev pub texts : List Value → List String
texts [] = []
texts (str s ∷ vs) = s ∷ texts vs
texts (_ ∷ vs) = texts vs

-- The list under a key; anything else counts as empty.
abbrev pub array_of : Option Value → Items
array_of (some (list vs)) = vs
array_of _ = nil

abbrev pub is_empty : {A : Type 0} → List A → Bool
is_empty [] = true
is_empty _ = false

abbrev pub no_items : Items → Bool
no_items nil = true
no_items _ = false

-- `constraint.get("type") == name`
abbrev pub is_type : String → Option Value → Bool
is_type name (some (str s)) = str_eq s name
is_type name _ = false

abbrev pub present : {F : Type 0} → Option F → List F → List F
present none rest = rest
present (some f) rest = f ∷ rest

-- `node.get(key)`, if it is a list: what has been made of it.
abbrev pub listed : {A : Type 0} → String → List (String × Option A) → Option A
listed key [] = none
listed key ((k, o) ∷ rest) = if str_eq k key then o else listed key rest

-- `join` makes one fragment of the parts of a group, `leaf` renders a leaf.
module _ {F : Type 0} (join : Junction → F → List F → F) (leaf : Fields → Result (Option F)) where
  -- A group without parts is nothing.
  abbrev pub gathered : Junction → List F → Option F
  gathered j [] = none
  gathered j (f ∷ fs) = some (join j f fs)

  abbrev pub chosen :
      Option (Result (List F)) → Option (Result (List F)) → Result (Option F) → Result (Option F)
  chosen (some parts) _ _ = on_ok parts (λ fs. ok (gathered disjunction fs))
  chosen none (some parts) _ = on_ok parts (λ fs. ok (gathered conjunction fs))
  chosen none none rendered = rendered

  -- A node: `none` where it is left out. The lists of a node are rendered before one of them is
  -- chosen, which makes no difference.
  unfoldable mutual
    pub render : Value → Result (Option F)
    render (dict fs) =
        let parts = rendered_lists fs in chosen (listed "or" parts) (listed "and" parts) (leaf fs)
    render null = ok none
    render (bool _) = ok none
    render (int _) = ok none
    render (float _ _) = ok none
    render (str _) = ok none
    render (list _) = ok none
    render (tuple _) = ok none
    render (object _) = ok none
    render (opaque _) = ok none

    pub render_all : Items → Result (List F)
    render_all nil = ok []
    render_all (cons v vs) = on_ok (render v) λ o. on_ok (render_all vs) λ rest. ok (present o rest)

    pub rendered_lists : Fields → List (String × Option (Result (List F)))
    rendered_lists end = []
    rendered_lists (field k (list vs) fs) = (k, some (render_all vs)) ∷ rendered_lists fs
    rendered_lists (field k v fs) = (k, none) ∷ rendered_lists fs
