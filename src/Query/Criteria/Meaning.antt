-- ===== src/Query/Criteria/Meaning.antt =====
-- What criteria mean, and what a backend has to provide so that the rendered fragments mean it.
use sapl_python.Prelude.{
  ◌≡◌, refl, ap, ◌∙◌, String, Bool, true, false, List, [], ◌∷◌, Option, none, some, arith, ◌&&◌,
  ◌||◌, all, any, str_eq,
}
use sapl_python.Python.Value.{
  Value, null, bool, int, float, str, list, tuple, dict, object, opaque, Items, nil, cons, Fields,
  end, field,
}
use sapl_python.Python.Action.{Result, ok}
use sapl_python.Query.Criteria.{
  Junction, disjunction, conjunction, listed, render, render_all, rendered_lists,
}

pub data Operator : Type 0 where
  eq ne gt ge lt le within like not_like is_null is_not_null : Operator

-- A group has at least one part.
mutual
  pub data Criterion : Type 0 where
    compare : String → Operator → Value → Criterion
    any_of : Criteria → Criterion
    all_of : Criteria → Criterion

  pub data Criteria : Type 0 where
    only : Criterion → Criteria
    also : Criterion → Criteria → Criteria

abbrev pub symbol : Operator → String
symbol eq = "="
symbol ne = "!="
symbol gt = ">"
symbol ge = ">="
symbol lt = "<"
symbol le = "<="
symbol within = "in"
symbol like = "like"
symbol not_like = "notLike"
symbol is_null = "isNull"
symbol is_not_null = "isNotNull"

abbrev pub leaf_fields : String → Operator → Value → Fields
leaf_fields column op v =
    field "column" (str column) (field "op" (str (symbol op)) (field "value" v end))

-- A criterion as it stands in an obligation.
unfoldable mutual
  pub encode : Criterion → Value
  encode (compare column op v) = dict (leaf_fields column op v)
  encode (any_of cs) = dict (field "or" (list (encode_all cs)) end)
  encode (all_of cs) = dict (field "and" (list (encode_all cs)) end)

  pub encode_all : Criteria → Items
  encode_all (only c) = cons (encode c) nil
  encode_all (also c cs) = cons (encode c) (encode_all cs)

-- Whether a row meets a criterion, given what a comparison says of it.
module _ {R : Type 0} (holds : String → Operator → Value → R → Bool) where
  unfoldable mutual
    pub admits : Criterion → R → Bool
    admits (compare column op v) r = holds column op v r
    admits (any_of cs) r = admits_any cs r
    admits (all_of cs) r = admits_all cs r

    pub admits_any : Criteria → R → Bool
    admits_any (only c) r = admits c r
    admits_any (also c cs) r = admits c r || admits_any cs r

    pub admits_all : Criteria → R → Bool
    admits_all (only c) r = admits c r
    admits_all (also c cs) r = admits c r && admits_all cs r

-- Whether the comparisons of a criterion pass a test.
module _ (fits : String → Operator → Value → Bool) where
  unfoldable mutual
    pub well_formed : Criterion → Bool
    well_formed (compare column op v) = fits column op v
    well_formed (any_of cs) = all_well_formed cs
    well_formed (all_of cs) = all_well_formed cs

    pub all_well_formed : Criteria → Bool
    all_well_formed (only c) = well_formed c
    all_well_formed (also c cs) = well_formed c && all_well_formed cs

-- What a backend's fragments mean: `means` says which rows a fragment lets through, and `is_part`
-- which fragments keep their meaning in a group.
pub record Reading {F R : Type 0} (join : Junction → F → List F → F)
    (leaf : Fields → Result (Option F)) (fits : String → Operator → Value → Bool)
    (means : F → R → Bool) (holds : String → Operator → Value → R → Bool) : Type 0 where
  pub compiled : String → Operator → Value → F
  pub leaf-fits :
      (column : String) (op : Operator) (v : Value)
      → fits column op v ≡ true
      → leaf (leaf_fields column op v) ≡ ok (some (compiled column op v))
  pub means-compiled :
      (column : String) (op : Operator) (v : Value) (r : R)
      → fits column op v ≡ true
      → means (compiled column op v) r ≡ holds column op v r
  pub is_part : F → Bool
  pub is_part-compiled :
      (column : String) (op : Operator) (v : Value)
      → fits column op v ≡ true
      → is_part (compiled column op v) ≡ true
  pub is_part-join :
      (junction : Junction) (f : F) (fs : List F)
      → is_part f ≡ true
      → all is_part fs ≡ true
      → is_part (join junction f fs) ≡ true
  pub means-any :
      (f : F) (fs : List F) (r : R)
      → is_part f ≡ true
      → all is_part fs ≡ true
      → means (join disjunction f fs) r ≡ (means f r || any (λ g. means g r) fs)
  pub means-all :
      (f : F) (fs : List F) (r : R)
      → is_part f ≡ true
      → all is_part fs ≡ true
      → means (join conjunction f fs) r ≡ (means f r && all (λ g. means g r) fs)

or_false : (b : Bool) → (b || false) ≡ b
or_false b = ground arith

and_true : (b : Bool) → (b && true) ≡ b
and_true b = ground arith

module _ {F R : Type 0} {join : Junction → F → List F → F} {leaf : Fields → Result (Option F)}
    {fits : String → Operator → Value → Bool} {means : F → R → Bool}
    {holds : String → Operator → Value → R → Bool}
    (reading : Reading join leaf fits means holds) where
  abbrev pub IsRendered : Criterion → Type 0
  IsRendered c =
      (f : F) × (render join leaf (encode c) ≡ ok (some f))
      × (reading.is_part f ≡ true)
      × ((r : R) → means f r ≡ admits holds c r)

  abbrev pub IsRenderedAll : Criteria → Type 0
  IsRenderedAll cs =
      (f : F) × (fs : List F) × (render_all join leaf (encode_all cs) ≡ ok (f ∷ fs))
      × (reading.is_part f ≡ true)
      × (all reading.is_part fs ≡ true)
      × ((r : R) → (means f r || any (λ g. means g r) fs) ≡ admits_any holds cs r)
      × ((r : R) → (means f r && all (λ g. means g r) fs) ≡ admits_all holds cs r)

  no_list :
      (key k : String) (v : Value)
      → str_eq k key ≡ false
      → listed key (rendered_lists join leaf (field k v end)) ≡ none
  unfolding render
  no_list key k null h = rw h refl
  no_list key k (bool b) h = rw h refl
  no_list key k (int z) h = rw h refl
  no_list key k (float z n) h = rw h refl
  no_list key k (str s) h = rw h refl
  no_list key k (list vs) h = rw h refl
  no_list key k (tuple vs) h = rw h refl
  no_list key k (dict fs) h = rw h refl
  no_list key k (object fs) h = rw h refl
  no_list key k (opaque n) h = rw h refl

  render-leaf :
      (column : String) (op : Operator) (v : Value)
      → render join leaf (dict (leaf_fields column op v)) ≡ leaf (leaf_fields column op v)
  unfolding render
  render-leaf column op v =
      rw (no_list "or" "value" v refl) (rw (no_list "and" "value" v refl) refl)

  render-or :
      (vs : Items) (f : F) (fs : List F)
      → render_all join leaf vs ≡ ok (f ∷ fs)
      → render join leaf (dict (field "or" (list vs) end)) ≡ ok (some (join disjunction f fs))
  unfolding render
  render-or vs f fs h = rw h refl

  render-and :
      (vs : Items) (f : F) (fs : List F)
      → render_all join leaf vs ≡ ok (f ∷ fs)
      → render join leaf (dict (field "and" (list vs) end)) ≡ ok (some (join conjunction f fs))
  unfolding render
  render-and vs f fs h = rw h refl

  render_all-one :
      (v : Value) (f : F)
      → render join leaf v ≡ ok (some f)
      → render_all join leaf (cons v nil) ≡ ok (f ∷ [])
  unfolding render
  render_all-one v f h = rw h refl

  render_all-more :
      (v : Value) (vs : Items) (f : F) (fs : List F)
      → render join leaf v ≡ ok (some f)
      → render_all join leaf vs ≡ ok fs
      → render_all join leaf (cons v vs) ≡ ok (f ∷ fs)
  unfolding render
  render_all-more v vs f fs h k = rw h (rw k refl)

  mutual
    unfolding encode admits well_formed

    encode-IsRendered : (c : Criterion) → well_formed fits c ≡ true → IsRendered c
    encode-IsRendered (compare column op v) h = (
      reading.compiled column op v,
      render-leaf column op v ∙ reading.leaf-fits column op v h,
      reading.is_part-compiled column op v h,
      λ r. reading.means-compiled column op v r h,
    )
    encode-IsRendered (any_of cs) h =
        let (f, fs, e, part, parts, some_holds, each_holds) = encode_all-IsRenderedAll cs h in
        (
          join disjunction f fs,
          render-or (encode_all cs) f fs e,
          reading.is_part-join disjunction f fs part parts,
          λ r. reading.means-any f fs r part parts ∙ some_holds r,
        )
    encode-IsRendered (all_of cs) h =
        let (f, fs, e, part, parts, some_holds, each_holds) = encode_all-IsRenderedAll cs h in
        (
          join conjunction f fs,
          render-and (encode_all cs) f fs e,
          reading.is_part-join conjunction f fs part parts,
          λ r. reading.means-all f fs r part parts ∙ each_holds r,
        )

    encode_all-IsRenderedAll : (cs : Criteria) → all_well_formed fits cs ≡ true → IsRenderedAll cs
    encode_all-IsRenderedAll (only c) h =
        let (f, e, part, m) = encode-IsRendered c h in
        (
          f,
          [],
          render_all-one (encode c) f e,
          part,
          refl,
          λ r. or_false (means f r) ∙ m r,
          λ r. and_true (means f r) ∙ m r,
        )
    encode_all-IsRenderedAll (also c cs) h =
        let (f, e, part, m) = encode-IsRendered c (ground arith) in
        let (g, gs, es, part', parts, some_holds, each_holds) =
          encode_all-IsRenderedAll cs (ground arith) in
        (
          f,
          g ∷ gs,
          render_all-more (encode c) (encode_all cs) f (g ∷ gs) e es,
          part,
          rw part' parts,
          λ r. rw (m r) (ap (admits holds c r ||◌) (some_holds r)),
          λ r. rw (m r) (ap (admits holds c r &&◌) (each_holds r)),
        )

  -- The criteria of an obligation are rendered, each for itself, and a row meets all of them exactly
  -- if it meets the fragments.
  pub render_all-encode_all : (cs : Criteria) → all_well_formed fits cs ≡ true → IsRenderedAll cs
  render_all-encode_all cs h = encode_all-IsRenderedAll cs h
