-- ===== src/Query/Mongo/Narrowing.antt =====
-- sapl_pymongo/src/sapl_pymongo/providers.py: what a narrowed filter matches.

use sapl_python.Prelude.{
  all-append, ◌≡◌, refl, sym, ◌∙◌, String, Bool, true, false, List, [], ◌∷◌, ◌++◌, arith, ◌&&◌, all,
  Bool-cases, inl, inr,
}
use sapl_python.Python.Value.{Value, null, str, list, dict, Items, end, field, items, pos}
use sapl_python.Python.Compare.{truthy}
use sapl_python.Python.Exception.{Obj, plain}
use sapl_python.Python.Action.{Result, ok}
use sapl_python.Signal.{ScopedHandler, mapper}
use sapl_python.Query.Criteria.{texts}
use sapl_python.Query.Criteria.Meaning.{
  Operator, eq, ne, gt, ge, lt, le, within, like, not_like, is_null, is_not_null, Criteria,
  encode_all, admits_all, all_well_formed, Reading, render_all-encode_all,
}
use sapl_python.Query.Mongo.{
  mongo_query, build_group, build_leaf, merge, narrow, parse_conditions, mongo_db_query_rewriting,
  narrow_handler,
}
use sapl_python.Query.Mongo.Database.{compiled, build_leaf-fits, fits, Matching}

-- A query filter: a document, or None.
abbrev pub is_filter : Value → Bool
is_filter null = true
is_filter (dict _) = true
is_filter _ = false

module _ {R : Type 0} {matches : Value → R → Bool} {holds : String → Operator → Value → R → Bool}
    (matching : Matching matches holds) where
  matches-compiled :
      (k : String) (op : Operator) (v : Value) (r : R)
      → fits k op v ≡ true
      → matches (compiled k op v) r ≡ holds k op v r
  matches-compiled k eq v r h = matching.eq_matches k v r (ground arith) (ground arith)
  matches-compiled k ne v r h = matching.ne_matches k v r (ground arith)
  matches-compiled k gt v r h = matching.gt_matches k v r (ground arith)
  matches-compiled k ge v r h = matching.ge_matches k v r (ground arith)
  matches-compiled k lt v r h = matching.lt_matches k v r (ground arith)
  matches-compiled k le v r h = matching.le_matches k v r (ground arith)
  matches-compiled k within (list vs) r h = matching.in_matches k vs r (ground arith)
  matches-compiled k within v r h = ground arith
  matches-compiled k like v r h = ground arith
  matches-compiled k not_like v r h = ground arith
  matches-compiled k is_null v r h = matching.is_null_matches k v r h
  matches-compiled k is_not_null v r h = matching.is_not_null_matches k v r h

  reading : Reading build_group build_leaf fits matches holds
  reading = record {
    compiled = compiled;
    leaf-fits = build_leaf-fits;
    means-compiled = matches-compiled;
    is_part = λ f. true;
    is_part-compiled = λ k op v h. refl;
    is_part-join = λ junction f fs part parts. refl;
    means-any = λ f fs r part parts. matching.or_matches f fs r;
    means-all = λ f fs r part parts. matching.and_matches f fs r;
  }

  falsy_matches :
      (query : Value) (r : R)
      → is_filter query ≡ true
      → truthy query ≡ false
      → matches query r ≡ true
  falsy_matches null r h k = matching.null_matches r
  falsy_matches (dict end) r h k = matching.empty_matches r
  falsy_matches (dict (field key v fs)) r h k = ground arith
  falsy_matches query r h k = ground arith

  matches-merge :
      (query f : Value) (fs : List Value) (r : R)
      → is_filter query ≡ true
      → matches (merge query f fs) r
        ≡ (matches query r && (matches f r && all (λ v. matches v r) fs))
  unfolding merge
  matches-merge query f [] r h = elim (Bool-cases (truthy query)) [
    | inl t ↦ rw t (matching.and_matches query (f ∷ []) r ∙ ground arith)
    | inr t ↦ let every = falsy_matches query r h t in ground arith
  ]
  matches-merge query f (g ∷ gs) r h = elim (Bool-cases (truthy query)) [
    | inl t ↦ rw t (matching.and_matches query (f ∷ g ∷ gs) r)
    | inr t ↦
        let every = falsy_matches query r h t in
        rw t (matching.and_matches f (g ∷ gs) r ∙ ground arith)
  ]

abbrev pub obligation : Criteria → Items → Value
obligation cs conditions = dict (
    field "type" (str "mongo:queryRewriting")
      (field "criteria" (list (encode_all cs)) (field "conditions" (list conditions) end)))

and_last : (a b c d : Bool) → (a && (b && (c && d))) ≡ (a && ((b && c) && d))
and_last a b c d = ground arith

narrow-merge :
    (loads : String → Result Value) (f : Value) (fs : List Value) (conditions : List String)
    (parsed : List Value) (query : Value)
    → is_filter query ≡ true
    → parse_conditions loads conditions ≡ ok parsed
    → narrow loads (f ∷ fs) conditions query ≡ ok (merge query f (fs ++ parsed))
unfolding narrow
narrow-merge loads f fs conditions parsed null h e = rw e refl
narrow-merge loads f fs conditions parsed (dict fields) h e = rw e refl
narrow-merge loads f fs conditions parsed query h e = ground arith

module _ {R : Type 0} {matches : Value → R → Bool} {holds : String → Operator → Value → R → Bool}
    (matching : Matching matches holds) (loads : String → Result Value) (identity : Obj → Value)
    {W : Type 0} where
  -- An obligation with criteria of well-formed comparisons, and with condition texts that parse, is
  -- claimed by one mapper on the query signal; this makes of a filter one that matches exactly the
  -- documents that the filter matches and that meet every criterion and every parsed condition.
  -- `matching` is MongoDB's documented reading of its query operators.
  pub mongo_db_query_rewriting-narrows :
      (cs : Criteria) (conditions : Items) (parsed : List Value) (query : Value)
      → all_well_formed fits cs ≡ true
      → parse_conditions loads (texts (items conditions)) ≡ ok parsed
      → is_filter query ≡ true
      → (handler : ScopedHandler W) × (mongo_db_query_rewriting loads identity
            (obligation cs conditions)
          ≡ ok (handler ∷ []))
        × (query' : Value) × ((w : W)
            → handler.handler (plain query ∷ []) w ≡ (ok (plain query'), w))
        × ((r : R)
            → matches query' r
              ≡ (matches query r && (admits_all holds cs r && all (λ v. matches v r) parsed)))
  unfolding mongo_db_query_rewriting
  mongo_db_query_rewriting-narrows cs conditions parsed query fit parses filter =
      let (f, fs, rendered, part, parts, some_holds, each_holds) =
        render_all-encode_all (reading matching) cs fit in
      let texts = texts (items conditions) in
      (
        record {
          signal = mongo_query;
          priority = pos 30;
          shape = mapper;
          handler = narrow_handler loads identity (f ∷ fs) texts;
        },
        rw rendered refl,
        merge query f (fs ++ parsed),
        λ w. rw (narrow-merge loads f fs texts parsed query filter parses) refl,
        λ r. rw (matches-merge matching query f (fs ++ parsed) r filter) (
            rw (all-append (λ v. matches v r) fs parsed) (
              rw (sym (each_holds r)) (
                and_last (matches query r) (matches f r) (all (λ v. matches v r) fs)
                  (all (λ v. matches v r) parsed)))),
      )
