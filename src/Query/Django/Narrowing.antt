-- ===== src/Query/Django/Narrowing.antt =====
-- sapl_django/src/sapl_django/orm_providers.py: the rows that a rewritten query selects.

use sapl_python.Prelude.{
  and_shift, ◌≡◌, refl, ap, sym, ◌∙◌, String, Bool, true, false, List, [], ◌∷◌, Option, none, some,
  arith, ◌&&◌, ◌||◌, all, any, not, Bool-cases, inl, inr,
}
use sapl_python.Python.Value.{Value, Items, items, pos}
use sapl_python.Python.Exception.{Obj}
use sapl_python.Python.Action.{Result, ok}
use sapl_python.Signal.{ScopedHandler, mapper}
use sapl_python.Query.Criteria.{Junction, disjunction, conjunction, texts}
use sapl_python.Query.Criteria.Meaning.{
  Operator, eq, ne, gt, ge, lt, le, within, like, not_like, is_null, is_not_null, Criteria,
  encode_all, admits_all, all_well_formed, Reading, render_all-encode_all,
}
use sapl_python.Query.Sql.Database.{fits}
use sapl_python.Query.Sql.Narrowing.{obligation, some_item}
use sapl_python.Query.Django.{
  Django, django_query, combine, render_leaf, build_predicate, with_extra, kept, loaded,
  with_projection, rewrite_target, model_has_all, rewrite_model, rewrite, rewrite_handler,
  either_columns, criteria_columns, django_query_rewriting,
}
use sapl_python.Query.Django.Database.{compiled, render_leaf-fits, Execution}

-- The columns by which the provider chooses the queries of an obligation.
abbrev pub target_columns : Criteria → Items → List String
target_columns cs columns =
    either_columns (criteria_columns (encode_all cs)) (texts (items columns))

-- Whether a query of a model is one that the obligation is about.
abbrev pub targets : {Q Model : Type 0} → Django Q Model → Option Model → List String → Bool
targets django none columns = false
targets django (some model) columns = model_has_all django model columns

and_true : (a : Bool) → a ≡ (a && true)
and_true a = ground arith

and_left : (a b : Bool) → (a && b) ≡ true → a ≡ true
and_left a b h = ground arith

and_right : (a b : Bool) → (a && b) ≡ true → b ≡ true
and_right a b h = ground arith

or_shift : (a b c : Bool) → ((a || b) || c) ≡ (a || (b || c))
or_shift a b c = ground arith

module _ {Q Model R : Type 0} {django : Django Q Model} {means : Q → R → Bool}
    {raw : String → R → Bool} {is_single : String → Bool} {is_flat : Q → Bool}
    {is_plain : Obj → Bool} {selects : Obj → R → Bool}
    {holds : String → Operator → Value → R → Bool}
    (execution : Execution django means raw is_single is_flat is_plain selects holds) where
  -- A well-formed comparison of a column with one value.
  abbrev fits_single : String → Operator → Value → Bool
  fits_single k op v = is_single k && fits k op v

  means-compiled :
      (k : String) (op : Operator) (v : Value) (r : R)
      → fits k op v ≡ true
      → means (compiled django k op v) r ≡ holds k op v r
  means-compiled k eq v r h = execution.eq_means k v r
  means-compiled k ne v r h = execution.ne_means k v r
  means-compiled k gt v r h = execution.gt_means k v r
  means-compiled k ge v r h = execution.ge_means k v r
  means-compiled k lt v r h = execution.lt_means k v r
  means-compiled k le v r h = execution.le_means k v r
  means-compiled k within v r h = execution.in_means k v r
  means-compiled k like v r h = execution.like_means k v r
  means-compiled k not_like v r h = execution.not_like_means k v r
  means-compiled k is_null v r h = execution.is_null_means k v r
  means-compiled k is_not_null v r h = execution.is_not_null_means k v r

  is_flat-combine :
      (junction : Junction) (q : Q) (qs : List Q)
      → is_flat q ≡ true
      → all is_flat qs ≡ true
      → is_flat (combine django junction q qs) ≡ true
  is_flat-combine junction q [] h hs = h
  is_flat-combine disjunction q (p ∷ qs) h hs =
      is_flat-combine disjunction (django.or_ q p) qs
        (execution.or_flat q p h (and_left (is_flat p) (all is_flat qs) hs))
        (and_right (is_flat p) (all is_flat qs) hs)
  is_flat-combine conjunction q (p ∷ qs) h hs =
      is_flat-combine conjunction (django.and_ q p) qs
        (execution.and_flat q p h (and_left (is_flat p) (all is_flat qs) hs))
        (and_right (is_flat p) (all is_flat qs) hs)

  means-any :
      (q : Q) (qs : List Q) (r : R)
      → is_flat q ≡ true
      → all is_flat qs ≡ true
      → means (combine django disjunction q qs) r ≡ (means q r || any (λ p. means p r) qs)
  means-any q [] r h hs = ground arith
  means-any q (p ∷ qs) r h hs =
      let flat = and_left (is_flat p) (all is_flat qs) hs in
      means-any (django.or_ q p) qs r (execution.or_flat q p h flat)
        (and_right (is_flat p) (all is_flat qs) hs)
      ∙ ap (◌|| any (λ p. means p r) qs) (execution.or_means q p r h flat)
      ∙ or_shift (means q r) (means p r) (any (λ p. means p r) qs)

  means-all :
      (q : Q) (qs : List Q) (r : R)
      → is_flat q ≡ true
      → all is_flat qs ≡ true
      → means (combine django conjunction q qs) r ≡ (means q r && all (λ p. means p r) qs)
  means-all q [] r h hs = and_true (means q r)
  means-all q (p ∷ qs) r h hs =
      let flat = and_left (is_flat p) (all is_flat qs) hs in
      means-all (django.and_ q p) qs r (execution.and_flat q p h flat)
        (and_right (is_flat p) (all is_flat qs) hs)
      ∙ ap (◌&& all (λ p. means p r) qs) (execution.and_means q p r h flat)
      ∙ sym (and_shift (means q r) (means p r) (all (λ p. means p r) qs))

  reading : Reading (combine django) (render_leaf django) fits_single means holds
  reading = record {
    compiled = compiled django;
    leaf-fits =
        λ k op v h. render_leaf-fits django k op v (and_right (is_single k) (fits k op v) h);
    means-compiled =
        λ k op v r h. means-compiled k op v r (and_right (is_single k) (fits k op v) h);
    is_part = is_flat;
    is_part-compiled =
        λ k op v h. execution.compiled_flat k op v (and_left (is_single k) (fits k op v) h);
    is_part-join = is_flat-combine;
    means-any = means-any;
    means-all = means-all;
  }

  extra-selects :
      (conditions : List String) (s : Obj) (r : R)
      → is_plain s ≡ true
      → selects (with_extra django conditions s) r ≡ (selects s r && all (λ t. raw t r) conditions)
  extra-selects [] s r h = and_true (selects s r)
  extra-selects (t ∷ ts) s r h = execution.add_extra_selects (t ∷ ts) s r h

  extra-is_plain :
      (conditions : List String) (s : Obj)
      → is_plain s ≡ true
      → is_plain (with_extra django conditions s) ≡ true
  extra-is_plain [] s h = h
  extra-is_plain (t ∷ ts) s h = execution.add_extra_plain (t ∷ ts) s h

  loaded-selects :
      (columns : List String) (s : Obj) (r : R)
      → is_plain s ≡ true
      → selects (loaded django columns s) r ≡ selects s r
  loaded-selects [] s r h = refl
  loaded-selects (c ∷ cs) s r h = execution.loading_selects (c ∷ cs) s r h

  projection-selects :
      (model : Model) (columns : List String) (s : Obj) (r : R)
      → is_plain s ≡ true
      → selects (with_projection django model columns s) r ≡ selects s r
  projection-selects model columns s r h = elim (Bool-cases (django.accepts_projection s)) [
    | inl e ↦ rw e (loaded-selects (kept django model columns) s r h)
    | inr e ↦ rw e refl
  ]

  abbrev Narrowed : Bool → Criteria → List String → Obj → Result Obj → Type 0
  Narrowed target cs conditions query x =
      (query' : Obj) × (x ≡ ok query')
      × ((r : R)
          → selects query' r ≡ (
              selects query r
              && (not target || (admits_all holds cs r && all (λ t. raw t r) conditions))))

  target-Narrowed :
      (model : Model) (query : Obj) (cs : Criteria) (conditions columns : List String)
      → all_well_formed fits_single cs ≡ true
      → is_plain query ≡ true
      → Narrowed true cs conditions query
          (rewrite_target django model query (encode_all cs) conditions columns)
  unfolding rewrite_target build_predicate reading
  target-Narrowed model query cs conditions columns fit plain =
      let (q, qs, rendered, part, parts, some_holds, each_holds) =
        render_all-encode_all reading cs fit in
      let p = combine django conjunction q qs in
      let narrowed = django.add_q p (django.clone query) in
      let extended = with_extra django conditions narrowed in
      let cloned = execution.clone_plain query plain in
      let still_plain = execution.add_q_plain p (django.clone query) cloned in
      (
        with_projection django model columns extended,
        rw rendered refl,
        λ r.
            projection-selects model columns extended r
              (extra-is_plain conditions narrowed still_plain)
            ∙ extra-selects conditions narrowed r still_plain
            ∙ ap (◌&& all (λ t. raw t r) conditions) (
                execution.add_q_selects p (django.clone query) r cloned
                  (is_flat-combine conjunction q qs part parts)
                ∙ ap (◌&& means p r) (execution.clone_selects query r)
                ∙ ap (selects query r &&◌) (means-all q qs r part parts ∙ each_holds r))
            ∙ sym (
                and_shift (selects query r) (admits_all holds cs r)
                  (all (λ t. raw t r) conditions)),
      )

  passed-Narrowed :
      (query : Obj) (cs : Criteria) (conditions : List String)
      → Narrowed false cs conditions query (ok query)
  passed-Narrowed query cs conditions = (query, refl, λ r. and_true (selects query r))

  model-Narrowed :
      (model : Option Model) (query : Obj) (cs : Criteria) (conditions columns chosen : List String)
      → all_well_formed fits_single cs ≡ true
      → django.combinator query ≡ false
      → is_plain query ≡ true
      → Narrowed
          (targets django model chosen)
          cs
          conditions
          query
          (rewrite_model django model query (encode_all cs) conditions columns chosen)
  model-Narrowed none query cs conditions columns chosen fit no_union plain =
      passed-Narrowed query cs conditions
  model-Narrowed (some model) query cs conditions columns chosen fit no_union plain =
      elim (Bool-cases (model_has_all django model chosen)) [
        | inl e ↦ rw e (
            rw (some_item cs)
              (rw no_union (target-Narrowed model query cs conditions columns fit plain)))
        | inr e ↦ rw e (passed-Narrowed query cs conditions)
      ]

  -- An obligation with criteria of well-formed comparisons, on columns that have one value in a row,
  -- is claimed by one mapper on the query signal. Of a plain query that is no set operation, it makes
  -- one that selects the same rows, if the query's model has not all the columns that the criteria
  -- name; else exactly those of the rows that meet every criterion and every condition text.
  -- `execution` is Django's reading of lookups and of its Query class by a database.
  pub django_query_rewriting-narrows :
      {W : Type 0} (cs : Criteria) (conditions columns : Items) (query : Obj)
      → all_well_formed fits_single cs ≡ true
      → django.combinator query ≡ false
      → is_plain query ≡ true
      → (handler : ScopedHandler W) × (django_query_rewriting django
            (obligation cs conditions columns)
          ≡ ok (handler ∷ []))
        × (query' : Obj) × ((w : W) → handler.handler (query ∷ []) w ≡ (ok query', w))
        × ((r : R)
            → selects query' r ≡ (
                selects query r
                && (not (targets django (django.model query) (target_columns cs columns))
                    || (admits_all holds cs r && all (λ t. raw t r) (texts (items conditions))))))
  unfolding django_query_rewriting rewrite
  django_query_rewriting-narrows cs conditions columns query fit no_union plain =
      let (query', rewritten, selected) =
        model-Narrowed (django.model query) query cs (texts (items conditions))
          (texts (items columns)) (target_columns cs columns) fit no_union plain in
      (
        record {
          signal = django_query;
          priority = pos 30;
          shape = mapper;
          handler =
              rewrite_handler django (encode_all cs) (texts (items conditions))
                (texts (items columns));
        },
        rw (some_item cs) refl,
        query',
        λ w. rw rewritten refl,
        selected,
      )
