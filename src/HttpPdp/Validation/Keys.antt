-- ===== src/HttpPdp/Validation/Keys.antt =====
-- http_pdp_client.py, `_reject_duplicate_keys`: which objects it accepts.
use sapl_python.Prelude.{
  ◌≡◌, refl, sym, ap, Bool, true, String, List, [], ◌∷◌, ◌++◌, str_eq, if◌then◌else◌, arith,
  any-append, not, ◌&&◌, eq_iff,
}
use mathlib.Core.List.{append_assoc, append-nil}
use sapl_python.Python.Value.{Value}
use sapl_python.Python.Exception.{other}
use sapl_python.Python.Action.{ok, raised}
use sapl_python.HttpPdp.Validation.{has_key, reject_duplicate_keys, reject_from}

-- Whether no key stands behind itself.
abbrev pub distinct : List (String × Value) → Bool
distinct [] = true
distinct ((key, _) ∷ rest) = not (has_key key rest) && distinct rest

-- Whether no key of the pairs is among those before.
abbrev apart : List (String × Value) → List (String × Value) → Bool
apart result [] = true
apart result ((key, _) ∷ rest) = not (has_key key result) && apart result rest

apart-nil : (pairs : List (String × Value)) → apart [] pairs ≡ true
apart-nil [] = refl
apart-nil (_ ∷ rest) = apart-nil rest

str_eq_comm : (s t : String) → str_eq s t ≡ str_eq t s
str_eq_comm s t = grind (arith, eq_iff s t, eq_iff t s)

apart-append :
    (result : List (String × Value)) (key : String) (value : Value) (pairs : List (String × Value))
    → apart (result ++ (key, value) ∷ []) pairs ≡ (apart result pairs && not (has_key key pairs))
apart-append result key value [] = refl
apart-append result key value ((k, v) ∷ pairs) = ground (
  arith,
  apart-append result key value pairs,
  any-append (λ (j, _). str_eq j k) result ((key, value) ∷ []),
  str_eq_comm key k,
)

reject_from-eq :
    (result pairs : List (String × Value))
    → reject_from result pairs ≡ (
        if apart result pairs && distinct pairs
        then ok (result ++ pairs)
        else raised (other "_DuplicateSubscriptionIdError"))
unfolding reject_from
reject_from-eq result [] = ap ok (sym (append-nil result))
reject_from-eq result ((k, v) ∷ pairs) = grind (
  arith,
  reject_from-eq (result ++ (k, v) ∷ []) pairs,
  apart-append result k v pairs,
  append_assoc result ((k, v) ∷ []) pairs,
)

-- An object whose keys are distinct is taken as it is, in its order; any other raises.
reject_duplicate_keys-eq :
    (pairs : List (String × Value))
    → reject_duplicate_keys pairs
      ≡ (if distinct pairs then ok pairs else raised (other "_DuplicateSubscriptionIdError"))
unfolding reject_duplicate_keys
reject_duplicate_keys-eq pairs = ground (arith, reject_from-eq [] pairs, apart-nil pairs)
