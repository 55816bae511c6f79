-- ===== src/HttpPdp/Validation/Verbs.antt =====
-- http_pdp_client.py: which verb a response has.
use sapl_python.Prelude.{◌≡◌, ◌≢◌, ◌↔◌, refl, ap, String, Option, none, some, arith, eq_iff}
use sapl_python.Python.Value.{Value, str, dict}
use sapl_python.Python.Exception.{
  Decision, permit, deny, indeterminate, not_applicable, suspend, value,
}
use sapl_python.Python.Value.{find}
use sapl_python.HttpPdp.Validation.{verb_of, parsed_verb, validate_decision}

-- The verb that a response names.
abbrev pub named_verb : Value → Option Value
named_verb (dict raw) = find "decision" raw
named_verb _ = none

verb_of-value : (v : Decision) → verb_of (value v) ≡ some v
unfolding verb_of
verb_of-value permit = refl
verb_of-value deny = refl
verb_of-value indeterminate = refl
verb_of-value not_applicable = refl
verb_of-value suspend = refl

value-verb_of : (s : String) (v : Decision) → verb_of s ≡ some v → s ≡ value v
unfolding verb_of
value-verb_of s v h = grind (
  arith,
  eq_iff s "PERMIT",
  eq_iff s "DENY",
  eq_iff s "INDETERMINATE",
  eq_iff s "NOT_APPLICABLE",
  eq_iff s "SUSPEND",
)

parsed_verb-str :
    (o : Option Value) (v : Decision) → parsed_verb o ≡ some v → o ≡ some (str (value v))
parsed_verb-str (some (str s)) v h = ap (λ t. some (str t)) (value-verb_of s v h)
parsed_verb-str o v h = ground arith

-- Any verb but INDETERMINATE comes only from a JSON object whose field `decision` is exactly that
-- verb's text, and such an object always has the verb.
pub verb-validate_decision :
    (raw : Value) (v : Decision)
    → v ≢ indeterminate
    → ((validate_decision raw).decision ≡ v) ↔ (named_verb raw ≡ some (str (value v)))
unfolding validate_decision
verb-validate_decision (dict raw) v determinate = (
  λ h. ground (arith, parsed_verb-str (find "decision" raw) v),
  λ h. ground (arith, verb_of-value v),
)
verb-validate_decision raw v determinate = (λ h. ground arith, λ h. ground arith)
