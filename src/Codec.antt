-- ===== src/Codec.antt =====
-- sapl_base/src/sapl_base/transport/codec/sapl_proto_codec.py: between the program's values and the
-- protobuf messages. A message is what the generated classes hold; their wire format, and Python's
-- texts of numbers, are parameters. A map keeps the order in which its keys were first assigned.
pub mod RoundTrip
mod Tests
use Prim.Native.Char.{code}
use sapl_python.Prelude.{
  ℕ, String, Bool, true, false, List, [], ◌∷◌, Option, none, some, str_eq, if◌then◌else◌, ◌||◌,
  ◌==◌, map,
}
use sapl_python.Python.Value.{
  ℤ, Value, null, bool, int, float, str, list, tuple, dict, object, opaque, Items, nil, cons,
  Fields, end, field,
}
use sapl_python.Python.Exception.{
  Decision, permit, deny, indeterminate, not_applicable, suspend, AuthorizationDecision,
  decision_of, other,
}
use sapl_python.Python.Action.{Result, ok, raised, on_ok}
use sapl_python.Subscription.{AuthorizationSubscription, Multi}

-- The message `Value`: `unset` is one in which no field of `kind` is set.
mutual
  pub data ProtoValue : Type 0 where
    unset null_value undefined_value : ProtoValue
    bool_value : Bool → ProtoValue
    number_value : String → ProtoValue
    text_value : String → ProtoValue
    array_value : ProtoItems → ProtoValue
    object_value : ProtoFields → ProtoValue
    error_value : String → Items → ProtoValue

  pub data ProtoItems : Type 0 where
    no_element : ProtoItems
    element : ProtoValue → ProtoItems → ProtoItems

  pub data ProtoFields : Type 0 where
    no_entry : ProtoFields
    entry : String → ProtoValue → ProtoFields → ProtoFields

-- The repeated field `elements`, once one was added.
abbrev pub array_of : ProtoItems → ProtoValue
array_of no_element = unset
array_of (element v vs) = array_value (element v vs)

abbrev pub object_of : ProtoFields → ProtoValue
object_of no_entry = unset
object_of (entry k v fs) = object_value (entry k v fs)

-- What Python and the generated code provide: `str`, `repr`, `int` and `float` on numbers, whether an
-- object without attributes is a Decimal, and the text of any object.
pub record Texts : Type 0 where
  pub str_int : ℤ → String
  pub repr_float : ℤ → ℕ → String
  pub parse_int : String → Option ℤ
  pub parse_float : String → Option (ℤ × ℕ)
  pub is_decimal : ℕ → Bool
  pub str_object : Value → String

-- `"." in text or "e" in text or "E" in text`
abbrev pub is_real : String → Bool
is_real String.[] = false
is_real (String.◌∷◌ c s) = code c == b'.' || (code c == b'e' || (code c == b'E' || is_real s))

module _ (texts : Texts) where
  -- `_python_to_value`, into a message that is not set yet
  unfoldable mutual
    pub python_to_value : Value → ProtoValue
    python_to_value null = null_value
    python_to_value (bool b) = bool_value b
    python_to_value (int z) = number_value (texts.str_int z)
    python_to_value (float z k) = number_value (texts.repr_float z k)
    python_to_value (str s) = text_value s
    python_to_value (list vs) = array_of (to_elements vs)
    python_to_value (tuple vs) = array_of (to_elements vs)
    python_to_value (dict fs) = object_of (to_entries fs)
    python_to_value (object fs) = text_value (texts.str_object (object fs))
    python_to_value (opaque n) =
        if texts.is_decimal n
        then number_value (texts.str_object (opaque n))
        else text_value (texts.str_object (opaque n))

    pub to_elements : Items → ProtoItems
    to_elements nil = no_element
    to_elements (cons v vs) = element (python_to_value v) (to_elements vs)

    pub to_entries : Fields → ProtoFields
    to_entries end = no_entry
    to_entries (field k v fs) = entry k (python_to_value v) (to_entries fs)

  abbrev pub real : Option (ℤ × ℕ) → Result Value
  real none = raised (other "ValueError")
  real (some (z, k)) = ok (float z k)

  abbrev pub integral : Option ℤ → Option (ℤ × ℕ) → Result Value
  integral (some z) x = ok (int z)
  integral none x = real x

  abbrev pub number : String → Result Value
  number text =
      if is_real text
      then real (texts.parse_float text)
      else integral (texts.parse_int text) (texts.parse_float text)

  -- `_value_to_python`
  unfoldable mutual
    pub value_to_python : ProtoValue → Result Value
    value_to_python unset = ok null
    value_to_python null_value = ok null
    value_to_python undefined_value = ok null
    value_to_python (bool_value b) = ok (bool b)
    value_to_python (number_value text) = number text
    value_to_python (text_value s) = ok (str s)
    value_to_python (array_value vs) = on_ok (from_elements vs) (λ us. ok (list us))
    value_to_python (object_value fs) = on_ok (from_entries fs) (λ gs. ok (dict gs))
    value_to_python (error_value message arguments) =
        ok (dict (field "_error_" (str message) (field "_arguments_" (list arguments) end)))

    pub from_elements : ProtoItems → Result Items
    from_elements no_element = ok nil
    from_elements (element v vs) =
        on_ok (value_to_python v) λ u. on_ok (from_elements vs) λ us. ok (cons u us)

    pub from_entries : ProtoFields → Result Fields
    from_entries no_entry = ok end
    from_entries (entry k v fs) =
        on_ok (value_to_python v) λ u. on_ok (from_entries fs) λ gs. ok (field k u gs)

-- The message `AuthorizationSubscription`: `none` is a field that is not set.
pub record SubscriptionMessage : Type 0 where
  pub subject : Option ProtoValue
  pub action : Option ProtoValue
  pub resource : Option ProtoValue
  pub environment : Option ProtoValue
  pub secrets : Option ProtoValue

-- A field is set when something is set in its message.
abbrev pub present : ProtoValue → Option ProtoValue
present unset = none
present v = some v

-- The enum `Decision`, with the numbers that it does not name.
pub data ProtoDecision : Type 0 where
  proto_indeterminate proto_permit proto_deny proto_not_applicable proto_suspend : ProtoDecision
  unknown : ℕ → ProtoDecision

pub record DecisionMessage : Type 0 where
  pub decision : ProtoDecision
  pub obligations : ProtoItems
  pub advice : ProtoItems
  pub resource : Option ProtoValue

-- `_DECISION_FROM_PROTO.get(decision, Decision.INDETERMINATE)`
abbrev pub decision_from_proto_enum : ProtoDecision → Decision
decision_from_proto_enum proto_indeterminate = indeterminate
decision_from_proto_enum proto_permit = permit
decision_from_proto_enum proto_deny = deny
decision_from_proto_enum proto_not_applicable = not_applicable
decision_from_proto_enum proto_suspend = suspend
decision_from_proto_enum (unknown n) = indeterminate

module _ (texts : Texts) where
  -- `_set_optional_value`, of a field other than the subject
  abbrev pub optional_value : Value → Option ProtoValue
  optional_value null = none
  optional_value v = present (python_to_value texts v)

  -- The message of `encode_subscription`, and of each entry of `encode_multi_subscription`
  unfoldable pub subscription_message : AuthorizationSubscription → SubscriptionMessage
  unfolding python_to_value
  subscription_message s = record {
    subject = present (python_to_value texts s.subject);
    action = optional_value s.action;
    resource = optional_value s.resource;
    environment = optional_value s.environment;
    secrets = optional_value s.secrets;
  }

  unfoldable pub multi_subscription_message : Multi → List (String × SubscriptionMessage)
  unfolding subscription_message
  multi_subscription_message subscriptions =
      map (λ (name, s). (name, subscription_message s)) subscriptions

  abbrev pub resource_from_proto : Option ProtoValue → Result (Option Value)
  resource_from_proto none = ok none
  resource_from_proto (some v) = on_ok (value_to_python texts v) (λ u. ok (some u))

  -- `_decision_from_proto`
  unfoldable pub decision_from_proto : DecisionMessage → Result AuthorizationDecision
  unfolding value_to_python
  decision_from_proto message = on_ok (from_elements texts message.obligations) λ obligations.
      on_ok (from_elements texts message.advice) λ advice.
        on_ok (resource_from_proto message.resource) λ resource. ok (record {
          decision = decision_from_proto_enum message.decision;
          obligations = tuple obligations;
          advice = tuple advice;
          resource = resource;
        })

  abbrev pub parsed_decision : Option DecisionMessage → Result AuthorizationDecision
  parsed_decision none = ok (decision_of indeterminate)
  parsed_decision (some message) = decision_from_proto message

  -- `decode_decision`: `parse` is ParseFromString, with `none` for DecodeError.
  unfoldable pub decode_decision :
      {B : Type 0} → (B → Option DecisionMessage) → B → Result AuthorizationDecision
  unfolding decision_from_proto
  decode_decision parse buffer = parsed_decision (parse buffer)

  abbrev pub identified :
      Option (String × DecisionMessage) → Result (Option (String × AuthorizationDecision))
  identified none = ok none
  identified (some (id, message)) =
      let decoded = on_ok (decision_from_proto message) (λ d. ok (some (id, d))) in
      if str_eq id "" then ok none else decoded

  -- `decode_identifiable_decision`
  unfoldable pub decode_identifiable_decision :
      {B : Type 0}
      → (B → Option (String × DecisionMessage))
      → B
      → Result (Option (String × AuthorizationDecision))
  unfolding decision_from_proto
  decode_identifiable_decision parse buffer = identified (parse buffer)

  abbrev pub decisions_from_proto :
      List (String × DecisionMessage) → Result (List (String × AuthorizationDecision))
  decisions_from_proto [] = ok []
  decisions_from_proto ((id, message) ∷ rest) =
      on_ok (decision_from_proto message)
        λ d. on_ok (decisions_from_proto rest) λ ds. ok ((id, d) ∷ ds)

  abbrev pub parsed_decisions :
      Option (List (String × DecisionMessage)) → Result (List (String × AuthorizationDecision))
  parsed_decisions none = ok []
  parsed_decisions (some messages) = decisions_from_proto messages

  -- `decode_multi_decision`
  unfoldable pub decode_multi_decision :
      {B : Type 0}
      → (B → Option (List (String × DecisionMessage)))
      → B
      → Result (List (String × AuthorizationDecision))
  unfolding decision_from_proto
  decode_multi_decision parse buffer = parsed_decisions (parse buffer)
