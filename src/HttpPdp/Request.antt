-- ===== src/HttpPdp/Request.antt =====
-- http_pdp_client.py: the one-shot requests, with the retry behind a refused token.
pub mod Authentic
pub mod Outage
use sapl_python.Prelude.{
  ℕ, String, Bool, true, false, List, [], ◌∷◌, Option, none, some, str_eq, leb, if◌then◌else◌, ◌||◌,
  ◌⊎◌, inl, inr, ◌==◌,
}
use Prim.Native.String.{◌++◌ as str_append}
use sapl_python.Python.Value.{Value}
use sapl_python.Python.Exception.{Exc, other, AuthorizationDecision, decision_of, indeterminate}
use sapl_python.Python.Action.{Result, ok, raised, Action, pure, ◌>>=◌}
use sapl_python.Subscription.{AuthorizationSubscription, Multi, Dict, to_dict, multi_to_dict}
use sapl_python.HttpPdp.Validation.{validate_decision, validate_multi, reject_duplicate_keys}

-- The one-shot routes of PdpRoute.
pub data PdpRoute : Type 0 where
  decide_once_route multi_decide_all_once_route : PdpRoute

abbrev pub Body : Type 0
Body = Dict ⊎ List (String × Dict)

-- `object_pairs_hook`
abbrev pub Hook : Type 0
Hook = Option (List (String × Value) → Result (List (String × Value)))

-- A response: its status, and what `response.json` makes of its body under a hook.
pub record Response : Type 0 where
  pub status_code : ℕ
  pub json : Hook → Result Value

pub record TokenProvider (W : Type 0) : Type 0 where
  pub get_access_token : Action W String
  pub invalidate : W → W

-- A client: where its authorization comes from, and `post` for a request to a route with a body and
-- a header. `is_request_error` tells httpx.TimeoutException and httpx.RequestError.
pub record Client (W : Type 0) : Type 0 where
  pub token_provider : Option (TokenProvider W)
  pub static_authorization : Option String
  pub post : PdpRoute → Body → Option String → Action W Response
  pub is_request_error : Exc → Bool

-- `if authorization: headers["Authorization"] = authorization`
abbrev pub header : Option String → Option String
header none = none
header (some s) = if str_eq s "" then none else some s

-- The class of an exception that has no constructor of its own.
abbrev is_class : String → Exc → Bool
is_class name (other class) = str_eq class name
is_class name _ = false

module _ {W : Type 0} (client : Client W) where
  -- What the `except` clauses of `_post_json` catch.
  abbrev pub is_caught : Exc → Bool
  is_caught e =
      is_class "_DuplicateSubscriptionIdError" e
      || client.is_request_error e
      || is_class "JSONDecodeError" e

  -- `_resolve_authorization`
  unfoldable pub resolve_authorization : Action W (Option String)
  resolve_authorization = elim client.token_provider [
    | none ↦ pure client.static_authorization
    | some provider ↦
        provider.get_access_token >>= (λ token. pure (some (str_append "Bearer " token)))
  ]

  -- Behind a 401 or 403: `_handle_auth_failure`, and another try unless this one is it.
  abbrev pub refresh : Option (Action W (Option Value)) → Action W (Option Value)
  refresh again w = elim client.token_provider [
    | none ↦ (ok none, w)
    | some provider ↦ elim again [
      | none ↦ (ok none, provider.invalidate w)
      | some retry ↦ retry (provider.invalidate w)
    ]
  ]

  abbrev pub parsed : Result Value → Action W (Option Value)
  parsed (ok v) w = (ok (some v), w)
  parsed (raised e) w = (raised e, w)

  abbrev pub on_response :
      Hook → Option (Action W (Option Value)) → Response → Action W (Option Value)
  on_response hook again response w =
      if leb 400 response.status_code
      then if response.status_code == 401 || response.status_code == 403
        then refresh again w
        else (ok none, w)
      else parsed (response.json hook) w

  abbrev pub absorb : Result (Option Value) → Result (Option Value)
  absorb (ok v) = ok v
  absorb (raised e) = if is_caught e then ok none else raised e

  -- One call of `_post_json`; `again` is the retried one, if this is not it.
  unfoldable pub try_post :
      PdpRoute → Body → Hook → Option (Action W (Option Value)) → Action W (Option Value)
  unfolding resolve_authorization
  try_post route body hook again w =
      let (r, w') =
        (resolve_authorization >>= λ authorization.
        client.post route body (header authorization) >>= λ response.
        on_response hook again response)
          w in
      (absorb r, w')

  -- `_post_json`
  unfoldable pub post_json : PdpRoute → Body → Hook → Action W (Option Value)
  post_json route body hook = try_post route body hook (some (try_post route body hook none))

  abbrev pub decision_in : Option Value → AuthorizationDecision
  decision_in none = decision_of indeterminate
  decision_in (some raw) = validate_decision raw

  unfoldable pub decide_once : AuthorizationSubscription → Action W AuthorizationDecision
  decide_once subscription =
      post_json decide_once_route (inl (to_dict subscription)) none
      >>= (λ raw. pure (decision_in raw))

  abbrev pub or_empty :
      Option (List (String × AuthorizationDecision)) → List (String × AuthorizationDecision)
  or_empty none = []
  or_empty (some decisions) = decisions

  abbrev pub decisions_in : Option Value → List (String × AuthorizationDecision)
  decisions_in none = []
  decisions_in (some raw) = or_empty (validate_multi raw)

  unfoldable pub multi_decide_all_once : Multi → Action W (List (String × AuthorizationDecision))
  multi_decide_all_once subscriptions =
      post_json multi_decide_all_once_route (inr (multi_to_dict subscriptions))
        (some reject_duplicate_keys)
      >>= (λ raw. pure (decisions_in raw))
