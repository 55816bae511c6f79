-- ===== src/HttpPdp/Auth.antt =====
-- http_pdp_client.py: the authentication options. `b64` is base64.b64encode on the UTF-8 of a text,
-- with a text as its result.
use Prim.Native.String.{◌++◌}
use sapl_python.Prelude.{
  ◌≡◌, String, Bool, true, false, Option, none, some, str_eq, if◌then◌else◌, ◌||◌, ◌&&◌, not, arith,
}
use sapl_python.Python.Exception.{other}
use sapl_python.Python.Action.{Result, ok, raised}

-- The fields of HttpPdpClientOptions that authenticate.
pub record Credentials : Type 0 where
  pub token : Option String
  pub username : Option String
  pub secret : Option String
  pub has_provider : Bool

-- `bool(value)`
abbrev pub is_given : Option String → Bool
is_given none = false
is_given (some s) = not (str_eq s "")

abbrev text : Option String → String
text none = ""
text (some s) = s

-- Whether more than one of three is true.
abbrev several : Bool → Bool → Bool → Bool
several true b c = b || c
several false b c = b && c

-- `_validate_auth`
unfoldable pub validate_auth : Credentials → Result (Unit {0})
validate_auth o =
    let has_basic = is_given o.username || is_given o.secret in
    if several (is_given o.token) has_basic o.has_provider
    then raised (other "ValueError")
    else if has_basic && not (is_given o.username && is_given o.secret)
    then raised (other "ValueError")
    else ok tt

-- `_build_static_authorization`
unfoldable pub build_static_authorization : (String → String) → Credentials → Option String
build_static_authorization b64 o =
    if is_given o.token
    then some ("Bearer " ++ text o.token)
    else if is_given o.username && is_given o.secret
    then some ("Basic " ++ b64 (text o.username ++ (":" ++ text o.secret)))
    else none

abbrev pub is_some : Option String → Bool
is_some none = false
is_some (some _) = true

-- Options that the client accepts leave no credential unused: there is a static header exactly if a
-- token, a user name or a secret is given, and a static header and a token provider never meet.
validate_auth-ok :
    (b64 : String → String) (o : Credentials)
    → validate_auth o ≡ ok tt
    → (is_some (build_static_authorization b64 o)
        ≡ (is_given o.token || (is_given o.username || is_given o.secret)))
      × ((is_some (build_static_authorization b64 o) && o.has_provider) ≡ false)
unfolding validate_auth build_static_authorization
validate_auth-ok b64 o h = (ground arith, ground arith)
