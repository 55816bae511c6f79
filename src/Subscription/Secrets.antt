-- ===== src/Subscription/Secrets.antt =====
-- types.py: the dict for the PDP and the dict for the log.
use sapl_python.Prelude.{
  String, ◌≡◌, none, some, Option, arith, eq_iff, str_eq, if◌then◌else◌, Bool-cases, inl, inr,
  subst,
}
use sapl_python.Python.Value.{Value, null}
use sapl_python.Subscription.{AuthorizationSubscription, get, to_dict, to_loggable_dict}

-- A field that is None is not sent.
abbrev pub given : Value → Option Value
given null = none
given v = some v

-- The loggable dict of a subscription has no key "secrets" and agrees with the dict for the PDP on
-- every other key; the latter has the subscription's secrets, if there are any, under that key.
pub get-to_loggable_dict :
    (s : AuthorizationSubscription) (key : String)
    → (get key (to_loggable_dict s) ≡ (if str_eq "secrets" key then none else get key (to_dict s)))
      × (get "secrets" (to_dict s) ≡ given s.secrets)
unfolding get to_dict to_loggable_dict
get-to_loggable_dict s key = (
  elim (Bool-cases (str_eq "secrets" key)) [
    | inl p ↦
        subst
          (λ k.
            get k (to_loggable_dict s) ≡ (if str_eq "secrets" k then none else get k (to_dict s)))
          ((eq_iff "secrets" key).0 p) (ground arith)
    | inr p ↦ rw p (ground arith)
  ],
  ground arith,
)
