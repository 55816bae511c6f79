-- ===== src/Enforce/Blocking.antt =====
-- enforce.py: the blocking forms of the two enforcement functions.
use sapl_python.Prelude.{◌≡◌, refl, List, Option}
use sapl_python.Python.Value.{Value}
use sapl_python.Python.Exception.{AuthorizationDecision, Obj}
use sapl_python.Python.Action.{Action, Result}
use sapl_python.Python.Context.{Env, Transaction}
use sapl_python.Signal.{SignalKind, Provider}
use sapl_python.Plan.{EnforcementPlan}
use sapl_python.Subscription.{AuthorizationSubscription}
use sapl_python.Enforce.{
  asynchronous, synchronous, Method, pre_enforce, pre_enforce_blocking, post_enforce,
  post_enforce_blocking,
}

module _ {W : Type 0} (decide_once : AuthorizationSubscription → Action W AuthorizationDecision)
    (method : Method W) (providers : List (Provider W)) (call : Value × Value)
    (transaction : Option (Transaction W)) (env : Env W (EnforcementPlan W)) where
  -- With a coroutine client or one that answers at once, `pre_enforce_blocking` has the result and
  -- the effects of `pre_enforce` with the coroutine client.
  pre_enforce_blocking-eq :
      (shims : List SignalKind) (subscription : AuthorizationSubscription)
      → let run =
          pre_enforce
            (asynchronous decide_once)
            method
            providers
            shims
            subscription
            call
            transaction
            env in
        (pre_enforce_blocking
            (asynchronous decide_once)
            method
            providers
            shims
            subscription
            call
            transaction
            env
          ≡ run)
        × (pre_enforce_blocking
              (synchronous decide_once)
              method
              providers
              shims
              subscription
              call
              transaction
              env
            ≡ run)
  unfolding pre_enforce pre_enforce_blocking
  pre_enforce_blocking-eq shims subscription = (refl, refl)

  -- The same of `post_enforce_blocking` and `post_enforce`.
  post_enforce_blocking-eq :
      (builder : Obj → Result AuthorizationSubscription)
      → let run =
          post_enforce (asynchronous decide_once) method providers builder call transaction env in
        (post_enforce_blocking
            (asynchronous decide_once)
            method
            providers
            builder
            call
            transaction
            env
          ≡ run)
        × (post_enforce_blocking
              (synchronous decide_once)
              method
              providers
              builder
              call
              transaction
              env
            ≡ run)
  unfolding post_enforce post_enforce_blocking
  post_enforce_blocking-eq builder = (refl, refl)
