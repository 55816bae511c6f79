-- ===== src/HttpPdp/Request/Outage.antt =====
-- http_pdp_client.py: one-shot requests that bring no answer.
use sapl_python.Prelude.{◌≡◌, true, false, none, arith, leb, inl}
use sapl_python.Python.Exception.{Exc, other, decision_of, indeterminate}
use sapl_python.Python.Action.{Result, ok, raised}
use sapl_python.Subscription.{AuthorizationSubscription, to_dict}
use sapl_python.HttpPdp.Request.{
  decide_once_route, Response, Client, header, decide_once, post_json, try_post,
  resolve_authorization,
}

module _ {W : Type 0} (client : Client W) where
  -- What comes of a request without a usable answer: a timeout or a transport error of httpx, a
  -- response with an error status, or one whose body is no JSON.
  pub data IsUnusable : Result Response → Type 0 where
    unreachable : {e : Exc} → client.is_request_error e ≡ true → IsUnusable (raised e)
    refused : {response : Response} → leb 400 response.status_code ≡ true → IsUnusable (ok response)
    unreadable :
        {response : Response}
        → leb 400 response.status_code ≡ false
        → response.json none ≡ raised (other "JSONDecodeError")
        → IsUnusable (ok response)

  -- Of a client without a token provider, a one-shot request that times out or fails in transport,
  -- that is answered with an error status, or whose answer is no JSON, raises nothing: the decision
  -- is INDETERMINATE, after this one request.
  pub decide_once-indeterminate :
      (subscription : AuthorizationSubscription) (w w' : W) (answer : Result Response)
      → client.token_provider ≡ none
      → client.post decide_once_route
          (inl (to_dict subscription))
          (header client.static_authorization)
          w
        ≡ (answer, w')
      → IsUnusable answer
      → decide_once client subscription w ≡ (ok (decision_of indeterminate), w')
  unfolding decide_once post_json try_post resolve_authorization
  decide_once-indeterminate subscription w w' (raised e) static posted (unreachable h) =
      rw (static, posted) (ground arith)
  decide_once-indeterminate subscription w w' (ok response) static posted (refused h) =
      rw (static, posted, h) (ground arith)
  decide_once-indeterminate subscription w w' (ok response) static posted (unreadable h k) =
      rw (static, posted, h, k) (ground arith)
