-- ===== src/HttpPdp/Request/Authentic.antt =====
-- http_pdp_client.py: where a decision comes from.
use sapl_python.Prelude.{
  ◌≡◌, ◌≢◌, refl, Option, none, some, arith, leb, inl, ◌<◌, String, Option-cases, Bool-cases, inr,
  ap, ◌==◌, ◌||◌,
}
use sapl_python.Python.Value.{Value}
use sapl_python.Python.Exception.{AuthorizationDecision, indeterminate}
use sapl_python.Python.Action.{Result, ok, Action, pure, ◌>>=◌}
use sapl_python.Python.Action.Laws.{>>=-eq-ok}
use sapl_python.Subscription.{AuthorizationSubscription, to_dict}
use sapl_python.HttpPdp.Validation.{validate_decision}
use sapl_python.HttpPdp.Request.{
  PdpRoute, decide_once_route, Body, Hook, Response, Client, header, on_response, refresh, parsed,
  absorb, decision_in, try_post, post_json, decide_once, resolve_authorization,
}

module _ {W : Type 0} (client : Client W) where
  -- A JSON value that a response with a status below 400 brought.
  abbrev pub Answered : PdpRoute → Body → Hook → Value → Type 0
  Answered route body hook raw =
      (authorization : Option String) × (w : W) × (response : Response) × ((client.post route body
          authorization w).0
        ≡ ok response)
      × (response.status_code < 400)
      × (response.json hook ≡ ok raw)

  absorb-ok :
      (r : Result (Option Value)) (raw : Value)
      → absorb client r ≡ ok (some raw)
      → r ≡ ok (some raw)
  absorb-ok r raw h = ground arith

  parsed_json :
      (r : Result Value) (w : W) (raw : Value) → (parsed client r w).0 ≡ ok (some raw) → r ≡ ok raw
  parsed_json r w raw h = ground arith

  -- The retried call, where it made a result.
  abbrev Retried : Option (Action W (Option Value)) → Value → Type 0
  Retried again raw =
      (retry : Action W (Option Value)) × (v : W) × (again ≡ some retry)
      × ((retry v).0 ≡ ok (some raw))

  refresh-Retried :
      (again : Option (Action W (Option Value))) (w : W) (raw : Value)
      → (refresh client again w).0 ≡ ok (some raw)
      → Retried again raw
  refresh-Retried none w raw h = elim (Option-cases client.token_provider) [
    | inl n ↦ ground arith
    | inr (p, is) ↦ ground arith
  ]
  refresh-Retried (some retry) w raw h = elim (Option-cases client.token_provider) [
    | inl n ↦ ground arith
    | inr (provider, is) ↦ (retry, provider.invalidate w, refl, ground arith)
  ]

  on_response-Answered :
      (route : PdpRoute) (body : Body) (hook : Hook) (again : Option (Action W (Option Value)))
      (authorization : Option String) (response : Response) (w w' : W) (raw : Value)
      (retried : (retry : Action W (Option Value)) (v : W) (next : Value)
        → again ≡ some retry
        → (retry v).0 ≡ ok (some next)
        → Answered route body hook next)
      → (client.post route body authorization w).0 ≡ ok response
      → (on_response client hook again response w').0 ≡ ok (some raw)
      → Answered route body hook raw
  on_response-Answered route body hook again authorization response w w' raw retried sent h =
      elim (Bool-cases (leb 400 response.status_code)) [
        | inl refused ↦
            elim (Bool-cases (response.status_code == 401 || response.status_code == 403)) [
              | inl unauthorized ↦
                  let (retry, v, is, made) = refresh-Retried again w' raw (ground arith) in
                  retried retry v raw is made
              | inr other_error ↦ ground arith
            ]
        | inr answered ↦ (
          authorization,
          w,
          response,
          sent,
          ground arith,
          parsed_json (response.json hook) w' raw (ground arith),
        )
      ]

  try_post-Answered :
      (route : PdpRoute) (body : Body) (hook : Hook) (again : Option (Action W (Option Value)))
      (w : W) (raw : Value)
      (retried : (retry : Action W (Option Value)) (v : W) (next : Value)
        → again ≡ some retry
        → (retry v).0 ≡ ok (some next)
        → Answered route body hook next)
      → (try_post client route body hook again w).0 ≡ ok (some raw)
      → Answered route body hook raw
  unfolding try_post
  try_post-Answered route body hook again w raw retried h =
      let request = resolve_authorization client >>= λ authorization.
      client.post route body (header authorization) >>= λ response.
      on_response client hook again response in
      let made = absorb-ok (request w).0 raw h in
      let (authorization, resolved, posted) =
        >>=-eq-ok (resolve_authorization client)
          (λ authorization. client.post route body (header authorization) >>= λ response.
            on_response client hook again response)
          w {w'' = (request w).1} (ap (λ r. (r, (request w).1)) made) in
      let w' = (resolve_authorization client w).1 in
      let (response, sent, answered) =
        >>=-eq-ok (client.post route body (header authorization))
          (λ response. on_response client hook again response) w' posted in
      on_response-Answered route body hook again (header authorization) response w'
        (client.post route body (header authorization) w').1 raw retried sent
        (ap (λ x. x.0) answered)

  post_json-Answered :
      (route : PdpRoute) (body : Body) (hook : Hook) (w : W) (raw : Value)
      → (post_json client route body hook w).0 ≡ ok (some raw)
      → Answered route body hook raw
  unfolding post_json
  post_json-Answered route body hook w raw h =
      try_post-Answered route body hook (some (try_post client route body hook none)) w raw
        (λ retry v next is made.
          try_post-Answered route body hook none v next (λ _ _ _ n _. ground arith) cc)
        h

  -- A decision other than INDETERMINATE is the validated JSON of a response to this subscription
  -- with a status below 400.
  pub decide_once-authentic :
      (subscription : AuthorizationSubscription) (w : W) (d : AuthorizationDecision)
      → (decide_once client subscription w).0 ≡ ok d
      → d.decision ≢ indeterminate
      → (raw : Value) × Answered decide_once_route (inl (to_dict subscription)) none raw
        × (d ≡ validate_decision raw)
  unfolding decide_once
  decide_once-authentic subscription w d h determinate =
      let (result, made, is) =
        >>=-eq-ok (post_json client decide_once_route (inl (to_dict subscription)) none)
          (λ raw. pure (decision_in client raw)) w {w'' = (decide_once client subscription w).1}
          (ap (λ r. (r, (decide_once client subscription w).1)) h) in
      elim (Option-cases result) [
        | inl n ↦ ground arith
        | inr (raw, some_raw) ↦ (
          raw,
          post_json-Answered decide_once_route (inl (to_dict subscription)) none w raw
              (ground arith),
          ground arith,
        )
      ]
