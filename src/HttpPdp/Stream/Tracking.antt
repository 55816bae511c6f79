-- ===== src/HttpPdp/Stream/Tracking.antt =====
-- http_pdp_client.py, `_stream_sse`: what holds of each output, given the decision yielded last.
use sapl_python.Prelude.{
  ◌≡◌, refl, Bool, true, false, List, [], ◌∷◌, ◌++◌, Option, none, some, arith, ◌&&◌, ℕ,
}
use sapl_python.Python.Value.{Value}
use sapl_python.Python.Action.{Result, ok, raised}
use sapl_python.HttpPdp.Stream.{
  Connection, Output, yielded, slept, Retry, Local, is_last, offer, offer_all, take_frame, seed,
  reconnect, read_frames, listen, round, stream, backoff_delay,
}

module _ {ℓ} {D : Type ℓ} where
  -- The decision that the subscriber has behind an output.
  abbrev pub track : Option D → Output D → Option D
  track last (yielded d) = some d
  track last (slept _) = last

  abbrev pub latest : Option D → List (Output D) → Option D
  latest last [] = last
  latest last (o ∷ os) = latest (track last o) os

  -- Whether each output is right, given the decision yielded last before it.
  abbrev pub each : (Option D → Output D → Bool) → Option D → List (Output D) → Bool
  each p last [] = true
  each p last (o ∷ os) = p last o && each p (track last o) os

  latest-append :
      (last : Option D) (xs ys : List (Output D))
      → latest last (xs ++ ys) ≡ latest (latest last xs) ys
  latest-append last [] ys = refl
  latest-append last (x ∷ xs) ys = latest-append (track last x) xs ys

  each-append :
      (p : Option D → Output D → Bool) (last : Option D) (xs ys : List (Output D))
      → each p last (xs ++ ys) ≡ (each p last xs && each p (latest last xs) ys)
  each-append p last [] ys = refl
  each-append p last (x ∷ xs) ys = ground (arith, each-append p (track last x) xs ys)

module _ {ℓ} {D : Type ℓ} (same : D → D → Bool) where
  latest-offer :
      (d : D) (last : Option D) → latest last (offer same d last).0 ≡ (offer same d last).1
  latest-offer d last = ground arith

  latest-offer_all :
      (ds : List D) (last : Option D)
      → latest last (offer_all same ds last).0 ≡ (offer_all same ds last).1
  unfolding offer_all
  latest-offer_all [] last = refl
  latest-offer_all (d ∷ ds) last =
      let (os, last') = offer same d last in
      ground (
        arith,
        latest-append last os (offer_all same ds last').0,
        latest-offer d last,
        latest-offer_all ds last',
      )

  -- What an output has to satisfy where it is a decision that differs from the last.
  module _ (p : Option D → Output D → Bool)
      (offered : (last : Option D) (d : D)
        → is_last same d last ≡ false
        → p last (yielded d) ≡ true) where
    each-offer : (d : D) (last : Option D) → each p last (offer same d last).0 ≡ true
    each-offer d last = ground (arith, offered last d)

    each-offer_all : (ds : List D) (last : Option D) → each p last (offer_all same ds last).0 ≡ true
    unfolding offer_all
    each-offer_all [] last = refl
    each-offer_all (d ∷ ds) last =
        let (os, last') = offer same d last in
        ground (
          arith,
          each-append p last os (offer_all same ds last').0,
          latest-offer d last,
          each-offer d last,
          each-offer_all ds last',
        )

module _ {ℓ} {D : Type ℓ} (same : D → D → Bool) (validate : Value → Option D) (seeds : List D)
    (retry : Retry) (p : Option D → Output D → Bool)
    (offered : (last : Option D) (d : D) → is_last same d last ≡ false → p last (yielded d) ≡ true)
    (waited : (last : Option D) (n : ℕ) → p (offer_all same seeds last).1 (slept n) ≡ true) where
  -- A part of the generator is right: its outputs are, and its variable is the decision that the
  -- subscriber has.
  abbrev IsRight : Option D → List (Output D) → Option D → Type ℓ
  IsRight last os last' = (latest last os ≡ last') × (each p last os ≡ true)

  IsRight-append :
      (last last' last'' : Option D) (xs ys : List (Output D))
      → IsRight last xs last'
      → IsRight last' ys last''
      → IsRight last (xs ++ ys) last''
  IsRight-append last last' last'' xs ys (here, right) (there, next) =
      (ground (arith, latest-append last xs ys), ground (arith, each-append p last xs ys))

  seed-IsRight :
      (local : Local D) (delay : Result ℕ)
      → let b = seed same validate seeds retry local delay in
        IsRight local.last_emitted b.outputs b.local.last_emitted
  seed-IsRight local (raised e) = (refl, refl)
  seed-IsRight local (ok n) =
      let (os, last) = offer_all same seeds local.last_emitted in
      IsRight-append local.last_emitted last last os (slept n ∷ [])
        (
          latest-offer_all same seeds local.last_emitted,
          each-offer_all same p offered seeds local.last_emitted,
        )
        (refl, ground (arith, waited local.last_emitted n))

  reconnect-IsRight :
      (local : Local D) (r : ℕ)
      → let b = reconnect same validate seeds retry local r in
        IsRight local.last_emitted b.outputs b.local.last_emitted
  unfolding reconnect
  reconnect-IsRight local r =
      let (right, checked) =
        seed-IsRight local (backoff_delay local.attempt retry.retry_base retry.retry_cap r) in
      (ground arith, ground arith)

  take_frame-IsRight :
      (validated : Option D) (local : Local D) (rest : Local D → List (Output D) × Local D)
      (right : (next : Local D)
        → IsRight next.last_emitted (rest next).0 (rest next).1.last_emitted)
      → let (os, local') = take_frame same validate seeds retry validated local rest in
        IsRight local.last_emitted os local'.last_emitted
  take_frame-IsRight none local rest right = right local
  take_frame-IsRight (some d) local rest right =
      let (os, last) = offer same d local.last_emitted in
      let next : Local D = record { attempt = 0; last_emitted = last } in
      let (os', local') = rest next in
      IsRight-append local.last_emitted last local'.last_emitted os os'
        (latest-offer same d local.last_emitted, each-offer same p offered d local.last_emitted)
        (right next)

  read_frames-IsRight :
      (frames : List Value) (local : Local D)
      → let (os, local') = read_frames same validate seeds retry frames local in
        IsRight local.last_emitted os local'.last_emitted
  unfolding read_frames
  read_frames-IsRight [] local = (refl, refl)
  read_frames-IsRight (f ∷ fs) local =
      take_frame-IsRight (validate f) local (λ next. read_frames same validate seeds retry fs next)
        (λ next. read_frames-IsRight fs next)

  listen-IsRight :
      (connection : Connection) (local : Local D)
      → let b = listen same validate seeds retry connection local in
        IsRight local.last_emitted b.outputs b.local.last_emitted
  unfolding listen
  listen-IsRight connection local =
      let (right, checked) = read_frames-IsRight connection.frames local in
      (ground arith, ground arith)

  round-IsRight :
      (local : Local D) (connection : Connection)
      → let b = round same validate seeds retry local connection in
        IsRight local.last_emitted b.outputs b.local.last_emitted
  unfolding round
  round-IsRight local connection =
      let before = reconnect same validate seeds retry local connection.r in
      let behind = listen same validate seeds retry connection before.local in
      let (reached, checked) = reconnect-IsRight local connection.r in
      let (right, tracked) =
        IsRight-append local.last_emitted before.local.last_emitted behind.local.last_emitted
          before.outputs behind.outputs (reached, checked)
          (listen-IsRight connection before.local) in
      (ground arith, ground arith)

  pub each-stream :
      (local : Local D) (connections : List Connection)
      → each p local.last_emitted (stream same validate seeds retry local connections).outputs
        ≡ true
  unfolding stream
  each-stream local [] = refl
  each-stream local (c ∷ cs) =
      let b = round same validate seeds retry local c in
      let (reached, checked) = round-IsRight local c in
      ground (
        arith,
        each-append p local.last_emitted b.outputs
            (stream same validate seeds retry b.local cs).outputs,
        each-stream b.local cs,
      )
