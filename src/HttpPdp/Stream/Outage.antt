-- ===== src/HttpPdp/Stream/Outage.antt =====
-- http_pdp_client.py, `_stream_sse`: an outage without a valid decision.
use sapl_python.Prelude.{
  ◌≡◌, refl, Bool, true, false, List, [], ◌∷◌, Option, none, some, arith, if◌then◌else◌, ◌&&◌, ltb,
  ◌≤◌, ◌+◌, length, all, ℕ,
}
use sapl_python.Python.Value.{Value}
use sapl_python.Python.Exception.{other}
use sapl_python.HttpPdp.Stream.{
  Connection, Ending, escaped, Retry, Local, backoff_delay, reconnect, read_frames, listen, round,
  stream, stream_sse,
}

module _ {ℓ} {D : Type ℓ} (same : D → D → Bool) (validate : Value → Option D) (seeds : List D)
    (retry : Retry) where
  abbrev is_invalid : Value → Bool
  is_invalid frame = elim (validate frame) [ none ↦ true | some _ ↦ false ]

  abbrev is_caught : Ending → Bool
  is_caught (escaped _) = false
  is_caught _ = true

  -- A connection without a valid frame that ends by itself or by a caught exception.
  abbrev pub is_fruitless : Connection → Bool
  is_fruitless c = all is_invalid c.frames && is_caught c.ending

  read_frames-invalid :
      (frames : List Value) (local : Local D)
      → all is_invalid frames ≡ true
      → read_frames same validate seeds retry frames local ≡ ([], local)
  unfolding read_frames
  read_frames-invalid [] local h = refl
  read_frames-invalid (f ∷ fs) local h = ground (arith, read_frames-invalid fs local)

  listen-fruitless :
      (c : Connection) (local : Local D)
      → is_fruitless c ≡ true
      → ((listen same validate seeds retry c local).raising ≡ none)
        × ((listen same validate seeds retry c local).local.attempt ≡ local.attempt + 1)
  unfolding listen
  listen-fruitless c local h =
      let frames = read_frames-invalid c.frames local in (ground arith, ground arith)

  reconnect_attempt :
      (local : Local D) (r : ℕ)
      → ((reconnect same validate seeds retry local r).raising
          ≡ (if ltb 1024 local.attempt then some (other "OverflowError") else none))
        × ((reconnect same validate seeds retry local r).local.attempt ≡ local.attempt)
  unfolding reconnect backoff_delay
  reconnect_attempt local r = (ground arith, ground arith)

  -- A fruitless round counts one attempt more, or its delay overflows.
  round-fruitless :
      (local : Local D) (c : Connection)
      → is_fruitless c ≡ true
      → ((round same validate seeds retry local c).raising
          ≡ (if ltb 1024 local.attempt then some (other "OverflowError") else none))
        × (local.attempt ≤ 1024
            → (round same validate seeds retry local c).local.attempt ≡ local.attempt + 1)
  unfolding round
  round-fruitless local c h =
      let before = reconnect same validate seeds retry local c.r in
      let (raises, kept) = reconnect_attempt local c.r in
      let (none_raised, counted) = listen-fruitless c before.local h in
      (ground arith, λ small. ground arith)

  stream-fruitless :
      (local : Local D) (cs : List Connection)
      → local.attempt ≤ 1025
      → all is_fruitless cs ≡ true
      → (stream same validate seeds retry local cs).raising
        ≡ (if ltb 1025 (local.attempt + length cs) then some (other "OverflowError") else none)
  unfolding stream
  stream-fruitless local [] small h = ground arith
  stream-fruitless local (c ∷ cs) small h =
      let (raises, counts) = round-fruitless local c (ground arith) in
      let rest = stream-fruitless (round same validate seeds retry local c).local cs in ground arith

  -- Over connections without a valid decision that end by themselves or by an exception that the
  -- code catches, the stream goes on for up to 1025 of them, and the 1026th attempt to connect
  -- raises OverflowError to the subscriber.
  pub stream_sse-outage :
      (cs : List Connection)
      → all is_fruitless cs ≡ true
      → (stream_sse same validate seeds retry cs).raising
        ≡ (if ltb 1025 (length cs) then some (other "OverflowError") else none)
  unfolding stream_sse
  stream_sse-outage cs h =
      let counted =
        stream-fruitless (record { attempt = 0; last_emitted = none }) cs (ground arith) h in
      ground arith
