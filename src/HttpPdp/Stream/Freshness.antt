-- ===== src/HttpPdp/Stream/Freshness.antt =====
-- http_pdp_client.py, `_stream_sse`: what the subscriber is told over outages and repetitions.
use sapl_python.Prelude.{◌≡◌, refl, Bool, true, List, [], ◌∷◌, Option, none, arith, not, ap}
use sapl_python.Python.Value.{Value}
use sapl_python.HttpPdp.Stream.{
  Connection, Output, yielded, slept, Retry, is_last, offer_all, stream_sse,
}
use sapl_python.HttpPdp.Stream.Tracking.{each, each-stream}

module _ {ℓ} {D : Type ℓ} (same : D → D → Bool) where
  -- At a wait for a reconnection the decision yielded last is the seed.
  abbrev pub is_informed : D → Option D → Output D → Bool
  is_informed seed last (yielded _) = true
  is_informed seed last (slept _) = is_last same seed last

  -- A decision differs from the one yielded last.
  abbrev pub is_news : Option D → Output D → Bool
  is_news last (yielded d) = not (is_last same d last)
  is_news last (slept _) = true

  -- However the connections go, whenever the client waits for a reconnection the decision that the
  -- subscriber got last is the seed: no decision outlives the loss of the connection. The equality
  -- has to be reflexive at the seed.
  pub informed-stream_sse :
      (validate : Value → Option D) (retry : Retry) (connections : List Connection) (seed : D)
      → same seed seed ≡ true
      → each
          (is_informed seed)
          none
          (stream_sse same validate (seed ∷ []) retry connections).outputs
        ≡ true
  unfolding stream_sse offer_all
  informed-stream_sse validate retry connections seed reflexive =
      each-stream same validate (seed ∷ []) retry (is_informed seed) (λ last d h. refl)
        (λ last n. ground arith) (record { attempt = 0; last_emitted = none }) connections

  -- The subscriber never gets a decision that equals the one it got before, whatever the seeds.
  news-stream_sse :
      (validate : Value → Option D) (seeds : List D) (retry : Retry) (connections : List Connection)
      → each is_news none (stream_sse same validate seeds retry connections).outputs ≡ true
  unfolding stream_sse
  news-stream_sse validate seeds retry connections =
      each-stream same validate seeds retry is_news (λ last d h. ap not h) (λ last n. refl)
        (record { attempt = 0; last_emitted = none }) connections
