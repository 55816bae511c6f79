-- ===== src/HttpPdp/Stream.antt =====
-- http_pdp_client.py, `_stream_sse`: the reconnecting stream of decisions. A connection is what
-- `_sse_lines` makes of it: the JSON values it yields and how it ends. `same` is the equality of
-- decisions.
pub mod Tracking
pub mod Backoff
pub mod Freshness
pub mod Outage
use sapl_python.Prelude.{
  ℕ, ◌+◌, ◌-◌, ◌*◌, ◌^◌, Bool, true, false, List, [], ◌∷◌, ◌++◌, Option, none, some, ltb, leb,
  if◌then◌else◌,
}
use sapl_python.Python.Value.{Value}
use sapl_python.Python.Exception.{Exc, other}
use sapl_python.Python.Action.{Result, ok, raised}

-- `_backoff_delay` without rounding, in units of 2^-54 of the unit of `base` and `cap`. As these are
-- floats, Python raises where it turns an integer from 2^1024 on into one. `r` stands for the random
-- number r / 2^53 below 1.
unfoldable pub backoff_delay : ℕ → ℕ → ℕ → ℕ → Result ℕ
backoff_delay attempt base cap r =
    let raw_delay = base * 2 ^ (attempt - 1) in
    if leb 1024 (attempt - 1)
    then raised (other "OverflowError")
    else ok ((if ltb cap raw_delay then cap else raw_delay) * (2 ^ 53 + r))

-- How the generator of a connection ends: exhausted, or by an exception that `_stream_sse` catches
-- (_SseBufferOverflowError, TimeoutError, httpx.HTTPError or OSError), or by any other one.
pub data Ending : Type 0 where
  exhausted caught : Ending
  escaped : Exc → Ending

-- `r` is the random number that is drawn before the connection.
pub record Connection : Type 0 where
  pub r : ℕ
  pub frames : List Value
  pub ending : Ending

pub data Output {ℓ} (D : Type ℓ) : Type ℓ where
  yielded : D → Output D
  slept : ℕ → Output D

pub record Retry : Type 0 where
  pub retry_base : ℕ
  pub retry_cap : ℕ

-- The local variables; `none` is _UNSET.
pub record Local {ℓ} (D : Type ℓ) : Type ℓ where
  pub attempt : ℕ
  pub last_emitted : Option D

-- What a part of the generator yields, its variables behind it, and the exception that leaves it.
pub record Progress {ℓ} (D : Type ℓ) : Type ℓ where
  pub local : Local D
  pub outputs : List (Output D)
  pub raising : Option Exc

module _ {ℓ} {D : Type ℓ} (same : D → D → Bool) where
  abbrev pub is_last : D → Option D → Bool
  is_last d none = false
  is_last d (some last) = same d last

  -- `if d != last_emitted: last_emitted = d; yield d`
  abbrev pub offer : D → Option D → List (Output D) × Option D
  offer d last = if is_last d last then ([], last) else (yielded d ∷ [], some d)

  unfoldable pub offer_all : List D → Option D → List (Output D) × Option D
  offer_all [] last = ([], last)
  offer_all (d ∷ ds) last =
      let (os, last') = offer d last in
      let (rest, last'') = offer_all ds last' in (os ++ rest, last'')

module _ {ℓ} {D : Type ℓ} (same : D → D → Bool) (validate : Value → Option D) (seeds : List D)
    (retry : Retry) where
  -- The seeds and the wait before a connection.
  abbrev pub seed : Local D → Result ℕ → Progress D
  seed local (raised e) = record { local = local; outputs = []; raising = some e }
  seed local (ok delay) =
      let (os, last) = offer_all same seeds local.last_emitted in
      record {
        local = record local { last_emitted = last };
        outputs = os ++ slept delay ∷ [];
        raising = none;
      }

  -- The part before a connection, from the second round on.
  unfoldable pub reconnect : Local D → ℕ → Progress D
  reconnect local r =
      if ltb 0 local.attempt
      then seed local (backoff_delay local.attempt retry.retry_base retry.retry_cap r)
      else record { local = local; outputs = []; raising = none }

  -- What a frame is after validation; a valid one resets the attempts.
  abbrev pub take_frame :
      Option D → Local D → (Local D → List (Output D) × Local D) → List (Output D) × Local D
  take_frame none local rest = rest local
  take_frame (some d) local rest =
      let (os, last) = offer same d local.last_emitted in
      let (os', local') = rest (record { attempt = 0; last_emitted = last }) in (os ++ os', local')

  -- The loop over the frames.
  unfoldable pub read_frames : List Value → Local D → List (Output D) × Local D
  read_frames [] local = ([], local)
  read_frames (frame ∷ frames) local =
      take_frame (validate frame) local (λ next. read_frames frames next)

  abbrev after : Ending → Local D → Local D × Option Exc
  after (escaped e) local = (local, some e)
  after _ local = (record local { attempt = local.attempt + 1 }, none)

  -- The `try` statement.
  unfoldable pub listen : Connection → Local D → Progress D
  unfolding read_frames
  listen connection local =
      let (os, local') = read_frames connection.frames local in
      let (local'', e) = after connection.ending local' in
      record { local = local''; outputs = os; raising = e }

  -- One round of the `while` loop.
  unfoldable pub round : Local D → Connection → Progress D
  unfolding reconnect listen
  round local connection =
      let before = reconnect local connection.r in
      let behind = listen connection before.local in
      elim before.raising [
        | none ↦ record behind { outputs = before.outputs ++ behind.outputs }
        | some e ↦ before
      ]

  -- The loop over the connections, as far as they are known: it waits for the next one, or raises.
  unfoldable pub stream : Local D → List Connection → Progress D
  unfolding round
  stream local [] = record { local = local; outputs = []; raising = none }
  stream local (connection ∷ connections) =
      let p = round local connection in
      let rest = stream p.local connections in
      elim p.raising [ none ↦ record rest { outputs = p.outputs ++ rest.outputs } | some e ↦ p ]

  unfoldable pub stream_sse : List Connection → Progress D
  unfolding stream
  stream_sse connections = stream (record { attempt = 0; last_emitted = none }) connections
