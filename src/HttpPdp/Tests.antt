-- ===== src/HttpPdp/Tests.antt =====
-- Requests and streams in a journalling world, and the theorems at them.
use sapl_python.Prelude.{
  ◌==◌, str_eq, ◌≡◌, ◌↔◌, ◌≤◌, ◌*◌, ◌^◌, ℕ, refl, true, false, List, [], ◌∷◌, none, some, inl,
  String, arith, if◌then◌else◌, Option,
}
use sapl_python.Python.Value.{Value, str, dict, field, end, null, pos, int}
use sapl_python.Python.Exception.{permit, indeterminate, decision_of, other}
use sapl_python.Python.Action.{ok, raised}
use sapl_python.Subscription.{to_dict}
use sapl_python.HttpPdp.Auth.{Credentials}
use sapl_python.HttpPdp.Sse.{sse_frames, frames_of, payload, read_chunks, drain, partition}
use sapl_python.HttpPdp.Sse.Lines.{sse_frames-split}
use sapl_python.HttpPdp.Validation.{verb_of, validate_decision, reject_from, reject_duplicate_keys}
use sapl_python.Python.Value.{Fields}
use sapl_python.HttpPdp.Validation.Verbs.{named_verb, verb-validate_decision}
use sapl_python.HttpPdp.Request.{
  decide_once_route, Response, Client, decide_once, resolve_authorization, try_post, post_json,
}
use sapl_python.HttpPdp.Request.Authentic.{Answered, decide_once-authentic}
use sapl_python.HttpPdp.Request.Outage.{refused, decide_once-indeterminate}
use sapl_python.HttpPdp.Stream.{
  Connection, Retry, caught, exhausted, offer_all, reconnect, read_frames, listen, round, stream,
  stream_sse, backoff_delay,
}
use sapl_python.HttpPdp.Stream.Tracking.{each}
use sapl_python.HttpPdp.Stream.Freshness.{is_informed, informed-stream_sse}
use sapl_python.HttpPdp.Stream.Outage.{stream_sse-outage}
use sapl_python.HttpPdp.Stream.Backoff.{nominal, backoff_delay-bounds}
use sapl_python.Samples.{Journal, note, subscription}

program : Unit {0}
unfolding verb_of validate_decision reject_from reject_duplicate_keys decide_once
    resolve_authorization try_post post_json offer_all reconnect read_frames listen round stream
    stream_sse backoff_delay
program = tt

abbrev verdict : String → Value
verdict verb = dict (field "decision" (str verb) end)

verb-validate_decision_example :
    ((validate_decision (verdict "PERMIT")).decision ≡ permit)
    ↔ (named_verb (verdict "PERMIT") ≡ some (str "PERMIT"))
verb-validate_decision_example = verb-validate_decision (verdict "PERMIT") permit (λ p. cc)

abbrev repeated : List (String × Value)
repeated = ("a", null) ∷ ("b", null) ∷ ("a", null) ∷ []

-- The second token is accepted.
abbrev answer : List String → Response
answer [] = record { status_code = 401; json = λ hook. raised (other "JSONDecodeError") }
answer (line ∷ lines) =
    let rest = answer lines in
    if str_eq line "invalidate"
    then record { status_code = 200; json = λ hook. ok (verdict "PERMIT") }
    else rest

abbrev client : Client Journal
client = record {
  token_provider = some (record {
    get_access_token = λ journal. (ok "token", note "token" journal);
    invalidate = note "invalidate";
  });
  static_authorization = none;
  post = λ route body authorization journal. (ok (answer journal), note "post" journal);
  is_request_error = λ e. false;
}

retried_request :
    decide_once client subscription []
    ≡ (ok (decision_of permit), "token" ∷ "post" ∷ "invalidate" ∷ "token" ∷ "post" ∷ [])
unfolding program
retried_request = refl

decide_once-authentic_example :
    (raw : Value) × Answered client decide_once_route (inl (to_dict subscription)) none raw
    × (decision_of permit ≡ validate_decision raw)
unfolding program
decide_once-authentic_example =
    decide_once-authentic client subscription [] (decision_of permit) refl (λ p. cc)

abbrev broken : Client Journal
broken = record client {
  token_provider = none;
  post = λ route body authorization journal. (raised (other "UnicodeDecodeError"), journal);
}

-- An exception that no `except` clause names leaves the client.
broken_request : decide_once broken subscription [] ≡ (raised (other "UnicodeDecodeError"), [])
unfolding program
broken_request = refl

abbrev overloaded : Client Journal
overloaded = record client {
  token_provider = none;
  post = λ route body authorization journal.
      (ok (record { status_code = 503; json = λ hook. ok null }), note "post" journal);
}

decide_once-indeterminate_example :
    decide_once overloaded subscription [] ≡ (ok (decision_of indeterminate), "post" ∷ [])
decide_once-indeterminate_example =
    decide_once-indeterminate overloaded subscription [] ("post" ∷ [])
      (ok (record { status_code = 503; json = λ hook. ok null })) refl refl (refused refl)

abbrev retry : Retry
retry = record { retry_base = 1; retry_cap = 30 }

-- Decisions are numbers here, and the seed is 0.
abbrev numbered : Value → Option ℕ
numbered (int (pos n)) = some n
numbered _ = none

abbrev connections : List Connection
connections =
    record { r = 0; frames = int (pos 1) ∷ null ∷ int (pos 1) ∷ []; ending = caught }
    ∷ record { r = 0; frames = []; ending = exhausted }
    ∷ record { r = 0; frames = int (pos 2) ∷ []; ending = caught }
    ∷ []

informed-stream_sse_example :
    each (is_informed ◌==◌ 0) none (stream_sse ◌==◌ numbered (0 ∷ []) retry connections).outputs
    ≡ true
informed-stream_sse_example = informed-stream_sse ◌==◌ numbered retry connections 0 refl

abbrev silent : Connection
silent = record { r = 0; frames = null ∷ []; ending = caught }

stream_sse-outage_example :
    (stream_sse ◌==◌ numbered (0 ∷ []) retry (silent ∷ silent ∷ [])).raising ≡ none
stream_sse-outage_example =
    stream_sse-outage ◌==◌ numbered (0 ∷ []) retry (silent ∷ silent ∷ []) refl

backoff_delay-bounds_example :
    (delay : ℕ) × (backoff_delay 3 1 30 5 ≡ ok delay)
    × (nominal 3 1 30 * 2 ^ 53 ≤ delay)
    × (delay ≤ nominal 3 1 30 * 2 ^ 54)
    × (nominal 3 1 30 ≤ 30)
backoff_delay-bounds_example = backoff_delay-bounds 3 1 30 5 (omega arith) (omega arith)

abbrev credentials : Credentials
credentials = record { token = some "abc"; username = none; secret = some ""; has_provider = false }

-- JSON is a text here.
abbrev as_text : String → Option Value
as_text s = some (str s)

sse_frames-split_example :
    (sse_frames as_text ("data: a\n: keep" ∷ "-alive\n\nda" ∷ "ta:b\nc" ∷ [])).0
    ≡ str "a" ∷ str "b" ∷ []
unfolding sse_frames frames_of payload read_chunks drain partition
sse_frames-split_example =
    sse_frames-split as_text ("data: a\n: keep" ∷ "-alive\n\nda" ∷ "ta:b\nc" ∷ []) refl

abbrev several_verdicts : Fields
several_verdicts = field "a" null (field "b" (verdict "PERMIT") end)
