-- ===== src/Worker/Result/Outcome.antt =====
-- `ResultEnvelope` of offwork/worker/result.py, from the worker that writes it to the client.
use offwork.Base.{ℕ, String, ◌<>◌, ◌≡◌, Option, none, some, string_eq}
use offwork.Core.Json.{field_laws}
use offwork.Core.Values.{Value, none_value}
use offwork.Core.Values.RoundTrip.{received, IsSendable, resolve-to_jsonable}
use offwork.Worker.Result.{
  ResultEnvelope, Raised, success, stream_complete, cancelled, throttled, failure, to_json,
  from_json, task_cancelled, throttle_error, remote_error, Unwrapped, value, raises, unwrap,
}

-- The envelopes that a worker and a client make.
pub data Report : Type 0 where
  succeeded : Value → Report
  streamed : ℕ → Report
  was_cancelled : Report
  was_throttled : Report
  failed : Raised → Report

abbrev pub envelope : String → Report → ResultEnvelope
envelope task_id (succeeded v) = success task_id v
envelope task_id (streamed n) = stream_complete task_id n
envelope task_id was_cancelled = cancelled task_id
envelope task_id was_throttled = throttled task_id
envelope task_id (failed exc) = failure task_id exc

-- The report as a client reads it.
abbrev pub arrived : Report → Report
arrived (succeeded v) = succeeded (received v)
arrived r = r

-- The value that a report carries has no dict that reads as a sentinel.
abbrev pub IsReadable : Report → Type 0
IsReadable (succeeded v) = IsSendable v
IsReadable _ = Unit

-- Every envelope that the class methods make survives its JSON, with its value as a client sees it.
pub envelope_round_trip :
    (task_id : String) (r : Report)
    → IsReadable r
    → from_json (to_json (envelope task_id r)) ≡ some (envelope task_id (arrived r))
unfolding from_json to_json string_eq
envelope_round_trip task_id (succeeded v) h = simp (field_laws, resolve-to_jsonable v h)
envelope_round_trip task_id (streamed n) h = simp (field_laws)
envelope_round_trip task_id was_cancelled h = simp (field_laws)
envelope_round_trip task_id was_throttled h = simp (field_laws)
envelope_round_trip task_id (failed exc) h = simp (field_laws)

-- What the client's `await` gives for a report.
abbrev pub expected : String → Report → Unwrapped
expected task_id (succeeded v) = value (received v)
expected task_id (streamed n) = value none_value
expected task_id was_cancelled = raises (task_cancelled ("Task " <> task_id <> " was cancelled"))
expected task_id was_throttled =
    raises (throttle_error ("Task " <> task_id <> " was throttled (rate-limited)"))
expected task_id (failed exc) =
    raises (remote_error (exc.type_name <> ": " <> exc.message) (some exc.traceback))

abbrev pub read_report : String → Option ResultEnvelope → Option Unwrapped
read_report task_id none = none
read_report task_id (some e) = some (unwrap task_id e)
