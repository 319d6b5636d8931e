-- ===== src/Worker/Result.antt =====
-- `ResultEnvelope` of offwork/worker/result.py with the parts of `Result` that read it, and
-- `resolve_timeout` of offwork/core/_timeout.py.
pub mod Outcome
use offwork.Base.{
  ◌>>=◌, ℕ, String, ◌<>◌, Bool, true, false, Option, none, some, ◌==◌, string_eq, if◌then◌else◌,
  is_some, ◌&&◌,
}
use offwork.Core.Json.{Json, null, num, str, Fields, end, field, get_field}
use offwork.Core.Values.{Value, none_value, to_jsonable, resolve}
use offwork.Core.Task.{read_opt_num, read_opt_str}

pub record ResultEnvelope : Type 0 where
  pub task_id : String
  pub status : String
  pub result : Value
  pub error_type : Option String
  pub error_message : Option String
  pub error_traceback : Option String
  pub stream_yields : Option ℕ

-- The fields that a class method leaves out.
abbrev bare : String → String → ResultEnvelope
bare task_id status = record {
  task_id = task_id;
  status = status;
  result = none_value;
  error_type = none;
  error_message = none;
  error_traceback = none;
  stream_yields = none;
}

abbrev pub success : String → Value → ResultEnvelope
success task_id result = record (bare task_id "ok") { result = result }

abbrev pub stream_complete : String → ℕ → ResultEnvelope
stream_complete task_id yield_count = record (bare task_id "ok") {
  stream_yields = some yield_count;
}

abbrev pub cancelled : String → ResultEnvelope
cancelled task_id = bare task_id "cancelled"

abbrev pub throttled : String → ResultEnvelope
throttled task_id = bare task_id "throttled"

-- An exception, as its type's name, its text and its traceback.
pub record Raised : Type 0 where
  pub type_name : String
  pub message : String
  pub traceback : String

abbrev pub failure : String → Raised → ResultEnvelope
failure task_id exc = record (bare task_id "error") {
  error_type = some exc.type_name;
  error_message = some exc.message;
  error_traceback = some exc.traceback;
}

abbrev pub or_null : Option String → Json
or_null none = null
or_null (some s) = str s

-- The dict that `to_json` dumps.
abbrev ok_fields : ResultEnvelope → Fields
ok_fields e = elim e.stream_yields [
  | some n ↦ field "stream_yields" (num n) end
  | none ↦ field "result" (to_jsonable e.result) end
]

abbrev error_fields : ResultEnvelope → Fields
error_fields e = field "error_type" (or_null e.error_type) (
    field "error_message" (or_null e.error_message)
      (field "error_traceback" (or_null e.error_traceback) end))

unfoldable pub to_json : ResultEnvelope → Fields
to_json e = field "task_id" (str e.task_id) (
    field "status" (str e.status) (
      if e.status == "ok"
      then ok_fields e
      else if e.status == "error"
      then error_fields e
      else end))

abbrev pub read_str : Option Json → Option String
read_str (some (str s)) = some s
read_str _ = none

-- `_resolve(data.get("result"), {})`
abbrev pub resolved : Option Json → Option Value
resolved none = some none_value
resolved (some v) = resolve v

-- `none` is the exception of a missing key or of `_resolve`, or a field of a type that no envelope
-- has.
unfoldable pub from_json : Fields → Option ResultEnvelope
from_json d = do
  task_id ← read_str (get_field "task_id" d)
  status ← read_str (get_field "status" d)
  error_type ← read_opt_str (get_field "error_type" d)
  error_message ← read_opt_str (get_field "error_message" d)
  error_traceback ← read_opt_str (get_field "error_traceback" d)
  stream_yields ← read_opt_num (get_field "stream_yields" d)
  result ← if status == "ok" then resolved (get_field "result" d) else some none_value
  some (record {
    task_id = task_id;
    status = status;
    result = result;
    error_type = error_type;
    error_message = error_message;
    error_traceback = error_traceback;
    stream_yields = stream_yields;
  })

-- The exceptions of `_unwrap` and `exception`; an f-string prints None as "None".
pub data Failure : Type 0 where
  task_cancelled : (message : String) → Failure
  throttle_error : (message : String) → Failure
  remote_error : (message : String) (traceback : Option String) → Failure

pub data Unwrapped : Type 0 where
  value : Value → Unwrapped
  raises : Failure → Unwrapped

abbrev pub shown : Option String → String
shown none = "None"
shown (some s) = s

abbrev cancelled_error : String → Failure
cancelled_error task_id = task_cancelled ("Task " <> task_id <> " was cancelled")

abbrev throttled_error : String → Failure
throttled_error task_id = throttle_error ("Task " <> task_id <> " was throttled (rate-limited)")

abbrev remote : ResultEnvelope → Failure
remote e = remote_error (shown e.error_type <> ": " <> shown e.error_message) e.error_traceback

-- `_unwrap` of the `Result` of a task that holds the envelope.
unfoldable pub unwrap : String → ResultEnvelope → Unwrapped
unwrap task_id e =
    if e.status == "cancelled"
    then raises (cancelled_error task_id)
    else if e.status == "throttled"
    then raises (throttled_error task_id)
    else if e.status == "error"
    then raises (remote e)
    else value e.result

-- `exception` on a held envelope.
unfoldable pub exception : String → ResultEnvelope → Option Failure
exception task_id e =
    if e.status == "cancelled"
    then some (cancelled_error task_id)
    else if e.status == "throttled"
    then some (throttled_error task_id)
    else if e.status == "error"
    then some (remote e)
    else none

-- `TimeoutIn`: times in milliseconds, -1 a case of its own.
pub data TimeoutIn : Type 0 where
  flag : Bool → TimeoutIn
  minus_one : TimeoutIn
  seconds : ℕ → TimeoutIn
  timedelta : ℕ → TimeoutIn

-- `none` waits forever.
unfoldable pub resolve_timeout : TimeoutIn → Option ℕ
resolve_timeout (flag false) = none
resolve_timeout (flag true) = some 0
resolve_timeout minus_one = none
resolve_timeout (seconds ms) = some ms
resolve_timeout (timedelta ms) = some ms
