-- ===== src/Worker/Remote.antt =====
-- `_handle_task` and `_execute_task` of offwork/worker/remote.py, over the local backend and its
-- connection. What a task does while it runs, and when, is the argument `Life`.
pub mod Reports
pub mod Quiet
pub mod Answers
pub mod Recurrence
pub mod Cancellation
pub mod Refusals
use offwork.Base.{
  ℕ, suc, ◌+◌, ◌-◌, String, Bool, true, false, not, ◌&&◌, ◌||◌, Option, none, some, List, [], ◌∷◌,
  ltb, leb, ◌==◌, string_eq, if◌then◌else◌, is_some,
}
use offwork.Core.Bytes.{Bytes}
use offwork.Core.Values.{Value}
use offwork.Core.Json.{Json, str, num, dict, Fields, get_field}
use offwork.Core.Task.{Task, to_dict, from_dict}
use offwork.Core.Envelope.{
  JsonText, Setting, Verifier, Rejection, Verdict, accepted, rejected, signed_fields,
  verify_task_envelope,
}
use offwork.Worker.Broker.{Broker}
use offwork.Worker.Result.{
  ResultEnvelope, Raised, success, stream_complete, cancelled, throttled, failure, to_json,
}
use offwork.Worker.Backend.{
  Answer, answer, broke, Net, Io, pure, fails, ◌>>=◌, ◌>>◌, attempt, submit, send_result,
  is_cancelled, check_throttle, record_throttle, cancel_schedule, is_schedule_cancelled,
  heartbeat_and_check_cancel, send_yield,
}
use offwork.Worker.Remote.Reports.{Progress, no_progress, on_progress, flush}

-- The worker's own signing identity, and what it is configured with. `signing` is none without
-- a root token. `describe` gives the exceptions of a rejected envelope.
pub record Site : Type 0 where
  pub text : JsonText
  pub net : Net
  pub signing : Option Setting
  pub client_id : String
  pub seed : Bytes
  pub public_key : Bytes
  pub describe : Rejection → Raised
  pub unreadable : Raised
  pub bad_seed : Raised

-- One event while the function runs: a round of the heartbeat loop, a value that it yields, a call
-- of `progress` with its JSON.
pub data Moment : Type 0 where
  beat : (now : ℕ) → Moment
  emits : (value : String) (now : ℕ) → Moment
  reports : (progress_json : String) (now : ℕ) → Moment

-- How the function ends by itself. A value may not be serializable, which raises in `to_json`.
pub data Ending : Type 0 where
  value : Answer Value → Ending
  exhausted : Ending
  crashed : Raised → Ending
  stopped : Ending

-- `streaming` is what `is_streaming` gives; the times are those of the clock at the start and the end,
-- `fresh_id` and `nonce` the random choices for a next occurrence.
pub record Life : Type 0 where
  pub started : ℕ
  pub streaming : Answer Bool
  pub during : List Moment
  pub ending : Ending
  pub ended : ℕ
  pub fresh_id : String
  pub nonce : String

abbrev pub Ran : Type 0
Ran = (Ending × ℕ × Progress) × Broker

-- A round of the heartbeat loop whose request fails is logged and forgotten.
abbrev pub after_beat : Answer Bool → (stop rest : Ran) → Ran
after_beat (answer true) stop rest = stop
after_beat (answer false) stop rest = rest
after_beat (broke exc) stop rest = rest

-- A yield whose request fails raises in the function.
abbrev pub after_yield : Answer (Unit {0}) → (Raised → Ran) → Ran → Ran
after_yield (answer _) crash rest = rest
after_yield (broke exc) crash rest = crash exc

-- `deadline_exceeded` and `runs_exhausted`
abbrev pub past : Option ℕ → ℕ → Bool
past none next_at = false
past (some deadline) next_at = ltb deadline next_at

abbrev pub last_run : Option ℕ → Bool
last_run none = false
last_run (some remaining) = leb remaining 1

abbrev pub one_less : Option ℕ → Option ℕ
one_less none = none
one_less (some remaining) = some (remaining - 1)

abbrev pub next_task : Task → String → ℕ → Task
next_task task fresh_id next_at = record task {
  task_id = fresh_id;
  scheduled_at = some next_at;
  recur_remaining = one_less task.recur_remaining;
}

unfoldable pub exhausted_at : Task → ℕ → Bool
exhausted_at task next_at = past task.recur_deadline next_at || last_run task.recur_remaining

module _ (site : Site) where
  open site use {text, net, signing, client_id, seed, public_key, describe, unreadable, bad_seed}

  abbrev signed_text : Option Fields → Answer String
  signed_text none = broke bad_seed
  signed_text (some fs) = answer (text.dumps fs)

  -- `_encode_task`
  abbrev encode_with : Option Setting → Task → (now : ℕ) (nonce : String) → Answer String
  encode_with none task now nonce = answer (text.dumps (to_dict task))
  encode_with (some g) task now nonce =
      signed_text (signed_fields g task client_id now nonce seed public_key)

  unfoldable pub encode_task : Task → (now : ℕ) (nonce : String) → Answer String
  encode_task task now nonce = encode_with signing task now nonce

  -- `_send_envelope`; `notify_result` of the local backend does nothing.
  unfoldable pub send_envelope : ℕ → ResultEnvelope → Io Unit
  send_envelope now envelope = send_result net now envelope.task_id (text.dumps (to_json envelope))

  abbrev id_of : Option Json → Option String
  id_of (some (str task_id)) = if task_id == "" then none else some task_id
  id_of _ = none

  -- `_extract_task_id`; a JSON value that is no dict has no `get`, which raises.
  unfoldable pub extract_task_id : Option Json → Answer (Option String)
  extract_task_id none = answer none
  extract_task_id (some (dict fs)) = answer (id_of (get_field "id" fs))
  extract_task_id (some _) = broke unreadable

  -- The function runs: what ended it, the count of values sent, and its progress.
  unfoldable pub running : String → List Moment → Ending → ℕ → Progress → Broker → Ran
  running task_id [] ending seq p b = ((ending, seq, p), b)
  running task_id (beat now ∷ rest) ending seq p b =
      let (stop, b') = heartbeat_and_check_cancel net now task_id b in
      after_beat stop ((stopped, seq, p), b') (running task_id rest ending seq p b')
  running task_id (emits v now ∷ rest) ending seq p b =
      let (sent, b') = send_yield net now task_id seq v b in
      after_yield sent (λ exc. ((crashed exc, seq, p), b'))
        (running task_id rest ending (suc seq) p b')
  running task_id (reports progress_json now ∷ rest) ending seq p b =
      let (p', b') = on_progress net now task_id progress_json p b in
      running task_id rest ending seq p' b'

  -- The envelope of an execution, and the one that is sent instead if it does not serialize.
  abbrev envelope_of : String → Ending → ℕ → ResultEnvelope
  envelope_of task_id (value (answer v)) seq = success task_id v
  envelope_of task_id (value (broke exc)) seq = failure task_id exc
  envelope_of task_id exhausted seq = stream_complete task_id seq
  envelope_of task_id (crashed exc) seq = failure task_id exc
  envelope_of task_id stopped seq = cancelled task_id

  -- "Record throttle cooldown after successful execution"
  unfoldable pub cool_down : ℕ → Task → Bool → Option ℕ → Io Unit
  cool_down now task true (some seconds) = record_throttle net now task.function_name seconds
  cool_down now task true none = pure tt
  cool_down now task false throttle = pure tt

  unfoldable pub submit_unless : Bool → ℕ → Answer String → Io Unit
  submit_unless true now encoded b = pure tt b
  submit_unless false now (answer task_json) b = submit net now task_json b
  submit_unless false now (broke exc) b = fails exc b

  -- The branches for a schedule that is exhausted, and for one that goes on unless it was cancelled.
  unfoldable pub reschedule_if : Bool → Life → Task → (next_at : ℕ) → String → Io Unit
  reschedule_if true life task next_at schedule_id = cancel_schedule net life.ended schedule_id
  reschedule_if false life task next_at schedule_id = do
    over ← is_schedule_cancelled net life.ended schedule_id
    submit_unless over life.ended
        (encode_task (next_task task life.fresh_id next_at) life.ended life.nonce)

  unfoldable pub reschedule : Life → Task → ℕ → String → Io Unit
  unfolding reschedule_if exhausted_at
  reschedule life task interval schedule_id =
      let next_at = life.ended + interval in
      reschedule_if (exhausted_at task next_at) life task next_at schedule_id

  -- "Re-enqueue recurring task"
  unfoldable pub re_enqueue : Life → Task → Option ℕ → Option String → Io Unit
  re_enqueue life task (some interval) (some schedule_id) =
      reschedule life task interval schedule_id
  re_enqueue life task (some interval) none = pure tt
  re_enqueue life task none schedule_id = pure tt

  -- What follows the end of the function: the last progress, the result, and the task's schedule.
  unfoldable pub conclude : Life → Task → ResultEnvelope → Io Unit
  conclude life task envelope = do
    send_result net life.ended task.task_id (text.dumps (to_json envelope))
    cool_down life.ended task (envelope.status == "ok") task.throttle
    re_enqueue life task task.recur_interval task.schedule_id

  unfoldable pub run_task : Life → Task → Io Unit
  run_task life task b =
      let (done, b') = running task.task_id life.during life.ending 0 no_progress b in
      let (_, b'') = flush net life.ended task.task_id done.2 b' in
      conclude life task (envelope_of task.task_id done.0 done.1) b''

  unfoldable pub if_streaming : Life → Task → Answer Bool → Io Unit
  if_streaming life task (broke exc) = send_envelope life.started (failure task.task_id exc)
  if_streaming life task (answer _) = run_task life task

  unfoldable pub start_task : Life → Task → Io Unit
  unfolding if_streaming
  start_task life task = if_streaming life task life.streaming

  unfoldable pub throttle_allows : Life → Task → Option ℕ → Io Bool
  throttle_allows life task none = pure true
  throttle_allows life task (some _) = check_throttle net life.started task.function_name

  unfoldable pub if_allowed : Life → Task → Bool → Io Unit
  if_allowed life task true = start_task life task
  if_allowed life task false = send_envelope life.started (throttled task.task_id)

  -- What `except Exception as exc` does in the checks.
  abbrev pub refuse : Life → Task → Raised → Io Unit
  refuse life task exc = send_envelope life.started (failure task.task_id exc)

  unfoldable pub if_cancelled : Life → Task → Bool → Io Unit
  if_cancelled life task true = pure tt
  if_cancelled life task false =
      attempt (throttle_allows life task task.throttle) (if_allowed life task) (refuse life task)

  unfoldable pub execute_task : Life → Task → Io Unit
  execute_task life task =
      attempt (is_cancelled net life.started task.task_id) (if_cancelled life task)
        (refuse life task)

  -- The answer to a task that is refused, if it has an id.
  abbrev pub answer_to : ℕ → Raised → Answer (Option String) → Io Unit
  answer_to now exc (answer (some task_id)) = send_envelope now (failure task_id exc)
  answer_to now exc (answer none) = pure tt
  answer_to now exc (broke crash) = fails crash

  unfoldable pub reject : ℕ → Raised → Option Json → Io Unit
  reject now exc loaded = answer_to now exc (extract_task_id loaded)

  -- `Task.from_json`; a task with no id gets a fresh one.
  abbrev load_task : String → Option Json → Option Task
  load_task fresh_id (some (dict fs)) = from_dict fresh_id fs
  load_task fresh_id _ = none

  abbrev handle_unsigned : Life → Option Json → Option Task → Io Unit
  handle_unsigned life loaded none = reject life.started unreadable loaded
  handle_unsigned life loaded (some task) = execute_task life task

  abbrev handle_verdict : Life → Option Json → Verdict → Io Unit
  handle_verdict life loaded (rejected reason) = reject life.started (describe reason) loaded
  handle_verdict life loaded (accepted task) = execute_task life task

  abbrev handle_with :
      Option Setting
      → (t clock : ℕ) → Life
      → String
      → Verifier
      → Broker
      → (Answer (Unit {0}) × Broker) × Verifier
  handle_with none t clock life task_json v b =
      let loaded = text.loads task_json in
      (handle_unsigned life loaded (load_task life.fresh_id loaded) b, v)
  handle_with (some g) t clock life task_json v b =
      let (verdict, v') = verify_task_envelope g task_json t clock v in
      (handle_verdict life (text.loads task_json) verdict b, v')

  -- `_handle_task`: `t` and `clock` are the times of the verification, `life.started` comes after
  -- the task's scheduled time.
  unfoldable pub handle_task :
      (t clock : ℕ) → Life → String → Verifier → Broker → (Answer (Unit {0}) × Broker) × Verifier
  handle_task t clock life task_json v b = handle_with signing t clock life task_json v b
