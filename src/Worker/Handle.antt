-- ===== src/Worker/Handle.antt =====
-- `Result` of offwork/worker/result.py, the client's handle of a task, with `get_result` of
-- offwork/worker/backends/local.py. The clock's
-- readings, and what others ask of the broker between the handle's own requests, are arguments.
pub mod Schedule
pub mod Waiting
pub mod Delivery
pub mod Cancelled
use offwork.Base.{
  ℕ, zero, suc, ◌+◌, ◌-◌, ◌*◌, ◌/◌, String, ◌<>◌, Bool, true, false, not, Option, none, some, List,
  [], ◌∷◌, ltb, leb, ◌=ℕ◌, ◌==◌, string_eq, if◌then◌else◌, is_some,
}
use offwork.Core.Json.{Json, dict}
use offwork.Core.Envelope.{JsonText}
use offwork.Worker.Broker.{Request, Broker, serve}
use offwork.Worker.Result.{
  ResultEnvelope, Raised, cancelled, to_json, from_json, Unwrapped, unwrap, TimeoutIn,
  resolve_timeout,
}
use offwork.Worker.Backend.{
  Answer, answer, broke, Net, try_get_result, get_heartbeat, cancel_task, send_result,
  cancel_schedule, is_schedule_cancelled,
}

-- A call returns, raises, or still waits when the readings of the clock end.
pub data Call {ℓ} (A : Type ℓ) : Type ℓ where
  returned : A → Call A
  threw : Raised → Call A
  waits : Call A

-- One round of a loop that polls: `meanwhile` is what others ask before its request, `asked` the
-- time of the request, `looked` the clock when the loop compares it with its deadline.
pub record Tick : Type 0 where
  pub meanwhile : List (Request × ℕ)
  pub asked : ℕ
  pub looked : ℕ

abbrev pub timeout_error : String → Raised
timeout_error task_id = record {
  type_name = "TimeoutError";
  message = "Timed out waiting for result of task " <> task_id;
  traceback = "";
}

abbrev pub deadline_of : ℕ → Option ℕ → Option ℕ
deadline_of start none = none
deadline_of start (some timeout) = some (start + timeout)

-- `deadline is not None and time.monotonic() >= deadline`
abbrev pub reached : Option ℕ → ℕ → Bool
reached none now = false
reached (some deadline) now = leb deadline now

-- What follows the request of a round.
abbrev pub after_try :
    String → Answer (Option String) → Bool → Broker → Call String × Broker → Call String × Broker
after_try task_id (broke exc) late b rest = (threw exc, b)
after_try task_id (answer (some raw)) late b rest = (returned raw, b)
after_try task_id (answer none) true b rest = (threw (timeout_error task_id), b)
after_try task_id (answer none) false b rest = rest

-- `slice_seconds`
abbrev pub slice_of : ℕ → ℕ
slice_of stall_timeout =
    let half = stall_timeout / 2 in
    let short = if leb half 30000 then half else 30000 in if leb 1000 short then short else 1000

-- `min(longest, remaining)`
abbrev pub bounded : ℕ → Option ℕ → ℕ → ℕ
bounded longest none now = longest
bounded longest (some deadline) now =
    let remaining = deadline - now in if leb longest remaining then longest else remaining

-- A slice of a wait: `checked` is the clock at its deadline, `started` when `get_result` is called;
-- then, after what others ask, the heartbeat is read at `beat_at` and the clock at `looked`.
pub record Slice : Type 0 where
  pub checked : ℕ
  pub started : ℕ
  pub ticks : List Tick
  pub meanwhile : List (Request × ℕ)
  pub beat_at : ℕ
  pub looked : ℕ

-- `last_hb_value` and `last_hb_change`
pub record Pulse : Type 0 where
  pub value : Option ℕ
  pub change : Option ℕ

abbrev pub no_pulse : Pulse
no_pulse = record { value = none; change = none }

abbrev pub same_beat : ℕ → Option ℕ → Bool
same_beat hb none = false
same_beat hb (some last) = hb =ℕ last

-- A heartbeat that differs from the last one is noted with the time.
unfoldable pub note_beat : Option ℕ → ℕ → Pulse → Pulse
note_beat none now pulse = pulse
note_beat (some hb) now pulse =
    if same_beat hb pulse.value then pulse else record { value = some hb; change = some now }

-- `(now - last_hb_change) > stall_timeout`
abbrev pub overdue : ℕ → ℕ → Option ℕ → Bool
overdue stall_timeout now none = false
overdue stall_timeout now (some change) = ltb stall_timeout (now - change)

-- The message goes on with the two numbers.
abbrev pub task_stalled : String → Raised
task_stalled task_id = record {
  type_name = "TaskStalled";
  message = "Task " <> task_id <> " stalled";
  traceback = "";
}

-- A timeout of `get_result` is caught, and counts as no answer yet.
abbrev pub caught : Call String → Call (Option String)
caught (returned raw) = returned (some raw)
caught (threw exc) = if exc.type_name == "TimeoutError" then returned none else threw exc
caught waits = waits

-- The handle keeps its envelope once it has one.
abbrev pub State : Type 0
State = Option ResultEnvelope × Broker

module _ (text : JsonText) (net : Net) (unreadable : Raised) (task_id : String) where
  unfoldable pub get_result : Option ℕ → List Tick → Broker → Call String × Broker
  get_result deadline [] b = (waits, b)
  get_result deadline (tick ∷ ticks) b =
      let (raw, b') = try_get_result net tick.asked task_id (serve tick.meanwhile b) in
      after_try task_id raw (reached deadline tick.looked) b' (get_result deadline ticks b')

  -- `ResultEnvelope.from_json`
  abbrev pub fields_of : Option Json → Option ResultEnvelope
  fields_of (some (dict fs)) = from_json fs
  fields_of _ = none

  unfoldable pub read_envelope : String → Option ResultEnvelope
  read_envelope raw = fields_of (text.loads raw)

  -- `done` and `cancelled` of the handle
  abbrev pub done : Option ResultEnvelope → Bool
  done envelope = is_some envelope

  abbrev pub is_cancelled : Option ResultEnvelope → Bool
  is_cancelled none = false
  is_cancelled (some e) = e.status == "cancelled"

  -- The envelope that a text gives becomes the handle's.
  abbrev keep :
      {A : Type 0} → (ResultEnvelope → A) → Broker → Option ResultEnvelope → Call A × State
  keep f b none = (threw unreadable, (none, b))
  keep f b (some e) = (returned (f e), (some e, b))

  -- The end of `wait` and `check`, which return the handle itself.
  abbrev pub settle_poll : Call (Option String) → Broker → Call (Unit {0}) × State
  settle_poll (returned none) b = (returned tt, (none, b))
  settle_poll (returned (some raw)) b = keep (λ _. tt) b (read_envelope raw)
  settle_poll (threw exc) b = (threw exc, (none, b))
  settle_poll waits b = (waits, (none, b))

  abbrev pub once : Answer (Option String) → Call (Option String)
  once (answer raw) = returned raw
  once (broke exc) = if exc.type_name == "TimeoutError" then returned none else threw exc

  -- `0.0` asks once, at the time of the call.
  abbrev poll_for : Option ℕ → (start : ℕ) → List Tick → Broker → Call (Unit {0}) × State
  poll_for none start ticks b =
      let (raw, b') = get_result none ticks b in settle_poll (caught raw) b'
  poll_for (some zero) start ticks b =
      let (raw, b') = try_get_result net start task_id b in settle_poll (once raw) b'
  poll_for (some (suc n)) start ticks b =
      let (raw, b') = get_result (some (start + suc n)) ticks b in settle_poll (caught raw) b'

  -- `wait` and `check`, which differ in the default of the timeout only.
  unfoldable pub wait : TimeoutIn → (start : ℕ) → List Tick → State → Call (Unit {0}) × State
  wait timeout start ticks (some e, b) = (returned tt, (some e, b))
  wait timeout start ticks (none, b) = poll_for (resolve_timeout timeout) start ticks b

  -- What follows the heartbeat of a slice.
  abbrev pub after_beat_read :
      Answer (Option ℕ)
      → ℕ
      → ℕ
      → Pulse
      → Broker
      → (Pulse → Call (Unit {0}) × State)
      → Call (Unit {0}) × State
  after_beat_read (broke exc) stall_timeout now pulse b rest = (threw exc, (none, b))
  after_beat_read (answer hb) stall_timeout now pulse b rest =
      if overdue stall_timeout now (note_beat hb now pulse).change
      then (threw (task_stalled task_id), (none, b))
      else rest (note_beat hb now pulse)

  -- What follows `get_result` in a slice; `quiet` is the case of no answer yet.
  abbrev pub after_slice :
      Call (Option String) → Broker → Call (Unit {0}) × State → Call (Unit {0}) × State
  after_slice (returned none) b quiet = quiet
  after_slice (returned (some raw)) b quiet = keep (λ _. tt) b (read_envelope raw)
  after_slice (threw exc) b quiet = (threw exc, (none, b))
  after_slice waits b quiet = (waits, (none, b))

  -- `_wait_with_stall_detection`
  unfoldable pub stall_loop :
      Option ℕ → (stall_timeout : ℕ) → Pulse → List Slice → Broker → Call (Unit {0}) × State
  stall_loop deadline stall_timeout pulse [] b = (waits, (none, b))
  stall_loop deadline stall_timeout pulse (s ∷ slices) b =
      let wait_for = bounded (slice_of stall_timeout) deadline s.checked in
      let (raw, b') = get_result (some (s.started + wait_for)) s.ticks b in
      let (hb, b'') = get_heartbeat net s.beat_at task_id (serve s.meanwhile b') in
      let quiet =
        after_beat_read hb stall_timeout s.looked pulse b''
          (λ pulse'. stall_loop deadline stall_timeout pulse' slices b'') in
      if reached deadline s.checked
      then (threw (timeout_error task_id), (none, b))
      else after_slice (caught raw) b' quiet

  -- `_unwrap` at the end of `result`.
  abbrev pub finish : Call (Unit {0}) × State → Call Unwrapped × State
  finish (returned tt, (some e, b)) = (returned (unwrap task_id e), (some e, b))
  finish (returned tt, (none, b)) = (threw unreadable, (none, b))
  finish (threw exc, s) = (threw exc, s)
  finish (waits, s) = (waits, s)

  -- `result` without stall detection does not catch the timeout.
  abbrev uncaught : Call String → Broker → Call (Unit {0}) × State
  uncaught (returned raw) b = keep (λ _. tt) b (read_envelope raw)
  uncaught (threw exc) b = (threw exc, (none, b))
  uncaught waits b = (waits, (none, b))

  abbrev await_for :
      Option ℕ → Option ℕ → (start : ℕ) → List Tick → List Slice → Broker → Call (Unit {0}) × State
  await_for resolved none start ticks slices b =
      let (raw, b') = get_result (deadline_of start resolved) ticks b in uncaught raw b'
  await_for resolved (some stall_timeout) start ticks slices b =
      stall_loop (deadline_of start resolved) stall_timeout no_pulse slices b

  unfoldable pub result :
      TimeoutIn → Option ℕ → (start : ℕ) → List Tick → List Slice → State → Call Unwrapped × State
  result timeout stall_timeout start ticks slices (some e, b) =
      (returned (unwrap task_id e), (some e, b))
  result timeout stall_timeout start ticks slices (none, b) =
      finish (await_for (resolve_timeout timeout) stall_timeout start ticks slices b)

  -- A cancelled envelope is sent and kept; `_do_cancel` then returns `confirmed`. The request may raise.
  abbrev pub seeded : Answer (Unit {0}) → Bool → Option ResultEnvelope → Broker → Call Bool × State
  seeded (answer _) confirmed held b = (returned confirmed, (some (cancelled task_id), b))
  seeded (broke exc) confirmed held b = (threw exc, (held, b))

  unfoldable pub seed : ℕ → Bool → State → Call Bool × State
  seed now confirmed (held, b) =
      let (sent, b') = send_result net now task_id (text.dumps (to_json (cancelled task_id))) b in
      seeded sent confirmed held b'

  abbrev pub confirmed_by :
      Option ResultEnvelope → Option ResultEnvelope → Broker → Call Bool × State
  confirmed_by (some e) held b = (returned true, (some e, b))
  confirmed_by none held b = (threw unreadable, (held, b))

  abbrev pub after_wait :
      Call (Option String) → Option ResultEnvelope → Broker → Call Bool × State → Call Bool × State
  after_wait (returned none) held b rest = rest
  after_wait (returned (some raw)) held b rest = confirmed_by (read_envelope raw) held b
  after_wait (threw exc) held b rest = (threw exc, (held, b))
  after_wait waits held b rest = (waits, (held, b))

  -- The loop of `_do_cancel`, in slices of five seconds.
  unfoldable pub confirm_loop : Option ℕ → List Slice → State → Call Bool × State
  confirm_loop deadline [] s = (waits, s)
  confirm_loop deadline (slice ∷ slices) (held, b) =
      let wait_for = bounded 5000 deadline slice.checked in
      let (raw, b') = get_result (some (slice.started + wait_for)) slice.ticks b in
      let rest = confirm_loop deadline slices (held, b') in
      if reached deadline slice.checked
      then seed slice.checked false (held, b)
      else after_wait (caught raw) held b' rest

  abbrev after_signal : Answer (Unit {0}) → Option ℕ → ℕ → List Slice → State → Call Bool × State
  after_signal (broke exc) resolved start slices s = (threw exc, s)
  after_signal (answer _) none start slices s = confirm_loop none slices s
  after_signal (answer _) (some zero) start slices s = seed start true s
  after_signal (answer _) (some (suc n)) start slices s =
      confirm_loop (some (start + suc n)) slices s

  -- `_do_cancel`
  unfoldable pub do_cancel : Option ℕ → (start : ℕ) → List Slice → State → Call Bool × State
  do_cancel resolved start slices (held, b) =
      let (sent, b') = cancel_task net start task_id b in
      after_signal sent resolved start slices (held, b')
