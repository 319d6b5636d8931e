-- ===== src/Worker/Remote/Answers.antt =====
-- The result that `_execute_task` of offwork/worker/remote.py leaves for the client.
use offwork.Base.{ℕ, String, ◌≡◌, refl, Bool, true, false, Option, none, some, string_eq}
use offwork.Core.Task.{Task}
use offwork.Worker.Broker.{is_cancelled, Broker}
use offwork.Worker.Result.{ResultEnvelope, Raised, throttled, failure, to_json}
use offwork.Worker.Backend
use offwork.Worker.Backend.{
  Answer, answer, broke, Link, fine, lost_request, lost_reply, Net, Io, call, ask, ◌>>=◌, pure,
  fails, attempt, Answer-cases,
}
use offwork.Worker.Remote.{Site, Ending, Life, running, envelope_of, throttle_allows}
use offwork.Worker.Remote.Reports.{no_progress}
use offwork.Worker.Remote.Quiet.{Quiet}

-- The envelope that the client finds: none if the task was cancelled before it started.
module _ (site : Site) (life : Life) (task : Task) where
  open site use {net, text}

  abbrev refused : Raised → Option ResultEnvelope
  refused exc = some (failure task.task_id exc)

  abbrev pub report_run : Answer Bool → Broker → Option ResultEnvelope
  report_run (broke exc) b = refused exc
  report_run (answer _) b =
      let done = (running site task.task_id life.during life.ending 0 no_progress b).0 in
      some (envelope_of site task.task_id done.0 done.1)

  abbrev pub report_allowed : Answer Bool → Broker → Option ResultEnvelope
  report_allowed (broke exc) b = refused exc
  report_allowed (answer false) b = some (throttled task.task_id)
  report_allowed (answer true) b = report_run life.streaming b

  abbrev pub report_from : Answer Bool → Broker → Option ResultEnvelope
  report_from (broke exc) b = refused exc
  report_from (answer true) b = none
  report_from (answer false) b =
      let (allowed, b') = throttle_allows site life task task.throttle b in
      report_allowed allowed b'

  abbrev pub report : Broker → Option ResultEnvelope
  report b =
      let (over, b') = Backend.is_cancelled net life.started task.task_id b in report_from over b'

  abbrev pub text_of_report : Option ResultEnvelope → Option String
  text_of_report none = none
  text_of_report (some e) = some (text.dumps (to_json e))

  envelope_of-task_id :
      (d : Ending) (n : ℕ) → (envelope_of site task.task_id d n).task_id ≡ task.task_id
  envelope_of-task_id (Ending.value (answer v)) n = refl
  envelope_of-task_id (Ending.value (broke exc)) n = refl
  envelope_of-task_id Ending.exhausted n = refl
  envelope_of-task_id (Ending.crashed exc) n = refl
  envelope_of-task_id Ending.stopped n = refl
