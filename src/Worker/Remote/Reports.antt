-- ===== src/Worker/Remote/Reports.antt =====
-- `_make_progress_callback` of offwork/worker/remote.py: progress is kept, and sent at most every
-- 50 milliseconds; at the end the latest is sent once more.
use offwork.Base.{ℕ, ◌+◌, String, Bool, true, false, Option, none, some, leb, if◌then◌else◌}
use offwork.Worker.Broker.{Broker}
use offwork.Worker.Backend.{Net, send_progress}

pub record Progress : Type 0 where
  pub latest : Option String
  pub last_sent : ℕ
  pub flushed : Bool

-- The monotonic clock starts at 0.
abbrev pub no_progress : Progress
no_progress = record { latest = none; last_sent = 0; flushed = false }

abbrev pub min_interval : ℕ
min_interval = 50

module _ (net : Net) (now : ℕ) (task_id : String) where
  -- `_send` logs an exception and goes on.
  unfoldable pub send_quietly : String → Broker → Broker
  send_quietly progress_json b = (send_progress net now task_id progress_json b).1

  abbrev keep_progress : String → Progress → Broker → Progress × Broker
  keep_progress progress_json p b =
      if leb (p.last_sent + min_interval) now
      then (record p { latest = some progress_json; last_sent = now }, send_quietly progress_json b)
      else (record p { latest = some progress_json }, b)

  -- A report that comes after the flush is dropped.
  unfoldable pub on_progress : String → Progress → Broker → Progress × Broker
  on_progress progress_json p b = if p.flushed then (p, b) else keep_progress progress_json p b

  abbrev flush_latest : Option String → Broker → Broker
  flush_latest none b = b
  flush_latest (some progress_json) b = send_quietly progress_json b

  unfoldable pub flush : Progress → Broker → Progress × Broker
  unfolding send_quietly
  flush p b = (record p { flushed = true }, flush_latest p.latest b)
