-- ===== src/Worker/Remote/Recurrence.antt =====
-- The schedule of a recurring task in `_execute_task` of offwork/worker/remote.py.
use offwork.Base.{
  ℕ, zero, suc, ◌+◌, ◌*◌, ◌≤◌, String, ◌≡◌, refl, ap, Bool, true, false, some, List, [], ◌∷◌, ◌++◌,
  arith, string_eq, contains, if◌then◌else◌, inl, inr, Bool-cases,
}
use offwork.Core.Task.{Task}
use offwork.Worker.Broker.{Request, Broker, add, dispatch, schedule_check}
use offwork.Worker.Backend
use offwork.Worker.Backend.{Answer, answer, broke, Link, fine, Net, Io, call, ask}
use offwork.Worker.Remote.{
  Site, Life, past, next_task, exhausted_at, encode_task, submit_unless, reschedule_if, reschedule,
  re_enqueue,
}

-- The connection loses nothing.
abbrev pub IsHealthy : Net → Type 0
IsHealthy net = (r : Request) (now : ℕ) → net r now ≡ fine

pub ask-healthy :
    (net : Net) (now : ℕ) (r : Request) (b : Broker)
    → IsHealthy net
    → ask net now r b ≡ (answer (dispatch r now b).0, (dispatch r now b).1)
unfolding ask
ask-healthy net now r b up = rw (up r now) (unfold call in refl)

-- The occurrences of a schedule, given the runs of its tasks one after the other.
unfoldable pub occurrences : List Life → ℕ → Task → ℕ
occurrences [] interval task = 0
occurrences (life ∷ lives) interval task =
    let next_at = life.ended + interval in
    let more = occurrences lives interval (next_task task life.fresh_id next_at) in
    if exhausted_at task next_at then 1 else suc more

-- Every run starts at its task's time or later, and ends after it starts.
abbrev pub Punctual : List Life → ℕ → ℕ → Type 0
Punctual [] interval at = Unit
Punctual (life ∷ lives) interval at =
    (at ≤ life.started)
    × (life.started ≤ life.ended)
    × Punctual lives interval (life.ended + interval)

in_time :
    (task : Task) (next_at deadline : ℕ)
    → task.recur_deadline ≡ some deadline
    → exhausted_at task next_at ≡ false
    → next_at ≤ deadline
unfolding exhausted_at
in_time task next_at deadline h more = ground (arith, ap (λ d. past d next_at) h)

one_interval : (n interval at : ℕ) → at + suc n * interval ≡ at + interval + n * interval
one_interval n interval at = grind arith

-- A schedule with a deadline ends: if each run starts at its time or later and ends after it
-- starts, then the occurrences after the first one, an interval apart at least, all fall due by the
-- deadline.
pub deadline_is_kept :
    (lives : List Life) (interval deadline at n : ℕ) (task : Task)
    → task.recur_deadline ≡ some deadline
    → Punctual lives interval at
    → occurrences lives interval task ≡ suc (suc n)
    → at + suc n * interval ≤ deadline
unfolding occurrences
deadline_is_kept [] interval deadline at n task h p e = absurd (omega (arith, e))
deadline_is_kept (life ∷ lives) interval deadline at n task h (late, long, p) e =
    let next_at = life.ended + interval in
    elim (Bool-cases (exhausted_at task next_at)) [
      | inl over ↦ absurd (let one = rw over at e in omega (arith, one))
      | inr more ↦
          let rest : occurrences lives interval (next_task task life.fresh_id next_at) ≡ suc n =
            (let both = rw more at e in omega (arith, both)) in
          let due = in_time task next_at deadline h more in
          later n rest due (λ m.
            deadline_is_kept lives interval deadline next_at m
              (next_task task life.fresh_id next_at) h p)
    ]
  where
    later :
        (n : ℕ)
        → occurrences lives interval (next_task task life.fresh_id (life.ended + interval)) ≡ suc n
        → life.ended + interval ≤ deadline
        → ((m : ℕ)
            → occurrences lives interval (next_task task life.fresh_id (life.ended + interval))
              ≡ suc (suc m)
            → life.ended + interval + suc m * interval ≤ deadline)
        → at + suc n * interval ≤ deadline
    later zero e due ih = omega (arith, one_interval 0 interval at)
    later (suc m) e due ih = omega (arith, one_interval (suc m) interval at, ih m e)

submit_unless-healthy :
    (site : Site) (over : Bool) (now : ℕ) (task_json : String) (b : Broker)
    → IsHealthy site.net
    → (submit_unless site over now (answer task_json) b).1
      ≡ (if over then b else record b { tasks = b.tasks ++ task_json ∷ [] })
unfolding submit_unless Backend.submit dispatch
submit_unless-healthy site true now task_json b up = refl
submit_unless-healthy site false now task_json b up =
    rw (ask-healthy site.net now (Request.submit task_json) b up) refl

-- Over a connection that loses nothing, and if the next task can be encoded: what follows a run of
-- a recurring task changes the broker only so that the schedule is marked as cancelled if it is
-- exhausted, nothing if it was cancelled before, and otherwise the next occurrence is in the queue.
pub next_occurrence :
    (site : Site) (life : Life) (task : Task) (interval : ℕ) (schedule_id task_json : String)
    (b : Broker)
    → IsHealthy site.net
    → encode_task site (next_task task life.fresh_id (life.ended + interval)) life.ended life.nonce
      ≡ answer task_json
    → (re_enqueue site life task (some interval) (some schedule_id) b).1 ≡ (
        if exhausted_at task (life.ended + interval)
        then record b { cancelled_schedules = add schedule_id b.cancelled_schedules }
        else if contains b.cancelled_schedules schedule_id
        then b
        else record b { tasks = b.tasks ++ task_json ∷ [] })
unfolding re_enqueue reschedule reschedule_if Backend.cancel_schedule Backend.is_schedule_cancelled
    dispatch
next_occurrence site life task interval schedule_id task_json b up encoded =
    go (exhausted_at task (life.ended + interval))
  where
    go :
        (over : Bool)
        → (reschedule_if site over life task (life.ended + interval) schedule_id b).1 ≡ (
            if over
            then record b { cancelled_schedules = add schedule_id b.cancelled_schedules }
            else if contains b.cancelled_schedules schedule_id
            then b
            else record b { tasks = b.tasks ++ task_json ∷ [] })
    go true = rw (ask-healthy site.net life.ended (Request.schedule_cancel schedule_id) b up) refl
    go false =
        rw (ask-healthy site.net life.ended (schedule_check schedule_id) b up, encoded)
          (submit_unless-healthy site (contains b.cancelled_schedules schedule_id) life.ended
            task_json b up)
