-- ===== src/Worker/Handle/Cancelled.antt =====
-- `ScheduleHandle.cancel` of offwork/worker/schedule.py and the worker that would queue the next
-- occurrence.
use offwork.Base.{
  ℕ, zero, suc, ◌+◌, String, ◌≡◌, refl, inl, inr, true, Option, none, some, List, [], ◌∷◌,
  string_eq, Bool-cases,
}
use offwork.Core.Task.{Task}
use offwork.Worker.Broker.{schedule_cancel, schedule_check, Broker, add, dispatch, serve}
use offwork.Worker.Broker.Mailbox.{contains-add_self}
use offwork.Worker.Result.{TimeoutIn, resolve_timeout}
use offwork.Worker.Backend.{answer, Net, cancel_schedule, is_schedule_cancelled}
use offwork.Worker.Remote.{Site, Life, next_task, exhausted_at, encode_task, re_enqueue}
use offwork.Worker.Remote.Recurrence.{IsHealthy, ask-healthy, next_occurrence}
use offwork.Worker.Handle.{returned, Tick}
use offwork.Worker.Handle.Schedule.{after_cancel, schedule_loop, cancel_by}

-- The broker after the request.
abbrev marked : String → Broker → Broker
marked schedule_id b = record b { cancelled_schedules = add schedule_id b.cancelled_schedules }

confirmed :
    (net : Net) (schedule_id : String) (deadline : Option ℕ) (tick : Tick) (ticks : List Tick)
    (b : Broker)
    → IsHealthy net
    → tick.meanwhile ≡ []
    → schedule_loop net schedule_id deadline (tick ∷ ticks) (marked schedule_id b)
      ≡ (returned true, marked schedule_id b)
unfolding schedule_loop is_schedule_cancelled serve dispatch
confirmed net schedule_id deadline tick ticks b up quiet =
    rw
      (
        quiet,
        serve,
        ask-healthy net tick.asked (schedule_check schedule_id) (marked schedule_id b) up,
        contains-add_self schedule_id b.cancelled_schedules,
      )
      refl

confirmed_for :
    (net : Net) (schedule_id : String) (resolved : Option ℕ) (start : ℕ) (tick : Tick)
    (ticks : List Tick) (b : Broker)
    → IsHealthy net
    → tick.meanwhile ≡ []
    → after_cancel net schedule_id (answer tt) resolved start (tick ∷ ticks) (marked schedule_id b)
      ≡ (returned true, marked schedule_id b)
confirmed_for net schedule_id none start tick ticks b up quiet =
    confirmed net schedule_id none tick ticks b up quiet
confirmed_for net schedule_id (some zero) start tick ticks b up quiet = refl
confirmed_for net schedule_id (some (suc n)) start tick ticks b up quiet =
    confirmed net schedule_id (some (start + suc n)) tick ticks b up quiet

-- Cancelling a schedule works: over connections that lose nothing, whatever the timeout, and if no
-- one else asks anything of the broker first, the call returns true after one look at most, and
-- when the run of a task of the schedule ends after that, whose next task can be encoded, the
-- worker queues no next occurrence.
pub cancelled_schedule_ends :
    (net : Net) (site : Site) (life : Life) (task : Task) (interval : ℕ)
    (schedule_id task_json : String) (timeout : TimeoutIn) (asked start : ℕ) (tick : Tick)
    (ticks : List Tick) (b : Broker)
    → IsHealthy net
    → IsHealthy site.net
    → tick.meanwhile ≡ []
    → encode_task site (next_task task life.fresh_id (life.ended + interval)) life.ended life.nonce
      ≡ answer task_json
    → let after = cancel_by net schedule_id timeout asked start (tick ∷ ticks) b in
      (after.0 ≡ returned true)
      × ((re_enqueue site life task (some interval) (some schedule_id) after.1).1.tasks ≡ b.tasks)
unfolding cancel_by cancel_schedule dispatch
cancelled_schedule_ends net site life task interval schedule_id task_json timeout asked start tick
      ticks b up site_up quiet encoded =
    let ended =
      next_occurrence site life task interval schedule_id task_json (marked schedule_id b) site_up
        encoded in
    rw
      (
        ask-healthy net asked (schedule_cancel schedule_id) b up,
        confirmed_for net schedule_id (resolve_timeout timeout) start tick ticks b up quiet,
      )
      (
        refl,
        rw (ended, contains-add_self schedule_id b.cancelled_schedules)
            (elim (Bool-cases (exhausted_at task (life.ended + interval))) [
              | inl e ↦ rw e refl
              | inr e ↦ rw e refl
            ]),
      )
