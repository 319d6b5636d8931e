-- ===== src/Worker/Handle/Schedule.antt =====
-- `ScheduleHandle` of offwork/worker/schedule.py.
use offwork.Base.{
  ℕ, zero, suc, ◌+◌, String, Bool, true, false, Option, none, some, List, [], ◌∷◌, string_eq,
}
use offwork.Worker.Broker.{Broker, serve}
use offwork.Worker.Result.{TimeoutIn, resolve_timeout}
use offwork.Worker.Backend.{Answer, answer, broke, Net, cancel_schedule, is_schedule_cancelled}
use offwork.Worker.Handle.{Call, returned, threw, waits, Tick, reached}

-- `ScheduleHandle.cancel`; its loop asks, and looks at the clock after a negative answer.
module _ (net : Net) (schedule_id : String) where
  abbrev pub after_ask : Answer Bool → Bool → Broker → Call Bool × Broker → Call Bool × Broker
  after_ask (broke exc) late b rest = (threw exc, b)
  after_ask (answer true) late b rest = (returned true, b)
  after_ask (answer false) true b rest = (returned false, b)
  after_ask (answer false) false b rest = rest

  unfoldable pub schedule_loop : Option ℕ → List Tick → Broker → Call Bool × Broker
  schedule_loop deadline [] b = (waits, b)
  schedule_loop deadline (tick ∷ ticks) b =
      let (over, b') = is_schedule_cancelled net tick.asked schedule_id (serve tick.meanwhile b) in
      after_ask over (reached deadline tick.looked) b' (schedule_loop deadline ticks b')

  abbrev pub after_cancel :
      Answer (Unit {0}) → Option ℕ → ℕ → List Tick → Broker → Call Bool × Broker
  after_cancel (broke exc) resolved start ticks b = (threw exc, b)
  after_cancel (answer _) none start ticks b = schedule_loop none ticks b
  after_cancel (answer _) (some zero) start ticks b = (returned true, b)
  after_cancel (answer _) (some (suc n)) start ticks b =
      schedule_loop (some (start + suc n)) ticks b

  -- The deadline starts when the request has been answered.
  unfoldable pub cancel_by : TimeoutIn → (asked start : ℕ) → List Tick → Broker → Call Bool × Broker
  cancel_by timeout asked start ticks b =
      let (sent, b') = cancel_schedule net asked schedule_id b in
      after_cancel sent (resolve_timeout timeout) start ticks b'
