-- ===== src/Worker/Remote/Cancellation.antt =====
-- Cancellation, throttling and streams in `_execute_task` of offwork/worker/remote.py, on a connection
-- that loses nothing.
use offwork.Base.{
  ℕ, suc, ◌+◌, String, ◌≡◌, ◌∙◌, refl, sym, ap, Bool, true, false, none, some, List, [], ◌∷◌, arith,
  leb, ==_refl, string_eq, contains, inl, inr, Bool-cases, length, length-append,
}
use offwork.Base.Dict.{lookup, insert, lookup-insert}
use offwork.Core.Task.{Task}
use offwork.Worker.Broker.{
  hb_put, progress_put, yield_put, is_cancelled, throttle_check, result_put, Broker, buffer,
  store_at, cooling, dispatch,
}
use offwork.Worker.Broker.Mailbox.{waiting}
use offwork.Worker.Stream.Order.{store_at-end}
use offwork.Worker.Result.{throttled, to_json}
use offwork.Worker.Backend
use offwork.Worker.Backend.{Answer, answer, broke, Link, fine, Net, Io, call, ask}
use offwork.Worker.Remote.{
  Site, Life, Moment, beat, emits, reports, Ending, Ran, after_beat, running, execute_task,
  if_cancelled, if_allowed, throttle_allows, send_envelope,
}
use offwork.Worker.Remote.Reports.{Progress, on_progress, send_quietly}
use offwork.Worker.Remote.Recurrence.{IsHealthy, ask-healthy}

module _ (net : Net) (up : IsHealthy net) where
  heartbeat-healthy :
      (now : ℕ) (task_id : String) (b : Broker)
      → Backend.heartbeat_and_check_cancel net now task_id b ≡ (
        answer (contains b.cancelled task_id),
        record b { heartbeats = insert task_id now b.heartbeats },
      )
  unfolding Backend.heartbeat_and_check_cancel Backend.send_heartbeat Backend.is_cancelled dispatch
  heartbeat-healthy now task_id b =
      rw
        (
          ask-healthy net now (hb_put task_id now) b up,
          ask-healthy net now (is_cancelled task_id)
              (record b { heartbeats = insert task_id now b.heartbeats }) up,
        )
        refl

  yield-healthy :
      (now seq : ℕ) (task_id v : String) (b : Broker)
      → Backend.send_yield net now task_id seq v b ≡ (
        answer tt,
        record b {
          buffers = insert task_id (store_at seq v (buffer (lookup task_id b.buffers))) b.buffers;
        },
      )
  unfolding Backend.send_yield dispatch
  yield-healthy now seq task_id v b = rw (ask-healthy net now (yield_put task_id seq v) b up) refl

  -- What a progress report leaves alone.
  progress-keeps :
      (now : ℕ) (task_id j : String) (p : Progress) (b : Broker)
      → ((on_progress net now task_id j p b).1.cancelled ≡ b.cancelled)
        × ((on_progress net now task_id j p b).1.buffers ≡ b.buffers)
  unfolding on_progress send_quietly Backend.send_progress dispatch
  progress-keeps now task_id j p b =
      let sent = ask-healthy net now (progress_put task_id j) b up in
      elim (Bool-cases p.flushed) [
        | inl over ↦ simp over (refl, refl)
        | inr open_still ↦ elim (Bool-cases (leb (p.last_sent + 50) now)) [
          | inl due ↦ simp (open_still, due, sent) (refl, refl)
          | inr early ↦ simp (open_still, early) (refl, refl)
        ]
      ]

module _ (site : Site) (up : IsHealthy site.net) (task_id : String) where
  abbrev CountIsHeld : Ran → Type 0
  CountIsHeld ran = ran.0.1 ≡ length (buffer (lookup task_id ran.1.buffers))

  either_way :
      (stop : Bool) (now : Ran) (rest : Ran)
      → CountIsHeld now
      → CountIsHeld rest
      → CountIsHeld (after_beat (answer stop) now rest)
  either_way true now rest h k = h
  either_way false now rest h k = k

  count_one :
      (seq : ℕ) (v : String) (b : Broker)
      → seq ≡ length (buffer (lookup task_id b.buffers))
      → suc seq
        ≡ length (
            buffer (
              lookup task_id
                (insert task_id (store_at seq v (buffer (lookup task_id b.buffers))) b.buffers)))
  count_one seq v b h =
      let buf = buffer (lookup task_id b.buffers) in
      simp (lookup-insert, ==_refl, h, store_at-end buf v)
        (omega (arith, length-append buf (v ∷ [])))

  -- What the worker counts is what the broker holds of the stream.
  counts :
      (moments : List Moment) (ending : Ending) (seq : ℕ) (p : Progress) (b : Broker)
      → seq ≡ length (buffer (lookup task_id b.buffers))
      → CountIsHeld (running site task_id moments ending seq p b)
  unfolding running
  counts [] ending seq p b h = h
  counts (beat now ∷ rest) ending seq p b h =
      rw (heartbeat-healthy site.net up now task_id b, running)
        (either_way (contains b.cancelled task_id)
          ((Ending.stopped, seq, p), record b { heartbeats = insert task_id now b.heartbeats })
          (running site task_id rest ending seq p
            (record b { heartbeats = insert task_id now b.heartbeats }))
          h
          (counts rest ending seq p (record b { heartbeats = insert task_id now b.heartbeats }) h))
  counts (emits v now ∷ rest) ending seq p b h =
      rw (yield-healthy site.net up now seq task_id v b, running)
        (counts rest ending (suc seq) p
          (record b {
            buffers = insert task_id (store_at seq v (buffer (lookup task_id b.buffers))) b.buffers;
          })
          (count_one seq v b h))
  counts (reports j now ∷ rest) ending seq p b h =
      let told = on_progress site.net now task_id j p b in
      counts rest ending seq told.0 told.1 (
        h
        ∙ ap (λ d. length (buffer (lookup task_id d)))
            (sym (progress-keeps site.net up now task_id j p b).1))

-- Over a connection that loses nothing, if the broker holds no values of the task when its function
-- starts, then the count that the task's last message gives is the number of places that the broker holds
-- of its stream, whatever else the function does and however it ends.
pub stream_count :
    (site : Site) (task_id : String) (moments : List Moment) (ending : Ending) (p : Progress)
    (b : Broker)
    → IsHealthy site.net
    → lookup task_id b.buffers ≡ none
    → let ran = running site task_id moments ending 0 p b in
      ran.0.1 ≡ length (buffer (lookup task_id ran.1.buffers))
stream_count site task_id moments ending p b up fresh =
    counts site up task_id moments ending 0 p b (rw fresh refl)

-- A task that is cancelled before it starts never runs, and nothing is sent for it: whatever its function
-- would do, `_execute_task` returns with the broker as it was, so that a client which waits for the
-- cancellation to be confirmed is never answered.
pub cancelled_never_runs :
    (site : Site) (life : Life) (task : Task) (b : Broker)
    → IsHealthy site.net
    → contains b.cancelled task.task_id ≡ true
    → (execute_task site life task b ≡ (answer tt, b))
      × (lookup task.task_id (execute_task site life task b).1.results
          ≡ lookup task.task_id b.results)
unfolding execute_task
cancelled_never_runs site life task b up h =
    let e : Backend.is_cancelled site.net life.started task.task_id b ≡ (answer true, b) =
      unfold Backend.is_cancelled dispatch in
      rw (ask-healthy site.net life.started (is_cancelled task.task_id) b up, h) refl in
    let done : execute_task site life task b ≡ (answer tt, b) =
      unfold execute_task if_cancelled in rw e refl in
    (done, ap (λ r. lookup task.task_id r.1.results) done)

-- A task of a function that cools down, which was not cancelled and has no result yet, does not
-- run: over a connection that loses nothing it is answered as throttled, and whatever its schedule,
-- the queue of tasks stays as it was, so no next occurrence is in it, and no schedule is marked as
-- cancelled.
pub throttled_ends_schedule :
    (site : Site) (life : Life) (task : Task) (seconds : ℕ) (b : Broker)
    → IsHealthy site.net
    → contains b.cancelled task.task_id ≡ false
    → task.throttle ≡ some seconds
    → cooling life.started (lookup task.function_name b.throttles) ≡ true
    → waiting b task.task_id ≡ none
    → let b' = (execute_task site life task b).1 in
      (b'.tasks ≡ b.tasks)
      × (b'.cancelled_schedules ≡ b.cancelled_schedules)
      × (waiting b' task.task_id ≡ some (site.text.dumps (to_json (throttled task.task_id))))
throttled_ends_schedule site life task seconds b up live limit hot fresh =
    let e : Backend.is_cancelled site.net life.started task.task_id b ≡ (answer false, b) =
      unfold Backend.is_cancelled dispatch in
      rw (ask-healthy site.net life.started (is_cancelled task.task_id) b up, live) refl in
    let c : throttle_allows site life task task.throttle b ≡ (answer false, b) =
      unfold throttle_allows Backend.check_throttle dispatch in
      rw
        (
          limit,
          throttle_allows,
          ask-healthy site.net life.started (throttle_check task.function_name) b up,
          hot,
        )
        refl in
    let reply = site.text.dumps (to_json (throttled task.task_id)) in
    let s : send_envelope site life.started (throttled task.task_id) b
        ≡ (answer tt, (dispatch (result_put task.task_id reply) life.started b).1) =
      unfold send_envelope Backend.send_result in
      rw (ask-healthy site.net life.started (result_put task.task_id reply) b up) refl in
    let all : execute_task site life task b
        ≡ (answer tt, (dispatch (result_put task.task_id reply) life.started b).1) =
      unfold execute_task if_cancelled if_allowed in rw (e, c) s in
    unfold dispatch in rw all (refl, refl, simp (lookup-insert, ==_refl, fresh) refl)
