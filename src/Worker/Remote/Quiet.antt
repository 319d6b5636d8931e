-- ===== src/Worker/Remote/Quiet.antt =====
-- What `_execute_task` of offwork/worker/remote.py does to the result of the task that waits.
use offwork.Base.{
  ℕ, suc, ◌+◌, String, ◌≡◌, ◌≢◌, ◌∙◌, refl, ap, Bool, true, false, Option, none, some, List, [],
  ◌∷◌, arith, ==_refl, string_eq, inl, inr, Option-cases,
}
use offwork.Base.Dict.{lookup, lookup-insert}
use offwork.Core.Task.{Task}
use offwork.Worker.Broker.{
  Request, submit, result_put, result_try, hb_put, hb_get, hb_batch, cancel, is_cancelled,
  progress_put, progress_get, yield_put, yield_get, schedule_cancel, schedule_check, throttle_check,
  throttle_record, other_op, Reply, Broker, slot, put_nowait, dispatch,
}
use offwork.Worker.Broker.Mailbox.{waiting}
use offwork.Worker.Broker.Frame.{lookup-insert_other}
use offwork.Worker.Result.{Raised}
use offwork.Worker.Backend
use offwork.Worker.Backend.{
  Answer, answer, broke, Link, fine, lost_request, lost_reply, Net, Io, call, ask, ◌>>=◌, ◌>>◌,
  pure, fails, settle, attempt, Answer-cases,
}
use offwork.Worker.Remote.{
  Site, Moment, beat, emits, reports, Ending, Life, Ran, after_beat, after_yield, running,
  cool_down, reschedule, re_enqueue, encode_task, submit_unless, reschedule_if, exhausted_at,
  next_task,
}
use offwork.Worker.Remote.Reports.{Progress, on_progress, flush, send_quietly}

-- The request leaves the result of the task alone.
abbrev pub Leaves : String → Request → Type 0
Leaves task_id (result_put other _) = task_id ≢ other
Leaves task_id (result_try other) = task_id ≢ other
Leaves task_id _ = Unit

pub dispatch-waiting :
    (r : Request) (now : ℕ) (b : Broker) (task_id : String)
    → Leaves task_id r
    → waiting (dispatch r now b).1 task_id ≡ waiting b task_id
unfolding dispatch
dispatch-waiting (result_put other v) now b task_id h =
    ap slot
      (lookup-insert_other task_id other (put_nowait (slot (lookup other b.results)) v) b.results h)
dispatch-waiting (result_try other) now b task_id h =
    ap slot (lookup-insert_other task_id other none b.results h)
dispatch-waiting (throttle_check name) now b task_id h = ground arith
dispatch-waiting (submit _) now b task_id h = refl
dispatch-waiting (hb_put _ _) now b task_id h = refl
dispatch-waiting (hb_get _) now b task_id h = refl
dispatch-waiting (hb_batch _) now b task_id h = refl
dispatch-waiting (cancel _) now b task_id h = refl
dispatch-waiting (is_cancelled _) now b task_id h = refl
dispatch-waiting (progress_put _ _) now b task_id h = refl
dispatch-waiting (progress_get _) now b task_id h = refl
dispatch-waiting (yield_put _ _ _) now b task_id h = refl
dispatch-waiting (yield_get _ _) now b task_id h = refl
dispatch-waiting (schedule_cancel _) now b task_id h = refl
dispatch-waiting (schedule_check _) now b task_id h = refl
dispatch-waiting (throttle_record _ _) now b task_id h = refl
dispatch-waiting (other_op _) now b task_id h = refl

-- `m` never touches the result of the task; `m` leaves the text as its result.
abbrev pub Quiet : {A : Type 0} → String → Io A → Type 0
Quiet task_id m = (b : Broker) → waiting (m b).1 task_id ≡ waiting b task_id

abbrev pub Posts : {A : Type 0} → String → String → Io A → Type 0
Posts task_id text m = (b : Broker) → waiting b task_id ≡ none → waiting (m b).1 task_id ≡ some text

pub call-Quiet :
    (link : Link) (r : Request) (now : ℕ) (task_id : String)
    → Leaves task_id r
    → Quiet task_id (call link r now)
unfolding call
call-Quiet fine r now task_id h b = dispatch-waiting r now b task_id h
call-Quiet (lost_request exc) r now task_id h b = refl
call-Quiet (lost_reply exc) r now task_id h b = dispatch-waiting r now b task_id h

pub ask-Quiet :
    (net : Net) (now : ℕ) (r : Request) (task_id : String)
    → Leaves task_id r
    → Quiet task_id (ask net now r)
unfolding ask
ask-Quiet net now r task_id h = call-Quiet (net r now) r now task_id h

pub settle-Quiet :
    {A B : Type 0} (task_id : String) (a : Answer A) (f : A → Io B)
    → ((x : A) → Quiet task_id (f x))
    → Quiet task_id (settle a f fails)
settle-Quiet task_id (answer x) f h b = h x b
settle-Quiet task_id (broke exc) f h b = refl

pub bind-Quiet :
    {A B : Type 0} (task_id : String) (m : Io A) (f : A → Io B)
    → Quiet task_id m
    → ((a : A) → Quiet task_id (f a))
    → Quiet task_id (m >>= f)
bind-Quiet task_id m f hm hf b = settle-Quiet task_id (m b).0 f hf (m b).1 ∙ hm b

pub bind-Posts :
    {A B : Type 0} (task_id text : String) (m : Io A) (f : A → Io B)
    → Posts task_id text m
    → ((a : A) → Quiet task_id (f a))
    → Posts task_id text (m >>= f)
bind-Posts task_id text m f hm hf b free = settle-Quiet task_id (m b).0 f hf (m b).1 ∙ hm b free

module _ (net : Net) (now : ℕ) (task_id : String) where
  pub method-Quiet :
      {A : Type 0} (r : Request) (f : Reply → A)
      → Leaves task_id r
      → Quiet task_id (ask net now r >>= λ resp. pure (f resp))
  method-Quiet r f h =
      bind-Quiet task_id (ask net now r) (λ resp. pure (f resp)) (ask-Quiet net now r task_id h)
        (λ resp b. refl)

  pub heartbeat-Quiet :
      (other : String) → Quiet task_id (Backend.heartbeat_and_check_cancel net now other)
  unfolding Backend.heartbeat_and_check_cancel
  heartbeat-Quiet other =
      bind-Quiet task_id (Backend.send_heartbeat net now other)
        (λ _. Backend.is_cancelled net now other)
        (unfold Backend.send_heartbeat in method-Quiet (hb_put other now) (λ _. tt) tt)
        (λ _.
          unfold Backend.is_cancelled in
          method-Quiet (is_cancelled other) (Backend.verdict_or false) tt)

  pub send_quietly-Quiet :
      (j : String) (b : Broker)
      → waiting (send_quietly net now task_id j b) task_id ≡ waiting b task_id
  unfolding send_quietly Backend.send_progress
  send_quietly-Quiet j = method-Quiet (progress_put task_id j) (λ _. tt) tt

  pub on_progress-Quiet :
      (j : String) (p : Progress) (b : Broker)
      → waiting (on_progress net now task_id j p b).1 task_id ≡ waiting b task_id
  unfolding on_progress
  on_progress-Quiet j p b = ground (arith, send_quietly-Quiet j b)

  pub flush-Quiet :
      (p : Progress) (b : Broker)
      → waiting (flush net now task_id p b).1 task_id ≡ waiting b task_id
  unfolding flush
  flush-Quiet p b = elim (Option-cases p.latest) [
    | inl e ↦ rw e refl
    | inr (j, e) ↦ rw e (send_quietly-Quiet j b)
  ]

  pub send_result-Posts :
      (text : String)
      → net (result_put task_id text) now ≡ fine
      → Posts task_id text (Backend.send_result net now task_id text)
  unfolding Backend.send_result ask
  send_result-Posts text up b free =
      rw up (unfold call dispatch in simp (lookup-insert, ==_refl, free) refl)

-- The connection takes every result of the task.
abbrev pub Delivers : Net → String → Type 0
Delivers net task_id = (text : String) (now : ℕ) → net (result_put task_id text) now ≡ fine

module _ (site : Site) (task_id : String) where
  open site use {net, text}

  pub after_beat-keeps :
      (a : Answer Bool) (stop rest : Ran) (o : Option String)
      → waiting stop.1 task_id ≡ o
      → waiting rest.1 task_id ≡ o
      → waiting (after_beat a stop rest).1 task_id ≡ o
  after_beat-keeps (answer true) stop rest o h k = h
  after_beat-keeps (answer false) stop rest o h k = k
  after_beat-keeps (broke exc) stop rest o h k = k

  pub after_yield-keeps :
      (a : Answer (Unit {0})) (crash : Raised → Ran) (rest : Ran) (o : Option String)
      → ((exc : Raised) → waiting (crash exc).1 task_id ≡ o)
      → waiting rest.1 task_id ≡ o
      → waiting (after_yield a crash rest).1 task_id ≡ o
  after_yield-keeps (answer _) crash rest o h k = k
  after_yield-keeps (broke exc) crash rest o h k = h exc

  pub running-Quiet :
      (moments : List Moment) (ending : Ending) (seq : ℕ) (p : Progress) (b : Broker)
      → waiting (running site task_id moments ending seq p b).1 task_id ≡ waiting b task_id
  unfolding running
  running-Quiet [] ending seq p b = refl
  running-Quiet (beat now ∷ rest) ending seq p b =
      let asked = Backend.heartbeat_and_check_cancel net now task_id b in
      let kept = heartbeat-Quiet net now task_id task_id b in
      after_beat-keeps asked.0 ((Ending.stopped, seq, p), asked.1)
        (running site task_id rest ending seq p asked.1) (waiting b task_id) kept
        (running-Quiet rest ending seq p asked.1 ∙ kept)
  running-Quiet (emits v now ∷ rest) ending seq p b =
      let sent = Backend.send_yield net now task_id seq v b in
      let kept : waiting sent.1 task_id ≡ waiting b task_id =
        unfold Backend.send_yield in
        method-Quiet net now task_id (yield_put task_id seq v) (λ _. tt) tt b in
      after_yield-keeps sent.0 (λ exc. ((Ending.crashed exc, seq, p), sent.1))
        (running site task_id rest ending (suc seq) p sent.1) (waiting b task_id) (λ exc. kept)
        (running-Quiet rest ending (suc seq) p sent.1 ∙ kept)
  running-Quiet (reports j now ∷ rest) ending seq p b =
      let told = on_progress net now task_id j p b in
      running-Quiet rest ending seq told.0 told.1 ∙ on_progress-Quiet net now task_id j p b

  pub cool_down-Quiet :
      (now : ℕ) (task : Task) (ok : Bool) (throttle : Option ℕ)
      → Quiet task_id (cool_down site now task ok throttle)
  unfolding cool_down Backend.record_throttle
  cool_down-Quiet now task true (some seconds) b =
      method-Quiet net now task_id (throttle_record task.function_name seconds) (λ _. tt) tt b
  cool_down-Quiet now task true none b = refl
  cool_down-Quiet now task false throttle b = refl

  pub submit_unless-Quiet :
      (over : Bool) (now : ℕ) (a : Answer String) → Quiet task_id (submit_unless site over now a)
  unfolding submit_unless Backend.submit
  submit_unless-Quiet true now a b = refl
  submit_unless-Quiet false now (answer task_json) b =
      method-Quiet net now task_id (submit task_json) (λ _. tt) tt b
  submit_unless-Quiet false now (broke exc) b = refl

  pub reschedule_if-Quiet :
      (over : Bool) (life : Life) (task : Task) (next_at : ℕ) (schedule_id : String)
      → Quiet task_id (reschedule_if site over life task next_at schedule_id)
  unfolding reschedule_if Backend.cancel_schedule
  reschedule_if-Quiet true life task next_at schedule_id =
      method-Quiet net life.ended task_id (schedule_cancel schedule_id) (λ _. tt) tt
  reschedule_if-Quiet false life task next_at schedule_id =
      bind-Quiet task_id (Backend.is_schedule_cancelled net life.ended schedule_id)
        (λ over.
          submit_unless site over life.ended
            (encode_task site (next_task task life.fresh_id next_at) life.ended life.nonce))
        (unfold Backend.is_schedule_cancelled in
          method-Quiet net life.ended task_id (schedule_check schedule_id)
            (Backend.verdict_or false) tt)
        (λ over.
          submit_unless-Quiet over life.ended
            (encode_task site (next_task task life.fresh_id next_at) life.ended life.nonce))

  pub re_enqueue-Quiet :
      (life : Life) (task : Task) (interval : Option ℕ) (schedule_id : Option String)
      → Quiet task_id (re_enqueue site life task interval schedule_id)
  unfolding re_enqueue reschedule
  re_enqueue-Quiet life task (some interval) (some schedule_id) b =
      reschedule_if-Quiet (exhausted_at task (life.ended + interval)) life task
        (life.ended + interval) schedule_id b
  re_enqueue-Quiet life task (some interval) none b = refl
  re_enqueue-Quiet life task none schedule_id b = refl
