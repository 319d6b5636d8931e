-- ===== src/Worker/Loop.antt =====
-- `_worker_loop` of offwork/worker/remote.py: the listener, the semaphore that `_handle_task` takes for
-- the execution, and the two signals. What the event loop does next is an event.
pub mod Slots
pub mod Shutdown
use offwork.Base.{
  ℕ, zero, suc, ◌+◌, String, Bool, true, false, not, ◌&&◌, Option, none, some, List, [], ◌∷◌, ◌++◌,
  ◌=ℕ◌, if◌then◌else◌,
}

-- Of a call of `_handle_task`: before it has its slot, which waits for the scheduled time; in the
-- queue of the semaphore; and in `_execute_task`.
pub data Stage : Type 0 where
  waiting : Stage
  queued : Stage
  executing : Stage

pub record Job : Type 0 where
  pub number : ℕ
  pub task_json : String
  pub stage : Stage

-- What `_worker_loop` awaits: the shutdown, its pending tasks, or nothing any more.
pub data Phase : Type 0 where
  serving : Phase
  draining : Phase
  stopped : Phase

-- `free` is the value of the semaphore, `next` numbers the tasks.
pub record Loop : Type 0 where
  pub shutdown : Bool
  pub got_first_signal : Bool
  pub listening : Bool
  pub pending : List Job
  pub free : ℕ
  pub phase : Phase
  pub next : ℕ

pub data Event : Type 0 where
  arrives : (task_json : String) → Event
  connection_ends : Event
  is_due : (number : ℕ) → Event
  ends : (number : ℕ) → Event
  signal : Event
  wakes : Event

unfoldable pub new_loop : ℕ → Loop
new_loop concurrency = record {
  shutdown = false;
  got_first_signal = false;
  listening = true;
  pending = [];
  free = concurrency;
  phase = serving;
  next = 0;
}

-- `async with slot`: the job starts if the semaphore is free, and waits in line if not.
abbrev pub enter : ℕ → Job → List Job → List Job × ℕ
enter zero j jobs = (record j { stage = queued } ∷ jobs, zero)
enter (suc free) j jobs = (record j { stage = executing } ∷ jobs, free)

abbrev pub is_waiting : Stage → Bool
is_waiting waiting = true
is_waiting _ = false

unfoldable pub acquire : ℕ → ℕ → List Job → List Job × ℕ
acquire number free [] = ([], free)
acquire number free (j ∷ jobs) =
    let (rest, left) = acquire number free jobs in
    if j.number =ℕ number && is_waiting j.stage then enter free j jobs else (j ∷ rest, left)

-- A released slot goes to the first job in line.
abbrev pub onto : Job → Option (List Job) → Option (List Job)
onto j none = none
onto j (some jobs) = some (j ∷ jobs)

abbrev pub hand_over_at : Stage → Job → List Job → Option (List Job) → Option (List Job)
hand_over_at queued j jobs rest = some (record j { stage = executing } ∷ jobs)
hand_over_at waiting j jobs rest = onto j rest
hand_over_at executing j jobs rest = onto j rest

unfoldable pub hand_over : List Job → Option (List Job)
hand_over [] = none
hand_over (j ∷ jobs) = hand_over_at j.stage j jobs (hand_over jobs)

-- What a job leaves behind when it ends: itself, nothing, or a slot. A job in line does not end.
pub data Left : Type 0 where
  absent : Left
  gone : List Job → Left
  slot_free : List Job → Left

abbrev pub under : Job → Left → Left
under j absent = absent
under j (gone jobs) = gone (j ∷ jobs)
under j (slot_free jobs) = slot_free (j ∷ jobs)

abbrev pub leaves_as : Stage → Job → List Job → Left → Left
leaves_as waiting j jobs rest = gone jobs
leaves_as executing j jobs rest = slot_free jobs
leaves_as queued j jobs rest = under j rest

unfoldable pub leave : ℕ → List Job → Left
leave number [] = absent
leave number (j ∷ jobs) =
    let rest = leave number jobs in
    if j.number =ℕ number then leaves_as j.stage j jobs rest else under j rest

-- `release`
abbrev pub release : List Job → Option (List Job) → ℕ → List Job × ℕ
release jobs none free = (jobs, suc free)
release jobs (some handed) free = (handed, free)

abbrev pub after_leave : Left → Loop → Loop
after_leave absent l = l
after_leave (gone jobs) l = record l { pending = jobs }
after_leave (slot_free jobs) l =
    let (handed, free) = release jobs (hand_over jobs) l.free in
    record l { pending = handed; free = free }

-- A cancelled call that executes catches the exception, and goes on to send its result.
abbrev pub stays_for : Stage → Job → List Job → List Job
stays_for executing j jobs = j ∷ jobs
stays_for waiting j jobs = jobs
stays_for queued j jobs = jobs

unfoldable pub cancel_all : List Job → List Job
cancel_all [] = []
cancel_all (j ∷ jobs) = stays_for j.stage j (cancel_all jobs)

-- `_listen`: a task that comes after the shutdown ends the listener, and is dropped.
abbrev pub receive : Bool → Bool → String → Loop → Loop
receive false shutdown task_json l = l
receive true true task_json l = record l { listening = false }
receive true false task_json l = record l {
  pending = l.pending ++ record { number = l.next; task_json = task_json; stage = waiting } ∷ [];
  next = suc l.next;
}

-- `_on_shutdown_signal`
abbrev pub on_signal : Bool → Loop → Loop
on_signal false l = record l { got_first_signal = true; shutdown = true }
on_signal true l = record l { pending = cancel_all l.pending }

-- The body after `shutdown.wait()`, up to the end of the gathering.
abbrev pub wake : Phase → Bool → List Job → Loop → Loop
wake serving true jobs l = record l { listening = false; phase = draining }
wake serving false jobs l = l
wake draining shutdown [] l = record l { phase = stopped }
wake draining shutdown (j ∷ jobs) l = l
wake stopped shutdown jobs l = l

unfoldable pub step : Event → Loop → Loop
step (arrives task_json) l = receive l.listening l.shutdown task_json l
step connection_ends l = record l { listening = false }
step (is_due number) l =
    let (jobs, free) = acquire number l.free l.pending in record l { pending = jobs; free = free }
step (ends number) l = after_leave (leave number l.pending) l
step signal l = on_signal l.got_first_signal l
step wakes l = wake l.phase l.shutdown l.pending l

unfoldable pub run : List Event → Loop → Loop
run [] l = l
run (e ∷ es) l = run es (step e l)
